-- ===== src/Repository/Checkout/Concurrent/Advance.antt =====
-- One step of one checkout among others: it ends in a sale, or changes nothing that is committed.
use belajar_backend_go_v.Base.{
  ◌≡◌, ◌≢◌, refl, sym, ap, ◌∙◌, ◌⊎◌, inl, inr, none, some, List, [], ◌∷◌, ℕ, ℤ, ◌*ℤ◌, wrap64, arith,
  Option-cases,
}
use belajar_backend_go_v.Services.{
  Result, ok, err, Result-cases, Value, int, txt, sql_null, first_of_result, ◌>>=◌,
}
use belajar_backend_go_v.Repository.Contract.{Tables}
use belajar_backend_go_v.Repository.Checkout.{reserve_stock, insert_transaction, reserve_error}
use belajar_backend_go_v.Repository.Checkout.Atomic.{Sold}
use belajar_backend_go_v.Repository.Checkout.Conservation.{Order}
use belajar_backend_go_v.Repository.Checkout.Concurrent.{
  SharedDatabase, Phase, ready, begun, reserved, recorded, sold, failed, set_phase, scan_price,
  advance,
}
use belajar_backend_go_v.Repository.Checkout.Concurrent.Contract.{Holds, IsShared}
use belajar_backend_go_v.Repository.Checkout.Concurrent.Steps.{
  Fine, outcome, Consistent, step-Consistent, recorded-Sold, Sold-other,
}

-- Nothing that is committed changes, or a sale is.
abbrev pub Moved : Order → Phase → Phase → Tables → Tables → Type 0
Moved o phase phase' t t' =
    ((t' ≡ t) × (outcome phase' ≡ outcome phase))
    ⊎ ((total : ℤ) × (outcome phase ≡ none)
        × (outcome phase' ≡ some total)
        × Sold o.user_id o.request total t t')

module _ (D : SharedDatabase) where
  scan_price_ok :
      (row : List Value) (price : ℤ) → scan_price D row ≡ ok price → row ≡ int price ∷ []
  unfolding scan_price
  scan_price_ok [] price e = absurd (cc e)
  scan_price_ok (int n ∷ []) price e = ground (arith, e)
  scan_price_ok (int n ∷ _ ∷ _) price e = absurd (cc e)
  scan_price_ok (txt _ ∷ _) price e = absurd (cc e)
  scan_price_ok (sql_null ∷ _) price e = absurd (cc e)

  price_row :
      (r : Result (List Value)) (price : ℤ)
      → (r >>= scan_price D) ≡ ok price
      → r ≡ ok (int price ∷ [])
  price_row (ok row) price e = ap ok (scan_price_ok row price e)
  price_row (err _) price e = absurd (cc e)

module _ (D : SharedDatabase) (L : IsShared D) (orders : ℕ → Order) (n : ℕ) (d : D.Db)
    (phases : ℕ → Phase) (c : Consistent D L orders d phases) where
  abbrev Good : Phase → D.Db → Type 0
  Good phase d' =
      Consistent D L orders d' (set_phase n phase phases)
      × Moved (orders n) (phases n) phase (L.tables d) (L.tables d')

  -- A step that commits nothing.
  quiet :
      (phase : Phase) (d' : D.Db)
      → L.tables d' ≡ L.tables d
      → ((m : ℕ) → m ≢ n → L.pending m d' ≡ L.pending m d)
      → Fine phase (orders n) (L.pending n d') (L.tables d)
      → ((m : ℕ) (id : ℤ) → m ≢ n → Holds id (L.pending m d) → Holds id (L.pending n d') → ⊥)
      → outcome phase ≡ outcome (phases n)
      → Good phase d'
  quiet phase d' tables others own free same = (
    step-Consistent D L orders n phase d d' phases c others
        (λ m id other holds. ap (λ t. t.product id) tables) (rw tables own) free,
    inl (tables, same),
  )

  advance_ready :
      phases n ≡ ready → let (phase, d') = advance D n (orders n) ready d in Good phase d'
  unfolding advance
  advance_ready here =
      let none_yet : L.pending n d ≡ [] = rw here at (c.fine n) in
      let empty : L.pending n (D.begin_tx n d).1 ≡ [] = L.begin-pending n n d ∙ none_yet in
      elim (Option-cases (D.begin_tx n d).0) [
        | inl fine ↦
            rw (fine, advance)
              (quiet begun (D.begin_tx n d).1 (L.begin-tables n d)
                (λ m other. L.begin-pending n m d) empty (λ m id other hm hn. rw empty at hn)
                (rw here refl))
        | inr (e, bad) ↦
            rw (bad, advance)
              (quiet (failed e) (D.begin_tx n d).1 (L.begin-tables n d)
                (λ m other. L.begin-pending n m d) empty (λ m id other hm hn. rw empty at hn)
                (rw here refl))
      ]

  -- A statement that fails, and the rollback.
  quiet_rollback :
      (e : _) (d' : D.Db)
      → L.tables d' ≡ L.tables d
      → ((m : ℕ) → m ≢ n → L.pending m d' ≡ L.pending m d)
      → outcome (phases n) ≡ none
      → Good (failed e) (D.rollback n d')
  quiet_rollback e d' tables others open_yet =
      quiet (failed e) (D.rollback n d') (L.rollback-tables n d' ∙ tables)
        (λ m other. L.rollback-others n m d' other ∙ others m other) (L.rollback-ends n d')
        (λ m id other hm hn. rw (L.rollback-ends n d') at hn) (sym open_yet)

  advance_begun :
      phases n ≡ begun → let (phase, d') = advance D n (orders n) begun d in Good phase d'
  unfolding advance
  advance_begun here =
      let o : Order = orders n in
      let id : ℤ = o.request.product_id in
      let quantity : ℤ = o.request.quantity in
      let d1 : D.Db = (D.tx_query n reserve_stock (int quantity ∷ int id ∷ []) d).1 in
      let tables = L.reserve-tables n quantity id d in
      let others = λ (m : ℕ) (other : m ≢ n). L.reserve-others n m quantity id d other in
      let none_yet : L.pending n d ≡ [] = rw here at (c.fine n) in
      elim (Result-cases (
        first_of_result (D.tx_query n reserve_stock (int quantity ∷ int id ∷ []) d).0
        >>= scan_price D)) [
          | inr (e, bad) ↦
              rw (bad, advance) (quiet_rollback (reserve_error e) d1 tables others (rw here refl))
          | inl (price, fine) ↦
              let (p, found, enough, at_price, holds, free) =
                L.reserve-ok n quantity id price d none_yet (price_row D _ price fine) in
              rw (fine, advance)
                (quiet (reserved price) d1 tables others
                  (holds, record { product = p; found = found; enough = enough; at = at_price })
                  (λ m j other hm hn. elim (rw holds at hn) [
                    | inl same ↦ free m other (rw same hm)
                    | inr nothing ↦ nothing
                  ])
                  (rw here refl))
        ]

  advance_reserved :
      (price : ℤ)
      → phases n ≡ reserved price
      → let (phase, d') = advance D n (orders n) (reserved price) d in Good phase d'
  unfolding advance
  advance_reserved price here =
      let o : Order = orders n in
      let id : ℤ = o.request.product_id in
      let quantity : ℤ = o.request.quantity in
      let total : ℤ = wrap64 (price *ℤ quantity) in
      let call =
        D.tx_exec n insert_transaction (int o.user_id ∷ int id ∷ int quantity ∷ int total ∷ []) d in
      let tables = L.record-tables n o.user_id id quantity total d in
      let others =
        λ (m : ℕ) (other : m ≢ n). L.record-others n m o.user_id id quantity total d other in
      let (shape, seen) : Fine (reserved price) o (L.pending n d) (L.tables d) =
        rw here at (c.fine n) in
      elim (Option-cases call.0) [
        | inr (e, bad) ↦ rw (bad, advance) (quiet_rollback e call.1 tables others (rw here refl))
        | inl fine ↦
            let (k, at_time, added) = L.record-ok n o.user_id id quantity total d fine in
            let holds = rw shape at added in
            rw (fine, advance)
              (quiet (recorded total) call.1 tables others (price, k, at_time, refl, holds, seen)
                (λ m j other hm hn. c.apart m n j other hm (rw shape (rw holds at hn)))
                (rw here refl))
      ]

  advance_recorded :
      (total : ℤ)
      → phases n ≡ recorded total
      → let (phase, d') = advance D n (orders n) (recorded total) d in Good phase d'
  unfolding advance
  advance_recorded total here =
      let o : Order = orders n in
      let d' : D.Db = (D.commit n d).1 in
      let others = λ (m : ℕ) (other : m ≢ n). L.commit-others n m d other in
      let own : Fine (recorded total) o (L.pending n d) (L.tables d) = rw here at (c.fine n) in
      let (_, _, _, _, shape, _) = own in
      let ended = L.commit-ends n d in
      elim (L.commit-tables n d) [
        | inl (fine, changed) ↦
            let sale : Sold o.user_id o.request total (L.tables d) (L.tables d') =
              rw changed (recorded-Sold o total (L.pending n d) (L.tables d) own) in
            rw (fine, advance)
              (
                step-Consistent D L orders n (sold total) d d' phases c others
                    (λ m id other holds.
                      Sold-other o total (L.tables d) (L.tables d') id sale
                        (λ same. c.apart m n id other holds (rw shape (inl (sym same)))))
                    ended (λ m id other hm hn. rw ended at hn),
                inr (total, rw here refl, refl, sale),
              )
        | inr (bad, tables) ↦ elim (Option-cases (D.commit n d).0) [
          | inl fine ↦ absurd (bad fine)
          | inr (e, failing) ↦
              rw (failing, advance)
                (quiet (failed e) d' tables others ended (λ m id other hm hn. rw ended at hn)
                  (rw here refl))
        ]
      ]

  -- A checkout that has ended makes no step.
  quiet_end : (phase : Phase) → phases n ≡ phase → L.pending n d ≡ [] → Good phase d
  quiet_end phase here ended = (
    step-Consistent D L orders n phase d d phases c (λ m other. refl) (λ m id other holds. refl)
        (rw here at (c.fine n)) (λ m id other hm hn. rw ended at hn),
    inl (refl, rw here refl),
  )

  pub advance_lem :
      (phase : Phase)
      → phases n ≡ phase
      → let (phase', d') = advance D n (orders n) phase d in Good phase' d'
  unfolding advance
  advance_lem ready here = advance_ready here
  advance_lem begun here = advance_begun here
  advance_lem (reserved price) here = advance_reserved price here
  advance_lem (recorded total) here = advance_recorded total here
  advance_lem (sold total) here = quiet_end (sold total) here (rw here at (c.fine n))
  advance_lem (failed e) here = quiet_end (failed e) here (rw here at (c.fine n))
