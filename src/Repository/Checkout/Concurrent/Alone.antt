-- ===== src/Repository/Checkout/Concurrent/Alone.antt =====
-- A checkout with nothing between its calls is `Checkout` as Repository/Checkout has it.
use belajar_backend_go_v.Base.{
  ◌≡◌, ◌∙◌, ap, refl, none, some, List, [], ◌∷◌, ℕ, zero, suc, ℤ, arith,
}
use belajar_backend_go_v.Services.{
  Result, ok, err, Value, int, txt, sql_null, Services, Database, first_of_result, tx_query_row,
  ◌>>=◌,
}
use belajar_backend_go_v.Repository.Product.{scan_int}
use belajar_backend_go_v.Repository.Checkout.{reserve_stock, record_sale, sell, in_transaction}
use belajar_backend_go_v.Repository.Checkout.Conservation.{Order}
use belajar_backend_go_v.Repository.Checkout.Concurrent.{
  Turn, call, take_turn, SharedDatabase, Phase, ready, sold, failed, set_phase, scan_price, advance,
  Running, run,
}

-- The database as one request sees it alone. `Checkout` makes no call outside its transaction.
abbrev pub alone : SharedDatabase → ℕ → Database
alone D n = record {
  Conn = D.Db;
  Tx = D.Db;
  query = D.tx_query n;
  exec = D.exec;
  begin_tx = λ d. let (e, d') = D.begin_tx n d in (elim e [ some e ↦ err e | none ↦ ok d' ], d');
  tx_query = D.tx_query n;
  tx_exec = D.tx_exec n;
  commit = λ tx d. D.commit n tx;
  rollback = λ tx d. D.rollback n tx;
  scan_error = D.scan_error;
}

abbrev pub ended : Result ℤ → Phase
ended (ok total) = sold total
ended (err e) = failed e

abbrev replicate : ℕ → ℕ → List Turn
replicate zero n = []
replicate (suc k) n = call n ∷ replicate k n

module _ (D : SharedDatabase) (S : Services) (n : ℕ) (o : Order) where
  abbrev pub by_itself : Services
  by_itself = record S { database = alone D n }

  -- The next calls up to a number of them.
  abbrev calls : ℕ → Phase × D.Db → Phase × D.Db
  calls zero (phase, d) = (phase, d)
  calls (suc k) (phase, d) = calls k (advance D n o phase d)

  scan_int-eq-price : (row : List Value) → scan_int by_itself row ≡ scan_price D row
  unfolding scan_int scan_price
  scan_int-eq-price [] = refl
  scan_int-eq-price (int n ∷ []) = refl
  scan_int-eq-price (int n ∷ _ ∷ _) = refl
  scan_int-eq-price (txt _ ∷ _) = refl
  scan_int-eq-price (sql_null ∷ _) = refl

  scanned : (r : Result (List Value)) → (r >>= scan_int by_itself) ≡ (r >>= scan_price D)
  scanned (ok row) = scan_int-eq-price row
  scanned (err e) = refl

  four_calls :
      (d : D.Db)
      → let (r, d') = in_transaction by_itself (sell by_itself o.user_id o.request) d in
        calls 4 (ready, d) ≡ (ended r, d')
  unfolding in_transaction sell record_sale advance tx_query_row
  four_calls d =
      let id : ℤ = o.request.product_id in
      let quantity : ℤ = o.request.quantity in
      let d1 : D.Db = (D.begin_tx n d).1 in
      let query = D.tx_query n reserve_stock (int quantity ∷ int id ∷ []) d1 in
      let body = first_of_result query.0 in ground (arith, scanned body)

set_phase_self : (n : ℕ) (phase : Phase) (phases : ℕ → Phase) → set_phase n phase phases n ≡ phase
set_phase_self n phase phases = ground arith

module _ (D : SharedDatabase) (S : Services) (orders : ℕ → Order) (n : ℕ) where
  run-calls :
      (k : ℕ) (s : Running D)
      → let s' : Running D = run D orders (replicate k n) s in
        (s'.phases n, s'.db) ≡ calls D S n (orders n) k (s.phases n, s.db)
  unfolding run take_turn
  run-calls zero s = refl
  run-calls (suc k) s =
      let (phase, d) = advance D n (orders n) (s.phases n) s.db in
      run-calls k (record { db = d; phases = set_phase n phase s.phases })
      ∙ ap (λ p. calls D S n (orders n) k (p, d)) (set_phase_self n phase s.phases)

  pub run_alone :
      (d : D.Db)
      → let o = orders n in
        let S' = by_itself D S n o in
        let (r, d') = in_transaction S' (sell S' o.user_id o.request) d in
        let s' : Running D =
          run D orders
            (call n ∷ call n ∷ call n ∷ call n ∷ [])
            (record { db = d; phases = λ m. ready }) in
        (s'.phases n ≡ ended r) × (s'.db ≡ d')
  run_alone d =
      let same =
        run-calls 4 (record { db = d; phases = λ m. ready }) ∙ four_calls D S n (orders n) d in
      (ap (λ p. p.0) same, ap (λ p. p.1) same)
