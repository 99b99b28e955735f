-- ===== src/Repository/Checkout/Concurrent/Serial.antt =====
-- Checkouts at once, and writes between them, are sales and writes one after the other.
use belajar_backend_go_v.Base.{
  ◌≡◌, ◌≢◌, refl, sym, ap, ◌∙◌, inl, inr, Option, none, some, List, [], ◌∷◌, ℕ, ℤ, arith, ◌==◌,
  if◌then◌else◌,
}
use belajar_backend_go_v.Repository.Contract.{Tables}
use belajar_backend_go_v.Repository.Checkout.Atomic.{Sold}
use belajar_backend_go_v.Repository.Checkout.Conservation.{Order}
use belajar_backend_go_v.Repository.Checkout.Concurrent.{
  Write, Turn, call, write, take_turn, SharedDatabase, ready, advance, Running, run,
}
use belajar_backend_go_v.Repository.Checkout.Concurrent.Contract.{apply_write, IsShared}
use belajar_backend_go_v.Repository.Checkout.Concurrent.Steps.{
  write-Consistent, outcome, Consistent, set_phase-cases,
}
use belajar_backend_go_v.Repository.Checkout.Concurrent.Advance.{advance_lem}

-- A change of the committed tables: a request's sale with its total, or a write.
pub data Done : Type 0 where
  sale : ℕ → ℤ → Done
  wrote : Write → Done

-- The total of a request in a list of changes.
abbrev pub total_of : ℕ → List Done → Option ℤ
total_of n [] = none
total_of n (wrote x ∷ done) = total_of n done
total_of n (sale m total ∷ done) = if n == m then some total else total_of n done

total_of-head :
    (n : ℕ) (total : ℤ) (done : List Done) → total_of n (sale n total ∷ done) ≡ some total
total_of-head n total done = ground arith

total_of-tail :
    (m n : ℕ) (total : ℤ) (done : List Done)
    → m ≢ n
    → total_of m (sale n total ∷ done) ≡ total_of m done
total_of-tail m n total done other = ground arith

-- The changes of a list one after the other, the last one first; each sale is of a request of its
-- own.
abbrev pub Changed : (ℕ → Order) → List Done → Tables → Tables → Type 0
Changed orders [] before after = after ≡ before
Changed orders (wrote x ∷ done) before after =
    (middle : Tables) × Changed orders done before middle × (after ≡ apply_write x middle)
Changed orders (sale n total ∷ done) before after =
    (total_of n done ≡ none)
    × (middle : Tables) × Changed orders done before middle
    × Sold (orders n).user_id (orders n).request total middle after

module _ (D : SharedDatabase) (L : IsShared D) (orders : ℕ → Order) where
  -- The committed tables are what the changes that are done leave.
  record IsSerial (before : Tables) (done : List Done) (s : Running D) : Type 0 where
    consistent : Consistent D L orders s.db s.phases
    totals : (n : ℕ) → total_of n done ≡ outcome (s.phases n)
    chain : Changed orders done before (L.tables s.db)

  call-IsSerial :
      (before : Tables) (done : List Done) (s : Running D) (n : ℕ)
      → IsSerial before done s
      → (done' : List Done) × IsSerial before done' (take_turn D orders (call n) s)
  unfolding take_turn
  call-IsSerial before done s n v =
      let (phase, d) = advance D n (orders n) (s.phases n) s.db in
      let (consistent, moved) =
        advance_lem D L orders n s.db s.phases v.consistent (s.phases n) refl in
      elim moved [
        | inl (same, quiet) ↦ (
          done,
          record {
            consistent = consistent;
            totals = λ m. elim (set_phase-cases n phase s.phases m) [
              | inl (here, at_n) ↦
                  v.totals m
                  ∙ ap (λ k. outcome (s.phases k)) at_n
                  ∙ sym quiet
                  ∙ ap outcome (sym here)
              | inr (there, _) ↦ v.totals m ∙ ap outcome (sym there)
            ];
            chain = rw same v.chain;
          },
        )
        | inr (total, open_yet, sold_now, sold_by) ↦ (
          sale n total ∷ done,
          record {
            consistent = consistent;
            totals = λ m. elim (set_phase-cases n phase s.phases m) [
              | inl (here, at_n) ↦
                  ap (λ k. total_of k (sale n total ∷ done)) at_n
                  ∙ total_of-head n total done
                  ∙ sym sold_now
                  ∙ ap outcome (sym here)
              | inr (there, other) ↦
                  total_of-tail m n total done other ∙ v.totals m ∙ ap outcome (sym there)
            ];
            chain = (v.totals n ∙ open_yet, L.tables s.db, v.chain, sold_by);
          },
        )
      ]

  write-IsSerial :
      (before : Tables) (done : List Done) (s : Running D) (x : Write)
      → IsSerial before done s
      → (done' : List Done) × IsSerial before done' (take_turn D orders (write x) s)
  unfolding take_turn
  write-IsSerial before done s x v =
      let consistent = write-Consistent D L orders x s.db s.phases v.consistent in
      elim (L.write-tables x s.db) [
        | inl (_, changed, _) ↦ (
          wrote x ∷ done,
          record {
            consistent = consistent;
            totals = v.totals;
            chain = (L.tables s.db, v.chain, changed);
          },
        )
        | inr (_, same) ↦
            (done, record { consistent = consistent; totals = v.totals; chain = rw same v.chain })
      ]

  runs-IsSerial :
      (schedule : List Turn) (before : Tables) (done : List Done) (s : Running D)
      → IsSerial before done s
      → (done' : List Done) × IsSerial before done' (run D orders schedule s)
  unfolding run
  runs-IsSerial [] before done s v = (done, v)
  runs-IsSerial (call n ∷ schedule) before done s v =
      let (done', v') = call-IsSerial before done s n v in runs-IsSerial schedule before done' _ v'
  runs-IsSerial (write x ∷ schedule) before done s v =
      let (done', v') = write-IsSerial before done s x v in runs-IsSerial schedule before done' _ v'

  pub started-Consistent :
      (d : D.Db) → ((n : ℕ) → L.pending n d ≡ []) → Consistent D L orders d (λ n. ready)
  started-Consistent d nothing = record {
    fine = nothing;
    apart = λ m n id distinct hm hn. rw (nothing n) at hn;
  }

  pub run-Serial :
      (schedule : List Turn) (d : D.Db)
      → ((n : ℕ) → L.pending n d ≡ [])
      → let s' : Running D = run D orders schedule (record { db = d; phases = λ n. ready }) in
        (done : List Done) × Changed orders done (L.tables d) (L.tables s'.db)
        × ((n : ℕ) → total_of n done ≡ outcome (s'.phases n))
  run-Serial schedule d nothing =
      let (done, v) =
        runs-IsSerial schedule (L.tables d) [] _ (record {
          consistent = started-Consistent d nothing;
          totals = λ n. refl;
          chain = refl;
        }) in
      (done, v.chain, v.totals)
