-- ===== src/Repository/Memory/Shared/Laws.antt =====
-- The locking database in memory does what `Checkout` relies on.
use belajar_backend_go_v.Base.{
  none, ◌≡◌, ◌≢◌, refl, ◌⊎◌, inl, inr, true, some, List, [], ◌∷◌, ℕ, suc, ℤ, pos, ◌≤ℤ◌, leb_ℤ,
  eqb_ℤ_iff, length, arith, Bool-cases, Option-cases,
}
use belajar_backend_go_v.Models.{Product}
use belajar_backend_go_v.Services.{ok, int, first_of_result}
use belajar_backend_go_v.Repository.Checkout.Concurrent.Contract.{
  target, apply_write, Change, take, add, Holds, IsShared,
}
use belajar_backend_go_v.Repository.Checkout.Concurrent.{Write, replace, remove, statement}
use belajar_backend_go_v.Repository.Memory.Shared.{
  is_locked, shared_write, shared_commit_write, Open, SharedTables, changes_of, drop_changes,
  set_changes, holds, locked, shared_reserve, shared_query, shared_exec, shared,
}

pub changes_of-drop_self : (n : ℕ) (o : Open) → changes_of n (drop_changes n o) ≡ []
changes_of-drop_self n [] = refl
changes_of-drop_self n ((m, changes) ∷ others) = ground (arith, changes_of-drop_self n others)

pub changes_of-drop_ne :
    (n m : ℕ) (o : Open) → m ≢ n → changes_of m (drop_changes n o) ≡ changes_of m o
changes_of-drop_ne n m [] other = refl
changes_of-drop_ne n m ((k, changes) ∷ others) other =
    ground (arith, changes_of-drop_ne n m others other)

pub changes_of-set_self :
    (n : ℕ) (changes : List Change) (d : SharedTables)
    → changes_of n (set_changes n changes d).open_changes ≡ changes
changes_of-set_self n changes d = ground arith

pub changes_of-set_ne :
    (n m : ℕ) (changes : List Change) (d : SharedTables)
    → m ≢ n
    → changes_of m (set_changes n changes d).open_changes ≡ changes_of m d.open_changes
changes_of-set_ne n m changes d other = ground (arith, changes_of-drop_ne n m d.open_changes other)

holds-Holds : (id : ℤ) (changes : List Change) → Holds id changes → holds id changes ≡ true
holds-Holds id [] none_held = absurd none_held
holds-Holds id (take j quantity ∷ changes) (inl same) = rw ((eqb_ℤ_iff j id).1 same) refl
holds-Holds id (take j quantity ∷ changes) (inr later) =
    ground (arith, holds-Holds id changes later)
holds-Holds id (add row ∷ changes) later = holds-Holds id changes later

changes_of-cases :
    (m k : ℕ) (changes : List Change) (others : Open)
    → ((changes_of m ((k, changes) ∷ others) ≡ changes) × (m ≡ k))
      ⊎ (changes_of m ((k, changes) ∷ others) ≡ changes_of m others)
changes_of-cases m k changes others = ground arith

locked-Holds :
    (n m : ℕ) (id : ℤ) (o : Open) → m ≢ n → Holds id (changes_of m o) → locked n id o ≡ true
locked-Holds n m id [] other held = absurd held
locked-Holds n m id ((k, changes) ∷ others) other held =
    elim (changes_of-cases m k changes others) [
      | inl (here, same) ↦ ground (arith, holds-Holds id changes (rw here at held), same, other)
      | inr later ↦ ground (arith, locked-Holds n m id others other (rw later at held))
    ]

pub shared_reserve_ok :
    (n : ℕ) (quantity id price : ℤ) (d : SharedTables)
    → changes_of n d.open_changes ≡ []
    → let (r, d') = shared_reserve n quantity id d in
      first_of_result r ≡ ok (int price ∷ [])
      → (p : Product) × (d.tables.product id ≡ some p)
        × (quantity ≤ℤ p.stock)
        × (price ≡ p.price)
        × (changes_of n d'.open_changes ≡ take id quantity ∷ [])
        × ((m : ℕ) → m ≢ n → ¬ (Holds id (changes_of m d.open_changes)))
unfolding shared_reserve first_of_result
shared_reserve_ok n quantity id price d nothing fine =
    elim (Bool-cases (locked n id d.open_changes)) [
      | inl waits ↦ absurd (ground (arith, waits, fine))
      | inr free ↦ elim (Option-cases (d.tables.product id)) [
        | inl gone ↦ absurd (ground (arith, free, gone, fine))
        | inr (p, found) ↦ elim (Bool-cases (leb_ℤ quantity p.stock)) [
          | inr short ↦ absurd (ground (arith, free, found, short, fine))
          | inl enough ↦ (
            p,
            found,
            ground (arith, enough),
            ground (arith, free, found, enough, fine),
            rw (free, shared_reserve)
                (rw found (rw enough (rw nothing (changes_of-set_self n _ d)))),
            λ m other held. cc (free, locked-Holds n m id d.open_changes other held),
          )
        ]
      ]
    ]

pub shared_reserve-tables :
    (n : ℕ) (quantity id : ℤ) (d : SharedTables)
    → (shared_reserve n quantity id d).1.tables ≡ d.tables
unfolding shared_reserve
shared_reserve-tables n quantity id d = ground arith

pub shared_reserve-others :
    (n m : ℕ) (quantity id : ℤ) (d : SharedTables)
    → m ≢ n
    → changes_of m (shared_reserve n quantity id d).1.open_changes ≡ changes_of m d.open_changes
unfolding shared_reserve
shared_reserve-others n m quantity id d other =
    ground (arith, changes_of-drop_ne n m d.open_changes other)

is_locked-Holds : (m : ℕ) (id : ℤ) (o : Open) → Holds id (changes_of m o) → is_locked id o ≡ true
is_locked-Holds m id [] held = absurd held
is_locked-Holds m id ((k, changes) ∷ others) held = elim (changes_of-cases m k changes others) [
  | inl (here, _) ↦ ground (arith, holds-Holds id changes (rw here at held))
  | inr later ↦ ground (arith, is_locked-Holds m id others (rw later at held))
]

shared_write_lem :
    (x : Write) (d : SharedTables)
    → let (failed, d') = shared_write x d in
      ((failed ≡ none)
        × (d'.tables ≡ apply_write x d.tables)
        × ((m : ℕ) → ¬ (Holds (target x) (changes_of m d.open_changes))))
      ⊎ ((failed ≢ none) × (d'.tables ≡ d.tables))
unfolding shared_write
shared_write_lem x d = elim (Bool-cases (is_locked (target x) d.open_changes)) [
  | inl waits ↦ inr (rw (waits, shared_write) (λ e. absurd (cc e)), rw (waits, shared_write) refl)
  | inr free ↦ inl (
    rw (free, shared_write) refl,
    rw (free, shared_write) refl,
    λ m held. cc (free, is_locked-Holds m (target x) d.open_changes held),
  )
]

pub shared-write-tables :
    (x : Write) (d : SharedTables)
    → let (failed, d') = shared.exec (statement x).0 (statement x).1 d in
      ((failed ≡ none)
        × (d'.tables ≡ apply_write x d.tables)
        × ((m : ℕ) → ¬ (Holds (target x) (changes_of m d.open_changes))))
      ⊎ ((failed ≢ none) × (d'.tables ≡ d.tables))
unfolding shared_commit_write
shared-write-tables (replace p) d = shared_write_lem (replace p) d
shared-write-tables (remove id) d = shared_write_lem (remove id) d

pub shared-write-pending :
    (x : Write) (m : ℕ) (d : SharedTables)
    → changes_of m (shared.exec (statement x).0 (statement x).1 d).1.open_changes
      ≡ changes_of m d.open_changes
unfolding shared_commit_write shared_write
shared-write-pending (replace p) m d = ground arith
shared-write-pending (remove id) m d = ground arith

unfoldable pub shared-IsShared : IsShared shared
unfolding shared_query shared_exec
shared-IsShared = record {
  tables = λ d. d.tables;
  pending = λ n d. changes_of n d.open_changes;
  begin-tables = λ n d. refl;
  begin-pending = λ n m d. refl;
  reserve-tables = λ n quantity id d. shared_reserve-tables n quantity id d;
  reserve-others = λ n m quantity id d other. shared_reserve-others n m quantity id d other;
  reserve-ok =
      λ n quantity id price d nothing fine. shared_reserve_ok n quantity id price d nothing fine;
  record-tables = λ n user_id id quantity total d. refl;
  record-others = λ n m user_id id quantity total d other. changes_of-set_ne n m _ d other;
  record-ok = λ n user_id id quantity total d fine.
      (pos (suc (length d.tables.transactions)), pos 0, changes_of-set_self n _ d);
  commit-others = λ n m d other. changes_of-drop_ne n m d.open_changes other;
  commit-ends = λ n d. changes_of-drop_self n d.open_changes;
  commit-tables = λ n d. inl (refl, refl);
  write-tables = λ x d. shared-write-tables x d;
  write-pending = λ x m d. shared-write-pending x m d;
  rollback-tables = λ n d. refl;
  rollback-others = λ n m d other. changes_of-drop_ne n m d.open_changes other;
  rollback-ends = λ n d. changes_of-drop_self n d.open_changes;
}
