-- ===== src/Repository/Memory/Shared.antt =====
-- A database in memory with open transactions that lock the rows they change.
pub mod Laws
use package.text.Mathlib.Text.{◌==◌ as str_eq}
use mathlib.Core.Option
use belajar_backend_go_v.Base.{
  ◌≡◌, ◌≢◌, refl, ◌∙◌, ◌⊎◌, inl, inr, Bool, true, false, not, ◌&&◌, ◌||◌, Option, none, some, List,
  [], ◌∷◌, ◌++◌, ℕ, suc, ℤ, pos, ◌-ℤ◌, ◌≤ℤ◌, leb_ℤ, eqb_ℤ, eqb_ℤ_iff, ◌==◌, if◌then◌else◌, length,
  arith, String, Bool-cases, Option-cases,
}
use belajar_backend_go_v.Models.{Product, Transaction}
use belajar_backend_go_v.Services.{
  GoError, failure, no_rows, Result, ok, err, Value, int, txt, Rows, first_of_result,
}
use belajar_backend_go_v.Repository.Contract.{Tables}
use belajar_backend_go_v.Repository.Checkout.{reserve_stock, insert_transaction}
use belajar_backend_go_v.Repository.Checkout.Concurrent.{
  SharedDatabase, Write, replace, remove, statement,
}
use belajar_backend_go_v.Repository.Checkout.Concurrent.Contract.{
  target, apply_write, Change, take, add, apply, Holds, IsShared,
}

abbrev pub Open : Type 0
Open = List (ℕ × List Change)

pub record SharedTables : Type 0 where
  pub tables : Tables
  pub open_changes : Open

abbrev pub changes_of : ℕ → Open → List Change
changes_of n [] = []
changes_of n ((m, changes) ∷ others) = if n == m then changes else changes_of n others

abbrev pub drop_changes : ℕ → Open → Open
drop_changes n [] = []
drop_changes n ((m, changes) ∷ others) =
    let rest = drop_changes n others in if n == m then rest else (m, changes) ∷ rest

abbrev pub set_changes : ℕ → List Change → SharedTables → SharedTables
set_changes n changes d = record d { open_changes = (n, changes) ∷ drop_changes n d.open_changes }

abbrev pub holds : ℤ → List Change → Bool
holds id [] = false
holds id (take j quantity ∷ changes) = eqb_ℤ j id || holds id changes
holds id (add row ∷ changes) = holds id changes

-- Another transaction has changed the row.
abbrev pub locked : ℕ → ℤ → Open → Bool
locked n id [] = false
locked n id ((m, changes) ∷ others) = (not (m == n) && holds id changes) || locked n id others

abbrev pub refused : GoError
refused = failure "refused"

abbrev no_row : Result Rows
no_row = ok (record { rows = []; failed = none })

-- Where the row is locked, the wait for it is given up.
unfoldable pub shared_reserve : ℕ → ℤ → ℤ → SharedTables → Result Rows × SharedTables
shared_reserve n quantity id d =
    if locked n id d.open_changes then (err refused, d) else elim (d.tables.product id) [
      | none ↦ (no_row, d)
      | some p ↦
          if leb_ℤ quantity p.stock
          then (
            ok (record { rows = (int p.price ∷ []) ∷ []; failed = none }),
            set_changes n (changes_of n d.open_changes ++ take id quantity ∷ []) d,
          )
          else (no_row, d)
    ]

unfoldable pub shared_query : ℕ → String → List Value → SharedTables → Result Rows × SharedTables
unfolding shared_reserve
shared_query n q (int quantity ∷ int id ∷ []) d = shared_reserve n quantity id d
shared_query n q args d = (err refused, d)

unfoldable pub shared_exec : ℕ → String → List Value → SharedTables → Option GoError × SharedTables
shared_exec n q (int user_id ∷ int id ∷ int quantity ∷ int total ∷ []) d = (
  none,
  set_changes n
      (changes_of n d.open_changes
        ++ add (record {
          id = pos (suc (length d.tables.transactions));
          user_id = user_id;
          product_id = id;
          quantity = quantity;
          total_price = total;
          created_at = pos 0;
        })
          ∷ [])
      d,
)
shared_exec n q args d = (some refused, d)

-- A transaction has changed the row.
abbrev pub is_locked : ℤ → Open → Bool
is_locked id [] = false
is_locked id ((m, changes) ∷ others) = holds id changes || is_locked id others

unfoldable pub shared_write : Write → SharedTables → Option GoError × SharedTables
shared_write x d =
    if is_locked (target x) d.open_changes
    then (some refused, d)
    else (none, record d { tables = apply_write x d.tables })

unfoldable pub shared_commit_write :
    String → List Value → SharedTables → Option GoError × SharedTables
unfolding shared_write
shared_commit_write q (txt name ∷ int price ∷ int stock ∷ int id ∷ []) d =
    shared_write (replace (record { id = id; name = name; price = price; stock = stock })) d
shared_commit_write q (int id ∷ []) d = shared_write (remove id) d
shared_commit_write q args d = (some refused, d)

abbrev pub shared : SharedDatabase
shared = record {
  Db = SharedTables;
  begin_tx = λ n d. (none, d);
  tx_query = shared_query;
  exec = shared_commit_write;
  tx_exec = shared_exec;
  commit = λ n d. (
    none,
    record {
      tables = apply (changes_of n d.open_changes) d.tables;
      open_changes = drop_changes n d.open_changes;
    },
  );
  rollback = λ n d. record d { open_changes = drop_changes n d.open_changes };
  scan_error = λ row. "sql: Scan error";
}
