-- ===== src/Tests/Concurrent.antt =====
-- Checkouts at once, on tables that lock their rows.
use belajar_backend_go_v.Base.{◌≡◌, refl, some, List, [], ◌∷◌, ℕ, pos, arith}
use belajar_backend_go_v.Repository.Checkout.Conservation.{Order, Kept}
use belajar_backend_go_v.Repository.Checkout.Concurrent.{ready, sold, failed, Running, run}
use belajar_backend_go_v.Repository.Checkout.Concurrent.Steps.{outcome}
use belajar_backend_go_v.Repository.Checkout.Concurrent.Serial.{Done, Changed, total_of, run-Serial}
use belajar_backend_go_v.Repository.Checkout.Concurrent.Stock.{Untouched, run-Kept}
use belajar_backend_go_v.Repository.Checkout.Concurrent.{
  Turn, call, write, replace, remove, statement, take_turn,
}
use belajar_backend_go_v.Repository.Memory.Shared.{refused, shared_commit_write, shared_write}
use belajar_backend_go_v.Models.{Product}
use belajar_backend_go_v.Base.{◌≢◌}
use belajar_backend_go_v.Repository.Checkout.{sell, in_transaction}
use belajar_backend_go_v.Repository.Checkout.Concurrent.Ends.{IsEnded, run-IsEnded}
use belajar_backend_go_v.Repository.Checkout.Concurrent.Alone.{by_itself, ended, run_alone}
use belajar_backend_go_v.Repository.Memory.{memory}
use belajar_backend_go_v.Repository.Memory.Shared.{SharedTables, shared}
use belajar_backend_go_v.Repository.Memory.Shared.Laws.{shared-IsShared}
use belajar_backend_go_v.Services.{GoError, first_of_result}
use belajar_backend_go_v.Base.{wrap64, ◌*ℤ◌, ◌-ℤ◌}
use belajar_backend_go_v.Repository.Checkout.{out_of_stock, reserve_error}
use belajar_backend_go_v.Repository.Checkout.Concurrent.{advance, scan_price}
use belajar_backend_go_v.Repository.Memory.Shared.{shared_query, shared_exec, shared_reserve}
use belajar_backend_go_v.Tests.Fixtures.{pen, shop}
use belajar_backend_go_v.Tests.Checkout.{four_pens}

-- Each wants four of the ten pens.
abbrev wants : ℕ → Order
wants n = record { user_id = pos n; email = ""; request = four_pens }

abbrev open_shop : SharedTables
open_shop = record { tables = shop.db.tables; open_changes = [] }

abbrev ink : Product
ink = record { id = pos 2; name = "ink"; price = pos 5; stock = pos 1 }

-- Request 0 has the row when 1 wants it, and commits; 2 and 3 come later, and 3 finds two pens. The
-- ink is changed and removed between.
abbrev schedule : List Turn
schedule =
    call 0
    ∷ call 1
    ∷ call 0
    ∷ call 1
    ∷ write (replace ink)
    ∷ call 2
    ∷ call 0
    ∷ call 0
    ∷ call 2
    ∷ call 3
    ∷ call 2
    ∷ write (remove (pos 2))
    ∷ call 2
    ∷ call 3
    ∷ []

abbrev at_end : Running shared
at_end = run shared wants schedule (record { db = open_shop; phases = λ n. ready })

-- What a run has to see through.
steps : Unit {0}
unfolding run shared_query shared_exec shared_reserve reserve_error first_of_result scan_price
    advance take_turn shared_commit_write shared_write ◌-ℤ◌ ◌*ℤ◌ wrap64
steps = tt

two_sold :
    ((at_end.phases 0 ≡ sold (pos 12)) × (at_end.phases 2 ≡ sold (pos 12)))
    × (at_end.db.tables.product (pos 1) ≡ some (record pen { stock = pos 2 }))
unfolding steps
two_sold = ((refl, refl), refl)

one_waits : (e : GoError) × (at_end.phases 1 ≡ failed e)
unfolding steps
one_waits = (_, refl)

three_refused : at_end.phases 3 ≡ failed out_of_stock
unfolding steps
three_refused = refl

-- The pen cannot be changed while a checkout has its row.
pen_write_waits :
    (shared.exec
      (statement (replace pen)).0
      (statement (replace pen)).1
      (run shared wants
        (call 0 ∷ call 0 ∷ [])
        (record { db = open_shop; phases = λ n. ready })).db).0
    ≡ some refused
unfolding steps
pen_write_waits = refl

run-Serial_example :
    (done : List Done) × Changed wants done shop.db.tables at_end.db.tables
    × ((n : ℕ) → total_of n done ≡ outcome (at_end.phases n))
unfolding shared-IsShared
run-Serial_example = run-Serial shared shared-IsShared wants schedule open_shop (λ n. refl)

ink_is_other : pos 2 ≢ pos 1
ink_is_other e = absurd (cc e)

away : Untouched (pos 1) schedule
away = (ink_is_other, (ink_is_other, tt))

run-Kept_example : Kept (pos 1) pen shop.db.tables at_end.db.tables
unfolding shared-IsShared
run-Kept_example =
    run-Kept shared shared-IsShared wants schedule open_shop (pos 1) pen away (λ n. refl) refl

run-IsEnded_example : IsEnded (at_end.phases 2)
run-IsEnded_example = run-IsEnded shared wants schedule open_shop 2 (omega arith)

run_alone_example :
    let S = by_itself shared memory 5 (wants 5) in
    let (r, d) = in_transaction S (sell S (pos 5) four_pens) open_shop in
    let s : Running shared =
      run shared wants
        (call 5 ∷ call 5 ∷ call 5 ∷ call 5 ∷ [])
        (record { db = open_shop; phases = λ m. ready }) in
    (s.phases 5 ≡ ended r) × (s.db ≡ d)
run_alone_example = run_alone shared memory wants 5 open_shop
