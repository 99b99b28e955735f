-- ===== src/Tests/Race.antt =====
-- Reads of the shop in memory with writes between their parts.
use belajar_backend_go_v.Base.{◌≡◌, refl, none, some, [], ◌∷◌, pos, arith}
use belajar_backend_go_v.Strconv.{itoa}
use belajar_backend_go_v.Json.{json}
use belajar_backend_go_v.Models.Codec.{encode_product}
use belajar_backend_go_v.Services.{ok, World, query_row}
use belajar_backend_go_v.Repository.Product.{update, get_by_id, product_key}
use belajar_backend_go_v.Repository.Product.Race.{
  Busy, Reach, starts, then, reads, fills, commits, to_create, commit, read_row, fill,
}
use belajar_backend_go_v.Repository.Product.Race.Schedules.{IsFresh, Reach-IsFresh}
use belajar_backend_go_v.Repository.Product.Race.Stale.{get_by_id_race}
use belajar_backend_go_v.Repository.Memory.{memory, mem_exec, mem_query}
use belajar_backend_go_v.Repository.Memory.Laws.{memory-IsDatabase, memory-IsAtomic}
use belajar_backend_go_v.Repository.Memory.Stores.{mem_cache-IsCache}
use belajar_backend_go_v.Tests.Fixtures.{pen, no_pens, shop, empty-IsCoherent}

pen_read : (read_row memory (pos 1) shop).0 ≡ ok pen
unfolding read_row query_row mem_query
pen_read = refl

-- The pen is read, another product is created, and the pen goes into the cache.
abbrev reading : Busy memory
reading = record { world = (read_row memory (pos 1) shop).1; reading = (pos 1, pen) ∷ [] }

abbrev created : Busy memory
created = record reading { world = commit memory (to_create no_pens) reading.world }

abbrev filled : Busy memory
filled = record { world = fill memory (pos 1) pen created.world; reading = [] }

filled_reached : Reach memory shop filled
filled_reached =
    then
      (then
        (then starts
          (reads (pos 1) pen (record { world = shop; reading = [] }) (omega arith) pen_read))
        (commits (to_create no_pens) reading tt))
      (fills (pos 1) pen created [] [] refl)

Reach-IsFresh_example : IsFresh memory memory-IsDatabase filled
Reach-IsFresh_example =
    Reach-IsFresh memory memory-IsDatabase memory-IsAtomic mem_cache-IsCache empty-IsCoherent
      filled_reached

abbrev sold_out : World memory
sold_out = (update memory no_pens (read_row memory (pos 1) shop).1).1

abbrev stale : World memory
stale = fill memory (pos 1) pen sold_out

sold_out_fine : (update memory no_pens (read_row memory (pos 1) shop).1).0 ≡ none
unfolding update mem_exec read_row query_row mem_query
sold_out_fine = refl

pen_cached : memory.cache.get (product_key (pos 1)) stale.store ≡ some (json (encode_product pen))
unfolding fill product_key itoa
pen_cached = refl

get_by_id_race_example :
    (get_by_id memory (pos 1) stale ≡ (ok pen, stale))
    × (stale.db.tables.product (pos 1) ≡ some no_pens)
unfolding memory-IsDatabase
get_by_id_race_example =
    get_by_id_race memory memory-IsDatabase mem_cache-IsCache pen no_pens shop
      (json (encode_product pen)) (omega arith) pen_read sold_out_fine pen_cached
