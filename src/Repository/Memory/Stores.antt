-- ===== src/Repository/Memory/Stores.antt =====
-- The cache and the broker in memory meet what the code relies on.
use package.text.Mathlib.TextEquality.{eq_iff}
use belajar_backend_go_v.Base.{◌≡◌, ◌≢◌, refl, ◌⊎◌, some, String, arith, ℕ}
use belajar_backend_go_v.Json.{Document}
use belajar_backend_go_v.Services.Laws.{IsCache, IsBroker}
use belajar_backend_go_v.Repository.Memory.{mem_cache, mem_broker}

mem_get-set :
    (k j : String) (v d : Document) (ttl : ℕ) (s : mem_cache.Store)
    → mem_cache.get k (mem_cache.set j v ttl s) ≡ some d
    → ((k ≡ j) × (d ≡ v)) ⊎ (mem_cache.get k s ≡ some d)
mem_get-set k j v d ttl s e = ground (arith, eq_iff k j)

mem_get-del :
    (k j : String) (d : Document) (s : mem_cache.Store)
    → mem_cache.get k (mem_cache.del j s) ≡ some d
    → (k ≢ j) × (mem_cache.get k s ≡ some d)
mem_get-del k j d s e = ground (arith, eq_iff k j)

mem_get-del_ne :
    (k j : String) (s : mem_cache.Store)
    → k ≢ j
    → mem_cache.get k (mem_cache.del j s) ≡ mem_cache.get k s
mem_get-del_ne k j s ne = ground (arith, eq_iff k j)

pub mem_cache-IsCache : IsCache mem_cache
mem_cache-IsCache = record {
  get-set = mem_get-set;
  get-del = mem_get-del;
  get-del_ne = mem_get-del_ne;
}

unfoldable pub mem_broker-IsBroker : IsBroker mem_broker
mem_broker-IsBroker = record { sent = λ log. log; send-ok = λ m l e. refl }
