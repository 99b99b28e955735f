-- ===== src/Services/Laws.antt =====
-- What the code relies on of Redis, of the producer and of the validator.
use belajar_backend_go_v.Base.{◌≡◌, ◌≢◌, ◌⊎◌, ◌↔◌, true, ℕ, none, some, List, [], ◌∷◌, ◌++◌, String}
use belajar_backend_go_v.Json.{Document}
use belajar_backend_go_v.Models.{Product, CheckoutRequest, product_tags, checkout_tags}
use belajar_backend_go_v.Services.{Cache, Broker, Message, Validator}

-- A key holds what was last set for it, or nothing: an entry may expire or be evicted at any time,
-- and a `set` may fail and leave what was there. A `del` takes effect.
pub record IsCache (C : Cache) : Type 0 where
  pub get-set :
      (k j : String) (v d : Document) (ttl : ℕ) (s : C.Store)
      → C.get k (C.set j v ttl s) ≡ some d
      → ((k ≡ j) × (d ≡ v)) ⊎ (C.get k s ≡ some d)
  pub get-del :
      (k j : String) (d : Document) (s : C.Store)
      → C.get k (C.del j s) ≡ some d
      → (k ≢ j) × (C.get k s ≡ some d)
  -- `del` touches no other key.
  pub get-del_ne : (k j : String) (s : C.Store) → k ≢ j → C.get k (C.del j s) ≡ C.get k s

-- A message that is acknowledged stands at the end of what was sent; one that is not is not sent.
pub record IsBroker (B : Broker) : Type 0 where
  pub sent : B.Log → List Message
  pub send-ok :
      (m : Message) (l : B.Log) → (B.send m l).0 ≡ none → sent (B.send m l).1 ≡ sent l ++ m ∷ []

-- The validator reads the tags of the two structs as they are documented.
pub record IsValidator (V : Validator) : Type 0 where
  pub product : (p : Product) → (V.check_product p ≡ none) ↔ (product_tags p ≡ true)
  pub checkout : (r : CheckoutRequest) → (V.check_checkout r ≡ none) ↔ (checkout_tags r ≡ true)
