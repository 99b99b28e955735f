-- ===== src/Tests/Fixtures.antt =====
-- Concrete services for the tests: a shop in memory, a validator that reads the tags, tokens and
-- hashes that are plain texts, a search index and a queue that are values.
use package.text.Mathlib.Text.{◌==◌ as str_eq}
use package.text.Mathlib.TextEquality.{eq_iff}
use belajar_backend_go_v.Base.{
  ◌≡◌, ◌≢◌, refl, false, ◌&&◌, Option, none, some, List, [], ◌∷◌, ◌++◌, pos, eqb_ℤ, String,
  if◌then◌else◌, arith,
}
use belajar_backend_go_v.Json.{Document, Json}
use belajar_backend_go_v.Models.{Product, product_tags, checkout_tags}
use belajar_backend_go_v.Services.{GoError, failure, Result, ok, err, World, Validator}
use belajar_backend_go_v.Services.Laws.{IsValidator}
use belajar_backend_go_v.Repository.Memory.{memory}
use belajar_backend_go_v.Repository.Memory.Laws.{memory-IsDatabase}
use belajar_backend_go_v.Repository.Product.Coherence.{IsCoherentWorld}
use belajar_backend_go_v.Worker.Search.{Elastic}
use belajar_backend_go_v.Worker.Consumer.Mirror.{IsElastic}
use belajar_backend_go_v.Worker.Processor.{Queues}
use belajar_backend_go_v.Worker.Processor.Delivery.{IsQueues}

abbrev pub pen : Product
pen = record { id = pos 1; name = "pen"; price = pos 3; stock = pos 10 }

abbrev pub shop : World memory
shop = record {
  db = record {
    tables = record {
      product = λ id. if eqb_ℤ id (pos 1) then some pen else none;
      transactions = [];
    };
    ids = pos 1 ∷ [];
    next = pos 2;
    down = false;
  };
  store = λ k. none;
  log = [];
  circuit = none;
}

abbrev pub no_pens : Product
no_pens = record pen { stock = pos 0 }

pub empty-IsCoherent : IsCoherentWorld memory memory-IsDatabase shop
empty-IsCoherent id d h e = cc

abbrev pub tag_validator : Validator
tag_validator = record {
  check_product = λ p. if product_tags p then none else some "product";
  check_checkout = λ r. if checkout_tags r then none else some "checkout";
}

pub tag_validator-IsValidator : IsValidator tag_validator
tag_validator-IsValidator = record { product = λ p. ground arith; checkout = λ r. ground arith }

abbrev pub index_map : Elastic
index_map = record {
  Store = String → String → Option Json;
  index = λ name id j s. elim id [
    | some i ↦ (ok 200, λ n k. if str_eq n name && str_eq k i then some j else s n k)
    | none ↦ (ok 201, λ n k. if str_eq n name && str_eq k "generated" then some j else s n k)
  ];
  delete = λ name i s. (ok 200, λ n k. if str_eq n name && str_eq k i then none else s n k);
}

pub index_map-other :
    (name : String) (j : Json) (s : index_map.Store) (n i : String)
    → n ≢ name
    → (index_map.index name none j s).1 n i ≡ s n i
index_map-other name j s n i other = ground (arith, eq_iff n name, other)

unfoldable pub index_map-IsElastic : IsElastic index_map
index_map-IsElastic = record {
  doc = λ s. s;
  index-ok = λ name id j s. (200, refl, λ n i. refl);
  delete-ok = λ name id s. (200, refl, λ n i. refl);
  index-new = index_map-other;
}

abbrev pop_first : List Document → Result Document × List Document
pop_first [] = (err (failure "timeout"), [])
pop_first (d ∷ ds) = (ok d, ds)

abbrev pub one_list : Queues
one_list = record {
  Store = List Document;
  blpop = λ key ds. pop_first ds;
  rpush = λ key d ds. (none, ds ++ d ∷ []);
}

pub pop_first-ok :
    (d : Document) (ds : List Document) → (pop_first ds).0 ≡ ok d → ds ≡ d ∷ (pop_first ds).1
pop_first-ok d [] h = absurd (ground (arith, h))
pop_first-ok d (x ∷ ds) h = ground (arith, h)

pub pop_first-failed :
    (e : GoError) (ds : List Document) → (pop_first ds).0 ≡ err e → (pop_first ds).1 ≡ ds
pop_first-failed e [] h = refl
pop_first-failed e (x ∷ ds) h = absurd (ground (arith, h))

pub none-ne-some : (e : GoError) → Path (Option GoError) none (some e) → ⊥
none-ne-some e h = ground (arith, h)

unfoldable pub one_list-IsQueues : IsQueues one_list
one_list-IsQueues = record {
  items = λ ds. ds;
  pop-ok = pop_first-ok;
  pop-failed = pop_first-failed;
  push-ok = λ d ds h. refl;
  push-failed = λ d e ds h. absurd (none-ne-some e h);
}
