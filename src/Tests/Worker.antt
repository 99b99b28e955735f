-- ===== src/Tests/Worker.antt =====
-- The worker on an index and a queue that are values.
use belajar_backend_go_v.Base.{
  ◌≡◌, ◌↔◌, refl, ◌⊎◌, inl, inr, Option, none, some, List, [], ◌∷◌, ◌++◌, String, pos, arith,
}
use belajar_backend_go_v.Models.{
  Product, ProductEvent, action_create, action_update, action_delete, zero_product,
}
use belajar_backend_go_v.Models.RoundTrip.{IsProduct}
use belajar_backend_go_v.Services.{err, ok, World, Message, GoError, no_rows}
use belajar_backend_go_v.Repository.Contract.{Tables}
use belajar_backend_go_v.Repository.Product.{create, update, delete}
use belajar_backend_go_v.Repository.Memory.{memory, mem_exec}
use belajar_backend_go_v.Repository.Memory.Laws.{memory-IsDatabase}
use belajar_backend_go_v.Repository.Memory.Stores.{mem_broker-IsBroker}
use belajar_backend_go_v.Worker.Consumer.{ConsumerMessage, Consumed, consume, consume_claim}
use belajar_backend_go_v.Worker.Consumer.Mirror.{
  Mirrors, apply_events, event_messages, consume_claim-Mirrors,
}
use belajar_backend_go_v.Worker.Consumer.Pipeline.{
  Announces, writes_announce, update-Announces, announced-Mirrors,
}
use belajar_backend_go_v.Json.{Json}
use belajar_backend_go_v.Worker.Search.{Elastic}
use belajar_backend_go_v.Repository.Checkout.{checkout}
use belajar_backend_go_v.Worker.Consumer.Unannounced.{checkout_unannounced}
use belajar_backend_go_v.Worker.Consumer.Redelivery.{deliver_again, deliver_again-Mirrors}
use belajar_backend_go_v.Tests.Checkout.{four_pens, sale_result}
use belajar_backend_go_v.Worker.Consumer.Lost.{IsDown, consume_claim-Lost}
use belajar_backend_go_v.Worker.Main.{WorkerLibraries, worker_main}
use belajar_backend_go_v.Worker.Main.Ends.{
  EndsWell, WorkerSetUp, AllFailed, StoppedBy, worker_main-EndsWell,
}
use belajar_backend_go_v.Tests.Fixtures.{pen, shop, no_pens, index_map, index_map-IsElastic}

abbrev pub new_worker : Consumed index_map
new_worker = record { index = λ name id. none; invoices = []; marked = [] }

abbrev no_tables : Tables
no_tables = record { product = λ id. none; transactions = [] }

nothing-Mirrors : Mirrors index_map index_map-IsElastic no_tables new_worker.index
unfolding index_map-IsElastic
nothing-Mirrors id range = refl

pen-IsProduct : IsProduct pen
pen-IsProduct = record { id = omega arith; price = omega arith; stock = omega arith }

abbrev pen_events : List ProductEvent
pen_events =
    record { action = action_create; product = pen }
    ∷ record { action = action_update; product = no_pens }
    ∷ []

consume_claim-Mirrors_example :
    Mirrors index_map index_map-IsElastic
      (apply_events pen_events no_tables)
      (consume_claim index_map "now" (event_messages 0 pen_events) new_worker).index
consume_claim-Mirrors_example =
    consume_claim-Mirrors index_map index_map-IsElastic "now" 0 pen_events no_tables new_worker
      (
        pen-IsProduct,
        inl refl,
        (record { id = omega arith; price = omega arith; stock = omega arith }, inr (inl refl), tt),
      )
      nothing-Mirrors

writes_announce_example :
    (((q : Product) × ((create memory no_pens shop).0 ≡ ok q)
        × Announces memory memory-IsDatabase
            (record { action = action_create; product = q })
            shop
            (create memory no_pens shop).1)
      ⊎ ((e : GoError) × ((create memory no_pens shop).0 ≡ err e)))
    × ((((update memory no_pens shop).0 ≡ none)
          × Announces memory memory-IsDatabase
              (record { action = action_update; product = no_pens })
              shop
              (update memory no_pens shop).1)
        ⊎ ((e : GoError) × ((update memory no_pens shop).0 ≡ some e)))
    × ((((delete memory (pos 1) shop).0 ≡ none)
          × Announces memory memory-IsDatabase
              (record { action = action_delete; product = record zero_product { id = pos 1 } })
              shop
              (delete memory (pos 1) shop).1)
        ⊎ ((e : GoError) × ((delete memory (pos 1) shop).0 ≡ some e)))
unfolding memory-IsDatabase
writes_announce_example = writes_announce memory memory-IsDatabase no_pens pen (pos 1) shop refl

-- The pen is in the index, and is sold out by an update.
abbrev pen_created : List ProductEvent
pen_created = record { action = action_create; product = pen } ∷ []

abbrev pen_indexed : Consumed index_map
pen_indexed = consume_claim index_map "now" (event_messages 0 pen_created) new_worker

pen_indexed-Mirrors : Mirrors index_map index_map-IsElastic shop.db.tables pen_indexed.index
pen_indexed-Mirrors =
    consume_claim-Mirrors index_map index_map-IsElastic "now" 0 pen_created no_tables new_worker
      (pen-IsProduct, inl refl, tt) nothing-Mirrors

abbrev sold_out : ProductEvent
sold_out = record { action = action_update; product = no_pens }

updated : (update memory no_pens shop).0 ≡ none
unfolding update mem_exec
updated = refl

announced-Mirrors_example :
    let w' : World memory = (update memory no_pens shop).1 in
    (m : Message) × (w'.log ≡ m ∷ [])
    × (let received : ConsumerMessage = record { topic = m.topic; offset = 5; value = m.value } in
        Mirrors index_map index_map-IsElastic w'.db.tables
          (consume index_map "now" received pen_indexed).index)
unfolding memory-IsDatabase mem_broker-IsBroker
announced-Mirrors_example =
    announced-Mirrors memory memory-IsDatabase mem_broker-IsBroker index_map index_map-IsElastic
      sold_out shop (update memory no_pens shop).1 "now" 5 pen_indexed
      (update-Announces memory memory-IsDatabase no_pens pen shop refl updated) refl
      (record { id = omega arith; price = omega arith; stock = omega arith }) (inr (inl refl))
      pen_indexed-Mirrors

-- A cluster that answers nothing.
abbrev no_cluster : Elastic
no_cluster = record {
  Store = String → String → Option Json;
  index = λ name id j s. (err no_rows, s);
  delete = λ name id s. (err no_rows, s);
}

unfoldable no_cluster-IsDown : IsDown no_cluster
no_cluster-IsDown = record {
  doc = λ s. s;
  index-failed = λ name id j s. (no_rows, refl, refl);
  delete-failed = λ name id s. (no_rows, refl, refl);
}

abbrev idle_worker : Consumed no_cluster
idle_worker = record { index = λ name id. none; invoices = []; marked = [] }

consume_claim-Lost_example :
    let s' = consume_claim no_cluster "now" (event_messages 0 pen_created) idle_worker in
    (s'.index ≡ idle_worker.index) × (s'.marked ≡ 0 ∷ [])
unfolding no_cluster-IsDown
consume_claim-Lost_example =
    consume_claim-Lost no_cluster no_cluster-IsDown "now" 0 pen_created idle_worker
      (pen-IsProduct, inl refl, tt)

abbrev all_there : WorkerLibraries
all_there = record {
  getenv = λ name. "";
  elastic = record { client_error = λ address. none; info_error = none };
  group_error = λ brokers group. none;
  close_error = none;
}

-- Consume fails once, the signal comes, and it fails once more.
worker_main-EndsWell_example :
    EndsWell (worker_main all_there (some no_rows ∷ []) (some (some no_rows ∷ []))) ↔ (
      WorkerSetUp all_there
      × AllFailed (some no_rows ∷ [])
      × StoppedBy all_there (some (some no_rows ∷ [])))
worker_main-EndsWell_example =
    worker_main-EndsWell all_there (some no_rows ∷ []) (some (some no_rows ∷ []))

checkout_unannounced_example :
    let w' : World memory = (checkout memory (pos 7) "ann@example.com" four_pens shop).1 in
    (m : Message) × (w'.log ≡ m ∷ [])
    × (let received : ConsumerMessage = record { topic = m.topic; offset = 4; value = m.value } in
        (consume index_map "now" received pen_indexed).index ≡ pen_indexed.index)
    × ¬ (Mirrors index_map index_map-IsElastic w'.db.tables pen_indexed.index)
unfolding memory-IsDatabase
checkout_unannounced_example =
    checkout_unannounced memory memory-IsDatabase index_map index_map-IsElastic (pos 7)
      "ann@example.com" four_pens shop pen_indexed "now" 4 (omega arith) (omega arith)
      pen_indexed-Mirrors sale_result.0

-- The worker dies twice after the pen was sold out, and before the offset was committed.
deliver_again-Mirrors_example :
    Mirrors index_map index_map-IsElastic
      (apply_events (pen_created ++ (sold_out ∷ [])) no_tables)
      (deliver_again index_map 2 "now" 1 (sold_out ∷ []) (
        consume_claim index_map "now"
          (event_messages 0 (pen_created ++ (sold_out ∷ [])))
          new_worker)).index
deliver_again-Mirrors_example =
    deliver_again-Mirrors index_map index_map-IsElastic 2 "now" 0 1 pen_created (sold_out ∷ [])
      no_tables new_worker (pen-IsProduct, inl refl, tt)
      (record { id = omega arith; price = omega arith; stock = omega arith }, inr (inl refl), tt)
      nothing-Mirrors
