-- ===== src/Worker/Consumer/Pipeline.antt =====
-- The writes of repository/product_repo.go together with the worker of cmd/worker/main.go: the
-- event that each write sends, and the index once the worker has consumed it.
use belajar_backend_go_v.Base.{
  ◌⊎◌, ◌≡◌, refl, ap, ◌∙◌, inl, inr, none, some, [], ◌∷◌, ◌++◌, ℕ, ℤ, String, Option-cases,
}
use mathlib.Core.Option
use belajar_backend_go_v.Strconv.{itoa}
use belajar_backend_go_v.Json.{json}
use belajar_backend_go_v.Models.{
  Product, ProductEvent, action_create, action_update, action_delete, zero_product,
}
use belajar_backend_go_v.Models.Codec.{encode_event}
use belajar_backend_go_v.Models.RoundTrip.{IsProduct}
use belajar_backend_go_v.Services.{
  GoError, ok, err, int, txt, Services, World, Message, query_row, Result-cases,
}
use belajar_backend_go_v.Services.Laws.{IsBroker}
use belajar_backend_go_v.Stream.{send_message}
use belajar_backend_go_v.Repository.Product.{
  insert_product, update_product, delete_product, scan_int, create, update, delete, send_event,
  forget,
}
use belajar_backend_go_v.Repository.Contract.{set_row, IsDatabase}
use belajar_backend_go_v.Worker.Search.{Elastic}
use belajar_backend_go_v.Worker.Consumer.{ConsumerMessage, Consumed, consume}
use belajar_backend_go_v.Worker.Consumer.Mirror.{
  IsElastic, IsAction, row_after, Mirrors, consume-Mirrors,
}

-- The message that carries an event.
abbrev pub event_message : ProductEvent → Message
event_message e = record {
  topic = "product-events";
  key = itoa e.product.id;
  value = json (encode_event e);
}

module _ (S : Services) (L : IsDatabase S) where
  -- From one state to the next, the table changed as the event says, and the event was sent.
  abbrev pub Announces : ProductEvent → World S → World S → Type 0
  Announces e w w' =
      (L.tables w'.db ≡ set_row e.product.id (row_after e) (L.tables w.db))
      × (w'.log ≡ (S.broker.send (event_message e) w.log).1)

  create-Announces :
      (p q : Product) (w : World S)
      → (create S p w).0 ≡ ok q
      → Announces (record { action = action_create; product = q }) w (create S p w).1
  unfolding create send_event scan_int send_message
  create-Announces p q w e =
      elim (Result-cases
        (query_row S.database insert_product (txt p.name ∷ int p.price ∷ int p.stock ∷ [])
          w.db).0) [
            | inl (row, inserted) ↦
                let (id, shape, _, added) = L.insert-ok p w.db row inserted in
                let done : (create S p w).0 ≡ ok (record p { id = id }) =
                  rw (inserted, shape, create) refl in
                let here : q ≡ record p { id = id } = cc (e, done) in
                rw here (rw (inserted, shape, create) (added, refl))
            | inr (f, failed) ↦
                let refused : (create S p w).0 ≡ err f = rw (failed, create) refl in
                absurd (cc (e, refused))
          ]

  pub update-Announces :
      (p old : Product) (w : World S)
      → (L.tables w.db).product p.id ≡ some old
      → (update S p w).0 ≡ none
      → Announces (record { action = action_update; product = p }) w (update S p w).1
  unfolding update forget send_event send_message
  update-Announces p old w there e =
      elim (Option-cases
        (S.database.exec update_product (txt p.name ∷ int p.price ∷ int p.stock ∷ int p.id ∷ [])
          w.db).0) [
            | inl done ↦
                let changed = L.update-ok p w.db done in
                rw (done, update)
                  (
                    changed
                        ∙ ap (λ row. set_row p.id (Option.map (λ _. p) row) (L.tables w.db)) there,
                    refl,
                  )
            | inr (f, failed) ↦
                let refused : (update S p w).0 ≡ some f = rw (failed, update) refl in
                absurd (cc (e, refused))
          ]

  delete-Announces :
      (id : ℤ) (w : World S)
      → (delete S id w).0 ≡ none
      → Announces
          (record { action = action_delete; product = record zero_product { id = id } })
          w
          (delete S id w).1
  unfolding delete forget send_event send_message
  delete-Announces id w e =
      elim (Option-cases (S.database.exec delete_product (int id ∷ []) w.db).0) [
        | inl done ↦ rw (done, delete) (L.delete-ok id w.db done, refl)
        | inr (f, failed) ↦
            let refused : (delete S id w).0 ≡ some f = rw (failed, delete) refl in
            absurd (cc (e, refused))
      ]

  pub writes_announce :
      (p old : Product) (id : ℤ) (w : World S)
      → (L.tables w.db).product p.id ≡ some old
      → (((q : Product) × ((create S p w).0 ≡ ok q)
            × Announces (record { action = action_create; product = q }) w (create S p w).1)
          ⊎ ((e : GoError) × ((create S p w).0 ≡ err e)))
        × ((((update S p w).0 ≡ none)
              × Announces (record { action = action_update; product = p }) w (update S p w).1)
            ⊎ ((e : GoError) × ((update S p w).0 ≡ some e)))
        × ((((delete S id w).0 ≡ none)
              × Announces
                  (record { action = action_delete; product = record zero_product { id = id } })
                  w
                  (delete S id w).1)
            ⊎ ((e : GoError) × ((delete S id w).0 ≡ some e)))
  writes_announce p old id w there = (
    elim (Result-cases (create S p w).0) [
      | inl (q, made) ↦ inl (q, made, create-Announces p q w made)
      | inr failed ↦ inr failed
    ],
    elim (Option-cases (update S p w).0) [
      | inl fine ↦ inl (fine, update-Announces p old w there fine)
      | inr failed ↦ inr failed
    ],
    elim (Option-cases (delete S id w).0) [
      | inl fine ↦ inl (fine, delete-Announces id w fine)
      | inr failed ↦ inr failed
    ],
  )

  module _ (B : IsBroker S.broker) (E : Elastic) (M : IsElastic E) where
    pub announced-Mirrors :
        (e : ProductEvent) (w w' : World S) (now : String) (offset : ℕ) (s : Consumed E)
        → Announces e w w'
        → (S.broker.send (event_message e) w.log).0 ≡ none
        → IsProduct e.product
        → IsAction e.action
        → Mirrors E M (L.tables w.db) s.index
        → (m : Message) × (B.sent w'.log ≡ B.sent w.log ++ m ∷ [])
          × (let received : ConsumerMessage = record {
            topic = m.topic;
            offset = offset;
            value = m.value;
          } in
              Mirrors E M (L.tables w'.db) (consume E now received s).index)
    announced-Mirrors e w w' now offset s h taken range action mirror = (
      event_message e,
      ap B.sent h.1 ∙ B.send-ok (event_message e) w.log taken,
      rw (h.0) (consume-Mirrors E M now offset e (L.tables w.db) s range action mirror).0,
    )
