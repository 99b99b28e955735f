-- ===== src/Repository/Product/Writes.antt =====
-- What the writes of the repository do to the tables, and that they keep the entries of single
-- products in agreement with the rows.
use belajar_backend_go_v.Base.{◌⊎◌, ◌≡◌, refl, inl, inr, none, some, [], ◌∷◌, ℤ, Option-cases}
use mathlib.Core.Option
use belajar_backend_go_v.Models.{Product}
use belajar_backend_go_v.Services.{
  GoError, ok, err, int, txt, Services, World, query_row, Result-cases,
}
use belajar_backend_go_v.Services.Laws.{IsCache}
use belajar_backend_go_v.Repository.Product.{
  all_key, insert_product, update_product, delete_product, scan_int, create, update, delete, forget,
  send_event,
}
use belajar_backend_go_v.Repository.Product.Coherence.{
  IsCoherentWorld, del-IsCoherent, change-IsCoherent, insert-IsCoherent,
}
use belajar_backend_go_v.Repository.Contract.{set_row, IsDatabase, IsAtomic}

module _ (S : Services) where
  send_event-db :
      (action : _) (p : Product) (w : World S)
      → let w' = send_event S action p w in (w'.db ≡ w.db) × (w'.store ≡ w.store)
  unfolding send_event
  send_event-db action p w = (refl, refl)

module _ (S : Services) (L : IsDatabase S) (A : IsAtomic S L) (C : IsCache S.cache) where
  pub create-IsCoherent :
      (p : Product) (w : World S)
      → IsCoherentWorld S L w
      → let (r, w') = create S p w in
        ((q : Product)
          → r ≡ ok q
          → (q ≡ record p { id = q.id })
            × ((L.tables w.db).product q.id ≡ none)
            × (L.tables w'.db ≡ set_row q.id (some q) (L.tables w.db)))
        × ((e : GoError) → r ≡ err e → L.tables w'.db ≡ L.tables w.db)
        × IsCoherentWorld S L w'
  unfolding create scan_int send_event
  create-IsCoherent p w h =
      elim (Result-cases
        (query_row S.database insert_product (txt p.name ∷ int p.price ∷ int p.stock ∷ [])
          w.db).0) [
            | inl (row, inserted) ↦
                let (id, shape, fresh, added) = L.insert-ok p w.db row inserted in
                rw (inserted, shape, create)
                  (
                    (λ q e.
                        let here : q ≡ record p { id = id } = cc in rw here (refl, fresh, added)),
                    (λ e x. cc),
                    rw added (
                        insert-IsCoherent S.cache (L.tables w.db) (S.cache.del all_key w.store) id
                          (some (record p { id = id })) fresh
                          (del-IsCoherent S.cache C (L.tables w.db) w.store all_key h)),
                  )
            | inr (e, failed) ↦
                let same = A.insert-failed p w.db e failed in
                rw (failed, create) ((λ q x. cc), (λ _ _. same), rw same h)
          ]

  pub update-IsCoherent :
      (p : Product) (w : World S)
      → IsCoherentWorld S L w
      → let (failed, w') = update S p w in
        (failed ≡ none
          → L.tables w'.db
            ≡ set_row p.id (Option.map (λ _. p) ((L.tables w.db).product p.id)) (L.tables w.db))
        × ((e : GoError) → failed ≡ some e → L.tables w'.db ≡ L.tables w.db)
        × IsCoherentWorld S L w'
  unfolding update forget send_event
  update-IsCoherent p w h =
      elim (Option-cases
        (S.database.exec update_product (txt p.name ∷ int p.price ∷ int p.stock ∷ int p.id ∷ [])
          w.db).0) [
            | inl done ↦
                let changed = L.update-ok p w.db done in
                rw (done, update)
                  (
                    (λ _. changed),
                    (λ e x. cc),
                    rw changed (
                        change-IsCoherent S.cache C (L.tables w.db) (S.cache.del all_key w.store)
                          p.id (Option.map (λ _. p) ((L.tables w.db).product p.id))
                          (del-IsCoherent S.cache C (L.tables w.db) w.store all_key h)),
                  )
            | inr (e, failed) ↦
                let same = A.update-failed p w.db e failed in
                rw (failed, update) ((λ x. cc), (λ _ _. same), rw same h)
          ]

  pub delete-IsCoherent :
      (id : ℤ) (w : World S)
      → IsCoherentWorld S L w
      → let (failed, w') = delete S id w in
        (failed ≡ none → L.tables w'.db ≡ set_row id none (L.tables w.db))
        × ((e : GoError) → failed ≡ some e → L.tables w'.db ≡ L.tables w.db)
        × IsCoherentWorld S L w'
  unfolding delete forget send_event
  delete-IsCoherent id w h =
      elim (Option-cases (S.database.exec delete_product (int id ∷ []) w.db).0) [
        | inl done ↦
            let changed = L.delete-ok id w.db done in
            rw (done, delete)
              (
                (λ _. changed),
                (λ e x. cc),
                rw changed (
                    change-IsCoherent S.cache C (L.tables w.db) (S.cache.del all_key w.store) id
                      none (del-IsCoherent S.cache C (L.tables w.db) w.store all_key h)),
              )
        | inr (e, failed) ↦
            let same = A.delete-failed id w.db e failed in
            rw (failed, delete) ((λ x. cc), (λ _ _. same), rw same h)
      ]

  -- `Create` gives the new row an id that no row had, and adds exactly that row; or it returns an
  -- error and no table has changed. Either way cache and table still agree.
  pub create_lem :
      (p : Product) (w : World S)
      → IsCoherentWorld S L w
      → let (r, w') = create S p w in
        (((q : Product) × (r ≡ ok q)
            × (q ≡ record p { id = q.id })
            × ((L.tables w.db).product q.id ≡ none)
            × (L.tables w'.db ≡ set_row q.id (some q) (L.tables w.db)))
          ⊎ ((e : GoError) × (r ≡ err e) × (L.tables w'.db ≡ L.tables w.db)))
        × IsCoherentWorld S L w'
  create_lem p w h =
      let (added, same, coherent) = create-IsCoherent p w h in
      elim (Result-cases (create S p w).0) [
        | inl (q, made) ↦
            let (shape, free, changed) = added q made in
            (inl (q, made, shape, free, changed), coherent)
        | inr (e, failed) ↦ (inr (e, failed, same e failed), coherent)
      ]

  pub update_lem :
      (p : Product) (w : World S)
      → IsCoherentWorld S L w
      → let (failed, w') = update S p w in
        (((failed ≡ none)
            × (L.tables w'.db
                ≡ set_row p.id
                    (Option.map (λ _. p) ((L.tables w.db).product p.id))
                    (L.tables w.db)))
          ⊎ ((e : GoError) × (failed ≡ some e) × (L.tables w'.db ≡ L.tables w.db)))
        × IsCoherentWorld S L w'
  update_lem p w h =
      let (changed, same, coherent) = update-IsCoherent p w h in
      elim (Option-cases (update S p w).0) [
        | inl fine ↦ (inl (fine, changed fine), coherent)
        | inr (e, failed) ↦ (inr (e, failed, same e failed), coherent)
      ]

  -- `Delete` removes the row of that id and no other; or it returns an error and no table has
  -- changed. Either way cache and table still agree.
  pub delete_lem :
      (id : ℤ) (w : World S)
      → IsCoherentWorld S L w
      → let (failed, w') = delete S id w in
        (((failed ≡ none) × (L.tables w'.db ≡ set_row id none (L.tables w.db)))
          ⊎ ((e : GoError) × (failed ≡ some e) × (L.tables w'.db ≡ L.tables w.db)))
        × IsCoherentWorld S L w'
  delete_lem id w h =
      let (changed, same, coherent) = delete-IsCoherent id w h in
      elim (Option-cases (delete S id w).0) [
        | inl fine ↦ (inl (fine, changed fine), coherent)
        | inr (e, failed) ↦ (inr (e, failed, same e failed), coherent)
      ]
