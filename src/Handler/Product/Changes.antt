-- ===== src/Handler/Product/Changes.antt =====
-- The writing half of the handlers in handler/product_handler.go: what a reply says of the tables.
use mathlib.Core.Option
use belajar_backend_go_v.Base.{
  ◌≡◌, refl, sym, ap, ◌∙◌, ◌⊎◌, inl, inr, Option, none, some, ℕ, ℤ, IsInt64, Option-cases,
  Bool-cases,
}
use belajar_backend_go_v.Json.{unmarshal}
use belajar_backend_go_v.Models.{Product, zero_product}
use belajar_backend_go_v.Models.Codec.{decode_product}
use belajar_backend_go_v.Services.{Services, World, Validator, Result-cases}
use belajar_backend_go_v.Services.Laws.{IsCache}
use belajar_backend_go_v.Http.{
  Request, Response, fresh_response, http_writer, Outcome, send_status, send_content,
}
use belajar_backend_go_v.Handler.Status.{status_of, state_of}
use belajar_backend_go_v.Utils.Response.{response_json, response_error}
use belajar_backend_go_v.Repository.Product.{update, delete, get_by_id}
use belajar_backend_go_v.Repository.Product.Coherence.{IsCoherentWorld}
use belajar_backend_go_v.Repository.Product.Reads.{get_by_id-IsCoherent}
use belajar_backend_go_v.Repository.Product.Writes.{update-IsCoherent, delete-IsCoherent}
use belajar_backend_go_v.Repository.Contract.{Tables, set_row, IsDatabase, IsAtomic}
use belajar_backend_go_v.Handler.Product.{apply_update, update_product_by_id, delete_product_by_id}

-- The statuses with which a handler refuses a request.
abbrev pub IsRefusal : Option ℕ → Type 0
IsRefusal s = (s ≡ some 400) ⊎ (s ≡ some 404) ⊎ (s ≡ some 500)

-- One row has been added, of an id that had none.
abbrev pub IsAddition : Tables → Tables → Type 0
IsAddition t t' = (q : Product) × (t.product q.id ≡ none) × (t' ≡ set_row q.id (some q) t)

-- One row that there was has been replaced.
abbrev pub IsReplacement : ℤ → Tables → Tables → Type 0
IsReplacement id t t' =
    (q : Product) × (q.id ≡ id)
    × (old : Product) × (t.product id ≡ some old)
    × (t' ≡ set_row id (some q) t)

-- One row that there was is gone.
abbrev pub IsRemoval : ℤ → Tables → Tables → Type 0
IsRemoval id t t' = (old : Product) × (t.product id ≡ some old) × (t' ≡ set_row id none t)

module _ (S : Services) (V : Validator) (L : IsDatabase S) where
  -- The reply is the given status and the tables changed in the given way, or it is a refusal and
  -- they did not change; either way the cache agrees with them.
  abbrev pub Replied : ℕ → (Tables → Tables → Type 0) → Tables → Outcome Response (World S) → Type 0
  Replied code change t o =
      (((status_of o ≡ some code) × change t (L.tables (state_of o).db))
        ⊎ (IsRefusal (status_of o) × (L.tables (state_of o).db ≡ t)))
      × IsCoherentWorld S L (state_of o)

  module _ (A : IsAtomic S L) (C : IsCache S.cache) where
    apply_update-Replied :
        (p old : Product) (st : World S)
        → (L.tables st.db).product p.id ≡ some old
        → IsCoherentWorld S L st
        → Replied 200 (IsReplacement p.id) (L.tables st.db) (apply_update S V p fresh_response st)
    unfolding apply_update response_json response_error send_status send_content
    apply_update-Replied p old st there h =
        let (changed, same, coherent) = update-IsCoherent S L A C p st h in
        elim (Option-cases (update S p st).0) [
          | inl fine ↦
              let row = ap (λ row. set_row p.id (Option.map (λ _. p) row) (L.tables st.db)) there in
              rw (fine, apply_update)
                (inl (refl, (p, refl, old, there, changed fine ∙ row)), coherent)
          | inr (e, failed) ↦
              rw (failed, apply_update) (inr (inr (inr refl), same e failed), coherent)
        ]

    pub update_product_by_id-Replied :
        (r : Request) (st : World S) (id : ℤ)
        → IsInt64 id
        → IsCoherentWorld S L st
        → Replied 200
            (IsReplacement id)
            (L.tables st.db)
            (update_product_by_id S V r fresh_response st id)
    unfolding update_product_by_id response_error send_status send_content
    update_product_by_id-Replied r st id range h =
        let p : Product = record (unmarshal decode_product r.body zero_product).0 { id = id } in
        elim (Bool-cases (unmarshal decode_product r.body zero_product).1) [
          | inr bad ↦ rw (bad, update_product_by_id) (inr (inl refl, refl), h)
          | inl fine ↦ elim (Option-cases (V.check_product p)) [
            | inr (message, wrong) ↦
                rw (fine, wrong, update_product_by_id) (inr (inl refl, refl), h)
            | inl right ↦
                let (found, _, same, coherent) = get_by_id-IsCoherent S L C id st range h in
                elim (Result-cases (get_by_id S id st).0) [
                  | inl (old, read) ↦
                      let there = ap (λ (t : Tables). t.product id) same ∙ found old read in
                      let applied =
                        apply_update-Replied p old (get_by_id S id st).1 there coherent in
                      rw (fine, right, read, sym same, update_product_by_id) applied
                  | inr (e, missing) ↦
                      rw (fine, right, missing, update_product_by_id)
                        (inr (inr (inl refl), same), coherent)
                ]
          ]
        ]

    pub delete_product_by_id-Replied :
        (st : World S) (id : ℤ)
        → IsInt64 id
        → IsCoherentWorld S L st
        → Replied 200
            (IsRemoval id)
            (L.tables st.db)
            (delete_product_by_id S V id fresh_response st)
    unfolding delete_product_by_id response_json response_error send_status send_content
    delete_product_by_id-Replied st id range h =
        let (found, _, same, coherent) = get_by_id-IsCoherent S L C id st range h in
        elim (Result-cases (get_by_id S id st).0) [
          | inr (e, missing) ↦
              rw (missing, delete_product_by_id) (inr (inr (inl refl), same), coherent)
          | inl (old, read) ↦
              let there = found old read in
              let (changed, kept, after) =
                delete-IsCoherent S L A C id (get_by_id S id st).1 coherent in
              elim (Option-cases (delete S id (get_by_id S id st).1).0) [
                | inl fine ↦
                    rw (read, fine, delete_product_by_id)
                      (inl (refl, (old, there, changed fine ∙ ap (set_row id none) same)), after)
                | inr (e, failed) ↦
                    rw (read, failed, delete_product_by_id)
                      (inr (inr (inr refl), kept e failed ∙ same), after)
              ]
        ]
