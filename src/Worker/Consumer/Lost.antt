-- ===== src/Worker/Consumer/Lost.antt =====
-- Product events that the worker takes while Elasticsearch does not answer.
use mathlib.Core.List.{append_assoc, append-nil}
use belajar_backend_go_v.Base.{
  ◌≡◌, refl, sym, ap, ◌∙◌, inl, inr, Option, some, List, [], ◌∷◌, ◌++◌, ℕ, suc, String, arith,
}
use belajar_backend_go_v.Strconv.{itoa}
use belajar_backend_go_v.Json.{Json, json, unmarshal}
use belajar_backend_go_v.Models.{ProductEvent}
use belajar_backend_go_v.Models.Codec.{encode_product, encode_event}
use belajar_backend_go_v.Models.RoundTrip.{IsProduct, decode-encode_event}
use belajar_backend_go_v.Services.{GoError, Result, ok, err}
use belajar_backend_go_v.Worker.Search.{Elastic, sync_product, audit_after}
use belajar_backend_go_v.Worker.Consumer.{Consumed, zero_event, consume, consume_claim}
use belajar_backend_go_v.Worker.Consumer.Invoices.{offsets}
use belajar_backend_go_v.Worker.Consumer.Mirror.{IsAction, AllEvents, event_messages}

-- Every request fails and changes no document.
pub record IsDown (E : Elastic) : Type 0 where
  pub doc : E.Store → String → String → Option Json
  pub index-failed :
      (name : String) (id : Option String) (j : Json) (s : E.Store)
      → (e : GoError) × ((E.index name id j s).0 ≡ err e) × (doc (E.index name id j s).1 ≡ doc s)
  pub delete-failed :
      (name id : String) (s : E.Store)
      → (e : GoError) × ((E.delete name id s).0 ≡ err e) × (doc (E.delete name id s).1 ≡ doc s)

module _ (E : Elastic) (D : IsDown E) where
  audit_after-doc :
      (now : String) (ev : ProductEvent) (r : Result ℕ × E.Store) (e : GoError)
      → r.0 ≡ err e
      → D.doc (audit_after E now ev r) ≡ D.doc r.1
  unfolding audit_after
  audit_after-doc now ev (ok c, s) e h = absurd (ground (arith, h))
  audit_after-doc now ev (err g, s) e h = refl

  sync_product-doc :
      (now : String) (ev : ProductEvent) (s : E.Store)
      → IsAction ev.action
      → D.doc (sync_product E now ev s) ≡ D.doc s
  unfolding sync_product
  sync_product-doc now ev s (inl a) =
      let (e, failed, same) =
        D.index-failed "products" (some (itoa ev.product.id)) (encode_product ev.product) s in
      rw a (audit_after-doc now _ _ e failed ∙ same)
  sync_product-doc now ev s (inr (inl a)) =
      let (e, failed, same) =
        D.index-failed "products" (some (itoa ev.product.id)) (encode_product ev.product) s in
      rw a (audit_after-doc now _ _ e failed ∙ same)
  sync_product-doc now ev s (inr (inr a)) =
      let (e, failed, same) = D.delete-failed "products" (itoa ev.product.id) s in
      rw a (audit_after-doc now _ _ e failed ∙ same)

  consume-Lost :
      (now : String) (offset : ℕ) (ev : ProductEvent) (s : Consumed E)
      → IsProduct ev.product
      → IsAction ev.action
      → let s' =
          consume E now
            (record { topic = "product-events"; offset = offset; value = json (encode_event ev) })
            s in
        (D.doc s'.index ≡ D.doc s.index) × (s'.marked ≡ s.marked ++ offset ∷ [])
  unfolding consume unmarshal
  consume-Lost now offset ev s p a =
      rw (decode-encode_event ev zero_event p) (sync_product-doc now ev s.index a, refl)

  -- Events that are consumed while Elasticsearch fails leave no document behind, neither of the
  -- product nor of the audit, and yet every one of their messages is marked as done.
  pub consume_claim-Lost :
      (now : String) (n : ℕ) (es : List ProductEvent) (s : Consumed E)
      → AllEvents es
      → let s' = consume_claim E now (event_messages n es) s in
        (D.doc s'.index ≡ D.doc s.index) × (s'.marked ≡ s.marked ++ offsets (event_messages n es))
  unfolding consume_claim
  consume_claim-Lost now n [] s h = (refl, sym (append-nil s.marked))
  consume_claim-Lost now n (e ∷ es) s (range, action, h) =
      let (same, marked) = consume-Lost now n e s range action in
      let (sames, markeds) = consume_claim-Lost now (suc n) es _ h in
      (
        sames ∙ same,
        markeds
            ∙ ap (λ ms. ms ++ offsets (event_messages (suc n) es)) marked
            ∙ append_assoc s.marked (n ∷ []) _,
      )
