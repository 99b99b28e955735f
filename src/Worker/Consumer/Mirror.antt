-- ===== src/Worker/Consumer/Mirror.antt =====
-- The search index against the table of products.
use package.text.Mathlib.Text.{◌==◌ as str_eq}
use package.text.Mathlib.TextEquality.{eq_iff}
use mathlib.Core.Option
use belajar_backend_go_v.Base.{
  ◌≡◌, ◌≢◌, refl, ap, ◌∙◌, ◌⊎◌, inl, inr, ◌&&◌, Option, none, some, List, [], ◌∷◌, ◌++◌, ℕ, suc, ℤ,
  IsInt64, eqb_ℤ, eqb_ℤ_iff, String, if◌then◌else◌, arith, Bool-cases,
}
use belajar_backend_go_v.Strconv.{itoa}
use belajar_backend_go_v.Strconv.Laws.{itoa_injective}
use belajar_backend_go_v.Json.{Json, json, unmarshal}
use belajar_backend_go_v.Models.{Product, ProductEvent, action_create, action_update, action_delete}
use belajar_backend_go_v.Models.Codec.{encode_product, encode_event}
use belajar_backend_go_v.Models.RoundTrip.{IsProduct, decode-encode_event}
use belajar_backend_go_v.Services.{Result, ok, err}
use belajar_backend_go_v.Repository.Contract.{Tables, set_row}
use belajar_backend_go_v.Worker.Search.{Elastic, sync_product, write_audit, audit_after}
use belajar_backend_go_v.Worker.Consumer.{
  ConsumerMessage, Consumed, zero_event, consume, consume_claim,
}

-- A cluster that answers every request: a document with an id is replaced or added, a deleted one
-- is gone (whether it was there or not), and a document without an id gets one of its own.
pub record IsElastic (E : Elastic) : Type 0 where
  pub doc : E.Store → String → String → Option Json
  pub index-ok :
      (name id : String) (j : Json) (s : E.Store)
      → (code : ℕ) × ((E.index name (some id) j s).0 ≡ ok code)
        × ((n i : String)
            → doc (E.index name (some id) j s).1 n i
              ≡ (if str_eq n name && str_eq i id then some j else doc s n i))
  pub delete-ok :
      (name id : String) (s : E.Store)
      → (code : ℕ) × ((E.delete name id s).0 ≡ ok code)
        × ((n i : String)
            → doc (E.delete name id s).1 n i
              ≡ (if str_eq n name && str_eq i id then none else doc s n i))
  pub index-new :
      (name : String) (j : Json) (s : E.Store) (n i : String)
      → n ≢ name
      → doc (E.index name none j s).1 n i ≡ doc s n i

-- The row that an event leaves: none after a deletion.
abbrev pub row_after : ProductEvent → Option Product
row_after e = if str_eq e.action action_delete then none else some e.product

abbrev pub IsAction : String → Type 0
IsAction a = (a ≡ action_create) ⊎ (a ≡ action_update) ⊎ (a ≡ action_delete)

products-ne-logs : ¬ (Path String "products" "product-logs")
products-ne-logs = ground (arith, eq_iff "products" "product-logs")

-- What events make of a table, the first of them first.
abbrev pub apply_events : List ProductEvent → Tables → Tables
apply_events [] t = t
apply_events (e ∷ es) t = apply_events es (set_row e.product.id (row_after e) t)

-- Their messages in a partition, from an offset on.
abbrev pub event_messages : ℕ → List ProductEvent → List ConsumerMessage
event_messages n [] = []
event_messages n (e ∷ es) =
    record { topic = "product-events"; offset = n; value = json (encode_event e) }
    ∷ event_messages (suc n) es

abbrev pub AllEvents : List ProductEvent → Type 0
AllEvents [] = Unit
AllEvents (e ∷ es) = IsProduct e.product × IsAction e.action × AllEvents es

str_eq-itoa : (x y : ℤ) → IsInt64 x → IsInt64 y → str_eq (itoa x) (itoa y) ≡ eqb_ℤ x y
str_eq-itoa x y hx hy =
    let same : x ≡ y → itoa x ≡ itoa y = ap itoa in
    let numbers = eqb_ℤ_iff x y in
    let texts = eq_iff (itoa x) (itoa y) in
    let inside = itoa_injective x y hx hy in
    elim (Bool-cases (eqb_ℤ x y)) [
      | inl e ↦ cc (e, texts.1 (same (numbers.0 e)))
      | inr ne ↦ elim (Bool-cases (str_eq (itoa x) (itoa y))) [
        | inl e ↦ cc (e, numbers.1 (inside (texts.0 e)))
        | inr e ↦ cc (e, ne)
      ]
    ]

module _ (E : Elastic) (L : IsElastic E) where
  -- The index "products" holds the JSON of every row, under its id, and nothing for an id that has
  -- no row.
  abbrev pub Mirrors : Tables → E.Store → Type 0
  Mirrors t s =
      (id : ℤ)
      → IsInt64 id
      → L.doc s "products" (itoa id) ≡ Option.map encode_product (t.product id)

  write_audit-doc :
      (now : String) (e : ProductEvent) (s : E.Store) (i : String)
      → L.doc (write_audit E now e s) "products" i ≡ L.doc s "products" i
  unfolding write_audit
  write_audit-doc now e s i = L.index-new "product-logs" _ s "products" i products-ne-logs

  audit_after-doc :
      (now : String) (e : ProductEvent) (r : Result ℕ × E.Store) (code : ℕ) (i : String)
      → r.0 ≡ ok code
      → L.doc (audit_after E now e r) "products" i ≡ L.doc r.1 "products" i
  unfolding audit_after
  audit_after-doc now e (ok c, s) code i h = write_audit-doc now e s i
  audit_after-doc now e (err g, s) code i h = absurd (ground (arith, h))

  -- What an event does to the index of products.
  sync_product-doc :
      (now : String) (e : ProductEvent) (s : E.Store) (i : String)
      → IsAction e.action
      → L.doc (sync_product E now e s) "products" i ≡ (
          if str_eq i (itoa e.product.id)
          then Option.map encode_product (row_after e)
          else L.doc s "products" i)
  unfolding sync_product
  sync_product-doc now e s i (inl a) =
      let h = L.index-ok "products" (itoa e.product.id) (encode_product e.product) s in
      rw (a) (audit_after-doc now _ _ h.0 i h.1 ∙ h.2 "products" i)
  sync_product-doc now e s i (inr (inl a)) =
      let h = L.index-ok "products" (itoa e.product.id) (encode_product e.product) s in
      rw (a) (audit_after-doc now _ _ h.0 i h.1 ∙ h.2 "products" i)
  sync_product-doc now e s i (inr (inr a)) =
      let h = L.delete-ok "products" (itoa e.product.id) s in
      rw (a) (audit_after-doc now _ _ h.0 i h.1 ∙ h.2 "products" i)

  -- An event that reached the topic with a product in range, consumed by the worker, takes an index
  -- that mirrors a table to one that mirrors the table after the change, and the message is marked.
  pub consume-Mirrors :
      (now : String) (offset : ℕ) (e : ProductEvent) (t : Tables) (s : Consumed E)
      → IsProduct e.product
      → IsAction e.action
      → Mirrors t s.index
      → let s' =
          consume E now
            (record { topic = "product-events"; offset = offset; value = json (encode_event e) })
            s in
        Mirrors (set_row e.product.id (row_after e) t) s'.index
        × (s'.marked ≡ s.marked ++ offset ∷ [])
  unfolding consume unmarshal
  consume-Mirrors now offset e t s p a m = rw (decode-encode_event e zero_event p) (
    λ id range.
        sync_product-doc now e s.index (itoa id) a
        ∙ ap
            (λ same.
              if same
              then Option.map encode_product (row_after e)
              else L.doc s.index "products" (itoa id))
            (str_eq-itoa id e.product.id range p.id)
        ∙ elim (Bool-cases (eqb_ℤ id e.product.id)) [
          | inl same ↦ rw (same) refl
          | inr other ↦ rw (other) (m id range)
        ],
    refl,
  )

  -- A claim of a partition with the events of any changes, in their order, takes an index that
  -- mirrors a table to one that mirrors the table after all of them.
  pub consume_claim-Mirrors :
      (now : String) (n : ℕ) (es : List ProductEvent) (t : Tables) (s : Consumed E)
      → AllEvents es
      → Mirrors t s.index
      → Mirrors (apply_events es t) (consume_claim E now (event_messages n es) s).index
  unfolding consume_claim
  consume_claim-Mirrors now n [] t s h m = m
  consume_claim-Mirrors now n (e ∷ es) t s (range, action, h) m =
      consume_claim-Mirrors now (suc n) es _ _ h (consume-Mirrors now n e t s range action m).0
