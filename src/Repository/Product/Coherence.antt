-- ===== src/Repository/Product/Coherence.antt =====
-- The entries `product:<id>` of the cache against the table, under each operation on either.
use belajar_backend_go_v.Base.{
  ℕ, ◌≡◌, ◌≢◌, sym, ap, inl, inr, false, Option, none, some, String, ℤ, IsInt64, eqb_ℤ, eqb_ℤ_iff,
  Bool-cases,
}
use belajar_backend_go_v.Json.{Document, json}
use belajar_backend_go_v.Models.{Product}
use belajar_backend_go_v.Models.Codec.{encode_product}
use belajar_backend_go_v.Models.RoundTrip.{IsProduct}
use belajar_backend_go_v.Services.{Cache, Services, World}
use belajar_backend_go_v.Services.Laws.{IsCache}
use belajar_backend_go_v.Repository.Product.{product_key}
use belajar_backend_go_v.Repository.Product.Keys.{product_key_injective}
use belajar_backend_go_v.Repository.Contract.{Tables, set_row, IsDatabase}

module _ (C : Cache) where
  -- What is cached for a product is the JSON of its row.
  abbrev pub IsCoherent : Tables → C.Store → Type 0
  IsCoherent t s =
      (id : ℤ) (d : Document)
      → IsInt64 id
      → C.get (product_key id) s ≡ some d
      → (p : Product) × (t.product id ≡ some p) × (d ≡ json (encode_product p)) × IsProduct p

  module _ (L : IsCache C) where
    pub set-IsCoherent :
        (t : Tables) (s : C.Store) (id : ℤ) (p : Product) (ttl : ℕ)
        → IsInt64 id
        → t.product id ≡ some p
        → IsProduct p
        → IsCoherent t s
        → IsCoherent t (C.set (product_key id) (json (encode_product p)) ttl s)
    set-IsCoherent t s id p ttl hid found range h j d hj e =
        elim (L.get-set (product_key j) (product_key id) _ d ttl s e) [
          | inl (key, same) ↦
              let here : j ≡ id = product_key_injective j id hj hid key in
              (p, rw here found, same, range)
          | inr old ↦ h j d hj old
        ]

    pub set_other-IsCoherent :
        (t : Tables) (s : C.Store) (k : String) (v : Document) (ttl : ℕ)
        → ((id : ℤ) → k ≢ product_key id)
        → IsCoherent t s
        → IsCoherent t (C.set k v ttl s)
    set_other-IsCoherent t s k v ttl ne h j d hj e =
        elim (L.get-set (product_key j) k v d ttl s e) [
          | inl (key, _) ↦ absurd (ne j (sym key))
          | inr old ↦ h j d hj old
        ]

    pub del-IsCoherent :
        (t : Tables) (s : C.Store) (k : String) → IsCoherent t s → IsCoherent t (C.del k s)
    del-IsCoherent t s k h j d hj e = h j d hj (L.get-del (product_key j) k d s e).1

    -- A row may change in any way if its entry is deleted.
    pub change-IsCoherent :
        (t : Tables) (s : C.Store) (id : ℤ) (row : Option Product)
        → IsCoherent t s
        → IsCoherent (set_row id row t) (C.del (product_key id) s)
    change-IsCoherent t s id row h j d hj e =
        let (ne, old) = L.get-del (product_key j) (product_key id) d s e in
        let other : eqb_ℤ j id ≡ false = elim (Bool-cases (eqb_ℤ j id)) [
          | inl same ↦ absurd (ne (ap product_key ((eqb_ℤ_iff j id).0 same)))
          | inr other ↦ other
        ] in
        rw other (h j d hj old)

  -- A row may appear where there was none: nothing is cached for it.
  pub insert-IsCoherent :
      (t : Tables) (s : C.Store) (id : ℤ) (row : Option Product)
      → t.product id ≡ none
      → IsCoherent t s
      → IsCoherent (set_row id row t) s
  insert-IsCoherent t s id row fresh h j d hj e = elim (Bool-cases (eqb_ℤ j id)) [
    | inl same ↦
        let (p, found, _, _) = h j d hj e in
        let here : j ≡ id = (eqb_ℤ_iff j id).0 same in absurd (cc (here, found, fresh))
    | inr other ↦ rw other (h j d hj e)
  ]

module _ (S : Services) (L : IsDatabase S) where
  -- The agreement of the two, in a state of the repository.
  abbrev pub IsCoherentWorld : World S → Type 0
  IsCoherentWorld w = IsCoherent S.cache (L.tables w.db) w.store
