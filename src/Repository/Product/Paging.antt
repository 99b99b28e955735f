-- ===== src/Repository/Product/Paging.antt =====
-- The statement of `GetAll` in repository/product_repo.go and the page of models/product.go that it
-- asks for.
use package.text.Mathlib.Text.{◌==◌ as str_eq}
use package.text.Mathlib.TextEquality.{eq_iff}
use belajar_backend_go_v.Base.{
  ◌≡◌, ◌≢◌, refl, ◌⊎◌, [], ◌∷◌, ◌<>◌, ℤ, pos, negsuc, ◌-ℤ◌, ◌*ℤ◌, ◌≤ℤ◌, -ℤ_parts, max_int, wrap64,
  wrap64_self, arith,
}
use belajar_backend_go_v.Models.{ProductFilter, get_offset}
use belajar_backend_go_v.Services.{Services, int, txt}
use belajar_backend_go_v.Repository.Product.{build_query, search_clause}

mul_nonneg : (a b : ℤ) → pos 0 ≤ℤ a → pos 0 ≤ℤ b → pos 0 ≤ℤ a *ℤ b
unfolding ◌*ℤ◌
mul_nonneg (pos a) (pos b) ha hb = ground arith
mul_nonneg (negsuc a) b ha hb = absurd (omega (arith, ha))
mul_nonneg (pos a) (negsuc b) ha hb = absurd (omega (arith, hb))

page_start :
    (page limit : ℤ)
    → pos 1 ≤ℤ page
    → pos 1 ≤ℤ limit
    → page ≤ℤ max_int
    → (page -ℤ pos 1) *ℤ limit ≤ℤ max_int
    → (wrap64 (wrap64 (page -ℤ pos 1) *ℤ limit) ≡ (page -ℤ pos 1) *ℤ limit)
      × (pos 0 ≤ℤ wrap64 (wrap64 (page -ℤ pos 1) *ℤ limit))
page_start page limit hp hl small fits =
    let before = page -ℤ pos 1 in
    let parts = -ℤ_parts page (pos 1) in
    let first : pos 0 ≤ℤ before = omega (arith, parts, hp) in
    let start = mul_nonneg before limit first (omega (arith, hl)) in
    let inside : wrap64 before ≡ before =
      wrap64_self before (omega (arith, first), omega (arith, parts, small)) in
    let same : wrap64 (wrap64 before *ℤ limit) ≡ before *ℤ limit =
      rw (inside) (wrap64_self (before *ℤ limit) (omega (arith, start), fits)) in
    (same, rw (same) start)

pub get_offset_lem :
    (f : ProductFilter)
    → let (offset, g) = get_offset f in
      g.page ≤ℤ max_int
      → (g.page -ℤ pos 1) *ℤ g.limit ≤ℤ max_int
      → (pos 1 ≤ℤ g.page)
        × (pos 1 ≤ℤ g.limit)
        × (g.search ≡ f.search)
        × (offset ≡ (g.page -ℤ pos 1) *ℤ g.limit)
        × (pos 0 ≤ℤ offset)
unfolding get_offset
get_offset_lem f small fits =
    let g = (get_offset f).1 in
    let page : pos 1 ≤ℤ g.page = ground arith in
    let limit : pos 1 ≤ℤ g.limit = ground arith in
    let (start, nonneg) = page_start g.page g.limit page limit small fits in
    (page, limit, refl, start, nonneg)

module _ (S : Services) where
  -- For a page and a limit of at least one, the text of the statement depends on nothing in the
  -- filter but whether there is a search, what the user searches for is an argument and never part
  -- of the text, and limit and offset are the last two arguments, whichever is evaluated first.
  pub build_query_lem :
      (f g : ProductFilter)
      → pos 1 ≤ℤ f.page
      → pos 1 ≤ℤ f.limit
      → str_eq f.search "" ≡ str_eq g.search ""
      → ((build_query S f).0 ≡ (build_query S g).0)
        × (((f.search ≡ "") × ((build_query S f).1 ≡ int f.limit ∷ int (get_offset f).0 ∷ []))
            ⊎ ((f.search ≢ "")
                × ((build_query S f).1
                    ≡ txt ("%" <> (f.search <> "%")) ∷ int f.limit ∷ int (get_offset f).0 ∷ [])))
  unfolding build_query search_clause get_offset
  build_query_lem f g page limit same = ground (arith, eq_iff f.search "")
