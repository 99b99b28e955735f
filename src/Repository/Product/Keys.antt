-- ===== src/Repository/Product/Keys.antt =====
-- The keys of the cache do not collide.
use Prim.Native.Char.{code}
use Prim.Native.String.{◌∷◌}
use package.text.Mathlib.TextLemmas.{cons-append, append_cancel_left}
use belajar_backend_go_v.Base.{◌≡◌, ◌≢◌, String, ◌<>◌, ℤ, IsInt64, ap, arith, ℕ, zero, suc}
use belajar_backend_go_v.Strconv.{itoa}
use belajar_backend_go_v.Strconv.Laws.{itoa_injective}
use belajar_backend_go_v.Models.{ProductFilter}
use belajar_backend_go_v.Repository.Product.{list_key, product_key, all_key}

-- Two ids in 64 bits that share a cache key are one.
pub product_key_injective :
    (x y : ℤ) → IsInt64 x → IsInt64 y → product_key x ≡ product_key y → x ≡ y
unfolding product_key
product_key_injective x y hx hy e =
    itoa_injective x y hx hy (append_cancel_left "product:" (itoa x) (itoa y) e)

-- The code of the character behind the first `n`, 0 in a shorter text.
abbrev pub code_at : ℕ → String → ℕ
code_at n String.[] = 0
code_at zero (c ∷ s) = code c
code_at (suc n) (c ∷ s) = code_at n s

abbrev pub IsInside : ℕ → String → Type 0
IsInside n String.[] = ⊥
IsInside zero (c ∷ s) = Unit
IsInside (suc n) (c ∷ s) = IsInside n s

pub code_at-append : (n : ℕ) (s t : String) → IsInside n s → code_at n (s <> t) ≡ code_at n s
code_at-append n String.[] t h = absurd h
code_at-append zero (c ∷ s) t h = rw cons-append
code_at-append (suc n) (c ∷ s) t h = rw cons-append (code_at-append n s t h)

product_key-code : (id : ℤ) → code_at 7 (product_key id) ≡ b':'
unfolding product_key
product_key-code id = code_at-append 7 "product:" (itoa id) tt

list_key-code :
    (f : ProductFilter) → (code_at 7 (list_key f) ≡ b's') × (code_at 9 (list_key f) ≡ b'p')
unfolding list_key
list_key-code f =
    let tail = itoa f.page <> (":limit:" <> (itoa f.limit <> (":search:" <> f.search))) in
    (code_at-append 7 "products:page:" tail tt, code_at-append 9 "products:page:" tail tt)

-- The key of a page is the key of no product, whatever is searched for.
pub list_key-ne-product_key : (f : ProductFilter) (id : ℤ) → list_key f ≢ product_key id
list_key-ne-product_key f id e =
    omega (arith, product_key-code id, (list_key-code f).0, ap (code_at 7) e)

all_key-ne-product_key : (id : ℤ) → all_key ≢ product_key id
all_key-ne-product_key id e = omega (arith, product_key-code id, ap (code_at 7) e)

pub list_key-ne-all_key : (f : ProductFilter) → list_key f ≢ all_key
list_key-ne-all_key f e = omega (arith, (list_key-code f).1, ap (code_at 9) e)
