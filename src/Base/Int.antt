-- ===== src/Base/Int.antt =====
-- Signed integers over the native numbers, and Go's `int` (64 bits) and `int32` with wrap-around.
use Prim.Native.Nat.{ℕ, suc, ◌+◌, ◌-◌, ◌*◌, ◌%◌, ◌≤◌}
use mathlib.Core.Path.{◌≡◌}
use mathlib.Core.Logic.{◌↔◌}
use mathlib.Core.Bool.{Bool, true}
use native.Mathlib.Omega.{arith}
use belajar_backend_go_v.Base.Tests.{ltb, leb, ◌==◌, if◌then◌else◌}

-- `negsuc n` is -(n + 1).
pub data ℤ : Type 0 where
  pos : ℕ → ℤ
  negsuc : ℕ → ℤ

abbrev pub pos_part : ℤ → ℕ
pos_part (pos n) = n
pos_part (negsuc n) = 0

abbrev pub neg_part : ℤ → ℕ
neg_part (pos n) = 0
neg_part (negsuc n) = suc n

abbrev pub sub_ℕ : ℕ → ℕ → ℤ
sub_ℕ a b = if leb b a then pos (a - b) else negsuc (b - a - 1)

infixl 65 ◌+ℤ◌ ◌-ℤ◌
infixl 70 ◌*ℤ◌
infix 50 ◌≤ℤ◌
unfoldable pub ◌+ℤ◌ : ℤ → ℤ → ℤ
a +ℤ b = sub_ℕ (pos_part a + pos_part b) (neg_part a + neg_part b)

unfoldable pub ◌-ℤ◌ : ℤ → ℤ → ℤ
a -ℤ b = sub_ℕ (pos_part a + neg_part b) (neg_part a + pos_part b)

unfoldable pub ◌*ℤ◌ : ℤ → ℤ → ℤ
a *ℤ b =
    sub_ℕ (pos_part a * pos_part b + neg_part a * neg_part b)
      (pos_part a * neg_part b + neg_part a * pos_part b)

abbrev pub ◌≤ℤ◌ : ℤ → ℤ → Type 0
a ≤ℤ b = pos_part a + neg_part b ≤ pos_part b + neg_part a

abbrev pub ltb_ℤ : ℤ → ℤ → Bool
ltb_ℤ a b = ltb (pos_part a + neg_part b) (pos_part b + neg_part a)

abbrev pub leb_ℤ : ℤ → ℤ → Bool
leb_ℤ a b = leb (pos_part a + neg_part b) (pos_part b + neg_part a)

abbrev pub eqb_ℤ : ℤ → ℤ → Bool
eqb_ℤ a b = pos_part a + neg_part b == pos_part b + neg_part a

pub +ℤ_parts :
    (a b : ℤ)
    → pos_part (a +ℤ b) + neg_part a + neg_part b ≡ neg_part (a +ℤ b) + pos_part a + pos_part b
unfolding ◌+ℤ◌
+ℤ_parts a b = ground arith

pub -ℤ_parts :
    (a b : ℤ)
    → pos_part (a -ℤ b) + neg_part a + pos_part b ≡ neg_part (a -ℤ b) + pos_part a + neg_part b
unfolding ◌-ℤ◌
-ℤ_parts a b = ground arith

pub eq_of_parts : (a b : ℤ) → pos_part a + neg_part b ≡ pos_part b + neg_part a → a ≡ b
eq_of_parts a b h = ground arith

pub eqb_ℤ_iff : (a b : ℤ) → (eqb_ℤ a b ≡ true) ↔ (a ≡ b)
eqb_ℤ_iff a b = ground (arith, eq_of_parts a b)

pub eqb_ℤ_refl : (a : ℤ) → eqb_ℤ a a ≡ true
eqb_ℤ_refl a = ground arith

pub ruleset int_laws = (arith, +ℤ_parts, -ℤ_parts, eq_of_parts)

-- The residue of an integer modulo a number above 0: its bits, at a power of two.
abbrev pub residue : ℤ → ℕ → ℕ
residue (pos n) m = n % m
residue (negsuc n) m = m - 1 - n % m

-- The integer that a pattern below `m` stands for in two's complement, `m` even.
abbrev pub signed : ℕ → ℕ → ℤ
signed b m = if ltb (b + b) m then pos b else negsuc (m - b - 1)

abbrev pub int64_mod : ℕ
int64_mod = 18446744073709551616

abbrev pub int32_mod : ℕ
int32_mod = 4294967296

-- What a computed `int` holds, and the conversion `int32(x)`.
unfoldable pub wrap64 : ℤ → ℤ
wrap64 x = signed (residue x int64_mod) int64_mod

unfoldable pub wrap32 : ℤ → ℤ
wrap32 x = signed (residue x int32_mod) int32_mod

abbrev pub max_int : ℤ
max_int = pos 9223372036854775807

abbrev pub min_int : ℤ
min_int = negsuc 9223372036854775807

abbrev pub IsInt64 : ℤ → Type 0
IsInt64 x = (min_int ≤ℤ x) × (x ≤ℤ max_int)

abbrev pub IsInt32 : ℤ → Type 0
IsInt32 x = (negsuc 2147483647 ≤ℤ x) × (x ≤ℤ pos 2147483647)

pub wrap64-IsInt64 : (x : ℤ) → IsInt64 (wrap64 x)
unfolding wrap64
wrap64-IsInt64 x = ground arith

pub wrap32-IsInt32 : (x : ℤ) → IsInt32 (wrap32 x)
unfolding wrap32
wrap32-IsInt32 x = ground arith

pub wrap64_self : (x : ℤ) → IsInt64 x → wrap64 x ≡ x
unfolding wrap64
wrap64_self x h = ground arith

pub wrap32_self : (x : ℤ) → IsInt32 x → wrap32 x ≡ x
unfolding wrap32
wrap32_self x h = ground arith
