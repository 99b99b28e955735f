-- ===== src/Strconv/Laws.antt =====
-- `Atoi` reads back what `%d` prints, and two integers never print alike.
use Prim.Native.Char.{Char, code}
use Prim.Native.String.{[], ◌∷◌, ◌++◌}
use text.Mathlib.TextLemmas.{nil-append, cons-append}
use belajar_backend_go_v.Base.{
  ℕ, zero, suc, ◌+◌, ◌-◌, ◌*◌, ◌/◌, ◌%◌, ◌≤◌, ◌<◌, ◌≡◌, refl, sym, ap, ◌∙◌, Bool, true, false,
  Option, none, String, ℤ, pos, negsuc, ltb, Bool-cases, arith, IsInt64, inl, inr,
}
use belajar_backend_go_v.Strconv.{
  digit, itoa_loop, itoa, NumError, syntax, range, Scan, digits, failed, max_uint, scan,
  parse_signed, parse_unsigned, atoi,
}

code-digit : (d : ℕ) → d < 10 → code (digit d) ≡ 48 + d
unfolding digit
code-digit zero h = refl
code-digit (suc zero) h = refl
code-digit (suc (suc zero)) h = refl
code-digit (suc (suc (suc zero))) h = refl
code-digit (suc (suc (suc (suc zero)))) h = refl
code-digit (suc (suc (suc (suc (suc zero))))) h = refl
code-digit (suc (suc (suc (suc (suc (suc zero)))))) h = refl
code-digit (suc (suc (suc (suc (suc (suc (suc zero))))))) h = refl
code-digit (suc (suc (suc (suc (suc (suc (suc (suc zero)))))))) h = refl
code-digit (suc (suc (suc (suc (suc (suc (suc (suc (suc zero))))))))) h = refl
code-digit (suc (suc (suc (suc (suc (suc (suc (suc (suc (suc n)))))))))) h = absurd (omega arith)

-- A character that was read is read alike whatever follows.
scan-cons :
    (c : Char) (s t : String) (n m : ℕ)
    → scan (c ∷ s) n ≡ digits m
    → (scan s (n * 10 + (code c - 48)) ≡ digits m)
      × (scan (c ∷ t) n ≡ scan t (n * 10 + (code c - 48)))
unfolding scan
scan-cons c s t n m e = ground arith

scan-append : (s t : String) (n m : ℕ) → scan s n ≡ digits m → scan (s ++ t) n ≡ scan t m
unfolding scan
scan-append [] t n m e = rw nil-append (cc)
scan-append (c ∷ s) t n m e =
    let (read, same) = scan-cons c s (s ++ t) n m e in
    rw (cons-append, same) (scan-append s t (n * 10 + (code c - 48)) m read)

scan-digit :
    (d n : ℕ) → d < 10 → n * 10 + d ≤ max_uint → scan (digit d ∷ []) n ≡ digits (n * 10 + d)
unfolding scan
scan-digit d n h k = ground (arith, code-digit d h)

scan-itoa_loop : (f n : ℕ) → n ≤ f → n ≤ max_uint → scan (itoa_loop f n) 0 ≡ digits n
unfolding itoa_loop
scan-itoa_loop zero n h k = scan-digit n 0 (omega arith) (omega arith) ∙ ap digits (omega arith)
scan-itoa_loop (suc f) n h k = elim (Bool-cases (ltb n 10)) [
  | inl small ↦ rw small (scan-digit n 0 (ground arith) (ground arith) ∙ ap digits (omega arith))
  | inr large ↦ rw large (
      scan-append (itoa_loop f (n / 10)) (digit (n % 10) ∷ []) 0 (n / 10)
        (scan-itoa_loop f (n / 10) (ground arith) (ground arith))
      ∙ scan-digit (n % 10) (n / 10) (omega arith) (omega arith)
      ∙ ap digits (omega arith))
]

-- The text begins with a character between 48 and 57.
abbrev StartsWithDigit : String → Type 0
StartsWithDigit [] = ⊥
StartsWithDigit (c ∷ s) = (48 ≤ code c) × (code c ≤ 57)

StartsWithDigit-append : (s t : String) → StartsWithDigit s → StartsWithDigit (s ++ t)
StartsWithDigit-append [] t h = absurd h
StartsWithDigit-append (c ∷ s) t h = rw cons-append h

itoa_loop-StartsWithDigit : (f n : ℕ) → n ≤ f → StartsWithDigit (itoa_loop f n)
unfolding itoa_loop
itoa_loop-StartsWithDigit zero n h = omega (arith, code-digit n (omega arith))
itoa_loop-StartsWithDigit (suc f) n h = elim (Bool-cases (ltb n 10)) [
  | inl small ↦ rw small (let below : n < 10 = ground arith in omega (arith, code-digit n below))
  | inr large ↦ rw large (
      StartsWithDigit-append (itoa_loop f (n / 10)) (digit (n % 10) ∷ [])
        (itoa_loop-StartsWithDigit f (n / 10) (ground arith)))
]

-- With a digit in front there is no sign to read.
atoi_of_digits :
    (s : String) (n : ℕ)
    → StartsWithDigit s
    → scan s 0 ≡ digits n
    → atoi s ≡ parse_signed false (digits n)
unfolding atoi
atoi_of_digits [] n h e = absurd h
atoi_of_digits (c ∷ s) n h e = ground arith

atoi_of_minus :
    (s : String) (n : ℕ)
    → StartsWithDigit s
    → scan s 0 ≡ digits n
    → atoi ("-" ++ s) ≡ parse_signed true (digits n)
unfolding atoi
atoi_of_minus [] n h e = absurd h
atoi_of_minus (c ∷ s) n h e = rw (cons-append, nil-append) (ground arith)

-- `strconv.Atoi` gives back, with no error, every `int` that `%d` prints.
pub atoi-itoa : (x : ℤ) → IsInt64 x → atoi (itoa x) ≡ (x, none)
unfolding itoa parse_signed
atoi-itoa (pos n) h =
    atoi_of_digits (itoa_loop n n) n (itoa_loop-StartsWithDigit n n (omega arith))
      (scan-itoa_loop n n (omega arith) (omega arith))
    ∙ ground arith
atoi-itoa (negsuc n) h =
    atoi_of_minus (itoa_loop (suc n) (suc n)) (suc n)
      (itoa_loop-StartsWithDigit (suc n) (suc n) (omega arith))
      (scan-itoa_loop (suc n) (suc n) (omega arith) (omega arith))
    ∙ ground arith

-- Two different `int`s are never printed alike.
pub itoa_injective : (x y : ℤ) → IsInt64 x → IsInt64 y → itoa x ≡ itoa y → x ≡ y
itoa_injective x y hx hy e =
    ap (λ (r : ℤ × Option NumError). r.0) (sym (atoi-itoa x hx) ∙ ap atoi e ∙ atoi-itoa y hy)

parse_signed-IsInt64 : (neg : Bool) (r : Scan) → IsInt64 (parse_signed neg r).0
unfolding parse_signed
parse_signed-IsInt64 true (failed syntax) = omega arith
parse_signed-IsInt64 false (failed syntax) = omega arith
parse_signed-IsInt64 true (failed range) = omega arith
parse_signed-IsInt64 false (failed range) = omega arith
parse_signed-IsInt64 true (digits n) = ground arith
parse_signed-IsInt64 false (digits n) = ground arith

parse_unsigned-IsInt64 : (neg : Bool) (s : String) → IsInt64 (parse_unsigned neg s).0
unfolding parse_unsigned
parse_unsigned-IsInt64 neg [] = omega arith
parse_unsigned-IsInt64 neg (c ∷ s) = parse_signed-IsInt64 neg (scan (c ∷ s) 0)

-- Whatever the text, the value that `strconv.Atoi` returns is an `int`.
pub atoi-IsInt64 : (s : String) → IsInt64 (atoi s).0
unfolding atoi
atoi-IsInt64 [] = omega arith
atoi-IsInt64 (c ∷ s) = ground (
  arith,
  parse_unsigned-IsInt64 true s,
  parse_unsigned-IsInt64 false s,
  parse_unsigned-IsInt64 false (c ∷ s),
)
