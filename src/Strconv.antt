-- ===== src/Strconv.antt =====
-- What the program uses of Go's `strconv` and `fmt`: `Atoi`, and the verb `%d`.
pub mod Laws
use Prim.Native.Char.{Char, code}
use Prim.Native.String.{[], ◌∷◌, ◌++◌}
use belajar_backend_go_v.Base.{
  ℕ, zero, suc, ◌+◌, ◌-◌, ◌*◌, ◌/◌, ◌%◌, Bool, true, false, ◌||◌, Option, none, some, String, ℤ,
  pos, negsuc, sub_ℕ, ltb, leb, ◌==◌, if◌then◌else◌, max_int, min_int,
}

digit : ℕ → Char
digit d =
    if d == 0
    then "0"
    else if d == 1
    then "1"
    else if d == 2
    then "2"
    else if d == 3
    then "3"
    else if d == 4
    then "4"
    else if d == 5
    then "5"
    else if d == 6
    then "6"
    else if d == 7
    then "7"
    else if d == 8
    then "8"
    else "9"

-- The decimal digits of a number; the number itself is fuel enough for the divisions by ten.
itoa_loop : ℕ → ℕ → String
unfolding digit
itoa_loop zero n = digit n ∷ []
itoa_loop (suc f) n =
    let rest = itoa_loop f (n / 10) ++ (digit (n % 10) ∷ []) in
    if ltb n 10 then digit n ∷ [] else rest

-- `fmt.Sprintf("%d", x)`.
unfoldable pub itoa : ℤ → String
unfolding itoa_loop
itoa (pos n) = itoa_loop n n
itoa (negsuc n) = "-" ++ itoa_loop (suc n) (suc n)

pub data NumError : Type 0 where
  syntax range : NumError

pub data Scan : Type 0 where
  digits : ℕ → Scan
  failed : NumError → Scan

abbrev max_uint : ℕ
max_uint = 18446744073709551615

-- The loop of `strconv.ParseUint` in base 10: the first overflow or the first character that is no
-- digit ends it.
scan : String → ℕ → Scan
scan [] n = digits n
scan (c ∷ s) n =
    let rest = scan s (n * 10 + (code c - 48)) in
    if ltb (code c) 48 || ltb 57 (code c)
    then failed syntax
    else if ltb max_uint (n * 10 + (code c - 48))
    then failed range
    else rest

-- The end of `strconv.ParseInt`: on an overflow the value is the nearest `int`, beside the error.
parse_signed : Bool → Scan → ℤ × Option NumError
parse_signed neg (failed syntax) = (pos 0, some syntax)
parse_signed false (failed range) = (max_int, some range)
parse_signed true (failed range) = (min_int, some range)
parse_signed false (digits n) =
    if ltb 9223372036854775807 n then (max_int, some range) else (pos n, none)
parse_signed true (digits n) =
    if ltb 9223372036854775808 n then (min_int, some range) else (sub_ℕ 0 n, none)

parse_unsigned : Bool → String → ℤ × Option NumError
unfolding scan parse_signed
parse_unsigned neg [] = (pos 0, some syntax)
parse_unsigned neg (c ∷ s) = parse_signed neg (scan (c ∷ s) 0)

-- `strconv.Atoi`: the value and the error.
unfoldable pub atoi : String → ℤ × Option NumError
unfolding parse_unsigned
atoi [] = (pos 0, some syntax)
atoi (c ∷ s) =
    if code c == b'-'
    then parse_unsigned true s
    else if code c == b'+'
    then parse_unsigned false s
    else parse_unsigned false (c ∷ s)
