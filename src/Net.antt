-- ===== src/Net.antt =====
-- What the program uses of Go's `net`: the host of `SplitHostPort`.
use Prim.Native.Char.{Char, code}
use Prim.Native.String.{[], ◌∷◌}
use belajar_backend_go_v.Base.{
  ℕ, ◌≡◌, refl, Bool, false, not, ◌&&◌, ◌||◌, Option, none, some, String, ◌==◌, if◌then◌else◌,
}

has_code : ℕ → String → Bool
has_code c [] = false
has_code c (d ∷ s) = code d == c || has_code c s

push_front : Char → Option (String × String) → Option (String × String)
push_front d none = none
push_front d (some (s, t)) = some (d ∷ s, t)

-- What stands before and behind the first such character.
cut_at : ℕ → String → Option (String × String)
unfolding push_front
cut_at c [] = none
cut_at c (d ∷ s) =
    let rest = push_front d (cut_at c s) in if code d == c then some ("", s) else rest

-- A port has no colon and no bracket.
is_port : String → Bool
unfolding has_code
is_port s = not (has_code b':' s) && not (has_code b'[' s) && not (has_code b']' s)

-- The part behind the bracket that closes the host: a colon and the port.
is_colon_port : String → Bool
unfolding is_port
is_colon_port [] = false
is_colon_port (c ∷ s) = code c == b':' && is_port s

check_bracketed : Option (String × String) → Option String
unfolding is_colon_port
check_bracketed none = none
check_bracketed (some (host, rest)) =
    if not (has_code b'[' host) && is_colon_port rest then some host else none

check_plain : Option (String × String) → Option String
unfolding is_port
check_plain none = none
check_plain (some (host, port)) = if is_port host && is_port port then some host else none

-- The host, or none where `SplitHostPort` returns an error: "[host]:port", whose host may hold
-- colons, or "host:port".
unfoldable pub split_host : String → Option String
unfolding cut_at check_bracketed check_plain
split_host [] = none
split_host (c ∷ s) =
    if code c == b'[' then check_bracketed (cut_at b']' s) else check_plain (cut_at b':' (c ∷ s))

hosts :
    (split_host "10.0.0.7:5000" ≡ some "10.0.0.7")
    × (split_host "[::1]:80" ≡ some "::1")
    × (split_host "::1:80" ≡ none)
    × (split_host "10.0.0.7" ≡ none)
    × (split_host "[::1]" ≡ none)
unfolding split_host
hosts = (refl, refl, refl, refl, refl)
