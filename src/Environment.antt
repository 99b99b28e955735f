-- ===== src/Environment.antt =====
-- How the two programs read their environment: `os.Getenv` gives the empty text for what is not
-- set, and lists of addresses are split at the commas.
use Prim.Native.Char.{Char, code}
use belajar_backend_go_v.Base.{List, [], ◌∷◌, String, ◌==◌, if◌then◌else◌}

-- `if v == "" { v = fallback }`
unfoldable pub or_default : String → String → String
or_default String.[] fallback = fallback
or_default (String.◌∷◌ c s) fallback = String.◌∷◌ c s

-- `strings.Split(s, ",")`
push_front : Char → List String → List String
push_front c [] = String.◌∷◌ c "" ∷ []
push_front c (w ∷ ws) = String.◌∷◌ c w ∷ ws

unfoldable pub split_commas : String → List String
unfolding push_front
split_commas String.[] = "" ∷ []
split_commas (String.◌∷◌ c s) =
    let rest = split_commas s in if code c == b',' then "" ∷ rest else push_front c rest
