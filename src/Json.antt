-- ===== src/Json.antt =====
-- What the program uses of Go's `encoding/json`. A text is represented by its syntax tree;
-- `malformed` stands for every text that is not JSON, the empty one included.
use Prim.Native.Char.{code}
use belajar_backend_go_v.Base.{
  ℕ, ◌-◌, Bool, true, false, ◌&&◌, List, [], ◌∷◌, String, ℤ, leb, leb_ℤ, ◌==◌, if◌then◌else◌,
  max_int, min_int,
}

mutual
  pub data Json : Type 0 where
    null : Json
    bool : Bool → Json
    num : ℤ → Json
    -- a number whose literal is not a plain integer, such as 1.5 or 1e3
    real : Json
    str : String → Json
    arr : Elems → Json
    obj : Members → Json

  pub data Elems : Type 0 where
    nil : Elems
    cons : Json → Elems → Elems

  pub data Members : Type 0 where
    end : Members
    member : String → Json → Members → Members

pub data Document : Type 0 where
  malformed : Document
  json : Json → Document

-- A key fits a field if the two agree after case folding. Field names are ASCII here, and
-- besides the ASCII letters only two characters fold to one: U+017F and the Kelvin sign.
fold_code : ℕ → ℕ
fold_code c =
    if leb b'a' c && leb c b'z'
    then c - 32
    else if c == 0x17f
    then b'S'
    else if c == 0x212a
    then b'K'
    else c

fold_name : String → List ℕ
fold_name String.[] = []
fold_name (String.◌∷◌ c s) = fold_code (code c) ∷ fold_name s

same_codes : List ℕ → List ℕ → Bool
same_codes [] [] = true
same_codes (a ∷ as') (b ∷ bs) = a == b && same_codes as' bs
same_codes _ _ = false

unfoldable pub fits : String → String → Bool
unfolding fold_code fold_name same_codes
fits key field = same_codes (fold_name key) (fold_name field)

-- Decoding writes into a value that exists; the result says whether there was no error. A `null`
-- changes nothing. After a value of the wrong type the rest is decoded all the same.
unfoldable pub decode_int : Json → ℤ → ℤ × Bool
decode_int null old = (old, true)
decode_int (num n) old = if leb_ℤ min_int n && leb_ℤ n max_int then (n, true) else (old, false)
decode_int _ old = (old, false)

unfoldable pub decode_string : Json → String → String × Bool
decode_string null old = (old, true)
decode_string (str s) old = (s, true)
decode_string _ old = (old, false)

module _ {T : Type 0} (assign : String → Json → T → T × Bool) where
  unfoldable pub decode_members : Members → T → T × Bool
  decode_members end t = (t, true)
  decode_members (member key value rest) t =
      let (t', here) = assign key value t in
      let (t'', later) = decode_members rest t' in (t'', here && later)

  unfoldable pub decode_struct : Json → T → T × Bool
  unfolding decode_members
  decode_struct null t = (t, true)
  decode_struct (obj ms) t = decode_members ms t
  decode_struct _ t = (t, false)

  -- Every element is decoded into a fresh zero value.
  unfoldable pub decode_elems : T → Elems → List T × Bool
  unfolding decode_struct
  decode_elems zero_value nil = ([], true)
  decode_elems zero_value (cons value rest) =
      let (t, here) = decode_struct value zero_value in
      let (ts, later) = decode_elems zero_value rest in (t ∷ ts, here && later)

  -- Into a slice that is nil so far; `null` leaves it nil.
  unfoldable pub decode_slice : T → Json → List T × Bool
  unfolding decode_elems
  decode_slice zero_value null = ([], true)
  decode_slice zero_value (arr es) = decode_elems zero_value es
  decode_slice zero_value _ = ([], false)

-- `json.Unmarshal` and `json.NewDecoder(…).Decode`: a malformed text changes nothing.
unfoldable pub unmarshal {ℓ} : {T : Type ℓ} → (Json → T → T × Bool) → Document → T → T × Bool
unmarshal decode malformed t = (t, false)
unmarshal decode (json j) t = decode j t
