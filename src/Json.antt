-- ===== src/Json.antt =====
-- JSON as `res.json()` gives it to the adapters of packages/adapter-kit, packages/sep31 and
-- packages/sep6, with the reads that they make of an untrusted value. A number is opaque, since the
-- adapters never compute with one; upper and lower case are those of the ASCII letters.
use Prim.Native.Char.{Char, code}
use corridor_in_a_box.Base.{
  ℕ, zero, suc, ◌-◌, String, Bool, true, false, ◌&&◌, Option, none, some, if◌then◌else◌, leb,
  str_eq,
}

mutual
  pub data Json : Type 0 where
    null : Json
    bool : Bool → Json
    num : ℕ → Json
    str : String → Json
    arr : Items → Json
    obj : Fields → Json

  pub data Items : Type 0 where
    nil : Items
    cons : Json → Items → Items

  pub data Fields : Type 0 where
    end : Fields
    field : String → Json → Fields → Fields

unfoldable pub lookup : String → Fields → Option Json
lookup k end = none
lookup k (field j v fs) = if str_eq j k then some v else lookup k fs

-- `value.key`: only an object has fields of its own.
unfoldable pub get : String → Json → Option Json
unfolding lookup
get k (obj fs) = lookup k fs
get k _ = none

-- `typeof v === "string" ? v : undefined`.
abbrev pub text_of : Option Json → Option String
text_of (some (str s)) = some s
text_of _ = none

abbrev pub non_empty : Option String → Option String
non_empty none = none
non_empty (some s) = if str_eq s "" then none else some s

-- `typeof v === "string" && v ? v : undefined`.
abbrev pub text : String → Json → Option String
text k j = non_empty (text_of (get k j))

abbrev pub fields_of : Option Json → Option Fields
fields_of (some (obj fs)) = some fs
fields_of _ = none

abbrev pub items_of : Option Json → Items
items_of (some (arr xs)) = xs
items_of _ = nil

abbrev pub is_null : Json → Bool
is_null null = true
is_null _ = false

-- The character of a text at a place.
letter_at : String → ℕ → Char → Char
letter_at String.[] n d = d
letter_at (String.◌∷◌ c s) zero d = c
letter_at (String.◌∷◌ c s) (suc n) d = letter_at s n d

map_chars : (Char → Char) → String → String
map_chars f String.[] = String.[]
map_chars f (String.◌∷◌ c s) = String.◌∷◌ (f c) (map_chars f s)

unfoldable pub to_lower : String → String
unfolding letter_at map_chars
to_lower = map_chars λ c.
    if leb b'A' (code c) && leb (code c) b'Z'
    then letter_at "abcdefghijklmnopqrstuvwxyz" (code c - b'A') c
    else c

unfoldable pub to_upper : String → String
unfolding letter_at map_chars
to_upper = map_chars λ c.
    if leb b'a' (code c) && leb (code c) b'z'
    then letter_at "ABCDEFGHIJKLMNOPQRSTUVWXYZ" (code c - b'a') c
    else c
