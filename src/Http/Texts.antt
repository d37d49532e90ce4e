-- ===== src/Http/Texts.antt =====
-- The methods of Rust's `str` that the routes use.
use Prim.Native.Char.{Char, code}
use singbox_sub_me.Prelude.{
  ℕ, ◌+◌, ◌-◌, ◌*◌, String, Bool, false, ◌&&◌, ◌||◌, Option, none, some, List, [], ◌∷◌, leb, ◌==◌,
  str_eq, if◌then◌else◌,
}

-- One text after the other, as `format!` puts them.
abbrev pub followed_by : String → String → String
followed_by String.[] t = t
followed_by (String.◌∷◌ c s) t = String.◌∷◌ c (followed_by s t)

-- `str::contains` of a character, by its code.
unfoldable pub contains_char : ℕ → String → Bool
contains_char k String.[] = false
contains_char k (String.◌∷◌ c s) = code c == k || contains_char k s

-- `str::strip_prefix`
unfoldable pub strip_prefix : String → String → Option String
strip_prefix String.[] s = some s
strip_prefix (String.◌∷◌ c p) String.[] = none
strip_prefix (String.◌∷◌ c p) (String.◌∷◌ d s) =
    let rest = strip_prefix p s in if code c == code d then rest else none

abbrev cons_some : Char → Option String → Option String
cons_some c none = none
cons_some c (some s) = some (String.◌∷◌ c s)

-- `str::strip_suffix`
unfoldable pub strip_suffix : String → String → Option String
strip_suffix suffix String.[] = if str_eq suffix "" then some "" else none
strip_suffix suffix (String.◌∷◌ c s) =
    let rest = strip_suffix suffix s in
    if str_eq suffix (String.◌∷◌ c s) then some "" else cons_some c rest

abbrev cons_first : Char → List String → List String
cons_first c [] = String.◌∷◌ c "" ∷ []
cons_first c (s ∷ parts) = String.◌∷◌ c s ∷ parts

-- `str::split` at a character, by its code: never empty.
unfoldable pub split : ℕ → String → List String
split k String.[] = "" ∷ []
split k (String.◌∷◌ c s) =
    let rest = split k s in if code c == k then "" ∷ rest else cons_first c rest

abbrev cons_before : Char → Option (String × String) → Option (String × String)
cons_before c none = none
cons_before c (some (s, t)) = some (String.◌∷◌ c s, t)

-- `str::split_once` at a character, by its code.
unfoldable pub split_once : ℕ → String → Option (String × String)
split_once k String.[] = none
split_once k (String.◌∷◌ c s) =
    let rest = split_once k s in if code c == k then some ("", s) else cons_before c rest

-- The digits of a `u8`, after those that gave `n`: none on another character or above 255.
unfoldable pub parse_digits : ℕ → String → Option ℕ
parse_digits n String.[] = some n
parse_digits n (String.◌∷◌ c s) =
    let next = n * 10 + (code c - 48) in
    let rest = parse_digits next s in
    if leb 48 (code c) && leb (code c) 57 && leb next 255 then rest else none

abbrev parse_unsigned : String → Option ℕ
parse_unsigned String.[] = none
parse_unsigned (String.◌∷◌ c s) = parse_digits 0 (String.◌∷◌ c s)

-- `str::parse::<u8>`, which accepts a leading plus sign.
unfoldable pub parse_u8 : String → Option ℕ
unfolding parse_digits
parse_u8 String.[] = none
parse_u8 (String.◌∷◌ c s) =
    if code c == 43 then parse_unsigned s else parse_digits 0 (String.◌∷◌ c s)
