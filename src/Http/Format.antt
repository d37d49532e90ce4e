-- ===== src/Http/Format.antt =====
-- src/subscription/profile.rs and the parsers of src/subscription/serve.rs: formats and routes.
pub mod RoundTrip
pub mod Paths
use Prim.Native.String
use singbox_sub_me.Prelude.{
  ℕ, ◌+◌, ◌-◌, ◌*◌, ◌/◌, ◌%◌, ◌≡◌, String, Bool, true, false, ◌&&◌, ◌||◌, Option, none, some, List,
  [], ◌∷◌, leb, ltb, ◌==◌, str_eq, if◌then◌else◌,
}
use singbox_sub_me.Http.Texts.{
  followed_by, contains_char, strip_prefix, strip_suffix, split, split_once, parse_u8,
}

pub record ClientVersion : Type 0 where
  pub major : ℕ
  pub minor : ℕ

pub data SubscriptionFormat : Type 0 where
  sing_box sing_box_full clash uri base64_uri shadowrocket : SubscriptionFormat
  sing_box_version clash_legacy : ClientVersion → SubscriptionFormat

pub data SubscriptionRoute : Type 0 where
  format qr : SubscriptionFormat → SubscriptionRoute
  index : SubscriptionRoute

-- `CLASH_LEGACY_VERSION`
abbrev pub clash_legacy_version : ClientVersion
clash_legacy_version = record { major = 1; minor = 18 }

abbrev pub version : ℕ → ClientVersion
version minor = record { major = 1; minor = minor }

-- The versions of `SING_BOX_VERSION_PROFILES`.
abbrev pub sing_box_versions : List ClientVersion
sing_box_versions = version 10 ∷ version 11 ∷ version 12 ∷ version 13 ∷ version 14 ∷ []

abbrev pub same_version : ClientVersion → ClientVersion → Bool
same_version a b = a.major == b.major && a.minor == b.minor

-- `iter().any(|profile| profile.version == version)`
abbrev pub is_registered : ClientVersion → List ClientVersion → Bool
is_registered v [] = false
is_registered v (w ∷ ws) = same_version w v || is_registered v ws

-- `n` as the last digit of a decimal number.
abbrev digit : ℕ → String
digit n =
    if n == 0
    then "0"
    else if n == 1
    then "1"
    else if n == 2
    then "2"
    else if n == 3
    then "3"
    else if n == 4
    then "4"
    else if n == 5
    then "5"
    else if n == 6
    then "6"
    else if n == 7
    then "7"
    else if n == 8
    then "8"
    else "9"

-- A `u8` printed in decimal.
unfoldable pub print_u8 : ℕ → String
print_u8 n =
    if ltb n 10
    then digit n
    else if ltb n 100
    then followed_by (digit (n / 10)) (digit (n % 10))
    else followed_by (digit (n / 100)) (followed_by (digit (n / 10 % 10)) (digit (n % 10)))

-- `Display` of a version
unfoldable pub print_version : ClientVersion → String
unfolding print_u8
print_version v = followed_by (print_u8 v.major) (followed_by "." (print_u8 v.minor))

unfoldable pub path_name : SubscriptionFormat → String
unfolding print_version
path_name sing_box = "sing-box.json"
path_name sing_box_full = "sing-box-full.json"
path_name (sing_box_version v) = followed_by "sing-box-" (followed_by (print_version v) ".json")
path_name clash = "clash.yaml"
path_name (clash_legacy v) = followed_by "clash-" (followed_by (print_version v) ".yaml")
path_name uri = "uri"
path_name base64_uri = "uri.txt"
path_name shadowrocket = "shadowrocket.txt"

abbrev version_of : Option ℕ → Option ℕ → Option ClientVersion
version_of (some major) (some minor) = some (record { major = major; minor = minor })
version_of _ _ = none

abbrev parse_parts : Option (String × String) → Option ClientVersion
parse_parts none = none
parse_parts (some (major, minor)) = version_of (parse_u8 major) (parse_u8 minor)

-- 46 is the full stop.
unfoldable pub parse_client_version : String → Option ClientVersion
parse_client_version text = parse_parts (split_once 46 text)

abbrev registered_format : Option ClientVersion → Option SubscriptionFormat
registered_format none = none
registered_format (some v) =
    if is_registered v sing_box_versions then some (sing_box_version v) else none

abbrev legacy_format : Option ClientVersion → Option SubscriptionFormat
legacy_format none = none
legacy_format (some v) = if same_version v clash_legacy_version then some (clash_legacy v) else none

-- What stands between the prefix and the suffix.
abbrev between : String → String → String → Option String
between prefix suffix segment = elim (strip_prefix prefix segment) [
  | none ↦ none
  | some rest ↦ strip_suffix suffix rest
]

abbrev parse_legacy : Option String → Option SubscriptionFormat
parse_legacy none = none
parse_legacy (some text) = legacy_format (parse_client_version text)

abbrev parse_versioned : String → Option String → Option SubscriptionFormat
parse_versioned segment none = parse_legacy (between "clash-" ".yaml" segment)
parse_versioned segment (some text) = registered_format (parse_client_version text)

unfoldable pub parse_format_path : String → Option SubscriptionFormat
unfolding parse_client_version
parse_format_path segment =
    if str_eq segment "sing-box.json"
    then some sing_box
    else if str_eq segment "sing-box-full.json"
    then some sing_box_full
    else if str_eq segment "clash.yaml"
    then some clash
    else if str_eq segment "uri"
    then some uri
    else if str_eq segment "uri.txt"
    then some base64_uri
    else if str_eq segment "shadowrocket.txt"
    then some shadowrocket
    else parse_versioned segment (between "sing-box-" ".json" segment)

abbrev some_if_last :
    List String → String → Option SubscriptionRoute → Option (String × SubscriptionRoute)
some_if_last [] credential (some route) = some (credential, route)
some_if_last _ credential _ = none

abbrev mapped :
    (SubscriptionFormat → SubscriptionRoute) → Option SubscriptionFormat → Option SubscriptionRoute
mapped f none = none
mapped f (some x) = some (f x)

-- The parts after `/sub/`, taken in turn.
unfoldable pub parse_parts_of_route : List String → Option (String × SubscriptionRoute)
parse_parts_of_route (credential ∷ segment ∷ rest) =
    if str_eq segment "index"
    then some_if_last rest credential (some index)
    else if str_eq segment "qr"
    then elim rest [
      | [] ↦ none
      | (last ∷ more) ↦ some_if_last more credential (mapped qr (parse_format_path last))
    ]
    else some_if_last rest credential (mapped format (parse_format_path segment))
parse_parts_of_route _ = none

abbrev parse_below : Option String → Option (String × SubscriptionRoute)
parse_below none = none
parse_below (some parts) = parse_parts_of_route (split 47 parts)

-- 63 is the question mark and 47 the slash.
unfoldable pub parse_route : String → Option (String × SubscriptionRoute)
parse_route target =
    if contains_char 63 target then none else parse_below (strip_prefix "/sub/" target)

abbrev pub route_suffix : SubscriptionRoute → String
route_suffix (format f) = path_name f
route_suffix (qr f) = followed_by "qr/" (path_name f)
route_suffix index = "index"

-- The path of `route_url`, after its host.
unfoldable pub route_path : String → SubscriptionRoute → String
route_path credential route =
    followed_by "/sub/" (followed_by credential (followed_by "/" (route_suffix route)))
