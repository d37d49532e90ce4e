-- ===== src/Release.antt =====
-- src/release.rs: the trust that a pinned release manifest is given. The signature is a parameter.
pub mod Trust
pub mod Canonical
pub mod Texts
use Prim.Native.Char.{code}
use singbox_sub_me.Prelude.{
  ℕ, ◌+◌, ◌-◌, ◌*◌, ◌≡◌, String, Bool, true, false, ◌&&◌, ◌||◌, not, Option, none, some, List, [],
  ◌∷◌, leb, ltb, ◌==◌, str_eq, if◌then◌else◌, Result, ok, err, ◌>>=◌, ◌>>◌, reject_if, u64_max,
}
use singbox_sub_me.Http.Texts.{strip_prefix, split}
use singbox_sub_me.Config.{len, all_chars}

-- `MANIFEST_SCHEMA_VERSION`
abbrev pub manifest_schema_version : ℕ
manifest_schema_version = 1

pub record ReleaseArtifact : Type 0 where
  pub version : String
  pub sha256 : String
  pub url : Option String

pub record CompatibilityRange : Type 0 where
  pub lowest : Option String
  pub highest : Option String

pub record ReleaseManifest : Type 0 where
  pub schema : ℕ
  pub sbctl : ReleaseArtifact
  pub sing_box : ReleaseArtifact
  pub sing_box_compatibility : List CompatibilityRange
  pub signature : Option String

-- The errors of the checks; a mismatch names the version.
pub data ReleaseError : Type 0 where
  schema_mismatch : ℕ → ReleaseError
  invalid_digest : String → ReleaseError
  floating_version malformed_version : String → String → ReleaseError
  empty_compatibility_matrix unsigned_manifest invalid_signature : ReleaseError
  compatibility_mismatch : String → ReleaseError

-- `[u64; 3]`
abbrev pub Version : Type 0
Version = ℕ × ℕ × ℕ

-- `FLOATING_VERSIONS`
abbrev pub is_floating : String → Bool
is_floating version = str_eq version "latest" || str_eq version "main" || str_eq version "master"

pub reject_floating_version : String → String → Result ReleaseError (Unit {0})
reject_floating_version version name =
    reject_if (is_floating version) (floating_version name version)

abbrev is_digit : ℕ → Bool
is_digit c = leb 48 c && leb c 57

abbrev is_hex : ℕ → Bool
is_hex c = is_digit c || (leb 65 c && leb c 70) || (leb 97 c && leb c 102)

abbrev pub is_digest : String → Bool
is_digest digest = len digest == 64 && all_chars is_hex digest

pub validate_digest : String → String → Result ReleaseError (Unit {0})
validate_digest name digest = if is_digest digest then ok tt else err (invalid_digest name)

-- `part.parse::<u64>()` of a part that is digits only: none above the largest `u64`.
unfoldable pub parse_u64 : ℕ → String → Option ℕ
parse_u64 n String.[] = some n
parse_u64 n (String.◌∷◌ c s) =
    let next = n * 10 + (code c - 48) in
    let rest = parse_u64 next s in if leb next u64_max then rest else none

abbrev parse_part : String → Option ℕ
parse_part part = if not (str_eq part "") && all_chars is_digit part then parse_u64 0 part else none

abbrev three : Option ℕ → Option ℕ → Option ℕ → Option Version
three (some a) (some b) (some c) = some (a, b, c)
three _ _ _ = none

-- The loop over the three slots: a missing part leaves its slot at zero, a fourth is malformed.
unfoldable pub parse_slots : List String → Option Version
unfolding parse_u64
parse_slots [] = some (0, 0, 0)
parse_slots (a ∷ []) = three (parse_part a) (some 0) (some 0)
parse_slots (a ∷ b ∷ []) = three (parse_part a) (parse_part b) (some 0)
parse_slots (a ∷ b ∷ c ∷ []) = three (parse_part a) (parse_part b) (parse_part c)
parse_slots _ = none

abbrev without_v : String → Option String → String
without_v value none = value
without_v value (some rest) = rest

abbrev version_or_malformed : String → String → Option Version → Result ReleaseError Version
version_or_malformed value name none = err (malformed_version value name)
version_or_malformed value name (some v) = ok v

-- 46 is the full stop.
unfoldable pub parse_version : String → String → Result ReleaseError Version
parse_version value name =
    let bare = without_v value (strip_prefix "v" value) in
    version_or_malformed bare name (parse_slots (split 46 bare))

-- The order of arrays.
abbrev pub version_ltb : Version → Version → Bool
version_ltb (a, b, c) (x, y, z) = ltb a x || (a == x && (ltb b y || (b == y && ltb c z)))

abbrev pub parse_bound : Option String → String → Result ReleaseError (Option Version)
parse_bound none name = ok none
parse_bound (some value) name = parse_version value name >>= λ v. ok (some v)

unfoldable pub parse_ranges :
    List CompatibilityRange → Result ReleaseError (List (Option Version × Option Version))
parse_ranges [] = ok []
parse_ranges (range ∷ ranges) = do
  low ← parse_bound range.lowest "sing-box compatibility min"
  high ← parse_bound range.highest "sing-box compatibility max"
  rest ← parse_ranges ranges
  ok ((low, high) ∷ rest)

-- `matches!(min, Some(min) if version < *min)`, and for the other end
abbrev pub is_below : Version → Option Version → Bool
is_below version none = false
is_below version (some low) = version_ltb version low

abbrev pub is_above : Version → Option Version → Bool
is_above version none = false
is_above version (some high) = version_ltb high version

abbrev pub any_range : Version → List (Option Version × Option Version) → Bool
any_range version [] = false
any_range version ((low, high) ∷ rest) =
    (not (is_below version low) && not (is_above version high)) || any_range version rest

abbrev pub is_empty_matrix : List CompatibilityRange → Bool
is_empty_matrix [] = true
is_empty_matrix (r ∷ rs) = false

unfoldable pub check_compatibility_matrix : ReleaseManifest → Result ReleaseError (Unit {0})
check_compatibility_matrix manifest = do
  reject_if (is_empty_matrix manifest.sing_box_compatibility) empty_compatibility_matrix
  version ← parse_version manifest.sing_box.version "sing-box"
  parsed ← parse_ranges manifest.sing_box_compatibility
  reject_if (not (any_range version parsed)) (compatibility_mismatch manifest.sing_box.version)

unfoldable pub validate_manifest_fields : ReleaseManifest → Result ReleaseError (Unit {0})
unfolding reject_floating_version validate_digest
validate_manifest_fields manifest = do
  reject_if (not (manifest.schema == manifest_schema_version)) (schema_mismatch manifest.schema)
  reject_floating_version manifest.sbctl.version "sbctl"
  reject_floating_version manifest.sing_box.version "sing-box"
  validate_digest "sbctl" manifest.sbctl.sha256
  validate_digest "sing-box" manifest.sing_box.sha256
  check_compatibility_matrix manifest

-- `verify_signature` is the argument.
unfoldable pub verify_trusted :
    (ReleaseManifest → Result ReleaseError (Unit {0}))
    → ReleaseManifest
    → Result ReleaseError (Unit {0})
verify_trusted verify_signature manifest = do
  validate_manifest_fields manifest
  verify_signature manifest
