-- ===== src/Tests/Manifest.antt =====
-- Instances of the theorems on src/release.rs.
use singbox_sub_me.Prelude.{◌≡◌, refl, arith, eq_iff, String, none, some, [], ◌∷◌, Result, ok}
use singbox_sub_me.Http.Texts.{split, strip_prefix}
use singbox_sub_me.Config.{len, all_chars}
use singbox_sub_me.Release.{
  ReleaseArtifact, ReleaseManifest, ReleaseError, parse_u64, parse_slots, parse_version,
  parse_ranges, check_compatibility_matrix, validate_manifest_fields, verify_trusted,
}
use singbox_sub_me.Json.{Json, number, text, object, end, field}
use singbox_sub_me.Release.Canonical.{
  in_object, swapped, write_canonical_json, write_canonical_json-IsReordered,
}
use singbox_sub_me.Release.Trust.{IsTrusted, verify_trusted-IsTrusted}

abbrev pub digest : String
digest = "00112233445566778899aabbccddeeff00112233445566778899AABBCCDDEEFF"

abbrev artifact_of : String → ReleaseArtifact
artifact_of version = record { version = version; sha256 = digest; url = none }

abbrev pub manifest : ReleaseManifest
manifest = record {
  schema = 1;
  sbctl = artifact_of "0.3.0";
  sing_box = artifact_of "v1.12.3";
  sing_box_compatibility = record { lowest = some "1.12"; highest = some "1.13.0" } ∷ [];
  signature = some "c2ln";
}

-- A signature check that accepts.
abbrev pub accept : ReleaseManifest → Result ReleaseError (Unit {0})
accept m = ok tt

manifest_passes : verify_trusted accept manifest ≡ ok tt
unfolding verify_trusted validate_manifest_fields check_compatibility_matrix parse_ranges
    parse_version parse_slots parse_u64 split strip_prefix len all_chars
manifest_passes = refl

verify_trusted-IsTrusted_example : IsTrusted accept manifest
verify_trusted-IsTrusted_example = verify_trusted-IsTrusted accept manifest manifest_passes

-- A lone major version is read as one with zeros behind it.
parse_version_of_major : parse_version "1" "sing-box" ≡ ok (1, 0, 0)
unfolding parse_version parse_slots parse_u64 split strip_prefix all_chars
parse_version_of_major = refl

-- A printer of keys and plain values.
abbrev print : Json → String
print (text s) = s
print (number s) = s
print _ = "null"

-- {"schema": 1, "channel": "stable"} and the same the other way round.
abbrev one_way : Json
one_way = object (field "schema" (number "1") (field "channel" (text "stable") end))

abbrev other_way : Json
other_way = object (field "channel" (text "stable") (field "schema" (number "1") end))

write_canonical_json-IsReordered_example :
    write_canonical_json print one_way ≡ write_canonical_json print other_way
write_canonical_json-IsReordered_example =
    write_canonical_json-IsReordered print one_way other_way (
      in_object (
        swapped "schema" "channel" (number "1") (text "stable") end
          (ground (arith, eq_iff "schema" "channel"))))
