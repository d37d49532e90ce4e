-- ===== src/Release/Trust.antt =====
-- What a manifest that is trusted has.
use singbox_sub_me.Prelude.{
  ◌≡◌, refl, String, Bool, true, false, ◌&&◌, ◌||◌, not, Option, List, [], ◌∷◌, Result, ok, ◌>>=◌,
  reject_if, >>=-eq-ok, >>-eq-ok, ok-injective, and-true, inl, inr, ◌⊎◌, arith,
}
use singbox_sub_me.Release.{
  ReleaseManifest, CompatibilityRange, ReleaseError, Version, manifest_schema_version, is_floating,
  is_digest, parse_version, parse_bound, parse_ranges, is_below, is_above, any_range,
  is_empty_matrix, empty_compatibility_matrix, compatibility_mismatch, reject_floating_version,
  validate_digest, check_compatibility_matrix, validate_manifest_fields, verify_trusted,
}

-- A bound of a range, if there is one, is a version that the given one does not cross.
abbrev pub Admits : (Version → Option Version → Bool) → Option String → String → Version → Type 0
Admits crosses bound name version =
    (o : Option Version) × (parse_bound bound name ≡ ok o) × (crosses version o ≡ false)

-- Some declared range holds the version.
abbrev pub HasRange : List CompatibilityRange → Version → Type 0
HasRange [] version = ⊥
HasRange (range ∷ ranges) version =
    (Admits is_below range.lowest "sing-box compatibility min" version
      × Admits is_above range.highest "sing-box compatibility max" version)
    ⊎ HasRange ranges version

or-true : (a b : Bool) → (a || b) ≡ true → (a ≡ true) ⊎ (b ≡ true)
or-true true b h = inl refl
or-true false b h = inr h

parse_ranges-HasRange :
    (ranges : List CompatibilityRange) (version : Version)
    (parsed : List (Option Version × Option Version))
    → parse_ranges ranges ≡ ok parsed
    → any_range version parsed ≡ true
    → HasRange ranges version
unfolding parse_ranges
parse_ranges-HasRange [] version [] e h = cc
parse_ranges-HasRange [] version (p ∷ ps) e h = cc
parse_ranges-HasRange (range ∷ ranges) version parsed e h =
    let low = parse_bound range.lowest "sing-box compatibility min" in
    let high = parse_bound range.highest "sing-box compatibility max" in
    let (l, is_l, e₁) =
      >>=-eq-ok low (λ l. high >>= λ u. parse_ranges ranges >>= λ rest. ok ((l, u) ∷ rest)) e in
    let (u, is_u, e₂) =
      >>=-eq-ok high (λ u. parse_ranges ranges >>= λ rest. ok ((l, u) ∷ rest)) e₁ in
    let (rest, later, e₃) = >>=-eq-ok (parse_ranges ranges) (λ rest. ok ((l, u) ∷ rest)) e₂ in
    let whole : ◌≡◌ {A = List (Option Version × Option Version)} ((l, u) ∷ rest) parsed =
      ok-injective e₃ in
    elim (or-true (not (is_below version l) && not (is_above version u)) (any_range version rest)
      (rw (← whole) at h)) [
        | inl here ↦
            let (below, above) =
              and-true (not (is_below version l)) (not (is_above version u)) here in
            inl ((l, is_l, ground arith), (u, is_u, ground arith))
        | inr there ↦ inr (parse_ranges-HasRange ranges version rest later there)
      ]

pub record IsTrusted (verify_signature : ReleaseManifest → Result ReleaseError (Unit {0}))
    (m : ReleaseManifest) : Type 0 where
  pub supported : m.schema ≡ manifest_schema_version
  pub sbctl_fixed : is_floating m.sbctl.version ≡ false
  pub sing_box_fixed : is_floating m.sing_box.version ≡ false
  pub sbctl_digest : is_digest m.sbctl.sha256 ≡ true
  pub sing_box_digest : is_digest m.sing_box.sha256 ≡ true
  pub version : Version
  pub parsed : parse_version m.sing_box.version "sing-box" ≡ ok version
  pub in_range : HasRange m.sing_box_compatibility version
  pub signed : verify_signature m ≡ ok tt

matrix-HasRange :
    (m : ReleaseManifest)
    → check_compatibility_matrix m ≡ ok tt
    → (version : Version) × (parse_version m.sing_box.version "sing-box" ≡ ok version)
      × HasRange m.sing_box_compatibility version
unfolding check_compatibility_matrix
matrix-HasRange m e =
    let parse = parse_version m.sing_box.version "sing-box" in
    let ranges = parse_ranges m.sing_box_compatibility in
    let (_, e₁) =
      >>-eq-ok (reject_if (is_empty_matrix m.sing_box_compatibility) empty_compatibility_matrix)
        (parse >>= λ v. ranges >>= λ ps.
          reject_if (not (any_range v ps)) (compatibility_mismatch m.sing_box.version))
        e in
    let (version, parsed, e₂) =
      >>=-eq-ok parse
        (λ v. ranges >>= λ ps.
          reject_if (not (any_range v ps)) (compatibility_mismatch m.sing_box.version))
        e₁ in
    let (ps, listed, e₃) =
      >>=-eq-ok ranges
        (λ ps. reject_if (not (any_range version ps)) (compatibility_mismatch m.sing_box.version))
        e₂ in
    (
      version,
      parsed,
      parse_ranges-HasRange m.sing_box_compatibility version ps listed (ground arith),
    )

-- A manifest that is trusted has the supported schema, fixed versions, digests of 64 hexadecimal
-- digits, a sing-box version that parses and lies in one of the declared ranges, whose own bounds
-- parse, and a signature that verifies.
pub verify_trusted-IsTrusted :
    (verify_signature : ReleaseManifest → Result ReleaseError (Unit {0})) (m : ReleaseManifest)
    → verify_trusted verify_signature m ≡ ok tt
    → IsTrusted verify_signature m
unfolding verify_trusted validate_manifest_fields reject_floating_version validate_digest
verify_trusted-IsTrusted verify_signature m e =
    let (fields, signature) = >>-eq-ok (validate_manifest_fields m) (verify_signature m) e in
    let matrix : check_compatibility_matrix m ≡ ok tt = ground arith in
    let (version, parsed, in_range) = matrix-HasRange m matrix in
    record {
      supported = ground arith;
      sbctl_fixed = ground arith;
      sing_box_fixed = ground arith;
      sbctl_digest = ground arith;
      sing_box_digest = ground arith;
      version = version;
      parsed = parsed;
      in_range = in_range;
      signed = signature;
    }
