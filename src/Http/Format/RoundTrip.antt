-- ===== src/Http/Format/RoundTrip.antt =====
-- Paths that are printed are parsed back, and nothing but a registered format is parsed.
use singbox_sub_me.Prelude.{
  ◌≡◌, refl, String, Bool, true, false, Option, none, some, List, [], ◌∷◌, str_eq, if◌then◌else◌,
  arith, inl, inr, ◌⊎◌, Bool-cases, All,
}
use singbox_sub_me.Http.Texts.{strip_prefix, strip_suffix, split_once, parse_u8}
use singbox_sub_me.Http.Format.{
  ClientVersion, SubscriptionFormat, sing_box, sing_box_full, clash, uri, base64_uri, shadowrocket,
  sing_box_version, clash_legacy, clash_legacy_version, sing_box_versions, same_version,
  is_registered, registered_format, legacy_format, parse_legacy, parse_versioned, between, print_u8,
  print_version, path_name, parse_client_version, parse_format_path,
}

-- The format is one that the server makes.
abbrev pub is_served : SubscriptionFormat → Bool
is_served (sing_box_version v) = is_registered v sing_box_versions
is_served (clash_legacy v) = same_version v clash_legacy_version
is_served _ = true

same_version-eq : (v w : ClientVersion) → same_version v w ≡ true → v ≡ w
same_version-eq v w h = ground arith

-- One case for each registered version.
by_version :
    (P : ClientVersion → Type 0) (vs : List ClientVersion)
    → All P vs
    → (v : ClientVersion) → is_registered v vs ≡ true
    → P v
by_version P [] each v h = cc
by_version P (w ∷ ws) (first, rest) v h = elim (Bool-cases (same_version w v)) [
  | inl same ↦ rw (same_version-eq w v same) at first
  | inr other ↦ by_version P ws rest v (rw other at h)
]

-- One case for each format that the server makes.
pub by_format :
    (P : SubscriptionFormat → Type 0)
    → All P (sing_box ∷ sing_box_full ∷ clash ∷ uri ∷ base64_uri ∷ shadowrocket ∷ [])
    → All (λ v. P (sing_box_version v)) sing_box_versions
    → P (clash_legacy clash_legacy_version)
    → (f : SubscriptionFormat) → is_served f ≡ true
    → P f
by_format P (a, (b, (c, (d, (e, (g, _)))))) versions legacy sing_box h = a
by_format P (a, (b, (c, (d, (e, (g, _)))))) versions legacy sing_box_full h = b
by_format P (a, (b, (c, (d, (e, (g, _)))))) versions legacy clash h = c
by_format P (a, (b, (c, (d, (e, (g, _)))))) versions legacy uri h = d
by_format P (a, (b, (c, (d, (e, (g, _)))))) versions legacy base64_uri h = e
by_format P (a, (b, (c, (d, (e, (g, _)))))) versions legacy shadowrocket h = g
by_format P fixed versions legacy (clash_legacy v) h =
    rw (same_version-eq v clash_legacy_version h) legacy
by_format P fixed versions legacy (sing_box_version v) h =
    by_version (λ w. P (sing_box_version w)) sing_box_versions versions v h

-- Every path that is printed for a format of the server is parsed back to it.
pub parse_format_path-path_name :
    (f : SubscriptionFormat) → is_served f ≡ true → parse_format_path (path_name f) ≡ some f
unfolding parse_format_path path_name strip_prefix strip_suffix split_once parse_u8
    parse_client_version print_version print_u8
parse_format_path-path_name f h =
    by_format (λ g. parse_format_path (path_name g) ≡ some g)
      (refl, (refl, (refl, (refl, (refl, (refl, tt)))))) (refl, (refl, (refl, (refl, (refl, tt)))))
      refl f h

served_some :
    {f g : SubscriptionFormat}
    → ◌≡◌ {A = Option SubscriptionFormat} (some g) (some f)
    → is_served g ≡ true
    → is_served f ≡ true
served_some {f} {g} e h = let same : g ≡ f = ground arith in rw same at h

registered_format-served :
    (o : Option ClientVersion) (f : SubscriptionFormat)
    → registered_format o ≡ some f
    → is_served f ≡ true
registered_format-served none f e = cc
registered_format-served (some v) f e = elim (Bool-cases (is_registered v sing_box_versions)) [
  | inl known ↦ served_some {f = f} {g = sing_box_version v} (rw known at e) known
  | inr unknown ↦ absurd (ground (arith, rw unknown at e))
]

legacy_format-served :
    (o : Option ClientVersion) (f : SubscriptionFormat)
    → legacy_format o ≡ some f
    → is_served f ≡ true
legacy_format-served none f e = cc
legacy_format-served (some v) f e = elim (Bool-cases (same_version v clash_legacy_version)) [
  | inl known ↦ served_some {f = f} {g = clash_legacy v} (rw known at e) known
  | inr unknown ↦ absurd (ground (arith, rw unknown at e))
]

parse_legacy-served :
    (o : Option String) (f : SubscriptionFormat) → parse_legacy o ≡ some f → is_served f ≡ true
parse_legacy-served none f e = cc
parse_legacy-served (some text) f e = legacy_format-served (parse_client_version text) f e

parse_versioned-served :
    (segment : String) (o : Option String) (f : SubscriptionFormat)
    → parse_versioned segment o ≡ some f
    → is_served f ≡ true
parse_versioned-served segment none f e = parse_legacy-served (between "clash-" ".yaml" segment) f e
parse_versioned-served segment (some text) f e =
    registered_format-served (parse_client_version text) f e

-- A fixed name, or what the other names give.
named_or :
    (b : Bool) (g f : SubscriptionFormat) (rest : Option SubscriptionFormat)
    → (if b then some g else rest) ≡ some f
    → (some g ≡ some f) ⊎ (rest ≡ some f)
named_or true g f rest e = inl e
named_or false g f rest e = inr e

-- Nothing else is parsed: a version that the server does not make is no route.
pub parse_format_path_sound :
    (segment : String) (f : SubscriptionFormat)
    → parse_format_path segment ≡ some f
    → is_served f ≡ true
unfolding parse_format_path
parse_format_path_sound segment f e =
    elim (named_or (str_eq segment "sing-box.json") sing_box f _ e) [
      | inl h ↦ served_some {f = f} {g = sing_box} h refl
      | inr e ↦ elim (named_or (str_eq segment "sing-box-full.json") sing_box_full f _ e) [
        | inl h ↦ served_some {f = f} {g = sing_box_full} h refl
        | inr e ↦ elim (named_or (str_eq segment "clash.yaml") clash f _ e) [
          | inl h ↦ served_some {f = f} {g = clash} h refl
          | inr e ↦ elim (named_or (str_eq segment "uri") uri f _ e) [
            | inl h ↦ served_some {f = f} {g = uri} h refl
            | inr e ↦ elim (named_or (str_eq segment "uri.txt") base64_uri f _ e) [
              | inl h ↦ served_some {f = f} {g = base64_uri} h refl
              | inr e ↦ elim (named_or (str_eq segment "shadowrocket.txt") shadowrocket f _ e) [
                | inl h ↦ served_some {f = f} {g = shadowrocket} h refl
                | inr e ↦ parse_versioned-served segment (between "sing-box-" ".json" segment) f e
              ]
            ]
          ]
        ]
      ]
    ]
