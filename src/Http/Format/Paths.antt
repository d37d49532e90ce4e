-- ===== src/Http/Format/Paths.antt =====
-- The paths that the server prints for its links lead back to their routes.
use singbox_sub_me.Prelude.{
  ℕ, ◌≡◌, refl, ◌∙◌, String, Bool, true, false, some, [], ◌∷◌, str_eq, arith,
}
use singbox_sub_me.Http.Texts.{followed_by, contains_char, strip_prefix, split}
use singbox_sub_me.Http.Format.{
  SubscriptionFormat, SubscriptionRoute, format, qr, index, path_name, print_version, print_u8,
  parse_parts_of_route, parse_route, route_suffix, route_path,
}
use singbox_sub_me.Http.Format.RoundTrip.{is_served, by_format, parse_format_path-path_name}

split-slash :
    (s t : String)
    → contains_char 47 s ≡ false
    → split 47 (followed_by s (followed_by "/" t)) ≡ s ∷ split 47 t
unfolding split contains_char
split-slash String.[] t h = refl
split-slash (String.◌∷◌ c s) t h = ground (arith, split-slash s t)

contains-append :
    (k : ℕ) (s t : String)
    → contains_char k s ≡ false
    → contains_char k (followed_by s t) ≡ contains_char k t
unfolding contains_char
contains-append k String.[] t h = refl
contains-append k (String.◌∷◌ c s) t h = ground (arith, contains-append k s t)

-- A path segment as the formats have it: no slash, no question mark, and no name of another route.
record IsSegment (s : String) : Type 0 where
  whole : split 47 s ≡ s ∷ []
  plain : contains_char 63 s ≡ false
  no_index : str_eq s "index" ≡ false
  no_qr : str_eq s "qr" ≡ false

segment :
    {s : String}
    → split 47 s ≡ s ∷ []
    → contains_char 63 s ≡ false
    → str_eq s "index" ≡ false
    → str_eq s "qr" ≡ false
    → IsSegment s
segment a b c d = record { whole = a; plain = b; no_index = c; no_qr = d }

path_name-IsSegment : (f : SubscriptionFormat) → is_served f ≡ true → IsSegment (path_name f)
unfolding path_name print_version print_u8 split contains_char
path_name-IsSegment f h =
    by_format (λ g. IsSegment (path_name g))
      (
        segment refl refl refl refl,
        (
          segment refl refl refl refl,
          (
            segment refl refl refl refl,
            (
              segment refl refl refl refl,
              (segment refl refl refl refl, (segment refl refl refl refl, tt)),
            ),
          ),
        ),
      )
      (
        segment refl refl refl refl,
        (
          segment refl refl refl refl,
          (
            segment refl refl refl refl,
            (segment refl refl refl refl, (segment refl refl refl refl, tt)),
          ),
        ),
      )
      (segment refl refl refl refl) f h

-- The route is one of the server's.
abbrev pub is_routed : SubscriptionRoute → Bool
is_routed (format f) = is_served f
is_routed (qr f) = is_served f
is_routed index = true

parse_suffix :
    (credential : String) (route : SubscriptionRoute)
    → is_routed route ≡ true
    → parse_parts_of_route (credential ∷ split 47 (route_suffix route)) ≡ some (credential, route)
unfolding parse_parts_of_route
parse_suffix credential index h = unfold split in refl
parse_suffix credential (format f) h =
    let s = path_name-IsSegment f h in
    rw (s.whole, s.no_index, s.no_qr, parse_format_path-path_name f h) refl
parse_suffix credential (qr f) h =
    let s = path_name-IsSegment f h in
    rw
      (
        split-slash "qr" (path_name f) (unfold contains_char in refl),
        s.whole,
        parse_format_path-path_name f h,
      )
      refl

suffix-plain :
    (route : SubscriptionRoute)
    → is_routed route ≡ true
    → contains_char 63 (route_suffix route) ≡ false
unfolding contains_char
suffix-plain index h = refl
suffix-plain (format f) h = (path_name-IsSegment f h).plain
suffix-plain (qr f) h = (path_name-IsSegment f h).plain

-- The path of any link that the server prints is parsed back to its credential and its route, if
-- the credential has no slash and no question mark in it.
pub parse_route-route_path :
    (credential : String) (route : SubscriptionRoute)
    → contains_char 47 credential ≡ false
    → contains_char 63 credential ≡ false
    → is_routed route ≡ true
    → parse_route (route_path credential route) ≡ some (credential, route)
unfolding parse_route route_path
parse_route-route_path credential route no_slash no_query h =
    let tail = followed_by "/" (route_suffix route) in
    let plain : contains_char 63 (followed_by credential tail) ≡ false =
      contains-append 63 credential tail no_query
      ∙ (unfold contains_char in suffix-plain route h) in
    let shown : contains_char 63 (followed_by "/sub/" (followed_by credential tail)) ≡ false =
      unfold contains_char in plain in
    let stripped : strip_prefix "/sub/" (followed_by "/sub/" (followed_by credential tail))
        ≡ some (followed_by credential tail) =
      unfold strip_prefix in refl in
    rw (shown, stripped, split-slash credential (route_suffix route) no_slash)
      (parse_suffix credential route h)
