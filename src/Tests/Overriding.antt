-- ===== src/Tests/Overriding.antt =====
-- Instances of the theorems on crates/client-core/src/config_override.rs.
use singbox_sub_me.Prelude.{
  ◌↔◌, AreDistinct, is_among, ◌≡◌, refl, String, Bool, true, false, some, none, [], ◌∷◌, inl, ok,
  arith, eq_iff,
}
use singbox_sub_me.Json.{Json, text, object, end, field, get}
use singbox_sub_me.Merge.Paths.{at_path}
use singbox_sub_me.Merge.Paths as Paths
use singbox_sub_me.Override.{
  all_conflicts, enabled_of, RuleFragment, ProfileOverride, is_blank, parse, to_document,
  hand_written, apply, reserved_conflicts, toggle, toggle_list, parse_object,
}
use singbox_sub_me.Override.Precedence.{first_fragment_wins}
use singbox_sub_me.Override.Conflicts.{apply-reserved_conflicts}
use singbox_sub_me.Override.Reading.{IsReadable}
use singbox_sub_me.Override.RoundTrip.{parse-to_document}
use singbox_sub_me.Override.Shapes.{Reads, parse_shapes}

-- {"log": {"level": level}}
abbrev log_overlay : String → Json
log_overlay level = object (field "log" (object (field "level" (text level) end)) end)

abbrev fragment_of : String → Bool → String → RuleFragment
fragment_of id enabled level = record {
  id = id;
  label = id;
  enabled = enabled;
  overlay = log_overlay level;
}

abbrev two_fragments : ProfileOverride
two_fragments = record {
  implicit = false;
  fragments = fragment_of "quiet" false "error" ∷ fragment_of "loud" true "debug" ∷ [];
}

apply-reserved_conflicts_example :
    ((apply two_fragments (object end)).1 ≡ reserved_conflicts two_fragments)
    × AreDistinct (apply two_fragments (object end)).1
    × ((pointer : String)
        → is_among pointer (apply two_fragments (object end)).1
          ≡ is_among pointer (all_conflicts (enabled_of two_fragments.fragments)))
apply-reserved_conflicts_example = apply-reserved_conflicts two_fragments (object end)

first_fragment_wins_example :
    at_path ("log" ∷ "level" ∷ []) (apply two_fragments (object end)).0 ≡ some (text "debug")
unfolding at_path get
first_fragment_wins_example =
    first_fragment_wins ("log" ∷ "level" ∷ []) two_fragments
      (fragment_of "quiet" false "error" ∷ []) [] (fragment_of "loud" true "debug") (text "debug")
      (object end) refl (inl refl, tt) refl
      (Paths.an_object (refl, tt)
        (Paths.one_more
          (Paths.an_object (refl, tt) (Paths.one_more (Paths.a_text "debug") Paths.none_left))
          Paths.none_left))
      refl (refl, refl)

two_fragments-IsReadable : IsReadable two_fragments
unfolding is_blank
two_fragments-IsReadable = record {
  listed = refl;
  proper = (record { named = refl; shaped = refl }, (record { named = refl; shaped = refl }, tt));
  distinct = ((ground (arith, eq_iff "loud" "quiet"), tt), (tt, tt));
}

parse-to_document_example : parse (to_document two_fragments) ≡ ok two_fragments
parse-to_document_example = parse-to_document two_fragments two_fragments-IsReadable

-- A document of the hand-written shape is read.
parse_by_hand : parse (log_overlay "info") ≡ ok (hand_written (log_overlay "info"))
unfolding parse parse_object get
parse_by_hand = refl

parse_shapes_example :
    (parse (log_overlay "info") ≡ ok (hand_written (log_overlay "info")))
    ↔ Reads (log_overlay "info") (hand_written (log_overlay "info"))
parse_shapes_example = parse_shapes (log_overlay "info") (hand_written (log_overlay "info"))

abbrev both_enabled : ProfileOverride
both_enabled = record {
  implicit = false;
  fragments = fragment_of "quiet" true "error" ∷ fragment_of "loud" true "debug" ∷ [];
}

toggle_quiet : toggle two_fragments "quiet" none ≡ ok (both_enabled, true)
unfolding toggle toggle_list
toggle_quiet = refl
