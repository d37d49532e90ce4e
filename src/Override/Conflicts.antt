-- ===== src/Override/Conflicts.antt =====
-- The conflicts that are reported.
use singbox_sub_me.Prelude.{
  ◌≡◌, refl, String, List, [], ◌∷◌, ap, ◌∙◌, sort, dedup, sort-append_comm, sort-append_right,
  AreDistinct, is_among, dedup-sort-AreDistinct, is_among-dedup-sort,
}
use singbox_sub_me.Json.{Json}
use singbox_sub_me.Override.{
  RuleFragment, ProfileOverride, enabled_of, fragment_conflicts, merge_all, apply, all_conflicts,
  reserved_conflicts,
}

sort_conflicts :
    (fs : List RuleFragment) (base : Json) → sort (merge_all fs base).1 ≡ sort (all_conflicts fs)
unfolding merge_all all_conflicts
sort_conflicts [] base = refl
sort_conflicts (f ∷ fs) base =
    sort-append_comm (merge_all fs base).1 (fragment_conflicts f)
    ∙ sort-append_right (fragment_conflicts f) (merge_all fs base).1 (all_conflicts fs)
        (sort_conflicts fs base)

-- What a merge reports as refused is what the file announces before any merge, whatever the base: each
-- pointer that an enabled fragment touches, and no other, once.
pub apply-reserved_conflicts :
    (file : ProfileOverride) (base : Json)
    → ((apply file base).1 ≡ reserved_conflicts file)
      × AreDistinct (apply file base).1
      × ((pointer : String)
          → is_among pointer (apply file base).1
            ≡ is_among pointer (all_conflicts (enabled_of file.fragments)))
unfolding apply reserved_conflicts
apply-reserved_conflicts file base =
    let touched = all_conflicts (enabled_of file.fragments) in
    let same = ap dedup (sort_conflicts (enabled_of file.fragments) base) in
    (
      same,
      rw same (dedup-sort-AreDistinct touched),
      λ pointer. rw same (is_among-dedup-sort pointer touched),
    )
