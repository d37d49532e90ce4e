-- ===== src/Override/Precedence.antt =====
-- Which fragment decides a field of the merged configuration.
use singbox_sub_me.Prelude.{
  ◌≡◌, true, false, some, List, [], ◌∷◌, ◌++◌, String, All, Bool-cases, inl, inr, ◌⊎◌, ◌∙◌,
}
use singbox_sub_me.Json.{Json}
use singbox_sub_me.Merge.Paths.{at_path, IsWellFormed, IsLeaf, IsUntouched, overlay_wins, base_kept}
use singbox_sub_me.Override.{RuleFragment, ProfileOverride, enabled_of, merge_all, apply}

-- The fragment is disabled, or its overlay leaves the path alone.
abbrev pub Skips : List String → RuleFragment → Type 0
Skips path f = (f.enabled ≡ false) ⊎ (IsWellFormed f.overlay × IsUntouched path f.overlay)

merge_all_decided :
    (path : List String) (before after : List RuleFragment) (f : RuleFragment) (leaf base : Json)
    → All (Skips path) before
    → f.enabled ≡ true
    → IsWellFormed f.overlay
    → at_path path f.overlay ≡ some leaf
    → IsLeaf path leaf
    → at_path path (merge_all (enabled_of (before ++ f ∷ after)) base).0 ≡ some leaf
unfolding merge_all enabled_of
merge_all_decided path [] after f leaf base skip on w at h =
    rw on (overlay_wins path (merge_all (enabled_of after) base).0 f.overlay leaf w at h)
merge_all_decided path (g ∷ before) after f leaf base (inl off, skip) on w at h =
    rw off (merge_all_decided path before after f leaf base skip on w at h)
merge_all_decided path (g ∷ before) after f leaf base (inr (formed, untouched), skip) on w at h =
    let ih = merge_all_decided path before after f leaf base skip on w at h in
    elim (Bool-cases g.enabled) [
      | inl yes_on ↦
          let rest = merge_all (enabled_of (before ++ f ∷ after)) base in
          rw yes_on (base_kept path rest.0 g.overlay formed untouched ∙ ih)
      | inr off ↦ rw off ih
    ]

-- A field that an enabled fragment sets, to a value that is no object and no prepended `rules`
-- array, has that value in the result, if the enabled fragments listed above it do not reach the
-- field; the fragments below it and the base do not matter.
pub first_fragment_wins :
    (path : List String) (file : ProfileOverride) (before after : List RuleFragment)
    (f : RuleFragment) (leaf base : Json)
    → file.fragments ≡ before ++ f ∷ after
    → All (Skips path) before
    → f.enabled ≡ true
    → IsWellFormed f.overlay
    → at_path path f.overlay ≡ some leaf
    → IsLeaf path leaf
    → at_path path (apply file base).0 ≡ some leaf
unfolding apply
first_fragment_wins path file before after f leaf base same skip on w at h =
    rw same (merge_all_decided path before after f leaf base skip on w at h)
