-- ===== src/Merge/Rules.antt =====
-- The arrays under a key named `rules`.
use singbox_sub_me.Prelude.{
  ◌≡◌, refl, String, false, Option, none, some, arith, List, [], ◌∷◌, ◌++◌,
}
use singbox_sub_me.Json.{Json, array, object, Items, extend, get, is_array}
use singbox_sub_me.Merge.{merge_entry, deep_merge}
use singbox_sub_me.Merge.Lookup.{merged, get-merge_map, deep_merge_objects}
use singbox_sub_me.Merge.Paths.{inside, at_path, IsWellFormed, an_object, AreWellFormed-get}

inside-eq-some :
    (f : Json → Option Json) (o : Option Json) {x : Json}
    → inside f o ≡ some x
    → (v : Json) × (o ≡ some v) × (f v ≡ some x)
inside-eq-some f none e = cc
inside-eq-some f (some v) e = (v, refl, e)

is_array_of_at_path :
    (ks : List String) (k : String) (j x : Json)
    → at_path (ks ++ k ∷ []) j ≡ some x
    → is_array j ≡ false
unfolding at_path
is_array_of_at_path [] k (array xs) x e = cc
is_array_of_at_path [] k _ x e = refl
is_array_of_at_path (k' ∷ ks) k (array xs) x e = cc
is_array_of_at_path (k' ∷ ks) k _ x e = refl

merge_entry_of_not_array :
    (k : String) (existing value : Json)
    → is_array value ≡ false
    → merge_entry (λ e. deep_merge e value) k value existing ≡ deep_merge existing value
unfolding merge_entry
merge_entry_of_not_array k existing value h = ground arith

-- The `rules` arrays of the two documents, at whatever depth, end up joined, the overlay's first,
-- if each map of the overlay has each key once.
pub rules_prepended :
    (path : List String) (base overlay : Json) (generated overriding : Items)
    → IsWellFormed overlay
    → at_path (path ++ "rules" ∷ []) base ≡ some (array generated)
    → at_path (path ++ "rules" ∷ []) overlay ≡ some (array overriding)
    → at_path (path ++ "rules" ∷ []) (deep_merge base overlay)
      ≡ some (array (extend overriding generated))
unfolding at_path merged
rules_prepended [] (object b) (object fs) g o (an_object d w) eb eo =
    let (e, at_b, there_b) = inside-eq-some _ (get "rules" b) eb in
    let (v, at_o, there_o) = inside-eq-some _ (get "rules" fs) eo in
    let is_e : e ≡ array g = ground arith in
    let is_v : v ≡ array o = ground arith in
    rw (deep_merge_objects, get-merge_map "rules" b fs d, at_b, at_o, is_e, is_v)
      (unfold merge_entry in refl)
rules_prepended (k ∷ ks) (object b) (object fs) g o (an_object d w) eb eo =
    let (e, at_b, there_b) = inside-eq-some _ (get k b) eb in
    let (v, at_o, there_o) = inside-eq-some _ (get k fs) eo in
    let ih = rules_prepended ks e v g o (AreWellFormed-get k w at_o) there_b there_o in
    rw
      (
        deep_merge_objects,
        get-merge_map k b fs d,
        at_b,
        at_o,
        merge_entry_of_not_array k e v (is_array_of_at_path ks "rules" v _ there_o),
      )
      ih
rules_prepended [] _ _ g o w eb eo = cc
rules_prepended (k ∷ ks) _ _ g o w eb eo = cc
