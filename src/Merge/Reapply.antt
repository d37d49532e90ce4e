-- ===== src/Merge/Reapply.antt =====
-- Merging one overlay twice.
use singbox_sub_me.Prelude.{
  ◌≡◌, refl, String, false, ◌&&◌, none, some, arith, str_eq, Option-cases, inl, inr, ap, Bool,
  eq_iff, eq_refl, Bool-cases, sym, ◌∙◌,
}
use singbox_sub_me.Json.{
  Json, null, bool, number, text, array, object, Items, Fields, end, field, get, is_array,
  is_object, upsert,
}
use singbox_sub_me.Merge.{merge_entry, deep_merge, merge_map}
use singbox_sub_me.Merge.Paths.{deep_merge_of_leaf}
use singbox_sub_me.Merge.Lookup.{
  HasDistinctKeys, merged, get-merge_map, deep_merge_objects, merge_map-field,
}

-- An overlay whose maps have each key once, and none of them an array under `rules`.
mutual
  pub data IsPlain : Json → Type 0 where
    a_null : IsPlain null
    a_bool : (b : Bool) → IsPlain (bool b)
    a_number : (s : String) → IsPlain (number s)
    a_text : (s : String) → IsPlain (text s)
    an_array : (xs : Items) → IsPlain (array xs)
    an_object : {fs : Fields} → HasDistinctKeys fs → ArePlain fs → IsPlain (object fs)

  pub data ArePlain : Fields → Type 0 where
    no_more : ArePlain end
    one_more :
        {k : String} {v : Json} {fs : Fields}
        → (str_eq k "rules" && is_array v) ≡ false
        → IsPlain v
        → ArePlain fs
        → ArePlain (field k v fs)

-- Each entry of the overlay is one that the base has, and that the merge leaves as it is.
abbrev AreSettled : Fields → Fields → Type 0
AreSettled base end = Unit
AreSettled base (field k v rest) =
    ((e : Json) × (get k base ≡ some e) × (merge_entry (λ x. deep_merge x v) k v e ≡ e))
    × AreSettled base rest

upsert_fixed :
    (k : String) (change : Json → Json) (new e : Json) (fs : Fields)
    → get k fs ≡ some e
    → change e ≡ e
    → upsert k change new fs ≡ fs
unfolding get upsert
upsert_fixed k change new e end found same = cc
upsert_fixed k change new e (field j v fs) found same = elim (Bool-cases (str_eq j k)) [
  | inl here ↦ let v≡e : v ≡ e = ground arith in rw (here, v≡e, same)
  | inr there ↦ rw (there, upsert_fixed k change new e fs (rw there at found) same)
]

merge_map_settled :
    (base overlay : Fields) → AreSettled base overlay → merge_map base overlay ≡ base
merge_map_settled base end s = unfold merge_map in refl
merge_map_settled base (field k v rest) ((e, found, same), s) =
    rw (merge_map-field, upsert_fixed k _ v e base found same) (merge_map_settled base rest s)

entry_of_plain :
    (k : String) (v e : Json)
    → (str_eq k "rules" && is_array v) ≡ false
    → merge_entry (λ x. deep_merge x v) k v e ≡ deep_merge e v
unfolding merge_entry
entry_of_plain k v e h = ground arith

-- What a merge of `v` makes of an entry, present or not, a second merge of `v` keeps.
abbrev Absorbs : Json → Type 0
Absorbs v =
    (deep_merge v v ≡ v) × ((base : Json) → deep_merge (deep_merge base v) v ≡ deep_merge base v)

abbrev EachAbsorbs : Fields → Type 0
EachAbsorbs end = Unit
EachAbsorbs (field k v rest) =
    (((str_eq k "rules" && is_array v) ≡ false) × Absorbs v) × EachAbsorbs rest

abbrev IsPart : Fields → Fields → Type 0
IsPart fs end = Unit
IsPart fs (field k v rest) = (get k fs ≡ some v) × IsPart fs rest

IsPart-field :
    (k : String) (v : Json) (fs part : Fields)
    → get k fs ≡ none
    → IsPart fs part
    → IsPart (field k v fs) part
IsPart-field k v fs end absent p = tt
IsPart-field k v fs (field j w part) absent (found, p) = (there, IsPart-field k v fs part absent p)
  where
    there : get j (field k v fs) ≡ some w
    there = unfold get in ground (arith, eq_iff k j)

IsPart-self : (fs : Fields) → HasDistinctKeys fs → IsPart fs fs
IsPart-self end d = tt
IsPart-self (field k v fs) (absent, d) =
    ((unfold get in rw (eq_refl k)), IsPart-field k v fs fs absent (IsPart-self fs d))

settled_self : (fs part : Fields) → IsPart fs part → EachAbsorbs part → AreSettled fs part
settled_self fs end p a = tt
settled_self fs (field k v part) (found, p) ((plain, ab), a) =
    ((v, found, entry_of_plain k v v plain ∙ ab.0), settled_self fs part p a)

entry_settled :
    (k : String) (v : Json) (base result : Fields)
    → get k result ≡ merged k (get k base) (some v)
    → (str_eq k "rules" && is_array v) ≡ false
    → Absorbs v
    → (e : Json) × (get k result ≡ some e) × (merge_entry (λ x. deep_merge x v) k v e ≡ e)
unfolding merged
entry_settled k v base result at plain (self, again) = elim (Option-cases (get k base)) [
  | inl fresh ↦ (v, rw fresh at at, entry_of_plain k v v plain ∙ self)
  | inr (x, old) ↦ (
    deep_merge x v,
    at ∙ rw (old, entry_of_plain k v x plain),
    entry_of_plain k v (deep_merge x v) plain ∙ again x,
  )
]

settled_merged :
    (base fs part : Fields)
    → HasDistinctKeys fs
    → IsPart fs part
    → EachAbsorbs part
    → AreSettled (merge_map base fs) part
settled_merged base fs end d p a = tt
settled_merged base fs (field k v part) d (found, p) ((plain, ab), a) = (
  entry_settled k v base (merge_map base fs)
      (get-merge_map k base fs d ∙ ap (merged k (get k base)) found) plain ab,
  settled_merged base fs part d p a,
)

object-Absorbs : (fs : Fields) → HasDistinctKeys fs → EachAbsorbs fs → Absorbs (object fs)
object-Absorbs fs d a = (self, again)
  where
    part : IsPart fs fs
    part = IsPart-self fs d

    self : deep_merge (object fs) (object fs) ≡ object fs
    self =
        deep_merge_objects fs fs ∙ ap object (merge_map_settled fs fs (settled_self fs fs part a))

    again :
        (base : Json)
        → deep_merge (deep_merge base (object fs)) (object fs) ≡ deep_merge base (object fs)
    again (object b) =
        rw (deep_merge_objects b fs, deep_merge_objects)
          (ap object (merge_map_settled (merge_map b fs) fs (settled_merged b fs fs d part a)))
    again null = unfold deep_merge in self
    again base = unfold deep_merge in self

leaf-Absorbs : (v : Json) → is_object v ≡ false → Absorbs v
leaf-Absorbs v h = (
  deep_merge_of_leaf v v h,
  λ base. deep_merge_of_leaf (deep_merge base v) v h ∙ sym (deep_merge_of_leaf base v h),
)

mutual
  absorbs : {v : Json} → IsPlain v → Absorbs v
  absorbs a_null = leaf-Absorbs null refl
  absorbs (a_bool b) = leaf-Absorbs (bool b) refl
  absorbs (a_number s) = leaf-Absorbs (number s) refl
  absorbs (a_text s) = leaf-Absorbs (text s) refl
  absorbs (an_array xs) = leaf-Absorbs (array xs) refl
  absorbs (an_object {fs} d p) = object-Absorbs fs d (each_absorbs p)

  each_absorbs : {fs : Fields} → ArePlain fs → EachAbsorbs fs
  each_absorbs no_more = tt
  each_absorbs (one_more h p ps) = ((h, absorbs p), each_absorbs ps)

-- Merging an overlay a second time changes nothing, order of entries included, if no map of the
-- overlay holds an array under `rules` or has a key twice.
pub deep_merge_idempotent :
    (base overlay : Json)
    → IsPlain overlay
    → deep_merge (deep_merge base overlay) overlay ≡ deep_merge base overlay
deep_merge_idempotent base overlay p = (absorbs p).1 base
