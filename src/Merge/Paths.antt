-- ===== src/Merge/Paths.antt =====
-- What a merged document holds at a path of keys: the overlay where it reaches, else the base.
use singbox_sub_me.Prelude.{
  ◌≡◌, refl, String, false, ◌&&◌, Option, none, some, arith, str_eq, Bool-cases, Option-cases, List,
  [], ◌∷◌, inl, inr, ap,
}
use singbox_sub_me.Json.{
  Json, null, bool, number, text, array, object, Fields, end, field, get, is_array, is_object,
}
use singbox_sub_me.Merge.{merge_entry, deep_merge}
use singbox_sub_me.Merge.Lookup.{HasDistinctKeys, merged, get-merge_map, deep_merge_objects}

abbrev pub inside : (Json → Option Json) → Option Json → Option Json
inside f none = none
inside f (some j) = f j

-- The value at a path of object keys.
unfoldable pub at_path : List String → Json → Option Json
at_path [] j = some j
at_path (k ∷ ks) (object fs) = inside (at_path ks) (get k fs)
at_path (k ∷ ks) _ = none

-- Every object that a path of keys can reach has each key once, as a map has.
mutual
  pub data IsWellFormed : Json → Type 0 where
    a_null : IsWellFormed null
    a_bool : (b : _) → IsWellFormed (bool b)
    a_number : (s : String) → IsWellFormed (number s)
    a_text : (s : String) → IsWellFormed (text s)
    an_array : (xs : _) → IsWellFormed (array xs)
    an_object : {fs : Fields} → HasDistinctKeys fs → AreWellFormed fs → IsWellFormed (object fs)

  pub data AreWellFormed : Fields → Type 0 where
    none_left : AreWellFormed end
    one_more :
        {k : String} {v : Json} {fs : Fields}
        → IsWellFormed v
        → AreWellFormed fs
        → AreWellFormed (field k v fs)

pub AreWellFormed-get :
    {fs : Fields} (k : String) {v : Json} → AreWellFormed fs → get k fs ≡ some v → IsWellFormed v
unfolding get
AreWellFormed-get k none_left e = cc
AreWellFormed-get k {v} (one_more {k = j} {v = w} {fs} here later) e =
    elim (Bool-cases (str_eq j k)) [
      | inl same ↦ let f : w ≡ v = ground arith in rw f at here
      | inr other ↦ AreWellFormed-get k later (ground arith)
    ]

-- A value that replaces whatever the base has: no object, and no array that is prepended.
abbrev pub IsLeaf : List String → Json → Type 0
IsLeaf [] leaf = is_object leaf ≡ false
IsLeaf (k ∷ []) leaf = (is_object leaf ≡ false) × ((str_eq k "rules" && is_array leaf) ≡ false)
IsLeaf (k ∷ k' ∷ ks) leaf = IsLeaf (k' ∷ ks) leaf

pub deep_merge_of_leaf : (base leaf : Json) → is_object leaf ≡ false → deep_merge base leaf ≡ leaf
unfolding deep_merge
deep_merge_of_leaf (object b) null h = refl
deep_merge_of_leaf (object b) (object o) h = cc
deep_merge_of_leaf (object b) _ h = refl
deep_merge_of_leaf _ leaf h = refl

IsLeaf-tail : (k : String) (ks : List String) (leaf : Json) → IsLeaf (k ∷ ks) leaf → IsLeaf ks leaf
IsLeaf-tail k [] leaf h = h.0
IsLeaf-tail k (k' ∷ ks) leaf h = h

-- The step at one key: `rec` is the claim for the entries that are merged recursively.
entry_wins :
    (k : String) (ks : List String) (existing value leaf : Json)
    → at_path ks value ≡ some leaf
    → IsLeaf (k ∷ ks) leaf
    → at_path ks (deep_merge existing value) ≡ some leaf
    → at_path ks (merge_entry (λ e. deep_merge e value) k value existing) ≡ some leaf
unfolding merge_entry at_path
entry_wins k [] existing value leaf e h rec = ground arith
entry_wins k (k' ∷ ks) existing (array xs) leaf e h rec = cc
entry_wins k (k' ∷ ks) existing value leaf e h rec = ground arith

-- What the overlay sets at the end of a path, the result holds there, whatever the base is.
pub overlay_wins :
    (path : List String) (base overlay leaf : Json)
    → IsWellFormed overlay
    → at_path path overlay ≡ some leaf
    → IsLeaf path leaf
    → at_path path (deep_merge base overlay) ≡ some leaf
unfolding at_path merged
overlay_wins [] base overlay leaf w e h =
    let same : overlay ≡ leaf = ground arith in ap some (rw same (deep_merge_of_leaf base leaf h))
overlay_wins (k ∷ ks) (object b) (object fs) leaf (an_object d w) e h =
    elim (Option-cases (get k fs)) [
      | inl missing ↦ ground arith
      | inr (v, found) ↦
          let there : at_path ks v ≡ some leaf = rw found at e in
          let rec = λ (existing : Json).
            overlay_wins ks existing v leaf (AreWellFormed-get k w found) there
              (IsLeaf-tail k ks leaf h) in
          rw (deep_merge_objects, get-merge_map k b fs d, found)
            (elim (Option-cases (get k b)) [
              | inl fresh ↦ rw fresh there
              | inr (existing, old) ↦
                  rw old (entry_wins k ks existing v leaf there h (rec existing))
            ])
    ]
overlay_wins (k ∷ ks) base (object fs) leaf w e h = unfold deep_merge in e
overlay_wins (k ∷ ks) base null leaf w e h = cc
overlay_wins (k ∷ ks) base other leaf w e h = cc

-- The overlay leaves the base alone at a path that it does not reach: on the way it holds objects,
-- up to one that has no entry for the next key.
abbrev MissingOr : (Json → Type 0) → Option Json → Type 0
MissingOr P none = Unit
MissingOr P (some v) = P v

abbrev pub IsUntouched : List String → Json → Type 0
IsUntouched [] overlay = ⊥
IsUntouched (k ∷ ks) (object fs) = MissingOr (IsUntouched ks) (get k fs)
IsUntouched (k ∷ ks) _ = ⊥

at_path_of_IsUntouched :
    (path : List String) (overlay : Json) → IsUntouched path overlay → at_path path overlay ≡ none
unfolding at_path
at_path_of_IsUntouched (k ∷ ks) (object fs) u = elim (Option-cases (get k fs)) [
  | inl missing ↦ rw missing
  | inr (v, found) ↦ rw found (at_path_of_IsUntouched ks v (rw (found, IsUntouched) at u))
]
at_path_of_IsUntouched [] overlay u = absurd u
at_path_of_IsUntouched (k ∷ ks) null u = absurd u
at_path_of_IsUntouched (k ∷ ks) other u = absurd u

entry_kept :
    (k : String) (ks : List String) (existing value : Json)
    → IsUntouched ks value
    → at_path ks (deep_merge existing value) ≡ at_path ks existing
    → at_path ks (merge_entry (λ e. deep_merge e value) k value existing) ≡ at_path ks existing
unfolding merge_entry
entry_kept k [] existing value u rec = absurd u
entry_kept k (k' ∷ ks) existing (array xs) u rec = absurd u
entry_kept k (k' ∷ ks) existing (object fs) u rec = ground arith
entry_kept k (k' ∷ ks) existing null u rec = absurd u
entry_kept k (k' ∷ ks) existing value u rec = absurd u

-- At a path that the overlay does not reach, the result holds what the base held.
pub base_kept :
    (path : List String) (base overlay : Json)
    → IsWellFormed overlay
    → IsUntouched path overlay
    → at_path path (deep_merge base overlay) ≡ at_path path base
unfolding at_path merged
base_kept (k ∷ ks) (object b) (object fs) (an_object d w) u =
    rw (deep_merge_objects, get-merge_map k b fs d)
      (elim (Option-cases (get k fs)) [
        | inl missing ↦
            rw missing (elim (Option-cases (get k b)) [ inl e ↦ rw e | inr (x, e) ↦ rw e ])
        | inr (v, found) ↦
            let there : IsUntouched ks v = rw (found, IsUntouched) at u in
            rw found (elim (Option-cases (get k b)) [
              | inl fresh ↦ rw fresh (at_path_of_IsUntouched ks v there)
              | inr (existing, old) ↦ rw old (
                  entry_kept k ks existing v there
                    (base_kept ks existing v (AreWellFormed-get k w found) there))
            ])
      ])
base_kept [] base overlay w u = absurd u
base_kept (k ∷ ks) base (object fs) w u =
    unfold deep_merge in at_path_of_IsUntouched (k ∷ ks) (object fs) u
base_kept (k ∷ ks) base null w u = absurd u
base_kept (k ∷ ks) base other w u = absurd u
