-- ===== src/Merge/Lookup.antt =====
-- What a merged object holds under each key.
use singbox_sub_me.Prelude.{
  ◌≡◌, refl, String, Option, none, some, arith, eq_iff, str_eq, if◌then◌else◌, Bool-cases, inl, inr,
}
use singbox_sub_me.Json.{Json, object, Fields, end, field, get, upsert}
use singbox_sub_me.Merge.{merge_entry, deep_merge, merge_map}

-- A map has each key once.
abbrev pub HasDistinctKeys : Fields → Type 0
HasDistinctKeys end = Unit
HasDistinctKeys (field k v fs) = (get k fs ≡ none) × HasDistinctKeys fs

abbrev pub written : (Json → Json) → Json → Option Json → Json
written change new none = new
written change new (some existing) = change existing

pub get-upsert :
    (k j : String) (change : Json → Json) (new : Json) (fs : Fields)
    → get j (upsert k change new fs)
      ≡ (if str_eq k j then some (written change new (get k fs)) else get j fs)
unfolding get upsert
get-upsert k j change new end = ground (arith, eq_iff k j)
get-upsert k j change new (field i v fs) =
    ground (arith, eq_iff k j, eq_iff i k, eq_iff i j, get-upsert k j change new fs)

-- The entry of the result, from the entries of the base and of the overlay.
unfoldable pub merged : String → Option Json → Option Json → Option Json
merged k base none = base
merged k none (some value) = some value
merged k (some existing) (some value) =
    some (merge_entry (λ e. deep_merge e value) k value existing)

merged-written :
    (k : String) (value : Json) (base : Option Json)
    → some (written (merge_entry (λ e. deep_merge e value) k value) value base)
      ≡ merged k base (some value)
unfolding merged
merged-written k value none = refl
merged-written k value (some e) = refl

merged-none : (k : String) (base : Option Json) → merged k base none ≡ base
unfolding merged
merged-none k none = refl
merged-none k (some e) = refl

pub merge_map-field :
    (base : Fields) (k : String) (value : Json) (rest : Fields)
    → merge_map base (field k value rest)
      ≡ merge_map (upsert k (merge_entry (λ e. deep_merge e value) k value) value base) rest
unfolding merge_map
merge_map-field base k value rest = refl

pub deep_merge_objects :
    (base overlay : Fields)
    → deep_merge (object base) (object overlay) ≡ object (merge_map base overlay)
unfolding deep_merge
deep_merge_objects base overlay = refl

-- A key of the result holds the base's value where the overlay has none, the overlay's where the
-- base has none, and the merged entry where both have one, if the overlay has each key once.
pub get-merge_map :
    (j : String) (base overlay : Fields)
    → HasDistinctKeys overlay
    → get j (merge_map base overlay) ≡ merged j (get j base) (get j overlay)
get-merge_map j base end d = unfold merge_map get in rw merged-none
get-merge_map j base (field k value rest) (absent, d) =
    let change = merge_entry (λ e. deep_merge e value) k value in
    let ih = get-merge_map j (upsert k change value base) rest d in
    let up = get-upsert k j change value base in
    elim (Bool-cases (str_eq k j)) [
      | inl same ↦
          let e : k ≡ j = (eq_iff k j).0 same in
          rw (merge_map-field, ih, up, same)
            (unfold get in rw (same, ← e, absent, merged-none, merged-written))
      | inr other ↦ rw (merge_map-field, ih, up, other) (unfold get in rw other)
    ]
