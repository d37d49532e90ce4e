-- ===== src/Release/Canonical.antt =====
-- src/release.rs, write_canonical_json: the text that a signature covers. The printer of a key or of
-- a value that is no container is serde_json's, a parameter.
use singbox_sub_me.Prelude.{
  ◌≡◌, ◌≢◌, refl, sym, ap, ap₂, ◌∙◌, String, List, [], ◌∷◌, map, str_eq, if◌then◌else◌, sort,
  insert_sorted, insert_sorted_comm, arith, eq_iff,
}
use singbox_sub_me.Json.{
  Json, null, bool, number, text, array, object, Items, nil, cons, Fields, end, field,
}
use singbox_sub_me.Http.Texts.{followed_by}

-- A map's entries, their values written.
abbrev Entries : Type 0
Entries = List (String × String)

abbrev keys : Entries → List String
keys [] = []
keys ((k, written) ∷ entries) = k ∷ keys entries

-- `map[key]`, written: only ever asked for the map's own keys.
abbrev lookup : String → Entries → String
lookup key [] = ""
lookup key ((k, written) ∷ entries) = if str_eq k key then written else lookup key entries

-- The parts with commas between them.
abbrev with_commas : List String → String
with_commas [] = ""
with_commas (s ∷ []) = s
with_commas (s ∷ t ∷ rest) = followed_by s (followed_by "," (with_commas (t ∷ rest)))

module _ (to_vec : Json → String) where
  abbrev write_entry : Entries → String → String
  write_entry entries key = followed_by (to_vec (text key)) (followed_by ":" (lookup key entries))

  -- The loop over the sorted keys.
  write_entries : Entries → String
  write_entries entries =
      followed_by "{"
        (followed_by (with_commas (map (write_entry entries) (sort (keys entries)))) "}")

  mutual
    pub write_canonical_json : Json → String
    write_canonical_json (object fs) = write_entries (written_fields fs)
    write_canonical_json (array xs) =
        followed_by "[" (followed_by (with_commas (written_items xs)) "]")
    write_canonical_json null = to_vec null
    write_canonical_json (bool b) = to_vec (bool b)
    write_canonical_json (number s) = to_vec (number s)
    write_canonical_json (text s) = to_vec (text s)

    written_items : Items → List String
    written_items nil = []
    written_items (cons x xs) = write_canonical_json x ∷ written_items xs

    written_fields : Fields → Entries
    written_fields end = []
    written_fields (field k v fs) = (k, write_canonical_json v) ∷ written_fields fs

mutual
  -- The same document, the entries of its maps in another order, at any depth.
  pub data IsReordered : Json → Json → Type 0 where
    unchanged : (j : Json) → IsReordered j j
    in_array : {xs ys : Items} → AreReordered xs ys → IsReordered (array xs) (array ys)
    in_object : {fs gs : Fields} → HasReordered fs gs → IsReordered (object fs) (object gs)

  pub data AreReordered : Items → Items → Type 0 where
    no_items : AreReordered nil nil
    next_item :
        {x y : Json} {xs ys : Items}
        → IsReordered x y
        → AreReordered xs ys
        → AreReordered (cons x xs) (cons y ys)

  pub data HasReordered : Fields → Fields → Type 0 where
    no_fields : HasReordered end end
    next_field :
        {v w : Json} {fs gs : Fields} (k : String)
        → IsReordered v w
        → HasReordered fs gs
        → HasReordered (field k v fs) (field k w gs)
    swapped :
        (k j : String) (v w : Json) (fs : Fields)
        → k ≢ j
        → HasReordered (field k v (field j w fs)) (field j w (field k v fs))
    in_turn : {fs gs hs : Fields} → HasReordered fs gs → HasReordered gs hs → HasReordered fs hs

-- Two lists of entries that the writer cannot tell apart.
record AreAlike (es ds : Entries) : Type 0 where
  same_keys : sort (keys es) ≡ sort (keys ds)
  same_values : (key : String) → lookup key es ≡ lookup key ds

map-same :
    (f g : String → String) (ks : List String) → ((k : String) → f k ≡ g k) → map f ks ≡ map g ks
map-same f g [] h = refl
map-same f g (k ∷ ks) h = ap₂ (λ a as'. a ∷ as') (h k) (map-same f g ks h)

module _ (to_vec : Json → String) where
  write_entries-AreAlike :
      (es ds : Entries) → AreAlike es ds → write_entries to_vec es ≡ write_entries to_vec ds
  unfolding write_entries
  write_entries-AreAlike es ds alike =
      let same =
        map-same (write_entry to_vec es) (write_entry to_vec ds) (sort (keys ds)) (λ k.
          ap (λ v. followed_by (to_vec (text k)) (followed_by ":" v)) (alike.same_values k)) in
      ap (λ ps. followed_by "{" (followed_by (with_commas ps) "}"))
        (ap (map (write_entry to_vec es)) alike.same_keys ∙ same)

  written_object :
      (fs : Fields)
      → write_canonical_json to_vec (object fs) ≡ write_entries to_vec (written_fields to_vec fs)
  unfolding write_canonical_json written_fields
  written_object fs = refl

  written_array :
      (xs : Items)
      → write_canonical_json to_vec (array xs)
        ≡ followed_by "[" (followed_by (with_commas (written_items to_vec xs)) "]")
  unfolding write_canonical_json written_items
  written_array xs = refl

  written_cons :
      (x : Json) (xs : Items)
      → written_items to_vec (cons x xs) ≡ write_canonical_json to_vec x ∷ written_items to_vec xs
  unfolding write_canonical_json written_items
  written_cons x xs = refl

  written_field :
      (k : String) (v : Json) (fs : Fields)
      → written_fields to_vec (field k v fs)
        ≡ (k, write_canonical_json to_vec v) ∷ written_fields to_vec fs
  unfolding write_canonical_json written_fields
  written_field k v fs = refl

field-AreAlike :
    (k a b : String) (es ds : Entries)
    → a ≡ b
    → AreAlike es ds
    → AreAlike ((k, a) ∷ es) ((k, b) ∷ ds)
unfolding sort
field-AreAlike k a b es ds e alike = record {
  same_keys = ap (insert_sorted k) alike.same_keys;
  same_values = λ key. ground (arith, alike.same_values key);
}

swapped-AreAlike :
    (k j a b : String) (es : Entries)
    → k ≢ j
    → AreAlike ((k, a) ∷ (j, b) ∷ es) ((j, b) ∷ (k, a) ∷ es)
unfolding sort
swapped-AreAlike k j a b es apart = record {
  same_keys = insert_sorted_comm k j (sort (keys es));
  same_values = λ key. ground (arith, eq_iff k key, eq_iff j key);
}

in_turn-AreAlike : (es ds cs : Entries) → AreAlike es ds → AreAlike ds cs → AreAlike es cs
in_turn-AreAlike es ds cs one two = record {
  same_keys = one.same_keys ∙ two.same_keys;
  same_values = λ key. one.same_values key ∙ two.same_values key;
}

no_fields-AreAlike :
    (to_vec : Json → String) → AreAlike (written_fields to_vec end) (written_fields to_vec end)
no_fields-AreAlike to_vec = record { same_keys = refl; same_values = λ key. refl }

module _ (to_vec : Json → String) where
  mutual
    reordered-same :
        {a b : Json}
        → IsReordered a b
        → write_canonical_json to_vec a ≡ write_canonical_json to_vec b
    reordered-same (unchanged j) = refl
    reordered-same (in_array {xs} {ys} r) =
        written_array to_vec xs
        ∙ ap (λ ps. followed_by "[" (followed_by (with_commas ps) "]")) (items-same r)
        ∙ sym (written_array to_vec ys)
    reordered-same (in_object {fs} {gs} r) =
        written_object to_vec fs
        ∙ write_entries-AreAlike to_vec (written_fields to_vec fs) (written_fields to_vec gs)
            (fields-alike r)
        ∙ sym (written_object to_vec gs)

    items-same :
        {xs ys : Items} → AreReordered xs ys → written_items to_vec xs ≡ written_items to_vec ys
    items-same no_items = refl
    items-same (next_item {x} {y} {xs} {ys} r rs) =
        written_cons to_vec x xs
        ∙ ap₂ (λ a as'. a ∷ as') (reordered-same r) (items-same rs)
        ∙ sym (written_cons to_vec y ys)

    fields-alike :
        {fs gs : Fields}
        → HasReordered fs gs
        → AreAlike (written_fields to_vec fs) (written_fields to_vec gs)
    fields-alike no_fields = no_fields-AreAlike to_vec
    fields-alike (next_field {v} {w} {fs} {gs} k r rs) =
        rw (written_field to_vec k v fs, written_field to_vec k w gs)
          (field-AreAlike k (write_canonical_json to_vec v) (write_canonical_json to_vec w)
            (written_fields to_vec fs) (written_fields to_vec gs) (reordered-same r)
            (fields-alike rs))
    fields-alike (swapped k j v w fs apart) =
        rw
          (
            written_field to_vec k v (field j w fs),
            written_field to_vec j w fs,
            written_field to_vec j w (field k v fs),
            written_field to_vec k v fs,
          )
          (swapped-AreAlike k j (write_canonical_json to_vec v) (write_canonical_json to_vec w)
            (written_fields to_vec fs) apart)
    fields-alike (in_turn {fs} {gs} {hs} one two) =
        in_turn-AreAlike (written_fields to_vec fs) (written_fields to_vec gs)
          (written_fields to_vec hs) (fields-alike one) (fields-alike two)

-- The text that a signature covers does not depend on the order in which maps hold their entries,
-- at any depth of the document and whatever prints keys and plain values.
pub write_canonical_json-IsReordered :
    (to_vec : Json → String) (a b : Json)
    → IsReordered a b
    → write_canonical_json to_vec a ≡ write_canonical_json to_vec b
write_canonical_json-IsReordered to_vec a b r = reordered-same to_vec r
