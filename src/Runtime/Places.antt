-- ===== src/Runtime/Places.antt =====
-- Writing at a path of keys, and reading it back.
use singbox_sub_me.Prelude.{
  ◌≡◌, ◌≢◌, refl, String, Option, none, some, List, [], ◌∷◌, ◌++◌, str_eq, if◌then◌else◌, arith,
  eq_iff, eq_refl, Option-cases, inl, inr, ◌⊎◌, sym, ◌∙◌,
}
use singbox_sub_me.Json.{
  Json, null, bool, number, text, array, object, Fields, end, field, get, insert, index_mut,
}
use singbox_sub_me.Merge.Lookup.{get-upsert}
use singbox_sub_me.Merge.Paths.{at_path, inside}
use singbox_sub_me.Runtime.{set_at}

get-insert :
    (k j : String) (v : Json) (fs : Fields)
    → get j (insert k v fs) ≡ (if str_eq k j then some v else get j fs)
get-insert k j v fs = ground (arith, get-upsert k j (λ _. v) v fs)

get_field_self {ℓ} :
    {A : Type ℓ} (k : String) (v : Json) (fs : Fields) (f : Option Json → A) {a : A}
    → f (some v) ≡ a
    → f (get k (field k v fs)) ≡ a
unfolding get
get_field_self k v fs f e = rw eq_refl e

abbrev or_null : Option Json → Json
or_null none = null
or_null (some v) = v

-- A write into an object or into null, in one form: the object's fields, and the new one.
set_at_object :
    (k : String) (ks : List String) (new : Json) (fs : Fields) {after : Json}
    → set_at (k ∷ ks) new (object fs) ≡ some after
    → (v : Json) × (set_at ks new (or_null (get k fs)) ≡ some v) × (after ≡ object (insert k v fs))
unfolding set_at index_mut
set_at_object k ks new fs {after} e = elim (Option-cases (set_at ks new (or_null (get k fs)))) [
  | inl panic ↦ absurd (ground (arith, panic))
  | inr (v, done) ↦ (v, done, ground (arith, done))
]

set_at_null :
    (k : String) (ks : List String) (new : Json) {after : Json}
    → set_at (k ∷ ks) new null ≡ some after
    → (v : Json) × (set_at ks new null ≡ some v) × (after ≡ object (field k v end))
unfolding set_at index_mut
set_at_null k ks new {after} e = elim (Option-cases (set_at ks new null)) [
  | inl panic ↦ absurd (ground (arith, panic))
  | inr (v, done) ↦ (v, done, ground (arith, done))
]

-- What is written at a path is read there.
pub at_path-set_at :
    (path : List String) (new j : Json) {after : Json}
    → set_at path new j ≡ some after
    → at_path path after ≡ some new
unfolding at_path
at_path-set_at [] new j e = unfold set_at in ground arith
at_path-set_at (k ∷ ks) new (object fs) e =
    let (v, done, same) = set_at_object k ks new fs e in
    let ih = at_path-set_at ks new (or_null (get k fs)) done in rw (same, get-insert, eq_refl) ih
at_path-set_at (k ∷ ks) new null e =
    let (v, done, same) = set_at_null k ks new e in
    rw same (get_field_self k v end (inside (at_path ks)) (at_path-set_at ks new null done))
at_path-set_at (k ∷ ks) new (bool b) e = unfold set_at index_mut in cc
at_path-set_at (k ∷ ks) new _ e = unfold set_at index_mut in cc

-- The paths part at some key.
abbrev pub Diverge : List String → List String → Type 0
Diverge (k ∷ ks) (j ∷ js) = (k ≢ j) ⊎ ((k ≡ j) × Diverge ks js)
Diverge _ _ = ⊥

at_path-null : (k : String) (ks : List String) (j : Json) → j ≡ null → at_path (k ∷ ks) j ≡ none
unfolding at_path
at_path-null k ks j e = rw e

inside-or_null :
    (k : String) (ks : List String) (o : Option Json)
    → inside (at_path (k ∷ ks)) o ≡ at_path (k ∷ ks) (or_null o)
unfolding at_path
inside-or_null k ks none = refl
inside-or_null k ks (some v) = refl

field_ne : (k l : String) (v : Json) → k ≢ l → get l (field k v end) ≡ none
unfolding get
field_ne k l v h = ground (arith, eq_iff k l)

insert_ne : (k l : String) (v : Json) (fs : Fields) → k ≢ l → get l (insert k v fs) ≡ get l fs
insert_ne k l v fs h = ground (arith, get-insert k l v fs, eq_iff k l)

Diverge-nil : (ks : List String) → Diverge ks [] → ⊥
Diverge-nil [] d = d
Diverge-nil (x ∷ xs) d = d

-- A write leaves every path alone that parts from its own.
pub at_path-set_at_ne :
    (path other : List String) (new j : Json) {after : Json}
    → Diverge path other
    → set_at path new j ≡ some after
    → at_path other after ≡ at_path other j
unfolding at_path
at_path-set_at_ne [] other new j d e = absurd d
at_path-set_at_ne (k ∷ ks) [] new j d e = absurd d
at_path-set_at_ne (k ∷ ks) (l ∷ ls) new (object fs) (inl ne) e =
    let (v, done, same) = set_at_object k ks new fs e in rw (same, insert_ne k l v fs ne)
at_path-set_at_ne (k ∷ ks) (l ∷ []) new (object fs) (inr (eq, d)) e = absurd (Diverge-nil ks d)
at_path-set_at_ne (k ∷ ks) (l ∷ m ∷ ls) new (object fs) (inr (eq, d)) e =
    let (v, done, same) = set_at_object k ks new fs e in
    let ih = at_path-set_at_ne ks (m ∷ ls) new (or_null (get k fs)) d done in
    rw (same, ← eq, get-insert, eq_refl) (ih ∙ sym (inside-or_null m ls (get k fs)))
at_path-set_at_ne (k ∷ ks) (l ∷ ls) new null (inl ne) e =
    let (v, done, same) = set_at_null k ks new e in rw (same, field_ne k l v ne)
at_path-set_at_ne (k ∷ ks) (l ∷ []) new null (inr (eq, d)) e = absurd (Diverge-nil ks d)
at_path-set_at_ne (k ∷ ks) (l ∷ m ∷ ls) new null (inr (eq, d)) e =
    let (v, done, same) = set_at_null k ks new e in
    let ih = at_path-set_at_ne ks (m ∷ ls) new null d done in
    rw (same, ← eq) (get_field_self k v end (inside (at_path (m ∷ ls))) ih)
at_path-set_at_ne (k ∷ ks) (l ∷ ls) new (bool b) d e = unfold set_at index_mut in cc
at_path-set_at_ne (k ∷ ks) (l ∷ ls) new (number s) d e = unfold set_at index_mut in cc
at_path-set_at_ne (k ∷ ks) (l ∷ ls) new (text s) d e = unfold set_at index_mut in cc
at_path-set_at_ne (k ∷ ks) (l ∷ ls) new (array xs) d e = unfold set_at index_mut in cc

-- The document holds an object at the path.
abbrev pub IsObjectAt : List String → Json → Type 0
IsObjectAt path j = (fs : Fields) × (at_path path j ≡ some (object fs))

set_at_null_total :
    (path : List String) (new : Json) → (after : Json) × (set_at path new null ≡ some after)
unfolding set_at index_mut
set_at_null_total [] new = (new, refl)
set_at_null_total (k ∷ ks) new =
    let (v, done) = set_at_null_total ks new in (object (field k v end), rw done)

-- Below an object a write never panics at the next key, and it keeps the object an object.
pub set_at_below :
    (path : List String) (k : String) (new j : Json)
    → IsObjectAt path j
    → (after : Json) × (set_at (path ++ k ∷ []) new j ≡ some after) × IsObjectAt path after
unfolding set_at index_mut at_path
set_at_below [] k new (object fs) o = (object (insert k new fs), refl, (insert k new fs, refl))
set_at_below [] k new null (fs, at) = absurd (ground arith)
set_at_below [] k new j (fs, at) = absurd (ground arith)
set_at_below (l ∷ ls) k new (object fs) (gs, at) = elim (Option-cases (get l fs)) [
  | inl missing ↦ absurd (ground (arith, missing))
  | inr (v, found) ↦
      let (after, done, there) = set_at_below ls k new v (gs, rw found at at) in
      (object (insert l after fs), rw (found, done), (there.0, rw (get-insert, eq_refl) there.1))
]
set_at_below (l ∷ ls) k new null (gs, at) = cc
set_at_below (l ∷ ls) k new j (gs, at) = cc
