-- ===== src/Override/Shapes.antt =====
-- crates/client-core/src/config_override.rs parse: the documents that it accepts, and what it reads of them.
use mathlib.Core.Path.{subst}
use singbox_sub_me.Prelude.{
  ◌≡◌, ◌↔◌, refl, sym, ap, Bool, true, false, Option, none, some, List, [], ◌∷◌, String, ℕ, ◌+◌, ok,
  ◌>>=◌, ◌>>◌, ◌⊎◌, inl, inr, eq_iff, All, arith, >>=-eq-ok, >>-eq-ok, ok-injective,
}
use singbox_sub_me.Json.{
  Json, null, bool, text, array, object, Items, nil, cons, Fields, end, field, get, as_str, as_bool,
  is_object,
}
use singbox_sub_me.Override.{
  RuleFragment, ProfileOverride, OverrideError, bad_id, bad_label, bad_enabled, bad_overlay,
  is_blank, is_fragment_key, check_keys, required, optional, inside, as_object, parse_fields,
  parse_fragment, parse_list, check_ids, hand_written, parse_object, parse,
}
use singbox_sub_me.Override.Reading.{
  HasDistinctIds, as_object_of, check_ids_sound, check_ids_complete,
}

-- The keys that an entry may have.
abbrev pub HasKnownKeys : Fields → Type 0
HasKnownKeys end = Unit
HasKnownKeys (field key value rest) =
    ((key ≡ "id") ⊎ (key ≡ "label") ⊎ (key ≡ "enabled") ⊎ (key ≡ "overlay")) × HasKnownKeys rest

-- A key that is left out stands for the default.
abbrev pub IsOptional : {A : Type 0} → (A → Json) → A → Option Json → A → Type 0
IsOptional write default found value =
    ((found ≡ none) × (value ≡ default)) ⊎ (found ≡ some (write value))

-- The entry's fields say what the fragment is.
pub record IsEntry (fs : Fields) (f : RuleFragment) : Type 0 where
  pub known : HasKnownKeys fs
  pub id : get "id" fs ≡ some (text f.id)
  pub named : is_blank f.id ≡ false
  pub label : IsOptional text f.id (get "label" fs) f.label
  pub enabled : IsOptional bool true (get "enabled" fs) f.enabled
  pub overlay : get "overlay" fs ≡ some f.overlay
  pub shaped : is_object f.overlay ≡ true

abbrev pub AreEntries : Items → List RuleFragment → Type 0
AreEntries nil [] = Unit
AreEntries (cons (object fs) rest) (f ∷ more) = IsEntry fs f × AreEntries rest more
AreEntries _ _ = ⊥

-- The two shapes of a document, with what is read of each.
pub data Reads : Json → ProfileOverride → Type 0 where
  by_list :
      (fs : Fields) (list : Items) (fragments : List RuleFragment)
      → get "fragments" fs ≡ some (array list)
      → AreEntries list fragments
      → HasDistinctIds fragments
      → Reads (object fs) (record { implicit = false; fragments = fragments })
  by_hand : (fs : Fields) → get "fragments" fs ≡ none → Reads (object fs) (hand_written (object fs))

check_keys_sound : (n : ℕ) (fs : Fields) → check_keys n fs ≡ ok tt → HasKnownKeys fs
unfolding check_keys is_fragment_key
check_keys_sound n end h = tt
check_keys_sound n (field key value rest) h = ground (
  arith,
  check_keys_sound n rest,
  eq_iff key "id",
  eq_iff key "label",
  eq_iff key "enabled",
  eq_iff key "overlay",
)

check_keys_complete : (n : ℕ) (fs : Fields) → HasKnownKeys fs → check_keys n fs ≡ ok tt
unfolding check_keys is_fragment_key
check_keys_complete n end h = refl
check_keys_complete n (field key value rest) (known, h) = ground (
  arith,
  check_keys_complete n rest,
  eq_iff key "id",
  eq_iff key "label",
  eq_iff key "enabled",
  eq_iff key "overlay",
)

text_read :
    (e : OverrideError) (found : Option Json) {s : String}
    → required e (inside as_str found) ≡ ok s
    → found ≡ some (text s)
text_read e none h = cc
text_read e (some (text s)) h = ap (λ s. some (text s)) (ok-injective h)
text_read e (some null) h = cc
text_read e (some j) h = cc

object_read :
    (e : OverrideError) (found : Option Json) {j : Json}
    → required e (inside as_object found) ≡ ok j
    → (found ≡ some j) × (is_object j ≡ true)
object_read e none h = cc
object_read e (some (object fs)) h = (ap some (ok-injective h), ap is_object (sym (ok-injective h)))
object_read e (some null) h = cc
object_read e (some j) h = cc

optional_text_read :
    (default : String) (e : OverrideError) (found : Option Json) {s : String}
    → optional default e as_str found ≡ ok s
    → IsOptional text default found s
optional_text_read default e none h = inl (refl, sym (ok-injective h))
optional_text_read default e (some j) h = inr (text_read e (some j) h)

optional_bool_read :
    (default : Bool) (e : OverrideError) (found : Option Json) {b : Bool}
    → optional default e as_bool found ≡ ok b
    → IsOptional bool default found b
optional_bool_read default e none h = inl (refl, sym (ok-injective h))
optional_bool_read default e (some (bool b)) h = inr (ap (λ b. some (bool b)) (ok-injective h))
optional_bool_read default e (some null) h = cc
optional_bool_read default e (some j) h = cc

parse_fields_sound :
    (n : ℕ) (fs : Fields) (f : RuleFragment) → parse_fields n fs ≡ ok f → IsEntry fs f
unfolding parse_fields
parse_fields_sound n fs f h = record {
  known = ground (arith, check_keys_sound n fs);
  id = ground (arith, text_read (bad_id n) (get "id" fs) {s = f.id});
  named = ground arith;
  label = ground (arith, optional_text_read f.id (bad_label n) (get "label" fs) {s = f.label});
  enabled =
      ground (arith, optional_bool_read true (bad_enabled n) (get "enabled" fs) {b = f.enabled});
  overlay = ground (arith, object_read (bad_overlay n) (get "overlay" fs) {j = f.overlay});
  shaped = ground (arith, object_read (bad_overlay n) (get "overlay" fs) {j = f.overlay});
}

optional_given :
    {A : Type 0} (write : A → Json) (default : A) (e : OverrideError) (read : Json → Option A)
    (found : Option Json) (value : A)
    → ((a : A) → read (write a) ≡ some a)
    → IsOptional write default found value
    → optional default e read found ≡ ok value
optional_given write default e read found value reads (inl (absent, is)) = rw (absent, is) refl
optional_given write default e read found value reads (inr given) = rw (given, reads value) refl

parse_fields_complete :
    (n : ℕ) (fs : Fields) (f : RuleFragment) → IsEntry fs f → parse_fields n fs ≡ ok f
unfolding parse_fields
parse_fields_complete n fs f e =
    rw
      (
        check_keys_complete n fs e.known,
        e.id,
        e.named,
        optional_given text f.id (bad_label n) as_str (get "label" fs) f.label (λ s. refl) e.label,
        optional_given bool true (bad_enabled n) as_bool (get "enabled" fs) f.enabled (λ b. refl)
            e.enabled,
        e.overlay,
        as_object_of f.overlay e.shaped,
      )
      refl

parse_list_sound :
    (n : ℕ) (entries : Items) (fs : List RuleFragment)
    → parse_list n entries ≡ ok fs
    → AreEntries entries fs
unfolding parse_list parse_fragment
parse_list_sound n nil [] h = tt
parse_list_sound n nil (f ∷ fs) h = cc
parse_list_sound n (cons (object entry) rest) fs h =
    let (f, one, h₁) =
      >>=-eq-ok (parse_fields n entry) (λ f. parse_list (n + 1) rest >>= λ gs. ok (f ∷ gs)) h in
    let (gs, more, h₂) = >>=-eq-ok (parse_list (n + 1) rest) (λ gs. ok (f ∷ gs)) h₁ in
    rw (← ok-injective h₂) (parse_fields_sound n entry f one, parse_list_sound (n + 1) rest gs more)
parse_list_sound n (cons null rest) fs h = cc
parse_list_sound n (cons entry rest) fs h = cc

parse_list_complete :
    (n : ℕ) (entries : Items) (fs : List RuleFragment)
    → AreEntries entries fs
    → parse_list n entries ≡ ok fs
unfolding parse_list parse_fragment
parse_list_complete n nil [] e = refl
parse_list_complete n nil (f ∷ fs) e = elim e [ ]
parse_list_complete n (cons (object entry) rest) (f ∷ fs) (one, more) =
    rw (parse_fields_complete n entry f one, parse_list_complete (n + 1) rest fs more) refl
parse_list_complete n (cons null rest) fs e = elim e [ ]
parse_list_complete n (cons entry rest) fs e = elim e [ ]

parse_object_sound :
    (found : Option Json) (fs : Fields) (file : ProfileOverride)
    → get "fragments" fs ≡ found
    → parse_object found (object fs) ≡ ok file
    → Reads (object fs) file
unfolding parse_object
parse_object_sound none fs file is h = subst (Reads (object fs)) (ok-injective h) (by_hand fs is)
parse_object_sound (some (array list)) fs file is h =
    let (fragments, read, h₁) =
      >>=-eq-ok (parse_list 0 list)
        (λ gs. check_ids [] gs >> ok (record { implicit = false; fragments = gs })) h in
    let (distinct, h₂) =
      >>-eq-ok (check_ids [] fragments) (ok (record { implicit = false; fragments = fragments }))
        h₁ in
    subst (Reads (object fs)) (ok-injective h₂) (
      by_list fs list fragments is (parse_list_sound 0 list fragments read)
        (check_ids_sound [] fragments distinct).1)
parse_object_sound (some null) fs file is h = cc
parse_object_sound (some j) fs file is h = cc

parse_sound :
    (document : Json) (file : ProfileOverride) → parse document ≡ ok file → Reads document file
unfolding parse
parse_sound (object fs) file h = parse_object_sound (get "fragments" fs) fs file refl h
parse_sound null file h = cc
parse_sound document file h = cc

unseen : (fs : List RuleFragment) → All (λ g. false ≡ false) fs
unseen [] = tt
unseen (f ∷ fs) = (refl, unseen fs)

parse_complete :
    (document : Json) (file : ProfileOverride) → Reads document file → parse document ≡ ok file
unfolding parse parse_object
parse_complete document file (by_list fs list fragments is entries distinct) =
    rw
      (
        is,
        parse_list_complete 0 list fragments entries,
        check_ids_complete [] fragments (unseen fragments, distinct),
      )
      refl
parse_complete document file (by_hand fs is) = rw is refl

-- The parser accepts a document exactly if it is an object of one of two shapes, and reads of it what
-- it says. With a list under `fragments`: each entry is an object of known keys only, with an id that is
-- not blank, a label that is a text, if there is one, and else the id, a switch that is true or false,
-- if there is one, and else on, and an object for an overlay; the ids are distinct. Without the key: the
-- whole object is the overlay of one enabled fragment.
pub parse_shapes :
    (document : Json) (file : ProfileOverride) → parse document ≡ ok file ↔ Reads document file
parse_shapes document file = (parse_sound document file, parse_complete document file)
