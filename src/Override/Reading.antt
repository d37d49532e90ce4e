-- ===== src/Override/Reading.antt =====
-- What the parser of override documents accepts, step by step.
use singbox_sub_me.Prelude.{
  ◌≡◌, ◌≢◌, refl, Bool, true, false, Option, none, some, List, [], ◌∷◌, ◌++◌, String, ℕ, ◌+◌, ok,
  ◌>>=◌, ◌>>◌, reject_if, str_eq, eq_iff, arith, All, >>=-eq-ok, ok-injective, ◌||◌,
}
use singbox_sub_me.Json.{Json, is_object, get, array, object, Items, nil, cons, null, Fields}
use singbox_sub_me.Override.{
  RuleFragment, ProfileOverride, OverrideError, is_blank, contains, parse_fields, parse_list,
  parse_fragment, parse_object, check_ids, as_object, inside, required, bad_overlay, check_keys,
  is_fragment_key, fragment_value, fragment_values,
}

-- A fragment that a file may hold: its id is not blank, and its overlay is an object.
pub record IsProper (f : RuleFragment) : Type 0 where
  pub named : is_blank f.id ≡ false
  pub shaped : is_object f.overlay ≡ true

abbrev pub HasDistinctIds : List RuleFragment → Type 0
HasDistinctIds [] = Unit
HasDistinctIds (f ∷ fs) = All (λ g. g.id ≢ f.id) fs × HasDistinctIds fs

reject_if-eq-ok : (b : Bool) (e : OverrideError) {u : Unit {0}} → reject_if b e ≡ ok u → b ≡ false
reject_if-eq-ok true e h = cc
reject_if-eq-ok false e h = refl

as_object_sound :
    (e : OverrideError) (o : Option Json) {j : Json}
    → required e (inside as_object o) ≡ ok j
    → is_object j ≡ true
as_object_sound e none h = cc
as_object_sound e (some (object fs)) {j} h =
    let same : object fs ≡ j = ground arith in rw (← same) refl
as_object_sound e (some null) h = cc
as_object_sound e (some j) h = cc

parse_fields-IsProper :
    (n : ℕ) (fs : Fields) (f : RuleFragment) → parse_fields n fs ≡ ok f → IsProper f
unfolding parse_fields
parse_fields-IsProper n fs f h = record {
  named = ground arith;
  shaped = ground (arith, as_object_sound (bad_overlay n) (get "overlay" fs) {j = f.overlay});
}

pub as_object_of : (j : Json) → is_object j ≡ true → as_object j ≡ some j
as_object_of (object fs) h = refl
as_object_of null h = cc
as_object_of j h = cc

parse_fragment-value :
    (n : ℕ) (f : RuleFragment) → IsProper f → parse_fragment n (fragment_value f) ≡ ok f
unfolding parse_fragment parse_fields fragment_value check_keys is_fragment_key get
parse_fragment-value n f p = rw (p.named, as_object_of f.overlay p.shaped)

parse_fragment-IsProper :
    (n : ℕ) (entry : Json) (f : RuleFragment) → parse_fragment n entry ≡ ok f → IsProper f
unfolding parse_fragment
parse_fragment-IsProper n (object fs) f h = parse_fields-IsProper n fs f h
parse_fragment-IsProper n null f h = cc
parse_fragment-IsProper n entry f h = cc

parse_list-IsProper :
    (n : ℕ) (entries : Items) (fs : List RuleFragment)
    → parse_list n entries ≡ ok fs
    → All IsProper fs
unfolding parse_list
parse_list-IsProper n nil [] h = tt
parse_list-IsProper n nil (f ∷ fs) h = cc
parse_list-IsProper n (cons entry rest) fs h =
    let (f, one, h₁) =
      >>=-eq-ok (parse_fragment n entry) (λ f. parse_list (n + 1) rest >>= λ gs. ok (f ∷ gs)) h in
    let (gs, more, h₂) = >>=-eq-ok (parse_list (n + 1) rest) (λ gs. ok (f ∷ gs)) h₁ in
    rw (← ok-injective h₂)
      (parse_fragment-IsProper n entry f one, parse_list-IsProper (n + 1) rest gs more)

pub parse_list-values :
    (n : ℕ) (fs : List RuleFragment) → All IsProper fs → parse_list n (fragment_values fs) ≡ ok fs
unfolding parse_list fragment_values
parse_list-values n [] p = refl
parse_list-values n (f ∷ fs) (p, ps) =
    rw (parse_fragment-value n f p, parse_list-values (n + 1) fs ps)

contains-append :
    (s t : String) (xs : List String) → contains s (xs ++ t ∷ []) ≡ (contains s xs || str_eq t s)
contains-append s t [] = ground arith
contains-append s t (x ∷ xs) = ground (arith, contains-append s t xs)

-- The ids still to come differ from those seen, and from one another.
abbrev pub AreFresh : List String → List RuleFragment → Type 0
AreFresh seen fs = All (λ g. contains g.id seen ≡ false) fs × HasDistinctIds fs

fresh_later :
    (seen : List String) (f : RuleFragment) (fs : List RuleFragment)
    → All (λ g. contains g.id seen ≡ false) fs
    → All (λ g. g.id ≢ f.id) fs
    → All (λ g. contains g.id (seen ++ f.id ∷ []) ≡ false) fs
fresh_later seen f [] a d = tt
fresh_later seen f (g ∷ gs) (a, as') (d, ds) =
    (ground (arith, contains-append g.id f.id seen, eq_iff f.id g.id), fresh_later seen f gs as' ds)

pub check_ids_complete :
    (seen : List String) (fs : List RuleFragment) → AreFresh seen fs → check_ids seen fs ≡ ok tt
unfolding check_ids
check_ids_complete seen [] h = refl
check_ids_complete seen (f ∷ fs) ((a, as'), (d, ds)) =
    rw a (check_ids_complete (seen ++ f.id ∷ []) fs (fresh_later seen f fs as' d, ds))

fresh_before :
    (seen : List String) (f : RuleFragment) (fs : List RuleFragment)
    → All (λ g. contains g.id (seen ++ f.id ∷ []) ≡ false) fs
    → All (λ g. contains g.id seen ≡ false) fs × All (λ g. g.id ≢ f.id) fs
fresh_before seen f [] a = (tt, tt)
fresh_before seen f (g ∷ gs) (a, as') =
    let (old, new) = fresh_before seen f gs as' in
    (
      (ground (arith, contains-append g.id f.id seen), old),
      (ground (arith, contains-append g.id f.id seen, eq_iff f.id g.id), new),
    )

pub check_ids_sound :
    (seen : List String) (fs : List RuleFragment) → check_ids seen fs ≡ ok tt → AreFresh seen fs
unfolding check_ids
check_ids_sound seen [] h = (tt, tt)
check_ids_sound seen (f ∷ fs) h =
    let a : contains f.id seen ≡ false = ground arith in
    let (later, ds) = check_ids_sound (seen ++ f.id ∷ []) fs (ground arith) in
    let (old, new) = fresh_before seen f fs later in ((a, old), (new, ds))

-- What `parse` accepts as a fragment list: proper fragments with distinct ids.
pub record IsReadable (file : ProfileOverride) : Type 0 where
  pub listed : file.implicit ≡ false
  pub proper : All IsProper file.fragments
  pub distinct : HasDistinctIds file.fragments

pub parse-list :
    (list : Items) (document : Json) (file : ProfileOverride)
    → parse_object (some (array list)) document ≡ ok file
    → IsReadable file
unfolding parse_object
parse-list list document file h =
    let (fs, many, h₁) =
      >>=-eq-ok (parse_list 0 list)
        (λ fs. check_ids [] fs >> ok (record { implicit = false; fragments = fs })) h in
    let (u, ids, h₂) =
      >>=-eq-ok (check_ids [] fs) (λ _. ok (record { implicit = false; fragments = fs })) h₁ in
    rw (← ok-injective h₂) (record {
      listed = refl;
      proper = parse_list-IsProper 0 list fs many;
      distinct = (check_ids_sound [] fs ids).1;
    })
