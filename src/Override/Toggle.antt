-- ===== src/Override/Toggle.antt =====
-- Switching one fragment on or off.
use singbox_sub_me.Prelude.{
  ◌≡◌, refl, Bool, true, false, Option, none, some, List, [], ◌∷◌, String, Bool-cases, inl, inr,
  if◌then◌else◌, ok, err, str_eq, eq_iff, arith, map, ap,
}
use singbox_sub_me.Override.{
  RuleFragment, ProfileOverride, implicit_file, unknown_id, chosen, toggle_list, toggle,
}

unfoldable pub find : String → List RuleFragment → Option RuleFragment
find id [] = none
find id (f ∷ fs) = if str_eq f.id id then some f else find id fs

abbrev pub switched : Option Bool → RuleFragment → RuleFragment
switched choice f = record f { enabled = chosen choice f.enabled }

-- What `toggle_list` gives, by what `find` sees before and after.
pub record IsToggled (id : String) (choice : Option Bool) (before after : List RuleFragment)
    (b : Bool) : Type 0 where
  pub target : RuleFragment
  pub found : find id before ≡ some target
  pub answer : b ≡ chosen choice target.enabled
  pub ids : map (λ f. f.id) after ≡ map (λ f. f.id) before
  pub lookup :
      (j : String)
      → find j after ≡ (if str_eq j id then some (switched choice target) else find j before)

toggle_list-none :
    (id : String) (choice : Option Bool) (fs : List RuleFragment)
    → find id fs ≡ none
    → toggle_list id choice fs ≡ none
unfolding toggle_list find
toggle_list-none id choice [] h = refl
toggle_list-none id choice (f ∷ fs) h = ground (arith, toggle_list-none id choice fs)

module _ (id : String) (choice : Option Bool) (f : RuleFragment) where
  IsToggled-here :
      (fs : List RuleFragment)
      → str_eq f.id id ≡ true
      → IsToggled id choice (f ∷ fs) (switched choice f ∷ fs) (chosen choice f.enabled)
  unfolding find
  IsToggled-here fs here = record {
    target = f;
    found = rw here;
    answer = refl;
    ids = refl;
    lookup = λ j. ground (arith, eq_iff f.id j, eq_iff f.id id, eq_iff j id);
  }

  IsToggled-later :
      (fs gs : List RuleFragment) (b : Bool)
      → str_eq f.id id ≡ false
      → IsToggled id choice fs gs b
      → IsToggled id choice (f ∷ fs) (f ∷ gs) b
  unfolding find
  IsToggled-later fs gs b there t = record {
    target = t.target;
    found = rw there t.found;
    answer = t.answer;
    ids = ap (λ l. f.id ∷ l) t.ids;
    lookup = λ j. ground (arith, t.lookup j, eq_iff f.id j, eq_iff f.id id, eq_iff j id);
  }

toggle_list-some :
    (id : String) (choice : Option Bool) (fs : List RuleFragment) (target : RuleFragment)
    → find id fs ≡ some target
    → (gs : List RuleFragment) × (toggle_list id choice fs
        ≡ some (gs, chosen choice target.enabled))
      × IsToggled id choice fs gs (chosen choice target.enabled)
unfolding toggle_list find
toggle_list-some id choice [] target h = cc
toggle_list-some id choice (f ∷ fs) target h = elim (Bool-cases (str_eq f.id id)) [
  | inl here ↦
      let same : f ≡ target = ground arith in
      rw (← same) (switched choice f ∷ fs, rw here, IsToggled-here id choice f fs here)
  | inr there ↦
      let (gs, done, t) = toggle_list-some id choice fs target (rw there at h) in
      (f ∷ gs, rw (there, done), IsToggled-later id choice f fs gs _ there t)
]

-- On a fragment that the file has, `toggle` switches the first fragment of the id, to the value
-- asked for or to the other one, answers the new value, and leaves the ids, their order and every
-- other fragment alone.
toggle_switches :
    (file : ProfileOverride) (id : String) (choice : Option Bool) (target : RuleFragment)
    → file.implicit ≡ false
    → find id file.fragments ≡ some target
    → (gs : List RuleFragment) × (toggle file id choice
        ≡ ok (record file { fragments = gs }, chosen choice target.enabled))
      × IsToggled id choice file.fragments gs (chosen choice target.enabled)
unfolding toggle
toggle_switches file id choice target listed h =
    let (gs, done, t) = toggle_list-some id choice file.fragments target h in
    (gs, ground (arith, done), t)

-- An id that the file does not have is refused, and a hand-written file says why it is.
pub toggle_refuses :
    (file : ProfileOverride) (id : String) (choice : Option Bool)
    → find id file.fragments ≡ none
    → toggle file id choice ≡ err (if file.implicit then implicit_file else unknown_id id)
unfolding toggle
toggle_refuses file id choice missing =
    ground (arith, toggle_list-none id choice file.fragments missing)
