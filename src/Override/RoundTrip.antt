-- ===== src/Override/RoundTrip.antt =====
-- Reading an override document, and printing it back after a change.
use singbox_sub_me.Prelude.{
  ◌≡◌, ◌≢◌, refl, Bool, false, Option, some, List, [], ◌∷◌, String, Option-cases, Bool-cases, inl,
  inr, ok, arith, All, str_eq, sym, ◌∙◌,
}
use singbox_sub_me.Json.{get}
use singbox_sub_me.Override.{
  RuleFragment, ProfileOverride, parse, parse_object, to_document, toggle, toggle_list, chosen,
}
use singbox_sub_me.Override.Reading.{
  IsProper, HasDistinctIds, IsReadable, parse_list-values, check_ids_complete,
}

All-zero : (fs : List RuleFragment) → All (λ g. false ≡ false) fs
All-zero [] = tt
All-zero (f ∷ fs) = (refl, All-zero fs)

-- A readable file, printed, parses to itself.
pub parse-to_document :
    (file : ProfileOverride) → IsReadable file → parse (to_document file) ≡ ok file
unfolding parse parse_object to_document get
parse-to_document file r =
    rw
      (
        parse_list-values 0 file.fragments r.proper,
        check_ids_complete [] file.fragments (All-zero file.fragments, r.distinct),
      )
      (rw (← r.listed) refl)

-- Fragment by fragment the same id and overlay.
abbrev AreAlike : List RuleFragment → List RuleFragment → Type 0
AreAlike [] [] = Unit
AreAlike (f ∷ fs) (g ∷ gs) = ((g.id ≡ f.id) × (g.overlay ≡ f.overlay)) × AreAlike fs gs
AreAlike _ _ = ⊥

AreAlike-refl : (fs : List RuleFragment) → AreAlike fs fs
AreAlike-refl [] = tt
AreAlike-refl (f ∷ fs) = ((refl, refl), AreAlike-refl fs)

toggle_list-AreAlike :
    (id : String) (choice : Option Bool) (fs gs : List RuleFragment) (b : Bool)
    → toggle_list id choice fs ≡ some (gs, b)
    → AreAlike fs gs
unfolding toggle_list
toggle_list-AreAlike id choice [] gs b h = cc
toggle_list-AreAlike id choice (f ∷ fs) gs b h = elim (Bool-cases (str_eq f.id id)) [
  | inl here ↦
      let same : record f { enabled = chosen choice f.enabled } ∷ fs ≡ gs = ground arith in
      rw (← same) ((refl, refl), AreAlike-refl fs)
  | inr there ↦ elim (Option-cases (toggle_list id choice fs)) [
    | inl e ↦ absurd (ground arith)
    | inr (r, e) ↦
        let ih = toggle_list-AreAlike id choice fs r.0 r.1 e in
        let same : f ∷ r.0 ≡ gs = ground arith in rw (← same) ((refl, refl), ih)
  ]
]

AreAlike-IsProper : (fs gs : List RuleFragment) → AreAlike fs gs → All IsProper fs → All IsProper gs
AreAlike-IsProper [] [] a p = tt
AreAlike-IsProper [] (g ∷ gs) a p = absurd a
AreAlike-IsProper (f ∷ fs) [] a p = absurd a
AreAlike-IsProper (f ∷ fs) (g ∷ gs) ((id, overlay), a) (p, ps) =
    (record { named = rw id p.named; shaped = rw overlay p.shaped }, AreAlike-IsProper fs gs a ps)

AreAlike-ne :
    (x y : String) (fs gs : List RuleFragment)
    → x ≡ y
    → AreAlike fs gs
    → All (λ g. g.id ≢ y) fs
    → All (λ g. g.id ≢ x) gs
AreAlike-ne x y [] [] e a p = tt
AreAlike-ne x y [] (g ∷ gs) e a p = absurd a
AreAlike-ne x y (f ∷ fs) [] e a p = absurd a
AreAlike-ne x y (f ∷ fs) (g ∷ gs) e ((id, _), a) (p, ps) =
    ((λ h. p (sym id ∙ h ∙ e)), AreAlike-ne x y fs gs e a ps)

AreAlike-distinct :
    (fs gs : List RuleFragment) → AreAlike fs gs → HasDistinctIds fs → HasDistinctIds gs
AreAlike-distinct [] [] a d = tt
AreAlike-distinct [] (g ∷ gs) a d = absurd a
AreAlike-distinct (f ∷ fs) [] a d = absurd a
AreAlike-distinct (f ∷ fs) (g ∷ gs) ((id, _), a) (d, ds) =
    (AreAlike-ne g.id f.id fs gs id a d, AreAlike-distinct fs gs a ds)

-- After a toggle, the document that is printed for the file parses to the toggled file.
pub parse-to_document-toggle :
    (file after : ProfileOverride) (id : String) (choice : Option Bool) (b : Bool)
    → IsReadable file
    → toggle file id choice ≡ ok (after, b)
    → parse (to_document after) ≡ ok after
unfolding toggle
parse-to_document-toggle file after id choice b r h =
    elim (Option-cases (toggle_list id choice file.fragments)) [
      | inl e ↦ absurd (ground arith)
      | inr (t, e) ↦
          let same : record file { fragments = t.0 } ≡ after = ground arith in
          let alike = toggle_list-AreAlike id choice file.fragments t.0 t.1 e in
          rw (← same) (
            parse-to_document (record file { fragments = t.0 })
              (record {
                listed = r.listed;
                proper = AreAlike-IsProper file.fragments t.0 alike r.proper;
                distinct = AreAlike-distinct file.fragments t.0 alike r.distinct;
              }))
    ]
