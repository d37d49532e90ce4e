-- ===== src/Prelude/Sorting.antt =====
-- What sorting and the removal of neighbours leave: each text of the list, once.
use Prim.Native.String.{String}
use mathlib.Core.Path.{◌≡◌, refl, ◌∙◌}
use mathlib.Core.Bool.{Bool, true, false, ◌||◌}
use mathlib.Core.List.{List, [], ◌∷◌}
use native.Mathlib.Omega.{arith}
use text.Mathlib.TextEquality.{eq_iff}
use mathlib.Core.Logic.{inl, inr}
use singbox_sub_me.Prelude.Tests.{Bool-cases, str_eq}
use singbox_sub_me.Prelude.Lists.{All}
use singbox_sub_me.Prelude.Texts.{
  text_leb, insert_sorted, sort, dedup, text_leb_total, text_leb_trans, text_leb_antisymm,
}

-- Each text is at most the next.
abbrev IsSorted : List String → Type 0
IsSorted [] = Unit
IsSorted (a ∷ l) = All (λ b. text_leb a b ≡ true) l × IsSorted l

abbrev pub AreDistinct : List String → Type 0
AreDistinct [] = Unit
AreDistinct (a ∷ l) = All (λ b. str_eq a b ≡ false) l × AreDistinct l

abbrev pub is_among : String → List String → Bool
is_among s [] = false
is_among s (t ∷ ts) = str_eq s t || is_among s ts

text_leb_refl : (s : String) → text_leb s s ≡ true
unfolding text_leb
text_leb_refl String.[] = refl
text_leb_refl (String.◌∷◌ c s) = ground (arith, text_leb_refl s)

insert-All :
    (P : String → Type 0) (a : String) (l : List String) → P a → All P l → All P (insert_sorted a l)
unfolding insert_sorted
insert-All P a [] p ps = (p, tt)
insert-All P a (b ∷ l) p (q, ps) = elim (Bool-cases (text_leb a b)) [
  | inl e ↦ rw e (p, (q, ps))
  | inr e ↦ rw e (q, insert-All P a l p ps)
]

below :
    (a b : String) (l : List String)
    → text_leb a b ≡ true
    → All (λ c. text_leb b c ≡ true) l
    → All (λ c. text_leb a c ≡ true) l
below a b [] h ps = tt
below a b (c ∷ l) h (p, ps) = (text_leb_trans a b c h p, below a b l h ps)

insert-IsSorted : (a : String) (l : List String) → IsSorted l → IsSorted (insert_sorted a l)
unfolding insert_sorted
insert-IsSorted a [] s = (tt, tt)
insert-IsSorted a (b ∷ l) (first, rest) = elim (Bool-cases (text_leb a b)) [
  | inl e ↦ rw e ((e, below a b l e first), (first, rest))
  | inr e ↦ rw e (
    insert-All (λ c. text_leb b c ≡ true) a l (text_leb_total a b e) first,
    insert-IsSorted a l rest,
  )
]

sort-IsSorted : (l : List String) → IsSorted (sort l)
unfolding sort
sort-IsSorted [] = tt
sort-IsSorted (a ∷ l) = insert-IsSorted a (sort l) (sort-IsSorted l)

dedup-All : (P : String → Type 0) (l : List String) → All P l → All P (dedup l)
unfolding dedup
dedup-All P [] ps = tt
dedup-All P (a ∷ []) ps = ps
dedup-All P (a ∷ b ∷ l) (p, ps) = elim (Bool-cases (str_eq a b)) [
  | inl e ↦ rw e (dedup-All P (b ∷ l) ps)
  | inr e ↦ rw e (p, dedup-All P (b ∷ l) ps)
]

-- What is above a text that is above another differs from the other, unless the two are the same.
above_differs :
    (a b c : String)
    → text_leb a b ≡ true
    → str_eq a b ≡ false
    → text_leb b c ≡ true
    → str_eq a c ≡ false
above_differs a b c ab apart bc = elim (Bool-cases (str_eq a c)) [
  | inl e ↦
      let is : a ≡ c = (eq_iff a c).0 e in
      let back : text_leb b a ≡ true = rw is bc in
      let same : a ≡ b = text_leb_antisymm a b ab back in
      absurd (ground (arith, (eq_iff a b).1 same))
  | inr e ↦ e
]

differs_from_rest :
    (a b : String) (l : List String)
    → text_leb a b ≡ true
    → str_eq a b ≡ false
    → All (λ c. text_leb b c ≡ true) l
    → All (λ c. str_eq a c ≡ false) l
differs_from_rest a b [] ab apart above = tt
differs_from_rest a b (c ∷ l) ab apart (bc, above) =
    (above_differs a b c ab apart bc, differs_from_rest a b l ab apart above)

dedup-AreDistinct : (l : List String) → IsSorted l → AreDistinct (dedup l)
unfolding dedup
dedup-AreDistinct [] s = tt
dedup-AreDistinct (a ∷ []) s = (tt, tt)
dedup-AreDistinct (a ∷ b ∷ l) ((ab, _), (first, rest)) = elim (Bool-cases (str_eq a b)) [
  | inl e ↦ rw e (dedup-AreDistinct (b ∷ l) (first, rest))
  | inr e ↦ rw e (
    differs_from_rest a b (dedup (b ∷ l)) ab e
        (dedup-All (λ c. text_leb b c ≡ true) (b ∷ l) (text_leb_refl b, first)),
    dedup-AreDistinct (b ∷ l) (first, rest),
  )
]

pub dedup-sort-AreDistinct : (l : List String) → AreDistinct (dedup (sort l))
dedup-sort-AreDistinct l = dedup-AreDistinct (sort l) (sort-IsSorted l)

is_among-insert :
    (s a : String) (l : List String) → is_among s (insert_sorted a l) ≡ (str_eq s a || is_among s l)
unfolding insert_sorted
is_among-insert s a [] = refl
is_among-insert s a (b ∷ l) = ground (arith, is_among-insert s a l)

is_among-sort : (s : String) (l : List String) → is_among s (sort l) ≡ is_among s l
unfolding sort
is_among-sort s [] = refl
is_among-sort s (a ∷ l) = ground (arith, is_among-insert s a (sort l), is_among-sort s l)

is_among-dedup : (s : String) (l : List String) → is_among s (dedup l) ≡ is_among s l
unfolding dedup
is_among-dedup s [] = refl
is_among-dedup s (a ∷ []) = refl
is_among-dedup s (a ∷ b ∷ l) = elim (Bool-cases (str_eq a b)) [
  | inl e ↦ let is : a ≡ b = (eq_iff a b).0 e in rw e (ground (arith, is_among-dedup s (b ∷ l), is))
  | inr e ↦ rw e (ground (arith, is_among-dedup s (b ∷ l)))
]

pub is_among-dedup-sort :
    (s : String) (l : List String) → is_among s (dedup (sort l)) ≡ is_among s l
is_among-dedup-sort s l = is_among-dedup s (sort l) ∙ is_among-sort s l
