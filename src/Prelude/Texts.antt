-- ===== src/Prelude/Texts.antt =====
-- Texts in the order of Rust's `String`, sorted and freed of repetitions.
use Prim.Native.Char.{code}
use Prim.Native.String.{String}
use mathlib.Core.Path.{◌≡◌, refl, ap, ap₂, ◌∙◌, sym}
use mathlib.Core.Bool.{Bool, true, false}
use mathlib.Core.List.{List, [], ◌∷◌, ◌++◌}
use native.Mathlib.Omega.{arith}
use text.Mathlib.TextEquality.{Char-path}
use singbox_sub_me.Prelude.Tests.{ltb, ◌==◌, str_eq, if◌then◌else◌}

-- Comparing the bytes of UTF-8 is comparing the code points.
unfoldable pub text_leb : String → String → Bool
text_leb String.[] t = true
text_leb (String.◌∷◌ c s) String.[] = false
text_leb (String.◌∷◌ c s) (String.◌∷◌ d t) =
    let rest = text_leb s t in
    if ltb (code c) (code d) then true else if code c == code d then rest else false

unfoldable pub insert_sorted : String → List String → List String
insert_sorted a [] = a ∷ []
insert_sorted a (b ∷ l) =
    let rest = insert_sorted a l in if text_leb a b then a ∷ (b ∷ l) else b ∷ rest

-- `Vec::sort`: insertion, since any sort by this order gives the same list.
unfoldable pub sort : List String → List String
unfolding insert_sorted text_leb
sort [] = []
sort (a ∷ l) = insert_sorted a (sort l)

-- `Vec::dedup`
unfoldable pub dedup : List String → List String
dedup [] = []
dedup (a ∷ []) = a ∷ []
dedup (a ∷ b ∷ l) = let rest = dedup (b ∷ l) in if str_eq a b then rest else a ∷ rest

pub text_leb_total : (s t : String) → text_leb s t ≡ false → text_leb t s ≡ true
unfolding text_leb
text_leb_total String.[] t h = cc
text_leb_total (String.◌∷◌ c s) String.[] h = refl
text_leb_total (String.◌∷◌ c s) (String.◌∷◌ d t) h = ground (arith, text_leb_total s t)

pub text_leb_trans :
    (s t u : String) → text_leb s t ≡ true → text_leb t u ≡ true → text_leb s u ≡ true
unfolding text_leb
text_leb_trans String.[] t u h k = refl
text_leb_trans (String.◌∷◌ c s) String.[] u h k = cc
text_leb_trans (String.◌∷◌ c s) (String.◌∷◌ d t) String.[] h k = cc
text_leb_trans (String.◌∷◌ c s) (String.◌∷◌ d t) (String.◌∷◌ e u) h k =
    ground (arith, text_leb_trans s t u)

pub text_leb_antisymm : (s t : String) → text_leb s t ≡ true → text_leb t s ≡ true → s ≡ t
unfolding text_leb
text_leb_antisymm String.[] String.[] h k = refl
text_leb_antisymm String.[] (String.◌∷◌ d t) h k = cc
text_leb_antisymm (String.◌∷◌ c s) String.[] h k = cc
text_leb_antisymm (String.◌∷◌ c s) (String.◌∷◌ d t) h k =
    let same : code c ≡ code d = ground arith in
    let rest : s ≡ t = text_leb_antisymm s t (ground arith) (ground arith) in
    ap₂ String.◌∷◌ (Char-path c d same) rest

pub insert_sorted_comm :
    (a b : String) (l : List String)
    → insert_sorted a (insert_sorted b l) ≡ insert_sorted b (insert_sorted a l)
unfolding insert_sorted
insert_sorted_comm a b [] =
    ground (arith, text_leb_total a b, text_leb_total b a, text_leb_antisymm a b)
insert_sorted_comm a b (c ∷ l) = ground (
  arith,
  insert_sorted_comm a b l,
  text_leb_total a b,
  text_leb_total b a,
  text_leb_antisymm a b,
  text_leb_trans a b c,
  text_leb_trans b a c,
  text_leb_total a c,
  text_leb_total b c,
)

insert_all_sorted : List String → List String → List String
insert_all_sorted [] l = l
insert_all_sorted (a ∷ as') l = insert_sorted a (insert_all_sorted as' l)

sort-append : (xs ys : List String) → sort (xs ++ ys) ≡ insert_all_sorted xs (sort ys)
unfolding sort insert_all_sorted
sort-append [] ys = refl
sort-append (x ∷ xs) ys = ap (insert_sorted x) (sort-append xs ys)

insert_all-insert :
    (xs l : List String) (a : String)
    → insert_all_sorted xs (insert_sorted a l) ≡ insert_sorted a (insert_all_sorted xs l)
unfolding insert_all_sorted
insert_all-insert [] l a = refl
insert_all-insert (x ∷ xs) l a =
    ap (insert_sorted x) (insert_all-insert xs l a)
    ∙ insert_sorted_comm x a (insert_all_sorted xs l)

insert_all_comm :
    (xs ys l : List String)
    → insert_all_sorted xs (insert_all_sorted ys l) ≡ insert_all_sorted ys (insert_all_sorted xs l)
unfolding insert_all_sorted
insert_all_comm [] ys l = refl
insert_all_comm (x ∷ xs) ys l =
    ap (insert_sorted x) (insert_all_comm xs ys l)
    ∙ sym (insert_all-insert ys (insert_all_sorted xs l) x)

sort-insert_all : (xs : List String) → sort xs ≡ insert_all_sorted xs []
unfolding sort insert_all_sorted
sort-insert_all [] = refl
sort-insert_all (x ∷ xs) = ap (insert_sorted x) (sort-insert_all xs)

-- The order of two blocks does not matter to what is sorted.
pub sort-append_comm : (xs ys : List String) → sort (xs ++ ys) ≡ sort (ys ++ xs)
sort-append_comm xs ys =
    sort-append xs ys
    ∙ ap (insert_all_sorted xs) (sort-insert_all ys)
    ∙ insert_all_comm xs ys []
    ∙ sym (sort-append ys xs ∙ ap (insert_all_sorted ys) (sort-insert_all xs))

pub sort-append_right :
    (xs ys zs : List String) → sort ys ≡ sort zs → sort (xs ++ ys) ≡ sort (xs ++ zs)
sort-append_right xs ys zs e =
    sort-append xs ys ∙ ap (insert_all_sorted xs) e ∙ sym (sort-append xs zs)
