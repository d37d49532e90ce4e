-- ===== src/Http/Secret.antt =====
-- src/subscription/mod.rs, constant_time_eq: the comparison of credentials. Texts are the lists of
-- their characters' codes, which UTF-8 encodes injectively.
use Prim.Native.Char.{code}
use text.Mathlib.TextEquality.{Char-path}
use singbox_sub_me.Prelude.{
  ℕ, zero, suc, ◌+◌, ◌≤◌, ◌<◌, ◌≡◌, refl, ap₂, sym, String, Bool, true, false, ◌||◌, ◌&&◌, not,
  List, [], ◌∷◌, ◌==◌, max, length, arith, Bool-cases, inl, inr, and-true, ◌∙◌,
}

-- `as_bytes`
abbrev pub codes : String → List ℕ
codes String.[] = []
codes (String.◌∷◌ c s) = code c ∷ codes s

-- `slice.get(index).unwrap_or(&0)`
abbrev pub get_or_zero : ℕ → List ℕ → ℕ
get_or_zero index [] = 0
get_or_zero zero (x ∷ xs) = x
get_or_zero (suc index) (x ∷ xs) = get_or_zero index xs

-- The loop over `n` indices from `index` on. The accumulator is only tested for zero, so it is
-- carried as whether it is not zero: a bitwise or is not zero where one side is not, an exclusive
-- or where its sides differ.
scan : (n index : ℕ) → Bool → (left right : List ℕ) → Bool
scan zero index different left right = different
scan (suc n) index different left right =
    scan n (suc index) (different || not (get_or_zero index left == get_or_zero index right)) left
      right

unfoldable pub constant_time_eq : (left right : List ℕ) → Bool
unfolding scan
constant_time_eq left right =
    let different = not (length left == length right) in
    not (scan (max (length left) (length right)) 0 different left right)

scan_different : (n index : ℕ) (left right : List ℕ) → scan n index true left right ≡ true
unfolding scan
scan_different zero index left right = refl
scan_different (suc n) index left right = scan_different n (suc index) left right

scan_same : (n index : ℕ) (l : List ℕ) → scan n index false l l ≡ false
unfolding scan
scan_same zero index l = refl
scan_same (suc n) index l =
    let same : (get_or_zero index l == get_or_zero index l) ≡ true = ground arith in
    rw same (scan_same n (suc index) l)

or_equal : (different : Bool) (a b : ℕ) → (different || not (a == b)) ≡ false → a ≡ b
or_equal true a b e = cc
or_equal false a b e = ground arith

scan_sound :
    (n index j : ℕ) (different : Bool) (left right : List ℕ)
    → scan n index different left right ≡ false
    → index ≤ j
    → j < index + n
    → get_or_zero j left ≡ get_or_zero j right
unfolding scan
scan_sound zero index j different left right e h k = absurd (omega (arith, h, k))
scan_sound (suc n) index j different left right e h k =
    let differs = not (get_or_zero index left == get_or_zero index right) in
    elim (Bool-cases (different || differs)) [
      | inl on ↦ absurd (ground (arith, scan_different n (suc index) left right, rw on at e))
      | inr off ↦ elim (Bool-cases (index == j)) [
        | inl here ↦
            let same : index ≡ j = ground arith in
            rw (← same) (or_equal different (get_or_zero index left) (get_or_zero index right) off)
        | inr there ↦
            scan_sound n (suc index) j (different || differs) left right e (ground arith)
              (omega (arith, k))
      ]
    ]

same_elements :
    (left right : List ℕ)
    → length left ≡ length right
    → ((j : ℕ) → j < length left → get_or_zero j left ≡ get_or_zero j right)
    → left ≡ right
same_elements [] [] e same = refl
same_elements [] (y ∷ ys) e same = absurd (omega (arith, e))
same_elements (x ∷ xs) [] e same = absurd (omega (arith, e))
same_elements (x ∷ xs) (y ∷ ys) e same =
    ap₂ (λ a as'. a ∷ as') (same 0 (omega arith))
      (same_elements xs ys (omega (arith, e)) (λ j h. same (suc j) (omega (arith, h))))

scan-starts :
    (n : ℕ) (different : Bool) (left right : List ℕ)
    → scan n 0 different left right ≡ false
    → different ≡ false
scan-starts n true left right e = absurd (ground (arith, scan_different n 0 left right))
scan-starts n false left right e = refl

pub constant_time_eq_sound :
    (left right : List ℕ) → constant_time_eq left right ≡ true → left ≡ right
unfolding constant_time_eq
constant_time_eq_sound left right e =
    let unequal = not (length left == length right) in
    let n = max (length left) (length right) in
    let clear : scan n 0 unequal left right ≡ false = ground arith in
    let started = scan-starts n unequal left right clear in
    let long : length left ≡ length right = ground arith in
    same_elements left right long
      (λ j h. scan_sound n 0 j unequal left right clear (omega arith) (omega (arith, h, long)))

pub constant_time_eq_self : (l : List ℕ) → constant_time_eq l l ≡ true
unfolding constant_time_eq
constant_time_eq_self l =
    let same : (length l == length l) ≡ true = ground arith in
    rw (same, scan_same (max (length l) (length l)) 0 l) refl

-- The comparison that stops at the first difference.
abbrev pub plain_eq : (left right : List ℕ) → Bool
plain_eq [] [] = true
plain_eq [] (y ∷ ys) = false
plain_eq (x ∷ xs) [] = false
plain_eq (x ∷ xs) (y ∷ ys) = x == y && plain_eq xs ys

plain_eq_sound : (left right : List ℕ) → plain_eq left right ≡ true → left ≡ right
plain_eq_sound [] [] e = refl
plain_eq_sound [] (y ∷ ys) e = cc
plain_eq_sound (x ∷ xs) [] e = cc
plain_eq_sound (x ∷ xs) (y ∷ ys) e =
    let (first, rest) = and-true (x == y) (plain_eq xs ys) e in
    ap₂ (λ a as'. a ∷ as') (ground arith) (plain_eq_sound xs ys rest)

plain_eq_self : (l : List ℕ) → plain_eq l l ≡ true
plain_eq_self [] = refl
plain_eq_self (x ∷ xs) = ground (arith, plain_eq_self xs)

-- The comparison that looks at every position of the longer secret, lengths included, decides what
-- the plain one does.
constant_time_eq-plain_eq :
    (left right : List ℕ) → constant_time_eq left right ≡ plain_eq left right
constant_time_eq-plain_eq left right = elim (Bool-cases (plain_eq left right)) [
  | inl equal ↦
      let same = plain_eq_sound left right equal in
      rw same (constant_time_eq_self right ∙ sym (plain_eq_self right))
  | inr different ↦ elim (Bool-cases (constant_time_eq left right)) [
    | inl accepted ↦
        let same = constant_time_eq_sound left right accepted in
        absurd (ground (arith, plain_eq_self right, rw same at different))
    | inr refused ↦ refused ∙ sym different
  ]
]

-- A text is given by its codes.
pub codes-injective : (s t : String) → codes s ≡ codes t → s ≡ t
codes-injective String.[] String.[] e = refl
codes-injective String.[] (String.◌∷◌ d t) e = cc
codes-injective (String.◌∷◌ c s) String.[] e = cc
codes-injective (String.◌∷◌ c s) (String.◌∷◌ d t) e =
    let first : code c ≡ code d = ground arith in
    let rest : codes s ≡ codes t = ground arith in
    ap₂ String.◌∷◌ (Char-path c d first) (codes-injective s t rest)
