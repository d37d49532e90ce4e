-- ===== src/History/Windows.antt =====
-- The eviction loops of crates/client-core/src/state.rs as the last elements of a list.
use singbox_sub_me.Prelude.{
  ℕ, zero, suc, ◌+◌, ◌-◌, ◌≤◌, ◌≡◌, refl, sym, ap, ◌∙◌, List, [], ◌∷◌, ◌++◌, length, drop, All,
  length-append, length-drop, arith,
}
use singbox_sub_me.History.{pop_above, pop_from}

module _ {ℓ} {A : Type ℓ} where
  -- The last n elements, or all.
  unfoldable pub window : ℕ → List A → List A
  window n xs = drop (length xs - n) xs

  drop_nil : (n : ℕ) → drop {A = A} n [] ≡ []
  drop_nil zero = refl
  drop_nil (suc n) = refl

  drop-drop : (a b : ℕ) (xs : List A) → drop a (drop b xs) ≡ drop (b + a) xs
  drop-drop a zero xs = ground arith
  drop-drop a (suc b) [] = drop_nil a ∙ sym (drop_nil (suc b + a))
  drop-drop a (suc b) (x ∷ xs) =
      let one_more : suc (b + a) ≡ suc b + a = omega arith in
      drop-drop a b xs ∙ ap (λ k. drop k (x ∷ xs)) one_more

  drop-append : (n : ℕ) (xs ys : List A) → n ≤ length xs → drop n (xs ++ ys) ≡ drop n xs ++ ys
  drop-append zero xs ys bound = refl
  drop-append (suc n) [] ys bound = ground arith
  drop-append (suc n) (x ∷ xs) ys bound = drop-append n xs ys (omega arith)

  -- A list that is not shorter than what is dropped from it loses its head first.
  drop_head :
      (n : ℕ) (x : A) (xs : List A)
      → n ≤ length xs
      → drop (suc (length xs) - n) (x ∷ xs) ≡ drop (length xs - n) xs
  drop_head n x xs bound =
      let later : suc (length xs) - n ≡ suc (length xs - n) = omega arith in
      ap (λ k. drop k (x ∷ xs)) later

  drop_none : (n : ℕ) (xs : List A) → length xs ≤ n → drop (length xs - n) xs ≡ xs
  drop_none n xs bound =
      let nothing : length xs - n ≡ 0 = omega arith in ap (λ k. drop k xs) nothing

  -- What has left a window need not be known to find a window that is no larger but for one more element.
  pub window_again :
      (n m : ℕ) (xs : List A) (x : A)
      → n ≤ suc m
      → window n (window m xs ++ x ∷ []) ≡ window n (xs ++ x ∷ [])
  unfolding window
  window_again n m xs x bound =
      let k = length xs - m in
      rw (← drop-append k xs (x ∷ []) (omega arith), drop-drop, length-drop, length-append)
        (ap (λ k. drop k (xs ++ x ∷ [])) (omega arith))

  pub window_whole : (n : ℕ) (xs : List A) → length xs ≤ n → window n xs ≡ xs
  unfolding window
  window_whole n xs few = drop_none n xs few

  drop_front : (n : ℕ) (xs ys : List A) → drop (length xs + n) (xs ++ ys) ≡ drop n ys
  drop_front n [] ys = ap (λ k. drop k ys) (omega arith)
  drop_front n (x ∷ xs) ys =
      let one_more : suc (length xs) + n ≡ suc (length xs + n) = omega arith in
      ap (λ k. drop k (x ∷ xs ++ ys)) one_more ∙ drop_front n xs ys

  pub window_back : (n : ℕ) (xs ys : List A) → n ≤ length ys → window n (xs ++ ys) ≡ window n ys
  unfolding window
  window_back n xs ys many =
      let here : length xs + length ys - n ≡ length xs + (length ys - n) = omega arith in
      rw (length-append, here) (drop_front (length ys - n) xs ys)

  drop-All {κ} : (P : A → Type κ) (n : ℕ) (xs : List A) → All P xs → All P (drop n xs)
  drop-All P zero xs ps = ps
  drop-All P (suc n) [] ps = tt
  drop-All P (suc n) (x ∷ xs) (p, ps) = drop-All P n xs ps

  pub window-All {κ} : (P : A → Type κ) (n : ℕ) (xs : List A) → All P xs → All P (window n xs)
  unfolding window
  window-All P n xs ps = drop-All P (length xs - n) xs ps

  pub window-append :
      (n : ℕ) (xs : List A) (x : A) → window n xs ++ x ∷ [] ≡ window (suc n) (xs ++ x ∷ [])
  unfolding window
  window-append n xs x = rw (length-append) (
      let same : length xs + 1 - suc n ≡ length xs - n = omega arith in
      rw (same) (sym (drop-append (length xs - n) xs (x ∷ []) (omega arith))))

module _ {A : Type 0} where
  pub pop_above-window : (n : ℕ) (xs : List A) → pop_above n xs ≡ window n xs
  unfolding pop_above window
  pop_above-window n [] = ground arith
  pop_above-window n (x ∷ xs) =
      ground (arith, pop_above-window n xs, drop_head n x xs, drop_none n (x ∷ xs))

  pub pop_from-window : (n : ℕ) (xs : List A) → pop_from (suc n) xs ≡ window n xs
  unfolding pop_from window
  pop_from-window n [] = ground arith
  pop_from-window n (x ∷ xs) =
      ground (arith, pop_from-window n xs, drop_head n x xs, drop_none n (x ∷ xs))
