-- ===== src/Artifacts/Agreement.antt =====
-- src/subscription/artifacts.rs: sets of artifacts that differ in the full profile only, and the overrides in
-- them.
use mathlib.Core.Path.{subst}
use singbox_sub_me.Prelude.{
  ◌≡◌, refl, ◌⊎◌, inl, inr, String, Bool, true, false, Option, none, some, [], ◌∷◌, str_eq, arith,
  Result, ok, err, if◌then◌else◌, ◌∙◌, ap, ◌>>=◌, >>=-eq-ok, ok-injective, Bool-cases, eq_iff,
}
use singbox_sub_me.Json.{Json}
use singbox_sub_me.Http.Texts.{strip_prefix}
use singbox_sub_me.Http.Format.{print_version}
use singbox_sub_me.Disk.{is_ok}
use singbox_sub_me.Artifacts.{SubscriptionError, find, Artifacts}
use singbox_sub_me.Artifacts.Generation.{
  full_name, edit_all, Templates, merge_override, edit_sing_box, edit_clash, is_client_sing_box,
  is_client_clash,
}

module _ {Bytes : Type 0} where
  -- The same artifacts, but for contents under the full profile's name that are fit for what follows.
  abbrev pub Agree : (Bytes → Type 0) → Artifacts Bytes → Artifacts Bytes → Type 0
  Agree Fit [] [] = Unit
  Agree Fit ((n, a) ∷ xs) ((m, b) ∷ ys) =
      (n ≡ m) × ((a ≡ b) ⊎ ((full_name ≡ n) × Fit b)) × Agree Fit xs ys
  Agree Fit _ _ = ⊥

  pub Agree-refl : (Fit : Bytes → Type 0) (xs : Artifacts Bytes) → Agree Fit xs xs
  Agree-refl Fit [] = tt
  Agree-refl Fit ((n, a) ∷ xs) = (refl, inl refl, Agree-refl Fit xs)

  pub find-Agree :
      (Fit : Bytes → Type 0) (name : String) (xs ys : Artifacts Bytes)
      → str_eq full_name name ≡ false
      → Agree Fit xs ys
      → find name xs ≡ find name ys
  find-Agree Fit name [] [] other agree = refl
  find-Agree Fit name [] (y ∷ ys) other agree = elim agree [ ]
  find-Agree Fit name (x ∷ xs) [] other agree = elim agree [ ]
  find-Agree Fit name ((n, a) ∷ xs) ((m, b) ∷ ys) other (same, inl e, agree) =
      ground (arith, find-Agree Fit name xs ys other agree)
  find-Agree Fit name ((n, a) ∷ xs) ((m, b) ∷ ys) other (same, inr (is, fit), agree) =
      ground (arith, find-Agree Fit name xs ys other agree)

  abbrev pub edited :
      (String → Bool)
      → (Bytes → Result SubscriptionError Bytes)
      → String
      → Bytes
      → Result SubscriptionError Bytes
  edited is_edited edit name contents = if is_edited name then edit contents else ok contents

  pub ok_value : (r : Result SubscriptionError Bytes) → is_ok r ≡ true → (b : Bytes) × (r ≡ ok b)
  ok_value (ok b) works = (b, refl)
  ok_value (err e) works = cc

  edit_one :
      (is_edited : String → Bool) (edit : Bytes → Result SubscriptionError Bytes) (n m : String)
      (a b a' : Bytes) (Fit : Bytes → Type 0)
      → ((c : Bytes) → Fit c → is_ok (edited is_edited edit full_name c) ≡ true)
      → n ≡ m
      → (a ≡ b) ⊎ ((full_name ≡ n) × Fit b)
      → edited is_edited edit n a ≡ ok a'
      → (b' : Bytes) × (edited is_edited edit m b ≡ ok b')
        × ((a' ≡ b') ⊎ ((full_name ≡ n) × Unit {0}))
  edit_one is_edited edit n m a b a' Fit fits same (inl e) first =
      (a', rw (← same, ← e) first, inl refl)
  edit_one is_edited edit n m a b a' Fit fits same (inr (is, fit)) first =
      let (b', second) = ok_value (edited is_edited edit full_name b) (fits b fit) in
      (b', subst (λ k. edited is_edited edit k b ≡ ok b') (is ∙ same) second, inr (is, tt))

  pub edit_all-Agree :
      (Fit : Bytes → Type 0) (is_edited : String → Bool)
      (edit : Bytes → Result SubscriptionError Bytes) (xs ys out : Artifacts Bytes)
      → ((b : Bytes) → Fit b → is_ok (edited is_edited edit full_name b) ≡ true)
      → Agree Fit xs ys
      → edit_all is_edited edit xs ≡ ok out
      → (out' : Artifacts Bytes) × (edit_all is_edited edit ys ≡ ok out')
        × Agree (λ b. Unit) out out'
  unfolding edit_all
  edit_all-Agree Fit is_edited edit [] [] out fits agree made =
      ([], refl, subst (λ o. Agree (λ b. Unit) o []) (ok-injective made) tt)
  edit_all-Agree Fit is_edited edit [] (y ∷ ys) out fits agree made = elim agree [ ]
  edit_all-Agree Fit is_edited edit (x ∷ xs) [] out fits agree made = elim agree [ ]
  edit_all-Agree Fit is_edited edit ((n, a) ∷ xs) ((m, b) ∷ ys) out fits (same, which, agree) made =
      let (a', first, made₁) =
        >>=-eq-ok (edited is_edited edit n a)
          (λ c. edit_all is_edited edit xs >>= λ os. ok ((n, c) ∷ os)) made in
      let (os, rest, made₂) =
        >>=-eq-ok (edit_all is_edited edit xs) (λ os. ok ((n, a') ∷ os)) made₁ in
      let (os', rest', agree') = edit_all-Agree Fit is_edited edit xs ys os fits agree rest in
      let (b', second, which') = edit_one is_edited edit n m a b a' Fit fits same which first in
      (
        (m, b') ∷ os',
        rw (second, rest') refl,
        subst (λ o. Agree (λ b. Unit) o ((m, b') ∷ os')) (ok-injective made₂)
            (same, which', agree'),
      )

  pub find-edit_all :
      (is_edited : String → Bool) (edit : Bytes → Result SubscriptionError Bytes) (name : String)
      (xs out : Artifacts Bytes) (c : Bytes)
      → edit_all is_edited edit xs ≡ ok out
      → find name out ≡ some c
      → (b : Bytes) × (find name xs ≡ some b) × (edited is_edited edit name b ≡ ok c)
  unfolding edit_all
  find-edit_all is_edited edit name [] out c made found =
      cc (found, ap (find name) (ok-injective made))
  find-edit_all is_edited edit name ((n, a) ∷ xs) out c made found =
      let (a', first, made₁) =
        >>=-eq-ok (edited is_edited edit n a)
          (λ c. edit_all is_edited edit xs >>= λ os. ok ((n, c) ∷ os)) made in
      let (os, rest, made₂) =
        >>=-eq-ok (edit_all is_edited edit xs) (λ os. ok ((n, a') ∷ os)) made₁ in
      let found' : find name ((n, a') ∷ os) ≡ some c =
        ap (find name) (ok-injective made₂) ∙ found in
      elim (Bool-cases (str_eq n name)) [
        | inl here ↦
            let is : a' ≡ c = ground arith in
            (a, rw here refl, rw (← (eq_iff n name).0 here, ← is) first)
        | inr there ↦
            let later : find name os ≡ some c = ground arith in
            rw there (find-edit_all is_edited edit name xs os c rest later)
      ]

  Agree-weaken :
      (Fit : Bytes → Type 0) (xs ys : Artifacts Bytes) → Agree Fit xs ys → Agree (λ b. Unit) xs ys
  Agree-weaken Fit [] [] agree = tt
  Agree-weaken Fit [] (y ∷ ys) agree = elim agree [ ]
  Agree-weaken Fit (x ∷ xs) [] agree = elim agree [ ]
  Agree-weaken Fit (x ∷ xs) (y ∷ ys) (same, inl e, agree) =
      (same, inl e, Agree-weaken Fit xs ys agree)
  Agree-weaken Fit (x ∷ xs) (y ∷ ys) (same, inr (is, fit), agree) =
      (same, inr (is, tt), Agree-weaken Fit xs ys agree)

  -- The full profile with the override, if there is one.
  abbrev pub merged : Templates Bytes → Option Json → Bytes → Result SubscriptionError Bytes
  merged templates none contents = ok contents
  merged templates (some override) contents = merge_override templates override contents

  module _ (templates : Templates Bytes) where
    pub edit_sing_box-Agree :
        (override : Option Json) (xs ys out : Artifacts Bytes)
        → Agree (λ b. is_ok (merged templates override b) ≡ true) xs ys
        → edit_sing_box templates override xs ≡ ok out
        → (out' : Artifacts Bytes) × (edit_sing_box templates override ys ≡ ok out')
          × Agree (λ b. Unit) out out'
    unfolding strip_prefix
    edit_sing_box-Agree none xs ys out agree made = (
      ys,
      refl,
      subst (λ o. Agree (λ b. Unit) o ys) (ok-injective made)
          (Agree-weaken (λ b. is_ok (merged templates none b) ≡ true) xs ys agree),
    )
    edit_sing_box-Agree (some override) xs ys out agree made =
        edit_all-Agree (λ b. is_ok (merged templates (some override) b) ≡ true) is_client_sing_box
          (merge_override templates override) xs ys out (λ b fit. fit) agree made

    pub sing_box_found :
        (override : Option Json) (xs out : Artifacts Bytes) (c : Bytes)
        → edit_sing_box templates override xs ≡ ok out
        → find full_name out ≡ some c
        → (b : Bytes) × (find full_name xs ≡ some b) × (merged templates override b ≡ ok c)
    unfolding strip_prefix
    sing_box_found none xs out c made found =
        (c, ap (find full_name) (ok-injective made) ∙ found, refl)
    sing_box_found (some override) xs out c made found =
        find-edit_all is_client_sing_box (merge_override templates override) full_name xs out c made
          found

  pub edit_clash-Agree :
      (merge : Option (Bytes → Result SubscriptionError Bytes)) (xs ys out : Artifacts Bytes)
      → Agree (λ b. Unit) xs ys
      → edit_clash merge xs ≡ ok out
      → (out' : Artifacts Bytes) × (edit_clash merge ys ≡ ok out') × Agree (λ b. Unit) out out'
  unfolding print_version
  edit_clash-Agree none xs ys out agree made =
      (ys, refl, subst (λ o. Agree (λ b. Unit) o ys) (ok-injective made) agree)
  edit_clash-Agree (some merge) xs ys out agree made =
      edit_all-Agree (λ b. Unit) is_client_clash merge xs ys out (λ b fit. refl) agree made

  pub clash_found :
      (merge : Option (Bytes → Result SubscriptionError Bytes)) (xs out : Artifacts Bytes)
      (c : Bytes)
      → edit_clash merge xs ≡ ok out
      → find full_name out ≡ some c
      → find full_name xs ≡ some c
  unfolding print_version
  clash_found none xs out c made found = ap (find full_name) (ok-injective made) ∙ found
  clash_found (some merge) xs out c made found =
      let (b, there, same) = find-edit_all is_client_clash merge full_name xs out c made found in
      there ∙ ap some (ok-injective same)
