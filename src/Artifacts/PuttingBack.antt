-- ===== src/Artifacts/PuttingBack.antt =====
-- src/subscription/artifacts.rs restore_config_transaction: what putting single files back leaves in them.
use singbox_sub_me.Update.Preparing.{followed_by-injective}
use singbox_sub_me.Prelude.{
  ℕ, str_eq, eq_iff, eq_refl, if◌then◌else◌, Bool-cases, sym, ap, ◌∙◌, Bool, false, ◌≡◌, refl,
  String, true, Option, none, some, [], ◌∷◌, ◌++◌, ◌⊎◌, inl, inr, Result, arith,
}
use singbox_sub_me.Http.Texts.{strip_prefix}
use singbox_sub_me.Config.{starts_with}
use singbox_sub_me.Disk.{StoreError, Host, System, is_ok}
use singbox_sub_me.Disk.Frames.{view, continue_post, write_relative-Wrote}
use singbox_sub_me.Disk.Deployment.{artifact_path, write_artifact-Wrote}
use singbox_sub_me.Artifacts.{
  find, is_some, Priors, active_path, reversed, put_back, put_back_all, put_back_active,
}

abbrev or_else : {A : Type 0} → Option A → Option A → Option A
or_else none second = second
or_else (some a) second = some a

artifacts_apart :
    (a b : String) → str_eq b a ≡ false → str_eq (artifact_path a) (artifact_path b) ≡ false
unfolding artifact_path
artifacts_apart a b apart = elim (Bool-cases (str_eq (artifact_path a) (artifact_path b))) [
  | inl e ↦
      let same : a ≡ b =
        followed_by-injective "var/lib/sbctl/artifacts/" a b
          ((eq_iff (artifact_path a) (artifact_path b)).0 e) in
      absurd (ground (arith, (eq_iff b a).1 (sym same)))
  | inr e ↦ e
]

unfoldable pub is_artifact : String → Bool
is_artifact path = starts_with "var/lib/sbctl/artifacts/" path

pub apart_from : (q name : String) → is_artifact q ≡ false → str_eq (artifact_path name) q ≡ false
unfolding is_artifact artifact_path strip_prefix
apart_from q name off = elim (Bool-cases (str_eq (artifact_path name) q)) [
  | inl same ↦
      let on : is_artifact (artifact_path name) ≡ true = refl in
      cc ((eq_iff (artifact_path name) q).0 same, on, off)
  | inr other ↦ other
]

module _ (system : System) where
  open system use {Bytes}

  -- A prior version that there was, or calls that work: else a removal that fails goes unnoticed.
  abbrev pub IsCertain : Option Bytes → Type 0
  IsCertain prior = (is_some prior ≡ true) ⊎ ((n : ℕ) → system.works n ≡ true)

  put_back_others :
      (name : String) (prior : Option Bytes) (w : Host Bytes) (q : String)
      → str_eq q (artifact_path name) ≡ false
      → view (put_back system name prior w).1 q ≡ view w q
  put_back_others name (some contents) w q apart =
      (write_artifact-Wrote system name contents w).others q apart
  put_back_others name none w q apart = ground arith

  put_back_done :
      (name : String) (prior : Option Bytes) (w : Host Bytes)
      → IsCertain prior
      → is_ok (put_back system name prior w).0 ≡ true
      → view (put_back system name prior w).1 (artifact_path name) ≡ prior
  put_back_done name (some contents) w certain works =
      (write_artifact-Wrote system name contents w).done works
  put_back_done name none w (inl never) works = cc
  put_back_done name none w (inr all) works =
      ground (arith, all w.calls, eq_refl (artifact_path name))

  -- The last that a list says of a name.
  abbrev pub last : String → Priors Bytes → Option (Option Bytes)
  last name [] = none
  last name ((n, p) ∷ rest) = or_else (last name rest) (if str_eq n name then some p else none)

  last-append :
      (name n : String) (p : Option Bytes) (xs : Priors Bytes)
      → last name (xs ++ (n, p) ∷ []) ≡ (if str_eq n name then some p else last name xs)
  last-append name n p [] = refl
  last-append name n p ((m, o) ∷ xs) = ground (arith, last-append name n p xs)

  pub last-reversed : (name : String) (xs : Priors Bytes) → last name (reversed xs) ≡ find name xs
  last-reversed name [] = refl
  last-reversed name ((n, p) ∷ xs) =
      last-append name n p (reversed xs)
      ∙ ap (λ found. if str_eq n name then some p else found) (last-reversed name xs)

  put_back_all_spares :
      (priors : Priors Bytes) (w : Host Bytes) (name : String)
      → last name priors ≡ none
      → view (put_back_all system priors w).1 (artifact_path name) ≡ view w (artifact_path name)
  unfolding put_back_all
  put_back_all_spares [] w name unlisted = refl
  put_back_all_spares ((n, p) ∷ priors) w name unlisted =
      let step = put_back system n p w in
      let first : view step.1 (artifact_path name) ≡ view w (artifact_path name) =
        put_back_others n p w (artifact_path name) (artifacts_apart name n (ground arith)) in
      continue_post (λ r h. view h (artifact_path name) ≡ view w (artifact_path name)) step
        (λ _. put_back_all system priors)
        (λ u done. put_back_all_spares priors step.1 name (ground arith) ∙ first)
        (λ e failed. first)

  listed_cases :
      (n name : String) (p prior : Option Bytes) (priors : Priors Bytes)
      → last name ((n, p) ∷ priors) ≡ some prior
      → (last name priors ≡ some prior) ⊎ ((last name priors ≡ none) × (n ≡ name) × (p ≡ prior))
  listed_cases n name p prior priors listed = ground (arith, eq_iff n name)

  pub put_back_all_done :
      (priors : Priors Bytes) (w : Host Bytes) (name : String) (prior : Option Bytes)
      → last name priors ≡ some prior
      → IsCertain prior
      → is_ok (put_back_all system priors w).0 ≡ true
      → view (put_back_all system priors w).1 (artifact_path name) ≡ prior
  unfolding put_back_all
  put_back_all_done [] w name prior listed certain = λ works. cc
  put_back_all_done ((n, p) ∷ priors) w name prior listed certain =
      let step = put_back system n p w in
      let goal = λ (r : Result StoreError (Unit {0})) (h : Host Bytes).
        is_ok r ≡ true → view h (artifact_path name) ≡ prior in
      continue_post goal step (λ _. put_back_all system priors)
        (λ u done works. elim (listed_cases n name p prior priors listed) [
          | inl later ↦ put_back_all_done priors step.1 name prior later certain works
          | inr (unlisted, here, same) ↦
              put_back_all_spares priors step.1 name unlisted
              ∙ ap (λ m. view step.1 (artifact_path m)) (sym here)
              ∙ put_back_done n p w (rw same certain) (ap is_ok done)
              ∙ same
        ])
        (λ e failed works. cc)

  pub put_back_active_others :
      (active : Option Bytes) (w : Host Bytes) (q : String)
      → str_eq q active_path ≡ false
      → view (put_back_active system active w).1 q ≡ view w q
  put_back_active_others none w q apart = refl
  put_back_active_others (some contents) w q apart =
      (write_relative-Wrote system active_path contents w).others q apart

  pub put_back_active_done :
      (active : Option Bytes) (w : Host Bytes) (contents : Bytes)
      → active ≡ some contents
      → is_ok (put_back_active system active w).0 ≡ true
      → view (put_back_active system active w).1 active_path ≡ some contents
  put_back_active_done none w contents e works = cc
  put_back_active_done (some c) w contents e works =
      (write_relative-Wrote system active_path c w).done works ∙ e
