-- ===== src/Artifacts/Within.antt =====
-- src/subscription/artifacts.rs: steps that leave each file what it was, or with contents that are allowed.
use mathlib.Core.Path.{subst}
use singbox_sub_me.Prelude.{
  ◌≡◌, sym, String, true, Option, none, some, List, [], ◌∷◌, ◌++◌, ◌⊎◌, inl, inr, str_eq, Result,
  ok, err, arith, eq_iff, eq_refl, Bool-cases,
}
use singbox_sub_me.Disk.{
  StoreError, Host, System, Io, continue, attempt, put, write_relative_locked,
}
use singbox_sub_me.Disk.Frames.{view, Wrote, continue_post, write_relative-Wrote}
use singbox_sub_me.Disk.Deployment.{artifact_path, write_artifact_locked, write_artifact-Wrote}
use singbox_sub_me.Artifacts.{
  artifact, Artifacts, Priors, active_path, reversed, rewrite_all, rewrite_active, restore_replaced,
  keep_or_restore, write_or_restore, write_all, is_stale, remove_if, remove_named, remove_listed,
  remove_stale_artifacts,
}

module _ (system : System) (old : String → Option (system.Bytes))
    (Allowed : String → Option (system.Bytes) → Type 0) where
  open system use {Bytes}

  abbrev pub Within : Host Bytes → Type 0
  Within h = (q : String) → (view h q ≡ old q) ⊎ Allowed q (view h q)

  -- A step from a host within the bounds stays there, whatever its result.
  abbrev pub Stays : {E A : Type 0} → Io Bytes E A → Type 0
  Stays m = (w : Host Bytes) → Within w → Within (m w).1

  pub Stays-continue :
      {E A B : Type 0} (m : Io Bytes E A) (next : A → Io Bytes E B)
      → Stays m
      → ((a : A) → Stays (next a))
      → Stays (λ w. continue next (m w))
  Stays-continue m next first rest w within =
      continue_post (λ r h. Within h) (m w) next (λ a done. rest a (m w).1 (first w within))
        (λ e failed. first w within)

  -- The same where the rest runs only if something holds.
  pub Stays-if :
      {E A B : Type 0} (P : Type 0) (m : Io Bytes E A) (next : Io Bytes E B)
      → ((w : Host Bytes) (a : A) → (m w).0 ≡ ok a → P)
      → Stays m
      → (P → Stays next)
      → Stays (λ w. continue (λ _. next) (m w))
  Stays-if P m next sound first rest w within =
      continue_post (λ r h. Within h) (m w) (λ _. next)
        (λ a done. rest (sound w a done) (m w).1 (first w within)) (λ e failed. first w within)

  at_path :
      {before : Option Bytes} (path : String) (target : Option Bytes) (h : Host Bytes)
      → (target ≡ old path) ⊎ Allowed path target
      → (before ≡ old path) ⊎ Allowed path before
      → (view h path ≡ before) ⊎ (view h path ≡ target)
      → (view h path ≡ old path) ⊎ Allowed path (view h path)
  at_path path target h fits was (inl e) = rw e was
  at_path path target h fits was (inr e) = rw e fits

  pub Wrote-Stays :
      {E A : Type 0} (path : String) (target : Option Bytes) (m : Io Bytes E A)
      → ((w : Host Bytes) → Wrote path target w (m w).0 (m w).1)
      → (target ≡ old path) ⊎ Allowed path target
      → Stays m
  Wrote-Stays path target m wrote fits w within q = elim (Bool-cases (str_eq q path)) [
    | inl e ↦
        subst (λ p. (view (m w).1 p ≡ old p) ⊎ Allowed p (view (m w).1 p))
          (sym ((eq_iff q path).0 e))
          (at_path path target (m w).1 fits (within path) (wrote w).either)
    | inr e ↦ rw ((wrote w).others q e) (within q)
  ]

  pub write_artifact-Stays :
      (name : String) (contents : Bytes)
      → (some contents ≡ old (artifact_path name)) ⊎ Allowed (artifact_path name) (some contents)
      → Stays (write_artifact_locked system name contents)
  write_artifact-Stays name contents =
      Wrote-Stays (artifact_path name) (some contents) (write_artifact_locked system name contents)
        (write_artifact-Wrote system name contents)

  pub write_active-Stays :
      (contents : Bytes)
      → (some contents ≡ old active_path) ⊎ Allowed active_path (some contents)
      → Stays (write_relative_locked system active_path contents)
  write_active-Stays contents =
      Wrote-Stays active_path (some contents) (write_relative_locked system active_path contents)
        (write_relative-Wrote system active_path contents)

  pub remove-Wrote :
      {E : Type 0} (e : E) (name : String) (w : Host Bytes)
      → Wrote {Bytes = Bytes}
          (artifact_path name)
          none
          w
          (attempt system e (put (artifact_path name) none) w).0
          (attempt system e (put (artifact_path name) none) w).1
  remove-Wrote e name w = record {
    others = λ q other. ground arith;
    either = ground (arith, eq_refl (artifact_path name));
    done = λ works. ground (arith, eq_refl (artifact_path name));
  }

  -- A prior version is what the file had, or it could not be read.
  abbrev pub IsKnown : String → Option Bytes → Type 0
  IsKnown path prior = (prior ≡ none) ⊎ (prior ≡ old path)

  known_value :
      (path : String) (contents : Bytes) → IsKnown path (some contents) → some contents ≡ old path
  known_value path contents (inl e) = cc
  known_value path contents (inr e) = e

  abbrev pub AllKnown : Priors Bytes → Type 0
  AllKnown [] = Unit
  AllKnown ((name, prior) ∷ priors) = IsKnown (artifact_path name) prior × AllKnown priors

  abbrev pub AllAllowed : Artifacts Bytes → Type 0
  AllAllowed [] = Unit
  AllAllowed ((name, contents) ∷ artifacts) =
      Allowed (artifact_path name) (some contents) × AllAllowed artifacts

  pub write_all-Stays :
      (artifacts : Artifacts Bytes) → AllAllowed artifacts → Stays (write_all system artifacts)
  unfolding write_all
  write_all-Stays [] allowed = λ w within. within
  write_all-Stays ((name, contents) ∷ artifacts) (a, allowed) =
      Stays-continue (write_artifact_locked system name contents) (λ _. write_all system artifacts)
        (write_artifact-Stays name contents (inr a)) (λ _. write_all-Stays artifacts allowed)

  rewrite_all-Within :
      (priors : Priors Bytes) (w : Host Bytes)
      → AllKnown priors
      → Within w
      → Within (rewrite_all system priors w)
  unfolding rewrite_all
  rewrite_all-Within [] w known within = within
  rewrite_all-Within ((name, none) ∷ priors) w (k, known) within =
      rewrite_all-Within priors w known within
  rewrite_all-Within ((name, some contents) ∷ priors) w (k, known) within =
      rewrite_all-Within priors (write_artifact_locked system name contents w).1 known (
        write_artifact-Stays name contents (inl (known_value (artifact_path name) contents k)) w
          within)

  AllKnown-append : (xs ys : Priors Bytes) → AllKnown xs → AllKnown ys → AllKnown (xs ++ ys)
  AllKnown-append [] ys kx ky = ky
  AllKnown-append ((name, prior) ∷ xs) ys (k, kx) ky = (k, AllKnown-append xs ys kx ky)

  AllKnown-reversed : (priors : Priors Bytes) → AllKnown priors → AllKnown (reversed priors)
  AllKnown-reversed [] known = tt
  AllKnown-reversed ((name, prior) ∷ priors) (k, known) =
      AllKnown-append (reversed priors) ((name, prior) ∷ []) (AllKnown-reversed priors known)
        (k, tt)

  rewrite_active-Within :
      (active : Option Bytes) (w : Host Bytes)
      → IsKnown active_path active
      → Within w
      → Within (rewrite_active system active w)
  rewrite_active-Within none w known within = within
  rewrite_active-Within (some contents) w known within =
      write_active-Stays contents (inl (known_value active_path contents known)) w within

  pub restore_replaced-Within :
      (priors : Priors Bytes) (active : Option Bytes) (w : Host Bytes)
      → AllKnown priors
      → IsKnown active_path active
      → Within w
      → Within (restore_replaced system priors active w)
  unfolding restore_replaced
  restore_replaced-Within priors active w known known_active within =
      rewrite_active-Within active (rewrite_all system (reversed priors) w) known_active
        (rewrite_all-Within (reversed priors) w (AllKnown-reversed priors known) within)

  pub write_or_restore-Stays :
      (priors : Priors Bytes) (active : Option Bytes) (write : Io Bytes StoreError (Unit {0}))
      → AllKnown priors
      → IsKnown active_path active
      → Stays write
      → Stays (write_or_restore system priors active write)
  write_or_restore-Stays priors active write known known_active stays w within =
      restored (write w).0 (write w).1 (stays w within)
    where
      restored :
          (result : Result StoreError (Unit {0})) (h : Host Bytes)
          → Within h
          → Within (keep_or_restore system priors active result h).1
      restored (ok u) h within_h = within_h
      restored (err e) h within_h =
          restore_replaced-Within priors active h known known_active within_h

  abbrev pub StaleAllowed : Artifacts Bytes → Type 0
  StaleAllowed current =
      (name : String) → is_stale current name ≡ true → Allowed (artifact_path name) none

  remove_if-Stays :
      (current : Artifacts Bytes) (name : String)
      → StaleAllowed current
      → Stays (remove_if system (is_stale current name) name)
  remove_if-Stays current name stale = elim (Bool-cases (is_stale current name)) [
    | inl e ↦ rw e (
        Wrote-Stays (artifact_path name) none
          (attempt system artifact (put (artifact_path name) none)) (remove-Wrote artifact name)
          (inr (stale name e)))
    | inr e ↦ rw e (λ w within. within)
  ]

  module _ (listed : Host Bytes → Option (List String)) (current : Artifacts Bytes)
      (stale : StaleAllowed current) where
    remove_named-Stays : (names : List String) → Stays (remove_named system names current)
    remove_named-Stays [] = λ w within. within
    remove_named-Stays (name ∷ names) =
        Stays-continue (remove_if system (is_stale current name) name)
          (λ _. remove_named system names current) (remove_if-Stays current name stale)
          (λ _. remove_named-Stays names)

    remove_listed-Stays :
        (names : Option (List String)) → Stays (remove_listed system listed names current)
    remove_listed-Stays none = λ w within. within
    remove_listed-Stays (some names) = remove_named-Stays names

    pub remove_stale-Within :
        (w : Host Bytes) → Within w → Within (remove_stale_artifacts system listed current w)
    unfolding remove_stale_artifacts
    remove_stale-Within w = remove_listed-Stays (listed w) w
