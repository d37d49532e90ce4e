-- ===== src/Artifacts/Restoring.antt =====
-- src/subscription/artifacts.rs restore_config_transaction: what it can change, and what it has put back
-- when it works.
use singbox_sub_me.Prelude.{
  ap, ◌∙◌, ◌≡◌, refl, String, true, Option, none, some, [], ◌∷◌, ◌++◌, ◌⊎◌, inl, inr, Result, arith,
}
use singbox_sub_me.Http.Texts.{strip_prefix}
use singbox_sub_me.Disk.{
  StoreError, storage, Host, System, Io, ◌>>◌, attempt, put, config_path, write_relative_locked,
  is_ok,
}
use singbox_sub_me.Disk.Frames.{view, continue_post, write_relative-Wrote}
use singbox_sub_me.Disk.Deployment.{artifact_path}
use singbox_sub_me.Artifacts.{
  find, Priors, DeploymentSnapshot, active_path, reversed, put_back, put_back_all, put_back_active,
  restore_config_transaction,
}
use singbox_sub_me.Artifacts.Within.{
  Stays, Stays-continue, Wrote-Stays, write_artifact-Stays, write_active-Stays, remove-Wrote,
}
use singbox_sub_me.Artifacts.PuttingBack.{
  is_artifact, apart_from, IsCertain, last-reversed, put_back_all_done, put_back_active_others,
  put_back_active_done,
}

abbrev pub IsPrior : {Bytes : Type 0} → String → Option Bytes → Priors Bytes → Type 0
IsPrior name prior [] = ⊥
IsPrior name prior ((n, p) ∷ priors) = ((name ≡ n) × (prior ≡ p)) ⊎ IsPrior name prior priors

-- What a restoration may change a file to: what the snapshot has of it.
pub data Restored {Bytes : Type 0} (snapshot : DeploymentSnapshot Bytes)
    : String → Option Bytes → Type 0 where
  restored_artifact :
      (name : String) (prior : Option Bytes)
      → IsPrior name prior snapshot.artifacts
      → Restored snapshot (artifact_path name) prior
  restored_active :
      (contents : Bytes)
      → snapshot.active_config ≡ some contents
      → Restored snapshot active_path (some contents)
  restored_config : Restored snapshot "etc/sbctl/config.toml" (some snapshot.config)

module _ {Bytes : Type 0} where
  IsPrior-append :
      (name : String) (prior : Option Bytes) (xs ys : Priors Bytes)
      → IsPrior name prior (xs ++ ys)
      → IsPrior name prior xs ⊎ IsPrior name prior ys
  IsPrior-append name prior [] ys i = inr i
  IsPrior-append name prior ((n, p) ∷ xs) ys (inl i) = inl (inl i)
  IsPrior-append name prior ((n, p) ∷ xs) ys (inr i) = elim (IsPrior-append name prior xs ys i) [
    | inl j ↦ inl (inr j)
    | inr j ↦ inr j
  ]

  IsPrior-reversed :
      (name : String) (prior : Option Bytes) (xs : Priors Bytes)
      → IsPrior name prior (reversed xs)
      → IsPrior name prior xs
  IsPrior-reversed name prior [] i = i
  IsPrior-reversed name prior ((n, p) ∷ xs) i =
      elim (IsPrior-append name prior (reversed xs) ((n, p) ∷ []) i) [
        | inl j ↦ inr (IsPrior-reversed name prior xs j)
        | inr (inl j) ↦ inl j
        | inr (inr j) ↦ elim j [ ]
      ]

module _ (system : System) where
  open system use {Bytes}

  module _ (snapshot : DeploymentSnapshot Bytes) (old : String → Option Bytes) where
    abbrev Kept : {E A : Type 0} → Io Bytes E A → Type 0
    Kept m = Stays system old (Restored snapshot) m

    put_back-Stays :
        (name : String) (prior : Option Bytes)
        → IsPrior name prior snapshot.artifacts
        → Kept (put_back system name prior)
    put_back-Stays name (some contents) i =
        write_artifact-Stays system old (Restored snapshot) name contents
          (inr (restored_artifact name (some contents) i))
    put_back-Stays name none i =
        Wrote-Stays system old (Restored snapshot) (artifact_path name) none
          (attempt system storage (put (artifact_path name) none))
          (remove-Wrote system old (Restored snapshot) storage name)
          (inr (restored_artifact name none i))

    put_back_all-Stays :
        (priors : Priors Bytes)
        → ((name : String) (prior : Option Bytes)
            → IsPrior name prior priors
            → IsPrior name prior snapshot.artifacts)
        → Kept (put_back_all system priors)
    unfolding put_back_all
    put_back_all-Stays [] whole = λ w within. within
    put_back_all-Stays ((name, prior) ∷ priors) whole =
        Stays-continue system old (Restored snapshot) (put_back system name prior)
          (λ _. put_back_all system priors)
          (put_back-Stays name prior (whole name prior (inl (refl, refl))))
          (λ _. put_back_all-Stays priors (λ n p i. whole n p (inr i)))

    put_back_active-Stays :
        (active : Option Bytes)
        → snapshot.active_config ≡ active
        → Kept (put_back_active system active)
    put_back_active-Stays none e = λ w within. within
    put_back_active-Stays (some contents) e =
        write_active-Stays system old (Restored snapshot) contents
          (inr (restored_active contents e))

    lock : Io Bytes StoreError (Unit {0})
    lock = attempt system storage (λ w. w)

    lock-Stays : Kept lock
    unfolding lock
    lock-Stays w within q = ground (arith, within q)

    restore-Stays : Kept (restore_config_transaction system snapshot)
    unfolding restore_config_transaction lock
    restore-Stays =
        let config = write_relative_locked system (config_path system) snapshot.config in
        let active = put_back_active system snapshot.active_config in
        let artifacts = put_back_all system (reversed snapshot.artifacts) in
        Stays-continue system old (Restored snapshot) lock (λ _. artifacts >> (active >> config))
          lock-Stays
          (λ _.
            Stays-continue system old (Restored snapshot) artifacts (λ _. active >> config)
              (put_back_all-Stays (reversed snapshot.artifacts)
                (λ n p i. IsPrior-reversed n p snapshot.artifacts i))
              (λ _.
                Stays-continue system old (Restored snapshot) active (λ _. config)
                  (put_back_active-Stays snapshot.active_config refl)
                  (λ _.
                    Wrote-Stays system old (Restored snapshot) (config_path system)
                      (some snapshot.config) config
                      (write_relative-Wrote system (config_path system) snapshot.config)
                      (inr restored_config))))

  -- What a restoration that works has put back.
  pub record IsRestored (snapshot : DeploymentSnapshot Bytes) (h : Host Bytes) : Type 0 where
    pub config : view h (config_path system) ≡ some snapshot.config
    pub active :
        (contents : Bytes)
        → snapshot.active_config ≡ some contents
        → view h active_path ≡ some contents
    pub artifacts :
        (name : String) (prior : Option Bytes)
        → find name snapshot.artifacts ≡ some prior
        → IsCertain system prior
        → view h (artifact_path name) ≡ prior

  restore_done :
      (snapshot : DeploymentSnapshot Bytes) (w : Host Bytes)
      → is_ok (restore_config_transaction system snapshot w).0 ≡ true
      → IsRestored snapshot (restore_config_transaction system snapshot w).1
  unfolding restore_config_transaction is_artifact strip_prefix
  restore_done snapshot w =
      let config = write_relative_locked system (config_path system) snapshot.config in
      let active = put_back_active system snapshot.active_config in
      let artifacts = put_back_all system (reversed snapshot.artifacts) in
      let goal = λ (r : Result StoreError (Unit {0})) (h : Host Bytes).
        is_ok r ≡ true → IsRestored snapshot h in
      continue_post goal (attempt system storage (λ h. h) w) (λ _. artifacts >> (active >> config))
        (λ a locked.
          let h₀ = (attempt system storage (λ h. h) w).1 in
          continue_post goal (artifacts h₀) (λ _. active >> config)
            (λ b put.
              let h₁ = (artifacts h₀).1 in
              continue_post goal (active h₁) (λ _. config)
                (λ c activated works.
                  let h₂ = (active h₁).1 in
                  let wrote = write_relative-Wrote system (config_path system) snapshot.config h₂ in
                  record {
                    config = wrote.done works;
                    active = λ contents is.
                        wrote.others active_path refl
                        ∙ put_back_active_done system snapshot.active_config h₁ contents is
                            (ap is_ok activated);
                    artifacts = λ name prior listed certain.
                        wrote.others (artifact_path name)
                          (apart_from (config_path system) name refl)
                        ∙ put_back_active_others system snapshot.active_config h₁
                            (artifact_path name) (apart_from active_path name refl)
                        ∙ put_back_all_done system (reversed snapshot.artifacts) h₀ name prior
                            (last-reversed system name snapshot.artifacts ∙ listed) certain
                            (ap is_ok put);
                  })
                (λ e failed works. cc))
            (λ e failed works. cc))
        (λ e failed works. cc)

  -- Whatever fails, restoring a snapshot makes a file what the snapshot has of it or leaves it, and
  -- touches no file that the snapshot does not have. One that reports success has put back the
  -- deployment's configuration, the one in force if the snapshot has it, and each artifact that there
  -- was; an artifact that there was not is gone if every call works.
  pub restoration_mixes :
      (snapshot : DeploymentSnapshot Bytes) (w : Host Bytes)
      → let (result, after) = restore_config_transaction system snapshot w in
        ((q : String) → (view after q ≡ view w q) ⊎ Restored snapshot q (view after q))
        × (is_ok result ≡ true → IsRestored snapshot after)
  restoration_mixes snapshot w =
      (restore-Stays snapshot (view w) w (λ p. inl refl), restore_done snapshot w)
