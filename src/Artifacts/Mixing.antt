-- ===== src/Artifacts/Mixing.antt =====
-- src/subscription/artifacts.rs: what the transactions leave, wherever they stop.
use mathlib.Core.Path.{subst}
use singbox_sub_me.Prelude.{
  ◌≡◌, refl, ◌∙◌, String, Bool, true, false, ◌||◌, Option, none, some, List, [], ◌∷◌, ◌⊎◌, inl, inr,
  Result, ok, arith,
}
use singbox_sub_me.Config.{DeploymentConfig}
use singbox_sub_me.Config.Validation.{validate}
use singbox_sub_me.Disk.{
  StoreError, storage, invalid, Host, System, Io, ◌>>=◌, ◌>>◌, give, rewrap, map_err, attempt, read,
  config_path, write_relative_locked,
}
use singbox_sub_me.Disk.Frames.{view, continue_post, read-view}
use singbox_sub_me.Disk.Deployment.{artifact_path, replace_locked, replace-Wrote}
use singbox_sub_me.Artifacts.{
  SubscriptionError, stored, Artifacts, Priors, active_path, read_known, read_artifacts,
  server_artifact, write_or_restore, write_all, check_sing_box_config, is_stale, artifacts_changed,
  need_active_sync, sync_server, commit_artifacts, commit_if, snapshot, transact, transact_read,
  transact_locked, apply_config_transaction,
}
use singbox_sub_me.Artifacts.Within.{
  Within, Stays, Stays-continue, Stays-if, Wrote-Stays, write_active-Stays, IsKnown, AllKnown,
  AllAllowed, write_all-Stays, write_or_restore-Stays, remove_stale-Within,
}

abbrev pub IsGenerated : {Bytes : Type 0} → String → Bytes → Artifacts Bytes → Type 0
IsGenerated name contents [] = ⊥
IsGenerated name contents ((n, c) ∷ artifacts) =
    ((name ≡ n) × (contents ≡ c)) ⊎ IsGenerated name contents artifacts

abbrev pub IsAccepted : {Bytes : Type 0} → Option (Bytes → Bool) → Bytes → Type 0
IsAccepted none server = ⊥
IsAccepted (some accepts) server = accepts server ≡ true

-- What a transaction may change a file to.
pub data Change {Bytes : Type 0} (kernel : Option (Bytes → Bool)) (artifacts : Artifacts Bytes)
    (server : Bytes) (encoded : Option Bytes) : String → Option Bytes → Type 0 where
  generated :
      (name : String) (contents : Bytes)
      → IsGenerated name contents artifacts
      → IsAccepted kernel server
      → Change kernel artifacts server encoded (artifact_path name) (some contents)
  activated :
      IsAccepted kernel server → Change kernel artifacts server encoded active_path (some server)
  configured : Change kernel artifacts server encoded "etc/sbctl/config.toml" encoded
  superseded :
      (name : String)
      → is_stale artifacts name ≡ true
      → Change kernel artifacts server encoded (artifact_path name) none

module _ (system : System) where
  open system use {Bytes, is_ip, is_zone, resolve}

  module _ (old : String → Option Bytes) (Allowed : String → Option Bytes → Type 0) where
    abbrev pub IsUntouched : Host Bytes → Type 0
    IsUntouched h = (q : String) → view h q ≡ old q

    pub read_known-IsKnown :
        (path : String) (w : Host Bytes)
        → IsUntouched w
        → IsKnown system old Allowed path (read_known system path w).0
          × IsUntouched (read_known system path w).1
    unfolding read
    read_known-IsKnown path w same =
        (ground (arith, same path), λ q. read-view system storage path w q ∙ same q)

    pub read_artifacts-AllKnown :
        (artifacts : Artifacts Bytes) (w : Host Bytes)
        → IsUntouched w
        → AllKnown system old Allowed (read_artifacts system artifacts w).0
          × IsUntouched (read_artifacts system artifacts w).1
    unfolding read_artifacts
    read_artifacts-AllKnown [] w same = (tt, same)
    read_artifacts-AllKnown ((name, _) ∷ artifacts) w same =
        let (k, same') = read_known-IsKnown (artifact_path name) w same in
        let (ks, last) =
          read_artifacts-AllKnown artifacts (read_known system (artifact_path name) w).1 same' in
        ((k, ks), last)

  pub check_accepts :
      (accepts : Bytes → Bool) (server : Bytes) (w : Host Bytes) (u : Unit {0})
      → (check_sing_box_config system accepts server w).0 ≡ ok u
      → accepts server ≡ true
  unfolding check_sing_box_config
  check_accepts accepts server w u done = ground arith

  module _ (listed : Host Bytes → Option (List String)) (encode : DeploymentConfig → Option Bytes)
      (generate : Option (Bytes → Bool)
        → DeploymentConfig
        → Result SubscriptionError (Artifacts Bytes))
      (same : Bytes → Bytes → Bool) (empty : Bytes) (old : String → Option Bytes)
      (kernel : Option (Bytes → Bool)) (artifacts : Artifacts Bytes) (server : Bytes)
      (config : DeploymentConfig) where
    abbrev Allowed : String → Option Bytes → Type 0
    Allowed = Change kernel artifacts server (encode config)

    generated_allowed :
        (part : Artifacts Bytes)
        → ((name : String) (contents : Bytes)
            → IsGenerated name contents part
            → IsGenerated name contents artifacts)
        → IsAccepted kernel server
        → AllAllowed system old Allowed part
    generated_allowed [] whole accepted = tt
    generated_allowed ((name, contents) ∷ part) whole accepted = (
      generated name contents (whole name contents (inl (refl, refl))) accepted,
      generated_allowed part (λ n c i. whole n c (inr i)) accepted,
    )

    module _ (priors : Priors Bytes) (active : Option Bytes)
        (known_priors : AllKnown system old Allowed priors)
        (known_active : IsKnown system old Allowed active_path active) where
      restoring-Stays :
          (write : Io Bytes StoreError (Unit {0}))
          → Stays system old Allowed write
          → Stays system old Allowed (write_or_restore system priors active write)
      restoring-Stays write =
          write_or_restore-Stays system old Allowed priors active write known_priors known_active

      sync_server-Stays :
          (sync : Bool)
          → IsAccepted kernel server
          → Stays system old Allowed
              (sync_server system listed encode generate same sync priors active server)
      sync_server-Stays false accepted = λ w within. within
      sync_server-Stays true accepted =
          restoring-Stays (write_relative_locked system active_path server)
            (write_active-Stays system old Allowed server (inr (activated accepted)))

      write_artifacts-Stays :
          IsAccepted kernel server
          → Stays system old Allowed
              (write_or_restore system priors active (write_all system artifacts))
      write_artifacts-Stays accepted = restoring-Stays (write_all system artifacts) (
          write_all-Stays system old Allowed artifacts
            (generated_allowed artifacts (λ n c i. i) accepted))

      check-Stays :
          (accepts : Bytes → Bool)
          → Stays system old Allowed (check_sing_box_config system accepts server)
      unfolding check_sing_box_config
      check-Stays accepts w within q = ground (arith, within q)

      commit_artifacts-Stays :
          (k : Option (Bytes → Bool)) (sync : Bool)
          → k ≡ kernel
          → Stays system old Allowed (
              commit_artifacts system listed encode generate same k sync artifacts server priors
                active)
      commit_artifacts-Stays none sync e = λ w within. within
      commit_artifacts-Stays (some accepts) sync e =
          Stays-if system old Allowed (IsAccepted kernel server)
            (check_sing_box_config system accepts server)
            (write_or_restore system priors active (write_all system artifacts)
              >> sync_server system listed encode generate same sync priors active server)
            (λ w u done. subst (λ o. IsAccepted o server) e (check_accepts accepts server w u done))
            (check-Stays accepts)
            (λ accepted.
              Stays-continue system old Allowed
                (write_or_restore system priors active (write_all system artifacts))
                (λ _. sync_server system listed encode generate same sync priors active server)
                (write_artifacts-Stays accepted) (λ _. sync_server-Stays sync accepted))

      commit_if-Stays :
          (needed sync : Bool)
          → Stays system old Allowed (
              commit_if system listed encode generate same needed kernel sync artifacts server
                priors active)
      commit_if-Stays false sync = λ w within. within
      commit_if-Stays true sync = commit_artifacts-Stays kernel sync refl

      transact-Stays :
          (prior_config : Option Bytes)
          → Stays system old Allowed (
              transact system listed encode generate same empty config kernel artifacts server
                priors active prior_config)
      transact-Stays prior_config =
          let changed = artifacts_changed system listed encode generate same artifacts priors in
          let sync = need_active_sync system listed encode generate same changed server active in
          let commit =
            commit_if system listed encode generate same (changed || sync) kernel sync artifacts
              server priors active in
          let replace =
            write_or_restore system priors active (replace_locked system encode config) in
          Stays-continue system old Allowed (commit >> replace)
            (λ _.
              snapshot system listed encode generate same empty priors active prior_config
                artifacts)
            (Stays-continue system old Allowed commit (λ _. replace)
              (commit_if-Stays (changed || sync) sync)
              (λ _. restoring-Stays (replace_locked system encode config) (
                Wrote-Stays system old Allowed (config_path system) (encode config)
                  (replace_locked system encode config) (replace-Wrote system encode config)
                  (inr configured))))
            (λ _.
              remove_stale-Within system old Allowed listed artifacts (λ name e. superseded name e))

    transact_read-Within :
        (w : Host Bytes)
        → IsUntouched old Allowed w
        → Within system old Allowed
            (transact_read system listed encode generate same empty config kernel artifacts server
              w).1
    transact_read-Within w untouched =
        let (known_priors, untouched1) =
          read_artifacts-AllKnown old Allowed artifacts w untouched in
        let (priors, w1) = read_artifacts system artifacts w in
        let (known_active, untouched2) = read_known-IsKnown old Allowed active_path w1 untouched1 in
        let (active, w2) = read_known system active_path w1 in
        let (known_config, untouched3) =
          read_known-IsKnown old Allowed (config_path system) w2 untouched2 in
        transact-Stays priors active known_priors known_active
          (read_known system (config_path system) w2).0
          (read_known system (config_path system) w2).1 (λ q. inl (untouched3 q))

    transact_locked-Within :
        (w : Host Bytes)
        → IsUntouched old Allowed w
        → Within system old Allowed
            (transact_locked system listed encode generate same empty config kernel artifacts server
              w).1
    transact_locked-Within w untouched =
        let locked = attempt system storage (λ h. h) w in
        let still : IsUntouched old Allowed locked.1 = λ q. ground (arith, untouched q) in
        continue_post (λ r h. Within system old Allowed h)
          (map_err stored (attempt system storage (λ h. h)) w)
          (λ _.
            transact_read system listed encode generate same empty config kernel artifacts server)
          (λ u done. transact_read-Within locked.1 still) (λ e failed q. inl (still q))

  module _ (listed : Host Bytes → Option (List String)) (encode : DeploymentConfig → Option Bytes)
      (generate : Option (Bytes → Bool)
        → DeploymentConfig
        → Result SubscriptionError (Artifacts Bytes))
      (same : Bytes → Bytes → Bool) (empty : Bytes) where
    -- A file has what it had, or what a change from the generated artifacts gives it.
    abbrev pub IsMixed :
        Option (Bytes → Bool) → DeploymentConfig → Host Bytes → Host Bytes → String → Type 0
    IsMixed kernel config w h q =
        (view h q ≡ view w q)
        ⊎ ((artifacts : Artifacts Bytes) × (server : Bytes) × (generate kernel config
              ≡ ok artifacts)
            × (server_artifact artifacts ≡ ok server)
            × Change kernel artifacts server (encode config) q (view h q))

    -- Whichever calls of the system fail and wherever a configuration transaction stops, a file has what it
    -- had, or it is an artifact with its generated contents, or the server's configuration in force with
    -- the generated one, either only if the kernel accepts that one, or the deployment's configuration
    -- with the new one, or a superseded artifact that is gone.
    pub transaction_mixes :
        (config : DeploymentConfig) (kernel : Option (Bytes → Bool)) (w : Host Bytes) (q : String)
        → IsMixed kernel config w
            (apply_config_transaction system listed encode generate same empty config kernel w).1
            q
    unfolding apply_config_transaction
    transaction_mixes config kernel w q =
        continue_post (λ r h. IsMixed kernel config w h q)
          (rewrap (λ e. stored (invalid e)) (validate is_ip is_zone resolve config), w)
          (λ _. give (generate kernel config) >>= λ artifacts.
            give (server_artifact artifacts) >>= λ server.
            transact_locked system listed encode generate same empty config kernel artifacts server)
          (λ u valid.
            continue_post (λ r h. IsMixed kernel config w h q) (generate kernel config, w)
              (λ artifacts. give (server_artifact artifacts) >>= λ server.
                transact_locked system listed encode generate same empty config kernel artifacts
                  server)
              (λ artifacts made.
                continue_post (λ r h. IsMixed kernel config w h q) (server_artifact artifacts, w)
                  (λ server.
                    transact_locked system listed encode generate same empty config kernel artifacts
                      server)
                  (λ server found.
                    elim (transact_locked-Within listed encode generate same empty (view w) kernel
                      artifacts server config w (λ p. refl) q) [
                        | inl e ↦ inl e
                        | inr change ↦ inr (artifacts, server, made, found, change)
                      ])
                  (λ e failed. inl refl))
              (λ e failed. inl refl))
          (λ e failed. inl refl)
