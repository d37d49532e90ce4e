-- ===== src/Artifacts/Regenerating.antt =====
-- src/subscription/artifacts.rs regenerate: what it leaves, wherever it stops.
use singbox_sub_me.Prelude.{
  ◌≡◌, refl, String, Bool, true, false, Option, none, some, List, [], ◌∷◌, ◌⊎◌, inl, inr, Result,
  ok, arith,
}
use singbox_sub_me.Config.{DeploymentConfig}
use singbox_sub_me.Disk.{
  storage, Host, System, continue, ◌>>◌, map_err, attempt, write_relative_locked,
}
use singbox_sub_me.Disk.Frames.{view, continue_post}
use singbox_sub_me.Disk.Deployment.{artifact_path}
use singbox_sub_me.Artifacts.{
  SubscriptionError, stored, Artifacts, Priors, active_path, read_artifacts, server_artifact,
  write_or_restore, write_all, check_sing_box_config, is_stale, check_with, sync_active,
  read_active, pruned, replace_artifacts, replace_read, replace_checked, regenerate,
}
use singbox_sub_me.Artifacts.Within.{
  Within, Stays, Stays-continue, write_active-Stays, IsKnown, AllKnown, AllAllowed, write_all-Stays,
  write_or_restore-Stays, remove_stale-Within,
}
use singbox_sub_me.Artifacts.Mixing.{
  IsGenerated, IsUntouched, read_known-IsKnown, read_artifacts-AllKnown, check_accepts,
}

-- The server's configuration was accepted, if there is a kernel to ask.
abbrev pub IsChecked : {Bytes : Type 0} → Option (Bytes → Bool) → Artifacts Bytes → Type 0
IsChecked none artifacts = Unit
IsChecked {Bytes} (some accepts) artifacts =
    (server : Bytes) × (server_artifact artifacts ≡ ok server) × (accepts server ≡ true)

-- What a regeneration may change a file to.
pub data Regenerated {Bytes : Type 0} (update_active : Bool) (artifacts : Artifacts Bytes)
    : String → Option Bytes → Type 0 where
  rewritten :
      (name : String) (contents : Bytes)
      → IsGenerated name contents artifacts
      → Regenerated update_active artifacts (artifact_path name) (some contents)
  activated :
      (server : Bytes)
      → server_artifact artifacts ≡ ok server
      → update_active ≡ true
      → Regenerated update_active artifacts active_path (some server)
  superseded :
      (name : String)
      → is_stale artifacts name ≡ true
      → Regenerated update_active artifacts (artifact_path name) none

module _ (system : System) where
  open system use {Bytes}

  module _ (listed : Host Bytes → Option (List String)) (encode : DeploymentConfig → Option Bytes)
      (generate : Option (Bytes → Bool)
        → DeploymentConfig
        → Result SubscriptionError (Artifacts Bytes))
      (old : String → Option Bytes) (artifacts : Artifacts Bytes) where
    abbrev Allowed : Bool → String → Option Bytes → Type 0
    Allowed update = Regenerated update artifacts

    rewritten_allowed :
        (update : Bool) (part : Artifacts Bytes)
        → ((name : String) (contents : Bytes)
            → IsGenerated name contents part
            → IsGenerated name contents artifacts)
        → AllAllowed system old (Allowed update) part
    rewritten_allowed update [] whole = tt
    rewritten_allowed update ((name, contents) ∷ part) whole = (
      rewritten name contents (whole name contents (inl (refl, refl))),
      rewritten_allowed update part (λ n c i. whole n c (inr i)),
    )

    sync_active-Stays :
        (update : Bool) (priors : Priors Bytes) (active : Option Bytes)
        → AllKnown system old (Allowed update) priors
        → IsKnown system old (Allowed update) active_path active
        → Stays system old
            (Allowed update)
            (sync_active system listed encode generate update priors active artifacts)
    sync_active-Stays false priors active known known_active w within = within
    sync_active-Stays true priors active known known_active w within =
        continue_post (λ r h. Within system old (Allowed true) h) (server_artifact artifacts, w)
          (λ server.
            write_or_restore system priors active (write_relative_locked system active_path server))
          (λ server is.
            write_or_restore-Stays system old (Allowed true) priors active
              (write_relative_locked system active_path server) known known_active
              (write_active-Stays system old (Allowed true) server (inr (activated server is refl)))
              w within)
          (λ e failed. within)

    replace_artifacts-Stays :
        (update : Bool) (priors : Priors Bytes) (active : Option Bytes)
        → AllKnown system old (Allowed update) priors
        → IsKnown system old (Allowed update) active_path active
        → Stays system old
            (Allowed update)
            (replace_artifacts system listed encode generate update artifacts priors active)
    replace_artifacts-Stays update priors active known known_active =
        let write = write_or_restore system priors active (write_all system artifacts) in
        let sync = sync_active system listed encode generate update priors active artifacts in
        let prune = pruned system listed encode generate artifacts in
        Stays-continue system old (Allowed update) write (λ _. sync >> prune)
          (write_or_restore-Stays system old (Allowed update) priors active
            (write_all system artifacts) known known_active
            (write_all-Stays system old (Allowed update) artifacts
              (rewritten_allowed update artifacts (λ n c i. i))))
          (λ _.
            Stays-continue system old (Allowed update) sync (λ _. prune)
              (sync_active-Stays update priors active known known_active)
              (λ _.
                remove_stale-Within system old (Allowed update) listed artifacts
                  (λ name e. superseded name e)))

    read_active-IsKnown :
        (update : Bool) (w : Host Bytes)
        → IsUntouched system old (Allowed update) w
        → IsKnown system old
            (Allowed update)
            active_path
            (read_active system listed encode generate update w).0
          × IsUntouched system old
              (Allowed update)
              (read_active system listed encode generate update w).1
    read_active-IsKnown false w same = (inl refl, same)
    read_active-IsKnown true w same =
        read_known-IsKnown system old (Allowed true) active_path w same

    replace_read-Within :
        (update : Bool) (w : Host Bytes)
        → IsUntouched system old (Allowed update) w
        → Within system old
            (Allowed update)
            (replace_read system listed encode generate update artifacts w).1
    replace_read-Within update w same =
        let (known, same1) = read_artifacts-AllKnown system old (Allowed update) artifacts w same in
        let (priors, w1) = read_artifacts system artifacts w in
        let (known_active, same2) = read_active-IsKnown update w1 same1 in
        let (active, w2) = read_active system listed encode generate update w1 in
        replace_artifacts-Stays update priors active known known_active w2 (λ q. inl (same2 q))

    check_with-IsChecked :
        (kernel : Option (Bytes → Bool)) (w : Host Bytes) (u : Unit {0})
        → (check_with system listed encode generate kernel artifacts w).0 ≡ ok u
        → IsChecked kernel artifacts
    check_with-IsChecked none w u h = tt
    check_with-IsChecked (some accepts) w u done =
        continue_post (λ r h. r ≡ ok u → IsChecked (some accepts) artifacts)
          (server_artifact artifacts, w) (λ server. check_sing_box_config system accepts server)
          (λ server is h. (server, is, check_accepts system accepts server w u h))
          (λ e failed h. cc) done

    check_with-view :
        (kernel : Option (Bytes → Bool)) (w : Host Bytes) (q : String)
        → view (check_with system listed encode generate kernel artifacts w).1 q ≡ view w q
    unfolding check_sing_box_config
    check_with-view none w q = refl
    check_with-view (some accepts) w q =
        continue_post (λ r h. view h q ≡ view w q) (server_artifact artifacts, w)
          (λ server. check_sing_box_config system accepts server) (λ server is. ground arith)
          (λ e failed. refl)

  module _ (listed : Host Bytes → Option (List String)) (encode : DeploymentConfig → Option Bytes)
      (generate : Option (Bytes → Bool)
        → DeploymentConfig
        → Result SubscriptionError (Artifacts Bytes)) where
    -- A file has what it had, or what a regeneration gives it.
    abbrev pub IsRegenerated :
        Option (Bytes → Bool) → DeploymentConfig → Bool → Host Bytes → Host Bytes → String → Type 0
    IsRegenerated kernel config update w h q =
        (view h q ≡ view w q)
        ⊎ ((artifacts : Artifacts Bytes) × (generate kernel config ≡ ok artifacts)
            × IsChecked kernel artifacts
            × Regenerated update artifacts q (view h q))

    replace_locked-IsRegenerated :
        (config : DeploymentConfig) (kernel : Option (Bytes → Bool)) (update : Bool)
        (artifacts : Artifacts Bytes) (w h : Host Bytes) (q : String)
        → generate kernel config ≡ ok artifacts
        → IsChecked kernel artifacts
        → IsUntouched system (view w) (Regenerated update artifacts) h
        → IsRegenerated kernel config update w
            (continue
              (λ _. replace_read system listed encode generate update artifacts)
              (map_err stored (attempt system storage (λ g. g)) h)).1
            q
    replace_locked-IsRegenerated config kernel update artifacts w h q made checked same =
        let locked = (attempt system storage (λ g. g) h).1 in
        let still : IsUntouched system (view w) (Regenerated update artifacts) locked =
          λ p. ground (arith, same p) in
        continue_post (λ r g. IsRegenerated kernel config update w g q)
          (map_err stored (attempt system storage (λ g. g)) h)
          (λ _. replace_read system listed encode generate update artifacts)
          (λ u done.
            elim (replace_read-Within listed encode generate (view w) artifacts update locked still
              q) [ inl e ↦ inl e | inr change ↦ inr (artifacts, made, checked, change) ])
          (λ e failed. inl (still q))

    -- Whichever calls of the system fail and wherever a regeneration stops, a file has what it had, or it is
    -- an artifact with its generated contents, or the server's configuration in force with the generated
    -- one, if that is asked for, or a superseded artifact that is gone; and where there is a kernel,
    -- nothing changes unless it accepts the generated configuration of the server.
    pub regeneration_mixes :
        (config : DeploymentConfig) (kernel : Option (Bytes → Bool)) (update : Bool)
        (w : Host Bytes) (q : String)
        → IsRegenerated kernel config update w
            (regenerate system listed encode generate config kernel update w).1
            q
    unfolding regenerate
    regeneration_mixes config kernel update w q =
        continue_post (λ r h. IsRegenerated kernel config update w h q) (generate kernel config, w)
          (replace_checked system listed encode generate update kernel)
          (λ artifacts made.
            let check = check_with system listed encode generate kernel artifacts w in
            let kept = check_with-view listed encode generate (view w) artifacts kernel w in
            continue_post (λ r h. IsRegenerated kernel config update w h q) check
              (λ _.
                map_err stored (attempt system storage (λ g. g))
                >> replace_read system listed encode generate update artifacts)
              (λ u passed.
                replace_locked-IsRegenerated config kernel update artifacts w check.1 q made
                  (check_with-IsChecked listed encode generate (view w) artifacts kernel w u passed)
                  kept)
              (λ e failed. inl (kept q)))
          (λ e failed. inl refl)
