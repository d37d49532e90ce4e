-- ===== src/Update/Ready.antt =====
-- src/update.rs up to the first replacement: what an update that is prepared holds.
use singbox_sub_me.Prelude.{
  ◌≡◌, refl, sym, ap, ◌∙◌, String, Bool, true, false, Option, none, some, ◌||◌, List, [], ◌∷◌,
  Result, ok, err, All, arith, ok-injective,
}
use mathlib.Core.Path.{subst}
use singbox_sub_me.Http.Texts.{strip_prefix}
use singbox_sub_me.Http.Handler.{SubscriptionMode, direct, external_proxy, ip_fallback}
use singbox_sub_me.Config.{DeploymentConfig, ConfigError}
use singbox_sub_me.Config.Validation.{validate}
use singbox_sub_me.Disk.{
  StoreError, storage, missing, config_content, invalid, decoded_config, checked_config, Host,
  System, Io, continue, ◌>>=◌, ◌>>◌, give, rewrap, map_err, present, attempt, read, load,
}
use singbox_sub_me.Disk.Frames.{view, continue_post, continue-eq-ok, read-view}
use singbox_sub_me.Update.{
  UpdateError, Prepared, stored, sing_box_check, generation_path, backup_path, rollback_paths,
  certificate_paths, backup, rollback_directory, prepare, take_backup, check_candidate, with_config,
  server_config,
}
use singbox_sub_me.Update.Restoring.{In, relatives, AreCopies}
use singbox_sub_me.Update.Preparing.{
  rollback_directory_point, is_backup, is_backup-backup_path, Spares, attempt-Spares,
  rollback_directory-Spares, load-Spares,
}
use singbox_sub_me.Update.Copies.{backup_post}

any_backup : List String → Bool
any_backup [] = false
any_backup (path ∷ paths) = is_backup path || any_backup paths

backup_free :
    (paths : List String) → any_backup paths ≡ false → All (λ path. is_backup path ≡ false) paths
unfolding any_backup
backup_free [] h = tt
backup_free (path ∷ paths) h = (ground arith, backup_free paths (ground arith))

certificates_off :
    (mode : SubscriptionMode) (host : String) → any_backup (certificate_paths mode host) ≡ false
unfolding any_backup strip_prefix
certificates_off direct host = refl
certificates_off external_proxy host = refl
certificates_off ip_fallback host = refl

rollback_paths_off :
    (config : DeploymentConfig) → All (λ path. is_backup path ≡ false) (rollback_paths config)
unfolding rollback_paths any_backup strip_prefix
rollback_paths_off config =
    backup_free (rollback_paths config)
      (certificates_off config.subscription_mode config.subscription_host)

-- Files off the rollback points have the same contents.
abbrev pub Same : {Bytes : Type 0} → Host Bytes → Host Bytes → Type 0
Same before after = (q : String) → is_backup q ≡ false → view after q ≡ view before q

pub ok_of_rewrap :
    {E F A : Type 0} (f : E → F) (r : Result E A) {a : A} → rewrap f r ≡ ok a → r ≡ ok a
ok_of_rewrap f (ok b) h = ap (λ b'. ok b') (ok-injective h)
ok_of_rewrap f (err e) h = cc

module _ (system : System) where
  open system use {Bytes, is_ip, is_zone, resolve}

  -- What an update holds once it is prepared: a copy of every managed file, in memory and on disk.
  pub record IsReady (old : String → Option Bytes) (timestamp : String) (p : Prepared Bytes)
      (h : Host Bytes) : Type 0 where
    pub validated : validate is_ip is_zone resolve p.config ≡ ok tt
    pub point_is : p.point ≡ generation_path timestamp
    pub paths_are : relatives p.entries ≡ rollback_paths p.config
    pub copies : AreCopies system old p.entries
    pub saved :
        (q : String)
        → In q (rollback_paths p.config)
        → (b : Bytes) → old q ≡ some b
        → view h (backup_path (generation_path timestamp) q) ≡ some b

  pub record IsPrepared (old : String → Option Bytes) (timestamp : String)
      (r : Result UpdateError (Prepared Bytes)) (h : Host Bytes) : Type 0 where
    pub same : (q : String) → is_backup q ≡ false → view h q ≡ old q
    pub ready : (p : Prepared Bytes) → r ≡ ok p → IsReady old timestamp p h

  stage :
      {A : Type 0} (w h : Host Bytes) (timestamp : String) (m : Io Bytes UpdateError A)
      (next : A → Io Bytes UpdateError (Prepared Bytes))
      → Spares m
      → Same w h
      → ((a : A)
          → (m h).0 ≡ ok a
          → Same w (m h).1
          → IsPrepared (view w) timestamp (next a (m h).1).0 (next a (m h).1).1)
      → IsPrepared (view w) timestamp (continue next (m h)).0 (continue next (m h)).1
  stage w h timestamp m next spares same rest =
      let after = λ (q : String) (off : is_backup q ≡ false). spares h q off ∙ same q off in
      continue_post (IsPrepared (view w) timestamp) (m h) next (λ a worked. rest a worked after)
        (λ e failed. record { same = after; ready = λ p made. cc })

  checked_config_valid :
      (c : DeploymentConfig) (w : Host Bytes) (v : Result ConfigError (Unit {0}))
      {config : DeploymentConfig}
      → ◌≡◌ {A = Result StoreError DeploymentConfig}
          (continue (λ _. give (ok c)) (rewrap invalid v, w)).0
          (ok config)
      → (c ≡ config) × (v ≡ ok tt)
  checked_config_valid c w (ok tt) h = (ok-injective h, refl)
  checked_config_valid c w (err e) h = cc

  load_validated :
      (w : Host Bytes) {config : DeploymentConfig}
      → (load system w).0 ≡ ok config
      → validate is_ip is_zone resolve config ≡ ok tt
  unfolding load
  load_validated w {config} h =
      let start = read system storage "etc/sbctl/config.toml" w in
      let (file, e₁, h₁) =
        continue-eq-ok start (λ file. present missing file >>= decoded_config system) h in
      let (contents, e₂, h₂) =
        continue-eq-ok (present missing file start.1) (decoded_config system) h₁ in
      let parsed =
        present config_content (system.parse_config contents) (present missing file start.1).1 in
      let (c, e₃, h₃) = continue-eq-ok parsed (checked_config system) h₂ in
      let (is, valid) =
        checked_config_valid c parsed.1 (validate is_ip is_zone resolve c) {config = config} h₃ in
      rw (← is) valid

  present-Spares : {E A : Type 0} (e : E) (o : Option A) → Spares (present {Bytes = Bytes} e o)
  present-Spares e none w q off = refl
  present-Spares e (some a) w q off = refl

  take_backup_post :
      (w h : Host Bytes) (timestamp : String) (config : DeploymentConfig)
      → validate is_ip is_zone resolve config ≡ ok tt
      → Same w h
      → IsPrepared
          (view w)
          timestamp
          (take_backup system timestamp config h).0
          (take_backup system timestamp config h).1
  take_backup_post w h timestamp config valid same =
      stage w h timestamp (rollback_directory system timestamp)
        (λ point. backup system point (rollback_paths config) >>= λ entries.
          give (ok (record { config = config; point = point; entries = entries })))
        (rollback_directory-Spares system timestamp) same
        λ point made now.
          let is : point ≡ generation_path timestamp =
            rollback_directory_point system timestamp h made in
          let at = (rollback_directory system timestamp h).1 in
          let inside : (relative : String) → is_backup (backup_path point relative) ≡ true =
            λ relative.
              subst (λ p. is_backup (backup_path p relative) ≡ true) (sym is)
                (is_backup-backup_path timestamp relative) in
          let backed =
            backup_post system (view w) point inside (rollback_paths config) at
              (rollback_paths_off config) now in
          let after = λ (q : String) (off : is_backup q ≡ false). backed.spares q off ∙ now q off in
          let last = (backup system point (rollback_paths config) at).1 in
          continue_post (IsPrepared (view w) timestamp)
            (backup system point (rollback_paths config) at)
            (λ entries. give (ok (record { config = config; point = point; entries = entries })))
            (λ entries done.
              let (paths_are, copies, saved) = backed.entries entries done in
              record {
                same = after;
                ready = λ p made'.
                    subst (λ p. IsReady (view w) timestamp p last) (ok-injective made')
                      (record {
                        validated = valid;
                        point_is = is;
                        paths_are = paths_are;
                        copies = copies;
                        saved = λ q listed b has.
                            subst (λ p. view last (backup_path p q) ≡ some b) is
                              (saved q listed b has);
                      });
              })
            (λ e failed. record { same = after; ready = λ p made'. cc })

  check_candidate_post :
      (w h : Host Bytes) (timestamp : String) (config : DeploymentConfig)
      → validate is_ip is_zone resolve config ≡ ok tt
      → Same w h
      → IsPrepared
          (view w)
          timestamp
          (check_candidate system timestamp config h).0
          (check_candidate system timestamp config h).1
  check_candidate_post w h timestamp config valid same =
      stage w h timestamp (attempt system sing_box_check (λ w'. w'))
        (λ _. take_backup system timestamp config)
        (attempt-Spares system sing_box_check (λ w'. w') (λ h' q. refl)) same
        (λ _ passed now.
          take_backup_post w (attempt system sing_box_check (λ w'. w') h).1 timestamp config valid
            now)

  with_config_post :
      (w h : Host Bytes) (timestamp : String) (config : DeploymentConfig)
      → validate is_ip is_zone resolve config ≡ ok tt
      → Same w h
      → IsPrepared
          (view w)
          timestamp
          (with_config system timestamp config h).0
          (with_config system timestamp config h).1
  with_config_post w h timestamp config valid same =
      let start = read system storage server_config h in
      stage w h timestamp (map_err stored (read system storage server_config))
        (λ file.
          map_err stored (present {Bytes = Bytes} storage file)
          >> check_candidate system timestamp config)
        (λ h' q off. read-view system storage server_config h' q) same
        λ file found now.
          stage w start.1 timestamp (map_err stored (present {Bytes = Bytes} storage file))
            (λ _. check_candidate system timestamp config) (present-Spares storage file) now
            (λ c there later.
              check_candidate_post w (present {Bytes = Bytes} storage file start.1).1 timestamp
                config valid later)

  -- The preparation leaves every file off the rollback points as it was, and what it gives, where it
  -- gives anything, is a valid configuration and a copy of every managed file.
  pub prepare_post :
      (timestamp : String) (w : Host Bytes)
      → IsPrepared (view w) timestamp (prepare system timestamp w).0 (prepare system timestamp w).1
  unfolding prepare
  prepare_post timestamp w =
      let lock : Io Bytes StoreError (Unit {0}) = attempt system storage (λ h. h) in
      stage w w timestamp (map_err stored lock)
        (λ _. map_err stored (load system) >>= with_config system timestamp)
        (attempt-Spares system storage (λ h. h) (λ h q. refl)) (λ q off. refl)
        λ u locked now.
          stage w (lock w).1 timestamp (map_err stored (load system)) (with_config system timestamp)
            (load-Spares system) now
            (λ config loaded later.
              with_config_post w (load system (lock w).1).1 timestamp config
                (load_validated (lock w).1 (ok_of_rewrap stored (load system (lock w).1).0 loaded))
                later)
