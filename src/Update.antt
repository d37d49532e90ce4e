-- ===== src/Update.antt =====
-- src/update.rs: the replacement of the two managed binaries, with the rollback point that is taken
-- before it and put back when it fails.
pub mod Restoring
pub mod Preparing
pub mod Copies
pub mod Ready
pub mod Outcomes
pub mod Install
pub mod Safety
use singbox_sub_me.Prelude.{
  ℕ, zero, suc, ◌-◌, ◌≡◌, String, Bool, true, false, ◌||◌, Option, none, some, List, [], ◌∷◌, ◌++◌,
  map, length, str_eq, if◌then◌else◌, Result, ok, err, sort,
}
use singbox_sub_me.Http.Texts.{followed_by}
use singbox_sub_me.Http.Handler.{SubscriptionMode, direct}
use singbox_sub_me.Config.{DeploymentConfig, starts_with}
use singbox_sub_me.Config.Validation.{validate}
use singbox_sub_me.Release.{ReleaseManifest, ReleaseArtifact, ReleaseError, verify_trusted}
use singbox_sub_me.Release.Texts.{eq_ignore_ascii_case}
use singbox_sub_me.Disk.{
  StoreError, storage, invalid, File, Host, System, Io, continue, is_ok, ◌>>=◌, ◌>>◌, give, rewrap,
  map_err, put, program_mode, private_mode, attempt, set_permissions, present,
  write_relative_locked, write_root_only_locked, read, exists, remove_file, load,
}

pub data UpdateError : Type 0 where
  digest_mismatch : String → UpdateError
  sbctl_health sing_box_check service_health operation io : UpdateError
  rollback : StoreError → UpdateError
  release : ReleaseError → UpdateError
  stored : StoreError → UpdateError

unfoldable pub managed_paths : List String
managed_paths =
    "usr/local/bin/sbctl" ∷ "usr/local/bin/sing-box" ∷ "etc/sbctl/config.toml"
    ∷ "var/lib/sbctl/state.json" ∷ "etc/sing-box/config.json"
    ∷ "var/lib/sbctl/artifacts/sing-box-server.json"
    ∷ "var/lib/sbctl/artifacts/subscription-sing-box.json"
    ∷ "var/lib/sbctl/artifacts/subscription-clash.yaml"
    ∷ "var/lib/sbctl/artifacts/subscription-uri.txt" ∷ "etc/systemd/system/sing-box.service"
    ∷ "etc/systemd/system/sbctl.service" ∷ "etc/systemd/system/sbctl-http.socket"
    ∷ "etc/systemd/system/sbctl-accounting-reset.service"
    ∷ "etc/systemd/system/sbctl-accounting-reset.timer"
    ∷ "etc/letsencrypt/renewal-hooks/deploy/sbctl-certificate-deploy-hook" ∷ []

abbrev certificate_path : String → String → String
certificate_path host name =
    followed_by "var/lib/sbctl/certificates/" (followed_by host (followed_by "/" name))

abbrev pub certificate_paths : SubscriptionMode → String → List String
certificate_paths direct host =
    certificate_path host "fullchain.pem" ∷ certificate_path host "privkey.pem" ∷ []
certificate_paths _ host = []

unfoldable pub rollback_paths : DeploymentConfig → List String
unfolding managed_paths
rollback_paths config =
    managed_paths ++ certificate_paths config.subscription_mode config.subscription_host

abbrev pub sbctl_path : String
sbctl_path = "usr/local/bin/sbctl"

abbrev pub sing_box_path : String
sing_box_path = "usr/local/bin/sing-box"

abbrev pub server_config : String
server_config = "var/lib/sbctl/artifacts/sing-box-server.json"

-- The path of a rollback point, under `ROLLBACK_ROOT`.
abbrev pub generation_path : String → String
generation_path name = followed_by "var/backups/sbctl/rollback/" name

abbrev pub backup_path : String → String → String
backup_path point relative = followed_by point (followed_by "/" relative)

abbrev pub rollback_generations_kept : ℕ
rollback_generations_kept = 3

pub record BackupEntry (Bytes : Type 0) : Type 0 where
  pub relative : String
  pub contents : Option Bytes

-- What an update holds once it is prepared.
pub record Prepared (Bytes : Type 0) : Type 0 where
  pub config : DeploymentConfig
  pub point : String
  pub entries : List (BackupEntry Bytes)

abbrev pub take : ℕ → List String → List String
take zero names = []
take (suc n) [] = []
take (suc n) (name ∷ names) = name ∷ take n names

abbrev pub without : String → List String → List String
without name [] = []
without name (other ∷ names) =
    let rest = without name names in if str_eq other name then rest else other ∷ rest

-- The rollback points that the prune removes.
unfoldable pub stale_generations : List String → List String
stale_generations names = take (length names - rollback_generations_kept) (sort names)

abbrev pub is_listed : String → List String → Bool
is_listed name [] = false
is_listed name (other ∷ names) = str_eq other name || is_listed name names

abbrev pub is_inside : String → String → Bool
is_inside name path = starts_with (followed_by (generation_path name) "/") path

module _ {Bytes : Type 0} where
  -- `fs::create_dir_all` of a rollback point
  abbrev pub add_generation : String → Host Bytes → Host Bytes
  add_generation name w = record w {
    generations = if is_listed name w.generations then w.generations else name ∷ w.generations;
  }

  -- `fs::remove_dir_all` of a rollback point; one that fails is taken to leave it.
  abbrev pub remove_generation : String → Host Bytes → Host Bytes
  remove_generation name w = record w {
    generations = without name w.generations;
    files = λ path. if is_inside name path then none else w.files path;
  }

module _ (system : System) where
  open system use {Bytes, sha256, is_ip, is_zone, resolve}

  abbrev Step : Type 0 → Type 0
  Step = Io Bytes UpdateError

  abbrev pub save : String → Option Bytes → Step (Unit {0})
  save path none = give (ok tt)
  save path (some contents) = map_err stored (write_root_only_locked system path contents)

  abbrev pub backup_one : String → String → Step (BackupEntry Bytes)
  backup_one point path = do
    contents ← read system io path
    save (backup_path point path) contents
    give (ok (record { relative = path; contents = contents }))

  -- The loop of `backup`.
  unfoldable pub backup : String → List String → Step (List (BackupEntry Bytes))
  backup point [] = give (ok [])
  backup point (path ∷ paths) = do
    entry ← backup_one point path
    entries ← backup point paths
    give (ok (entry ∷ entries))

  abbrev pub set_executable : {E : Type 0} → E → String → Io Bytes E (Unit {0})
  set_executable e path = set_permissions system e path program_mode

  abbrev pub remove_found : String → Bool → Io Bytes StoreError (Unit {0})
  remove_found path false = give (ok tt)
  remove_found path true = remove_file system path

  abbrev pub put_back : String → Option Bytes → Io Bytes StoreError (Unit {0})
  put_back path (some contents) = do
    write_relative_locked system path contents
    if starts_with "usr/local/bin/" path then set_executable storage path else give (ok tt)
  put_back path none = do there ← exists system path; remove_found path there

  unfoldable pub restore : List (BackupEntry Bytes) → Io Bytes StoreError (Unit {0})
  restore [] = give (ok tt)
  restore (entry ∷ entries) = do put_back entry.relative entry.contents; restore entries

  abbrev pub write_managed_binary : String → Bytes → Step (Unit {0})
  write_managed_binary relative contents = do
    map_err stored (write_relative_locked system relative contents)
    set_executable io relative

  -- The loop of `prune_rollback_history`; a failure is only reported.
  unfoldable pub remove_all : List String → Host Bytes → Host Bytes
  remove_all [] w = w
  remove_all (name ∷ names) w = remove_all names (attempt system io (remove_generation name) w).1

  unfoldable pub prune_rollback_history : Host Bytes → Host Bytes
  prune_rollback_history w =
      let (listed, next) = attempt system io (λ h. h) w in
      if is_ok listed then remove_all (stale_generations w.generations) next else next

  unfoldable pub rollback_directory : String → Step String
  rollback_directory timestamp = do
    attempt system io (add_generation timestamp)
    attempt system operation (λ w. w)
    λ w. (ok (generation_path timestamp), prune_rollback_history w)

  -- The candidate is what `fs::read` gives of it.
  unfoldable pub read_verified_artifact : String → Option Bytes → String → Result UpdateError Bytes
  read_verified_artifact name none expected = err io
  read_verified_artifact name (some contents) expected =
      if eq_ignore_ascii_case (sha256 contents) expected
      then ok contents
      else err (digest_mismatch name)

  abbrev pub take_backup : String → DeploymentConfig → Step (Prepared Bytes)
  take_backup timestamp config = do
    point ← rollback_directory timestamp
    entries ← backup point (rollback_paths config)
    give (ok (record { config = config; point = point; entries = entries }))

  -- `check_sing_box_config`
  abbrev pub check_candidate : String → DeploymentConfig → Step (Prepared Bytes)
  check_candidate timestamp config = do
    attempt system sing_box_check (λ w. w)
    take_backup timestamp config

  abbrev pub with_config : String → DeploymentConfig → Step (Prepared Bytes)
  with_config timestamp config = do
    file ← map_err stored (read system storage server_config)
    map_err stored (present {Bytes = Bytes} storage file)
    check_candidate timestamp config

  -- What both updates do up to the first replacement: the check of the candidate by the
  -- configuration in force, and the backup.
  unfoldable pub prepare : String → Step (Prepared Bytes)
  prepare timestamp = do
    map_err stored (attempt system storage (λ w. w))
    config ← map_err stored (load system)
    with_config timestamp config

  -- After the second binary: a write that fails puts the backup back, and whether that works is
  -- only reported.
  abbrev pub keep_or_restore :
      List (BackupEntry Bytes) → Result UpdateError (Unit {0}) → Step (Unit {0})
  keep_or_restore entries (ok _) = give (ok tt)
  keep_or_restore entries (err e) = λ w. (err e, (restore entries w).1)

  abbrev pub write_second : List (BackupEntry Bytes) → Bytes → Step (Unit {0})
  write_second entries contents w =
      let (written, w') = write_managed_binary sing_box_path contents w in
      keep_or_restore entries written w'

  abbrev pub revalidate : DeploymentConfig → String → Step String
  revalidate config point = do
    give (rewrap (λ e. stored (invalid e)) (validate is_ip is_zone resolve config))
    give (ok point)

  -- `restart` is the call of src/lifecycle.rs that restarts the services.
  module _ (restart : Step (Unit {0})) where
    -- After a restart that fails: the backup is put back, and the second restart's failure is only
    -- reported.
    abbrev pub roll_back : List (BackupEntry Bytes) → Step String
    roll_back entries = do
      map_err rollback (restore entries)
      λ w. (err service_health, (restart w).1)

    abbrev pub settle :
        String → List (BackupEntry Bytes) → Result UpdateError (Unit {0}) → Step String
    settle point entries (ok _) = give (ok point)
    settle point entries (err _) = roll_back entries

    abbrev pub restart_or_roll_back : String → List (BackupEntry Bytes) → Step String
    restart_or_roll_back point entries w =
        let (restarted, w') = restart w in settle point entries restarted w'

    abbrev pub replace_one : Bytes → Prepared Bytes → Step String
    replace_one verified prepared = do
      write_managed_binary sing_box_path verified
      restart_or_roll_back prepared.point prepared.entries

    unfoldable pub install_candidate_sing_box : String → Bytes → Step String
    install_candidate_sing_box timestamp verified = do
      prepared ← prepare timestamp
      replace_one verified prepared

    abbrev pub replace_both : Bytes → Bytes → Prepared Bytes → Step String
    replace_both sbctl sing_box prepared = do
      write_managed_binary sbctl_path sbctl
      write_second prepared.entries sing_box
      point ← restart_or_roll_back prepared.point prepared.entries
      revalidate prepared.config point

    -- `check_sbctl_candidate`, and what follows it.
    abbrev pub replace_checked : String → Bytes → Bytes → Step String
    replace_checked timestamp sbctl sing_box = do
      attempt system sbctl_health (λ w. w)
      prepared ← prepare timestamp
      replace_both sbctl sing_box prepared

    module _ (verify_signature : ReleaseManifest → Result ReleaseError (Unit {0})) where
      unfoldable pub apply_sing_box : String → ReleaseManifest → Option Bytes → Step String
      apply_sing_box timestamp manifest candidate = do
        give (rewrap release (verify_trusted verify_signature manifest))
        verified ← give (read_verified_artifact "sing-box" candidate manifest.sing_box.sha256)
        install_candidate_sing_box timestamp verified

      unfoldable pub apply : String → ReleaseManifest → Option Bytes → Option Bytes → Step String
      apply timestamp manifest sbctl_candidate sing_box_candidate = do
        give (rewrap release (verify_trusted verify_signature manifest))
        sbctl ← give (read_verified_artifact "sbctl" sbctl_candidate manifest.sbctl.sha256)
        sing_box ←
            give (read_verified_artifact "sing-box" sing_box_candidate manifest.sing_box.sha256)
        replace_checked timestamp sbctl sing_box
