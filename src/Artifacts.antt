-- ===== src/Artifacts.antt =====
-- src/subscription/artifacts.rs: the transactions that replace the artifacts, the configuration of the
-- server and that of the deployment together, over the writers of Disk. `generate` is
-- `generated_artifacts_for_kernel`, a kernel is the configurations that `sing-box check` accepts, and
-- `listed` is `fs::read_dir` of the directory of artifacts.
pub mod Within
pub mod Mixing
pub mod PuttingBack
pub mod Restoring
pub mod Generation
pub mod Agreement
pub mod Kernels
pub mod Regenerating
use singbox_sub_me.Prelude.{
  ℕ, suc, ◌≡◌, String, Bool, true, false, ◌&&◌, ◌||◌, not, Option, none, some, List, [], ◌∷◌, ◌++◌,
  str_eq, if◌then◌else◌, Result, ok, err,
}
use singbox_sub_me.Config.{DeploymentConfig, starts_with}
use singbox_sub_me.Config.Validation.{validate}
use singbox_sub_me.Disk.{
  StoreError, storage, invalid, Host, System, Io, continue, ◌>>=◌, ◌>>◌, give, rewrap, map_err, put,
  attempt, read, write_relative_locked, config_path,
}
use singbox_sub_me.Disk.Deployment.{artifact_path, write_artifact_locked, replace_locked}

pub data SubscriptionError : Type 0 where
  missing_nodes artifact check override_rejected : SubscriptionError
  stored : StoreError → SubscriptionError

abbrev pub server_name : String
server_name = "sing-box-server.json"

abbrev pub active_path : String
active_path = "etc/sing-box/config.json"

abbrev pub Artifacts : Type 0 → Type 0
Artifacts Bytes = List (String × Bytes)

abbrev pub Priors : Type 0 → Type 0
Priors Bytes = List (String × Option Bytes)

pub record DeploymentSnapshot (Bytes : Type 0) : Type 0 where
  pub config : Bytes
  pub artifacts : Priors Bytes
  pub active_config : Option Bytes

module _ {A : Type 0} where
  -- `iter().find(|(name, _)| name == …)`
  abbrev pub find : String → List (String × A) → Option A
  find name [] = none
  find name ((other, a) ∷ rest) =
      let found = find name rest in if str_eq other name then some a else found

  -- `iter().rev()`
  abbrev pub reversed : List A → List A
  reversed [] = []
  reversed (x ∷ xs) = reversed xs ++ x ∷ []

abbrev present_or : {A : Type 0} → SubscriptionError → Option A → Result SubscriptionError A
present_or e none = err e
present_or e (some a) = ok a

abbrev pub is_some : {A : Type 0} → Option A → Bool
is_some none = false
is_some (some a) = true

unfoldable pub server_artifact : {Bytes : Type 0} → Artifacts Bytes → Result SubscriptionError Bytes
server_artifact artifacts = present_or check (find server_name artifacts)

-- What the prune removes: a name of the generator's that it has not generated.
unfoldable pub is_stale : {Bytes : Type 0} → Artifacts Bytes → String → Bool
is_stale current name =
    (starts_with "subscription-" name || str_eq name server_name)
    && not (is_some (find name current))

module _ (system : System) where
  open system use {Bytes, is_ip, is_zone, resolve}

  abbrev Step : Type 0 → Type 0
  Step = Io Bytes SubscriptionError

  -- `.ok()`
  abbrev known : Result StoreError (Option Bytes) → Option Bytes
  known (ok contents) = contents
  known (err e) = none

  -- `fs::read(…).ok()`
  abbrev pub read_known : String → Host Bytes → Option Bytes × Host Bytes
  read_known path w = let (contents, w') = read system storage path w in (known contents, w')

  -- The artifacts before a transaction.
  unfoldable pub read_artifacts : Artifacts Bytes → Host Bytes → Priors Bytes × Host Bytes
  read_artifacts [] w = ([], w)
  read_artifacts ((name, _) ∷ artifacts) w =
      let (prior, w') = read_known (artifact_path name) w in
      let (priors, last) = read_artifacts artifacts w' in ((name, prior) ∷ priors, last)

  abbrev rewrite : String → Option Bytes → Host Bytes → Host Bytes
  rewrite name none w = w
  rewrite name (some contents) w = (write_artifact_locked system name contents w).1

  -- The loop of `restore_replaced`, on the reversed list.
  unfoldable pub rewrite_all : Priors Bytes → Host Bytes → Host Bytes
  rewrite_all [] w = w
  rewrite_all ((name, prior) ∷ priors) w = rewrite_all priors (rewrite name prior w)

  abbrev pub rewrite_active : Option Bytes → Host Bytes → Host Bytes
  rewrite_active none w = w
  rewrite_active (some contents) w = (write_relative_locked system active_path contents w).1

  unfoldable pub restore_replaced : Priors Bytes → Option Bytes → Host Bytes → Host Bytes
  unfolding rewrite_all
  restore_replaced priors active w = rewrite_active active (rewrite_all (reversed priors) w)

  abbrev keep_or_restore :
      Priors Bytes → Option Bytes → Result StoreError (Unit {0}) → Step (Unit {0})
  keep_or_restore priors active (ok u) = give (ok tt)
  keep_or_restore priors active (err e) = λ w. (err (stored e), restore_replaced priors active w)

  -- A write that puts back what was there if it fails.
  abbrev pub write_or_restore :
      Priors Bytes → Option Bytes → Io Bytes StoreError (Unit {0}) → Step (Unit {0})
  write_or_restore priors active write w =
      let (written, w') = write w in keep_or_restore priors active written w'

  -- The loop that replaces the artifacts.
  unfoldable pub write_all : Artifacts Bytes → Io Bytes StoreError (Unit {0})
  write_all [] = give (ok tt)
  write_all ((name, contents) ∷ artifacts) = do
    write_artifact_locked system name contents
    write_all artifacts

  -- `check_sing_box_config`: the temporary file and the process may fail too.
  unfoldable pub check_sing_box_config : (Bytes → Bool) → Bytes → Step (Unit {0})
  check_sing_box_config accepts config = do
    attempt system artifact (λ w. w)
    give (if accepts config then ok tt else err check)

  abbrev pub remove_if : Bool → String → Step (Unit {0})
  remove_if false name = give (ok tt)
  remove_if true name = attempt system artifact (put (artifact_path name) none)

  abbrev remove_named : List String → Artifacts Bytes → Io Bytes SubscriptionError (Unit {0})
  remove_named [] current = give (ok tt)
  remove_named (name ∷ names) current = do
    remove_if (is_stale current name) name
    remove_named names current

  module _ (listed : Host Bytes → Option (List String)) where
    abbrev remove_listed : Option (List String) → Artifacts Bytes → Step (Unit {0})
    remove_listed none current = give (ok tt)
    remove_listed (some names) current = remove_named names current

    -- A failure is only reported by the callers.
    unfoldable pub remove_stale_artifacts : Artifacts Bytes → Host Bytes → Host Bytes
    unfolding is_stale
    remove_stale_artifacts current w = (remove_listed (listed w) current w).1

    -- The transactions' parameters: the printer of TOML, and the generator.
    module _ (encode : DeploymentConfig → Option Bytes)
        (generate : Option (Bytes → Bool)
          → DeploymentConfig
          → Result SubscriptionError (Artifacts Bytes)) where
      abbrev check_with : Option (Bytes → Bool) → Artifacts Bytes → Step (Unit {0})
      check_with none artifacts = give (ok tt)
      check_with (some accepts) artifacts = do
        server ← give (server_artifact artifacts)
        check_sing_box_config accepts server

      abbrev sync_active : Bool → Priors Bytes → Option Bytes → Artifacts Bytes → Step (Unit {0})
      sync_active false priors active artifacts = give (ok tt)
      sync_active true priors active artifacts = do
        server ← give (server_artifact artifacts)
        write_or_restore priors active (write_relative_locked system active_path server)

      abbrev read_active : Bool → Host Bytes → Option Bytes × Host Bytes
      read_active false w = (none, w)
      read_active true w = read_known active_path w

      abbrev pruned : Artifacts Bytes → Step (Unit {0})
      pruned artifacts w = (ok tt, remove_stale_artifacts artifacts w)

      abbrev pub replace_artifacts :
          Bool → Artifacts Bytes → Priors Bytes → Option Bytes → Step (Unit {0})
      replace_artifacts update_active artifacts priors active = do
        write_or_restore priors active (write_all artifacts)
        sync_active update_active priors active artifacts
        pruned artifacts

      abbrev pub replace_read : Bool → Artifacts Bytes → Step (Unit {0})
      replace_read update_active artifacts w =
          let (priors, w1) = read_artifacts artifacts w in
          let (active, w2) = read_active update_active w1 in
          replace_artifacts update_active artifacts priors active w2

      abbrev pub replace_checked : Bool → Option (Bytes → Bool) → Artifacts Bytes → Step (Unit {0})
      replace_checked update_active kernel artifacts = do
        check_with kernel artifacts
        map_err stored (attempt system storage (λ w. w))
        replace_read update_active artifacts

      unfoldable pub regenerate : DeploymentConfig → Option (Bytes → Bool) → Bool → Step (Unit {0})
      unfolding write_all read_artifacts remove_stale_artifacts restore_replaced server_artifact
          check_sing_box_config
      regenerate config kernel update_active = do
        artifacts ← give (generate kernel config)
        replace_checked update_active kernel artifacts

      module _ (same : Bytes → Bytes → Bool) where
        abbrev pub equals : Option Bytes → Bytes → Bool
        equals none contents = false
        equals (some prior) contents = same prior contents

        abbrev differs : Option Bytes → Option Bytes → Bool
        differs none prior = true
        differs (some contents) prior = not (equals prior contents)

        -- `prior_artifacts.iter().any(…)`
        unfoldable pub artifacts_changed : Artifacts Bytes → Priors Bytes → Bool
        artifacts_changed artifacts [] = false
        artifacts_changed artifacts ((name, prior) ∷ priors) =
            differs (find name artifacts) prior || artifacts_changed artifacts priors

        abbrev pub need_active_sync : Bool → Bytes → Option Bytes → Bool
        need_active_sync changed server active =
            is_some active && (changed || not (equals active server))

        abbrev sync_server : Bool → Priors Bytes → Option Bytes → Bytes → Step (Unit {0})
        sync_server false priors active server = give (ok tt)
        sync_server true priors active server =
            write_or_restore priors active (write_relative_locked system active_path server)

        -- What follows the reads when something changed.
        abbrev pub commit_artifacts :
            Option (Bytes → Bool)
            → Bool
            → Artifacts Bytes
            → Bytes
            → Priors Bytes
            → Option Bytes
            → Step (Unit {0})
        commit_artifacts none sync artifacts server priors active = give (err check)
        commit_artifacts (some accepts) sync artifacts server priors active = do
          check_sing_box_config accepts server
          write_or_restore priors active (write_all artifacts)
          sync_server sync priors active server

        abbrev commit_if :
            Bool
            → Option (Bytes → Bool)
            → Bool
            → Artifacts Bytes
            → Bytes
            → Priors Bytes
            → Option Bytes
            → Step (Unit {0})
        commit_if false kernel sync artifacts server priors active = give (ok tt)
        commit_if true kernel sync artifacts server priors active =
            commit_artifacts kernel sync artifacts server priors active

        abbrev or_default : Bytes → Option Bytes → Bytes
        or_default default none = default
        or_default default (some contents) = contents

        module _ (empty : Bytes) where
          abbrev pub snapshot :
              Priors Bytes
              → Option Bytes
              → Option Bytes
              → Artifacts Bytes
              → Step (DeploymentSnapshot Bytes)
          snapshot priors active prior_config artifacts w = (
            ok (record {
              config = or_default empty prior_config;
              artifacts = priors;
              active_config = active;
            }),
            remove_stale_artifacts artifacts w,
          )

          abbrev pub transact :
              DeploymentConfig
              → Option (Bytes → Bool)
              → Artifacts Bytes
              → Bytes
              → Priors Bytes
              → Option Bytes
              → Option Bytes
              → Step (DeploymentSnapshot Bytes)
          transact config kernel artifacts server priors active prior_config =
              let changed = artifacts_changed artifacts priors in
              let sync = need_active_sync changed server active in
              commit_if (changed || sync) kernel sync artifacts server priors active
              >> write_or_restore priors active (replace_locked system encode config)
              >> snapshot priors active prior_config artifacts

          abbrev pub transact_read :
              DeploymentConfig
              → Option (Bytes → Bool)
              → Artifacts Bytes
              → Bytes
              → Step (DeploymentSnapshot Bytes)
          transact_read config kernel artifacts server w =
              let (priors, w1) = read_artifacts artifacts w in
              let (active, w2) = read_known active_path w1 in
              let (prior_config, w3) = read_known (config_path system) w2 in
              transact config kernel artifacts server priors active prior_config w3

          abbrev pub transact_locked :
              DeploymentConfig
              → Option (Bytes → Bool)
              → Artifacts Bytes
              → Bytes
              → Step (DeploymentSnapshot Bytes)
          transact_locked config kernel artifacts server = do
            map_err stored (attempt system storage (λ w. w))
            transact_read config kernel artifacts server

          unfoldable pub apply_config_transaction :
              DeploymentConfig → Option (Bytes → Bool) → Step (DeploymentSnapshot Bytes)
          unfolding artifacts_changed write_all read_artifacts remove_stale_artifacts
              restore_replaced server_artifact check_sing_box_config
          apply_config_transaction config kernel = do
            give (rewrap (λ e. stored (invalid e)) (validate is_ip is_zone resolve config))
            artifacts ← give (generate kernel config)
            server ← give (server_artifact artifacts)
            transact_locked config kernel artifacts server

  abbrev put_back : String → Option Bytes → Io Bytes StoreError (Unit {0})
  put_back name (some contents) = write_artifact_locked system name contents
  put_back name none = λ w. (ok tt, (attempt system storage (put (artifact_path name) none) w).1)

  unfoldable pub put_back_all : Priors Bytes → Io Bytes StoreError (Unit {0})
  put_back_all [] = give (ok tt)
  put_back_all ((name, prior) ∷ priors) = do put_back name prior; put_back_all priors

  abbrev put_back_active : Option Bytes → Io Bytes StoreError (Unit {0})
  put_back_active none = give (ok tt)
  put_back_active (some contents) = write_relative_locked system active_path contents

  unfoldable pub restore_config_transaction :
      DeploymentSnapshot Bytes → Io Bytes StoreError (Unit {0})
  unfolding put_back_all
  restore_config_transaction snapshot = do
    attempt system storage (λ w. w)
    put_back_all (reversed snapshot.artifacts)
    put_back_active snapshot.active_config
    write_relative_locked system (config_path system) snapshot.config
