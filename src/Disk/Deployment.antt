-- ===== src/Disk/Deployment.antt =====
-- src/config.rs DeploymentStore: the writers of artifacts and of the configuration, and what they leave.
use singbox_sub_me.Prelude.{
  ℕ, suc, ◌+◌, String, Bool, true, false, ◌&&◌, ◌||◌, not, Option, none, some, List, [], ◌∷◌, ◌==◌,
  str_eq, if◌then◌else◌, ok, err, Bool-cases, inl, inr,
}
use singbox_sub_me.Http.Texts.{followed_by, split}
use singbox_sub_me.Config.{DeploymentConfig, invalid_value, starts_with}
use singbox_sub_me.Config.Validation.{validate}
use singbox_sub_me.Disk.{
  StoreError, missing, config_content, invalid, Host, System, Io, ◌>>=◌, ◌>>◌, give, rewrap,
  atomic_write, enforce_live_file_owner, config_path, exists, is_present,
}
use singbox_sub_me.Disk.Frames.{
  Wrote, Wrote-continue, unwritten, continue_post, atomic_write-Wrote, enforce-view,
}

abbrev one_if : Bool → ℕ
one_if true = 1
one_if false = 0

-- The components but a root and a first dot: neither empty nor a dot.
abbrev named : List String → ℕ
named [] = 0
named (piece ∷ pieces) = one_if (not (str_eq piece "" || str_eq piece ".")) + named pieces

abbrev leading_dot : List String → ℕ
leading_dot [] = 0
leading_dot (piece ∷ pieces) = one_if (str_eq piece ".")

-- `Path::new(name).components().count()`
unfoldable pub component_count : String → ℕ
component_count name =
    let pieces = split b'/' name in
    one_if (starts_with "/" name) + leading_dot pieces + named pieces

unfoldable pub is_file_name : String → Bool
unfolding component_count
is_file_name name = not (str_eq name "") && component_count name == 1

unfoldable pub artifact_path : String → String
artifact_path name = followed_by "var/lib/sbctl/artifacts/" name

abbrev bad_name : StoreError
bad_name = invalid (invalid_value "artifact name must be a single file name")

module _ (system : System) where
  open system use {Bytes, looks, is_ip, is_zone, resolve}

  -- `write_artifact_unlocked`
  unfoldable pub write_artifact_locked : String → Bytes → Io Bytes StoreError (Unit {0})
  unfolding is_file_name
  write_artifact_locked name contents = do
    give (if is_file_name name then ok tt else err bad_name)
    atomic_write system (artifact_path name) contents
    enforce_live_file_owner system (artifact_path name)

  abbrev write_config : Bytes → Io Bytes StoreError (Unit {0})
  write_config contents = do
    atomic_write system (config_path system) contents
    enforce_live_file_owner system (config_path system)

  abbrev overwrite_config : Option Bytes → Bool → Io Bytes StoreError (Unit {0})
  overwrite_config encoded false = give (err missing)
  overwrite_config none true = give (err config_content)
  overwrite_config (some contents) true = write_config contents

  -- `encode` is `toml::to_string_pretty`.
  unfoldable pub replace_locked :
      (DeploymentConfig → Option Bytes) → DeploymentConfig → Io Bytes StoreError (Unit {0})
  replace_locked encode config = do
    give (rewrap invalid (validate is_ip is_zone resolve config))
    there ← exists system (config_path system)
    overwrite_config (encode config) there

  pub write_artifact-Wrote :
      (name : String) (contents : Bytes) (w : Host Bytes)
      → Wrote
          (artifact_path name)
          (some contents)
          w
          (write_artifact_locked name contents w).0
          (write_artifact_locked name contents w).1
  unfolding write_artifact_locked
  write_artifact-Wrote name contents w = elim (Bool-cases (is_file_name name)) [
    | inl e ↦ rw e (
        Wrote-continue (atomic_write system (artifact_path name) contents w)
          (enforce_live_file_owner system (artifact_path name))
          (atomic_write-Wrote system (artifact_path name) contents w)
          (enforce-view system (artifact_path name)))
    | inr e ↦ rw e (unwritten (artifact_path name) (some contents) w bad_name)
  ]

  write_config-Wrote :
      (contents : Bytes) (w : Host Bytes)
      → Wrote
          (config_path system)
          (some contents)
          w
          (write_config contents w).0
          (write_config contents w).1
  write_config-Wrote contents w =
      Wrote-continue (atomic_write system (config_path system) contents w)
        (enforce_live_file_owner system (config_path system))
        (atomic_write-Wrote system (config_path system) contents w)
        (enforce-view system (config_path system))

  overwrite_config-Wrote :
      (encoded : Option Bytes) (there : Bool) (w : Host Bytes)
      → Wrote
          (config_path system)
          encoded
          w
          (overwrite_config encoded there w).0
          (overwrite_config encoded there w).1
  overwrite_config-Wrote encoded false w = unwritten (config_path system) encoded w missing
  overwrite_config-Wrote none true w = unwritten (config_path system) none w config_content
  overwrite_config-Wrote (some contents) true w = write_config-Wrote contents w

  pub replace-Wrote :
      (encode : DeploymentConfig → Option Bytes) (config : DeploymentConfig) (w : Host Bytes)
      → Wrote
          (config_path system)
          (encode config)
          w
          (replace_locked encode config w).0
          (replace_locked encode config w).1
  unfolding replace_locked
  replace-Wrote encode config w =
      continue_post (Wrote (config_path system) (encode config) w)
        (rewrap invalid (validate is_ip is_zone resolve config), w)
        (λ _. exists system (config_path system) >>= overwrite_config (encode config))
        (λ u valid.
          let wrote =
            overwrite_config-Wrote (encode config)
              (looks w.calls && is_present (w.files (config_path system)))
              (record w { calls = suc w.calls }) in
          record { others = wrote.others; either = wrote.either; done = wrote.done })
        (λ e failed. unwritten (config_path system) (encode config) w e)
