-- ===== src/Tests/Updating.antt =====
-- Instances of the theorems on src/update.rs.
use singbox_sub_me.Prelude.{
  ℕ, ◌≡◌, ◌==◌, not, refl, String, true, false, Option, some, [], ◌∷◌, ◌⊎◌, inl, Result, ok, err,
  sort,
}
use singbox_sub_me.Http.Texts.{split, strip_prefix}
use singbox_sub_me.Config.{len, all_chars, ends_with_char, protocol_listener_ports}
use singbox_sub_me.Config.Hosts.{
  is_hostname, validate_hostname, validate_host, validate_deployment_identity,
}
use singbox_sub_me.Config.Validation.{
  check_ports, check_duplicates, validate_enabled_credentials, validate_protocols,
  validate_secret_and_accounting, validate_subscription_mode, validate,
}
use singbox_sub_me.Release.{
  parse_u64, parse_slots, parse_version, parse_ranges, check_compatibility_matrix,
  validate_manifest_fields, verify_trusted,
}
use singbox_sub_me.Release.Texts.{eq_ignore_ascii_case}
use singbox_sub_me.Disk.{
  storage, System, Host, File, Io, is_unsafe, account_of, set_permissions, atomic_write, set_owner,
  enforce_live_file_owner, safe_managed_path, write_relative_locked, write_root_only_locked, read,
  remove_file, load,
}
use singbox_sub_me.Disk.Frames.{view}
use singbox_sub_me.Update.{
  UpdateError, io, stored, service_health, managed_paths, sbctl_path, sing_box_path, rollback_paths,
  stale_generations, backup, restore, remove_all, prune_rollback_history, rollback_directory,
  read_verified_artifact, prepare, apply,
}
use singbox_sub_me.Update.Safety.{
  IsPinned, IsInstalled, apply_mixes, apply_rolls_back, apply_installs,
}
use singbox_sub_me.Tests.Deployment.{never, always, resolved, deployment}
use singbox_sub_me.Tests.Manifest.{digest, manifest, accept}

-- A host where every call works, and contents are texts.
abbrev pub calm : System
calm = record {
  Bytes = String;
  works = λ n. true;
  looks = λ n. true;
  live = true;
  user_exists = always;
  sha256 = λ b. digest;
  parse_config = λ b. some deployment;
  is_ip = never;
  is_zone = always;
  resolve = resolved;
}

abbrev old_file : String → Option (File String)
old_file path = some (record { contents = "old"; mode = 0o600 })

abbrev before : Host String
before = record { files = old_file; generations = "1" ∷ "2" ∷ "3" ∷ []; calls = 0 }

-- A restart that finds the services unhealthy.
abbrev unhealthy : Io String UpdateError (Unit {0})
unhealthy w = (err service_health, w)

-- A host where one call fails, by its number.
abbrev stops_at : ℕ → System
stops_at n = record {
  Bytes = String;
  works = λ m. not (m == n);
  looks = λ n. true;
  live = false;
  user_exists = always;
  sha256 = λ b. digest;
  parse_config = λ b. some deployment;
  is_ip = never;
  is_zone = always;
  resolve = resolved;
}

-- The result of an update, and the two binaries after it.
seen :
    ℕ → Io String UpdateError (Unit {0}) → Result UpdateError String × Option String × Option String
unfolding apply read_verified_artifact eq_ignore_ascii_case verify_trusted validate_manifest_fields
    check_compatibility_matrix parse_ranges parse_version parse_slots parse_u64 split strip_prefix
    len all_chars prepare load read validate validate_protocols validate_secret_and_accounting
    validate_subscription_mode validate_enabled_credentials validate_deployment_identity
    validate_host validate_hostname is_hostname check_ports check_duplicates protocol_listener_ports
    ends_with_char rollback_directory prune_rollback_history remove_all stale_generations sort
    backup rollback_paths managed_paths write_root_only_locked safe_managed_path atomic_write
    set_owner set_permissions is_unsafe write_relative_locked enforce_live_file_owner account_of
    restore remove_file
seen n restart =
    let (r, last) =
      apply (stops_at n) restart accept "4" manifest (some "new sbctl") (some "new sing-box")
        before in
    (r, view last sbctl_path, view last sing_box_path)

update_fails :
    (apply calm unhealthy accept "4" manifest (some "new sbctl") (some "new sing-box") before).0
    ≡ err service_health
unfolding seen
update_fails = refl

apply_rolls_back_example :
    view
      (apply calm unhealthy accept "4" manifest (some "new sbctl") (some "new sing-box") before).1
      "usr/local/bin/sbctl"
    ≡ view before "usr/local/bin/sbctl"
unfolding strip_prefix
apply_rolls_back_example =
    apply_rolls_back calm unhealthy (λ h q unit. refl) accept "4" manifest before (some "new sbctl")
      (some "new sing-box") update_fails (inl refl, inl refl) "usr/local/bin/sbctl" refl refl

abbrev healthy : Io String UpdateError (Unit {0})
healthy w = (ok tt, w)

update_works :
    (apply calm healthy accept "4" manifest (some "new sbctl") (some "new sing-box") before).0
    ≡ ok "var/backups/sbctl/rollback/4"
unfolding seen
update_works = refl

apply_mixes_example :
    let last =
      (apply calm unhealthy accept "4" manifest
        (some "new sbctl")
        (some "new sing-box")
        before).1 in
    (view last "usr/local/bin/sbctl" ≡ view before "usr/local/bin/sbctl")
    ⊎ (("usr/local/bin/sbctl" ≡ sbctl_path)
        × IsPinned calm unhealthy
            (λ h q unit. refl)
            accept
            "4"
            manifest
            before
            (some "new sbctl")
            manifest.sbctl
        × (view last "usr/local/bin/sbctl" ≡ some "new sbctl"))
    ⊎ (("usr/local/bin/sbctl" ≡ sing_box_path)
        × IsPinned calm unhealthy
            (λ h q unit. refl)
            accept
            "4"
            manifest
            before
            (some "new sing-box")
            manifest.sing_box
        × (view last "usr/local/bin/sbctl" ≡ some "new sing-box"))
unfolding strip_prefix
apply_mixes_example =
    apply_mixes calm unhealthy (λ h q unit. refl) accept "4" manifest before (some "new sbctl")
      (some "new sing-box") "usr/local/bin/sbctl" refl refl

-- The mode of the new sbctl cannot be set: it stays in place, beside the old sing-box.
sbctl_stays_after_failure : seen 40 healthy ≡ (err io, some "new sbctl", some "old")
unfolding seen
sbctl_stays_after_failure = refl

-- The write of sing-box fails: the old sbctl is put back.
sbctl_goes_after_failure : seen 41 healthy ≡ (err (stored storage), some "old", some "old")
unfolding seen
sbctl_goes_after_failure = refl

apply_installs_example :
    IsInstalled calm healthy
      (λ h q unit. refl)
      accept
      "4"
      manifest
      before
      (some "new sbctl")
      (some "new sing-box")
      (apply calm healthy accept "4" manifest (some "new sbctl") (some "new sing-box") before).1
apply_installs_example =
    apply_installs calm healthy (λ h q unit. refl) accept "4" manifest before (some "new sbctl")
      (some "new sing-box") update_works
