-- ===== src/Tests/Replacing.antt =====
-- Instances of the theorems on src/subscription/artifacts.rs.
use singbox_sub_me.Prelude.{
  ℕ, ◌≡◌, ◌==◌, not, refl, String, Bool, true, false, Option, none, some, List, [], ◌∷◌, ◌⊎◌,
  str_eq, if◌then◌else◌, Result, ok, err,
}
use singbox_sub_me.Http.Texts.{split, strip_prefix}
use singbox_sub_me.Config.{
  DeploymentConfig, len, all_chars, ends_with_char, protocol_listener_ports,
}
use singbox_sub_me.Config.Hosts.{
  is_hostname, validate_hostname, validate_host, validate_deployment_identity,
}
use singbox_sub_me.Config.Validation.{
  check_ports, check_duplicates, validate_enabled_credentials, validate_protocols,
  validate_secret_and_accounting, validate_subscription_mode, validate,
}
use singbox_sub_me.Disk.{
  System, Host, File, is_ok, account_of, atomic_write, set_owner, set_permissions, is_unsafe,
  safe_managed_path, enforce_live_file_owner, write_relative_locked, read,
}
use singbox_sub_me.Disk.Frames.{view}
use singbox_sub_me.Disk.Deployment.{
  artifact_path, component_count, is_file_name, write_artifact_locked, replace_locked,
}
use singbox_sub_me.Artifacts.{
  SubscriptionError, Artifacts, DeploymentSnapshot, active_path, server_artifact, is_stale,
  read_artifacts, rewrite_all, restore_replaced, write_all, check_sing_box_config,
  remove_stale_artifacts, artifacts_changed, apply_config_transaction, regenerate, put_back_all,
  restore_config_transaction,
}
use singbox_sub_me.Artifacts.Mixing.{IsMixed, transaction_mixes}
use singbox_sub_me.Artifacts.Restoring.{Restored, IsRestored, restoration_mixes}
use singbox_sub_me.Artifacts.Generation.{
  VersionProfile, latest, Overrides, Templates, edit_all, apply_client_overrides, Renderers,
  full_name, select_from, select_full_profile, resolve_full_profile, version_artifacts,
  generated_artifacts_for_kernel,
}
use singbox_sub_me.Artifacts.Agreement.{merged}
use singbox_sub_me.Json.{Json, object, field, end, text, bool, get, upsert, as_str}
use singbox_sub_me.Merge.{deep_merge}
use singbox_sub_me.Override.{inside}
use singbox_sub_me.Http.Format.{print_version}
use singbox_sub_me.Artifacts.Kernels.{found, kernel_never_fails}
use singbox_sub_me.Artifacts.Regenerating.{IsRegenerated, regeneration_mixes}
use singbox_sub_me.Tests.Deployment.{always, deployment}
use singbox_sub_me.Tests.Updating.{calm}

-- Calls work but the one of that number.
abbrev but : ℕ → System
but n = record calm { works = λ m. not (m == n) }

abbrev old_file : String → Option (File String)
old_file path = some (record { contents = "old"; mode = 0o600 })

abbrev before : Host String
before = record { files = old_file; generations = []; calls = 0 }

abbrev names : Host String → Option (List String)
names w = some ("subscription-clash.yaml" ∷ "subscription-sing-box-1.10.json" ∷ "notes.txt" ∷ [])

abbrev encode : DeploymentConfig → Option String
encode config = some "new config"

abbrev accepting : Option (String → Bool)
accepting = some always

abbrev new_artifacts : Artifacts String
new_artifacts =
    ("sing-box-server.json", "new server") ∷ ("subscription-clash.yaml", "new clash") ∷ []

abbrev generate :
    Option (String → Bool) → DeploymentConfig → Result SubscriptionError (Artifacts String)
generate kernel config = ok new_artifacts

transaction_mixes_example :
    IsMixed calm names encode generate str_eq "" accepting deployment before
      (apply_config_transaction calm names encode generate str_eq "" deployment accepting before).1
      active_path
transaction_mixes_example =
    transaction_mixes calm names encode generate str_eq "" deployment accepting before active_path

regeneration_mixes_example :
    IsRegenerated calm names encode generate accepting deployment true before
      (regenerate calm names encode generate deployment accepting true before).1
      active_path
regeneration_mixes_example =
    regeneration_mixes calm names encode generate deployment accepting true before active_path

abbrev taken : DeploymentSnapshot String
taken = record {
  config = "old";
  artifacts = ("sing-box-server.json", some "old") ∷ ("subscription-clash.yaml", none) ∷ [];
  active_config = some "old";
}

restoration_mixes_example :
    let (result, after) = restore_config_transaction calm taken before in
    ((q : String) → (view after q ≡ view before q) ⊎ Restored taken q (view after q))
    × (is_ok result ≡ true → IsRestored calm taken after)
restoration_mixes_example = restoration_mixes calm taken before

-- The files after a transaction: the server's artifact, the old client's, the configuration in force, and
-- the deployment's.
abbrev Seen : Type 0
Seen = Option String × Option String × Option String × Option String

abbrev seen_on : Host String → Seen
seen_on w = (
  view w "var/lib/sbctl/artifacts/sing-box-server.json",
  view w "var/lib/sbctl/artifacts/subscription-sing-box-1.10.json",
  view w active_path,
  view w "etc/sbctl/config.toml",
)

abbrev restored : Result SubscriptionError (DeploymentSnapshot String) → Host String → Host String
restored (ok snapshot) w = (restore_config_transaction calm snapshot w).1
restored (err e) w = w

seen : ℕ → Bool × Seen
unfolding apply_config_transaction artifact_path read_artifacts read server_artifact
    artifacts_changed check_sing_box_config write_all write_artifact_locked is_file_name
    component_count atomic_write enforce_live_file_owner account_of set_owner set_permissions
    write_relative_locked safe_managed_path is_unsafe replace_locked restore_replaced rewrite_all
    remove_stale_artifacts is_stale validate validate_protocols validate_secret_and_accounting
    validate_subscription_mode validate_enabled_credentials validate_deployment_identity
    validate_host validate_hostname is_hostname check_ports check_duplicates protocol_listener_ports
    ends_with_char len all_chars split strip_prefix
seen n =
    let (r, w) =
      apply_config_transaction (but n) names encode generate str_eq "" deployment accepting
        before in
    (is_ok r, seen_on w)

-- The deployment after a transaction that works, and a restoration of what it took.
seen_restored : Seen
unfolding apply_config_transaction artifact_path read_artifacts read server_artifact
    artifacts_changed check_sing_box_config write_all write_artifact_locked is_file_name
    component_count atomic_write enforce_live_file_owner account_of set_owner set_permissions
    write_relative_locked safe_managed_path is_unsafe replace_locked restore_replaced rewrite_all
    remove_stale_artifacts is_stale validate validate_protocols validate_secret_and_accounting
    validate_subscription_mode validate_enabled_credentials validate_deployment_identity
    validate_host validate_hostname is_hostname check_ports check_duplicates protocol_listener_ports
    ends_with_char len all_chars split strip_prefix put_back_all restore_config_transaction
seen_restored =
    let (r, w) =
      apply_config_transaction calm names encode generate str_eq "" deployment accepting before in
    seen_on (restored r w)

-- A superseded artifact that the transaction removed is not put back.
superseded_lost : seen_restored ≡ (some "old", none, some "old", some "old")
unfolding seen_restored
superseded_lost = refl

-- The owner of the new configuration cannot be set: all else is put back, and the configuration is not.
config_stays_after_failure :
    seen 17 ≡ (false, (some "old", some "old", some "old", some "new config"))
unfolding seen
config_stays_after_failure = refl

-- Renderers whose full profile names the version, and a kernel that refuses the newest.
abbrev renderers : DeploymentConfig → Renderers String
renderers config = record {
  server = ok "server";
  sing_box = ok "bare";
  clash = ok "clash";
  uri = ok "uri";
  base64_uri = λ b. b;
  shadowrocket = ok "rocket";
  sing_box_full = λ p. ok (if p.version.minor == 14 then "newest" else "older");
  clash_legacy = ok "legacy";
}

abbrev refuses_newest : String → Bool
refuses_newest rendered = not (str_eq rendered "newest")

-- A text is read as the body of a document, and printed again.
abbrev body : Json → Option String
body (object fs) = inside as_str (get "body" fs)
body _ = none

abbrev overrides : Overrides String
overrides = record { sing_box = some (object (field "mine" (bool true) end)); clash = none }

abbrev templates : Templates String
templates = record {
  load = ok overrides;
  parse_json = λ b. some (object (field "body" (text b) end));
  print_json = body;
}

override_merges :
    (p : VersionProfile) (contents : String)
    → (renderers deployment).sing_box_full p ≡ ok contents
    → is_ok (merged templates overrides.sing_box contents) ≡ true
unfolding deep_merge get upsert
override_merges p contents rendered = refl

plain_works : is_ok (generated_artifacts_for_kernel templates renderers none deployment) ≡ true
unfolding generated_artifacts_for_kernel version_artifacts resolve_full_profile
    apply_client_overrides edit_all strip_prefix print_version deep_merge get upsert
plain_works = refl

kernel_never_fails_example :
    let plain = generated_artifacts_for_kernel templates renderers none deployment in
    let chosen =
      generated_artifacts_for_kernel templates renderers (some refuses_newest) deployment in
    (is_ok chosen ≡ true)
    × ((name : String) → str_eq full_name name ≡ false → found name plain ≡ found name chosen)
    × ((contents : String)
        → found full_name chosen ≡ some contents
        → (rendered : String) × (merged templates overrides.sing_box rendered ≡ ok contents)
          × ((refuses_newest rendered ≡ true)
              ⊎ ((renderers deployment).sing_box_full latest ≡ ok rendered)))
kernel_never_fails_example =
    kernel_never_fails templates renderers refuses_newest deployment overrides refl override_merges
      plain_works

-- The profile for the version below the newest is chosen.
older_chosen :
    found full_name
      (generated_artifacts_for_kernel templates renderers (some refuses_newest) deployment)
    ≡ some "older"
unfolding generated_artifacts_for_kernel version_artifacts resolve_full_profile select_full_profile
    select_from apply_client_overrides edit_all strip_prefix print_version deep_merge get upsert
older_chosen = refl
