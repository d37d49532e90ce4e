-- ===== src/Artifacts/Generation.antt =====
-- src/subscription/artifacts.rs: the choice of the full profile, the set of artifacts, and the
-- administrator's overrides in them. The renderers are parameters; of a node only the protocol is kept.
use singbox_sub_me.Prelude.{
  String, Bool, true, false, ◌&&◌, ◌||◌, str_eq, not, Option, none, some, List, [], ◌∷◌, ◌++◌,
  if◌then◌else◌, Result, ok, err, reject_if, ◌>>=◌, ◌>>◌,
}
use singbox_sub_me.Http.Texts.{followed_by}
use singbox_sub_me.Http.Format.{ClientVersion, version, print_version, clash_legacy_version}
use singbox_sub_me.Config.{DeploymentConfig, ManagedProtocol, anytls, starts_with}
use singbox_sub_me.Json.{Json}
use singbox_sub_me.Merge.{deep_merge}
use singbox_sub_me.Artifacts.{
  SubscriptionError, missing_nodes, override_rejected, Artifacts, reversed, server_name,
}

-- What the choice reads of `SingBoxVersionProfile`.
pub record VersionProfile : Type 0 where
  pub version : ClientVersion
  pub supports_anytls : Bool

abbrev profile : ClientVersion → Bool → VersionProfile
profile version supports_anytls = record { version = version; supports_anytls = supports_anytls }

-- `latest_version_profile`
abbrev pub latest : VersionProfile
latest = profile (version 14) true

-- `SING_BOX_VERSION_PROFILES`
abbrev pub version_profiles : List VersionProfile
version_profiles =
    profile (version 10) false
    ∷ profile (version 11) false
    ∷ profile (version 12) true
    ∷ profile (version 13) true
    ∷ latest
    ∷ []

abbrev is_anytls : ManagedProtocol → Bool
is_anytls anytls = true
is_anytls _ = false

abbrev all_anytls : List ManagedProtocol → Bool
all_anytls [] = true
all_anytls (node ∷ nodes) = is_anytls node && all_anytls nodes

abbrev pub is_empty : List ManagedProtocol → Bool
is_empty [] = true
is_empty (node ∷ nodes) = false

abbrev version_name : ClientVersion → String
version_name v = followed_by "subscription-sing-box-" (followed_by (print_version v) ".json")

abbrev pub full_name : String
full_name = "subscription-sing-box-full.json"

abbrev pub legacy_name : String
legacy_name =
    followed_by "subscription-clash-" (followed_by (print_version clash_legacy_version) ".yaml")

-- The renderers of one deployment.
pub record Renderers (Bytes : Type 0) : Type 0 where
  pub server : Result SubscriptionError Bytes
  pub sing_box : Result SubscriptionError Bytes
  pub clash : Result SubscriptionError Bytes
  pub uri : Result SubscriptionError Bytes
  pub base64_uri : Bytes → Bytes
  pub shadowrocket : Result SubscriptionError Bytes
  pub sing_box_full : VersionProfile → Result SubscriptionError Bytes
  pub clash_legacy : Result SubscriptionError Bytes

-- The administrator's override templates. The merge of the YAML twin is a function of the artifact.
pub record Overrides (Bytes : Type 0) : Type 0 where
  pub sing_box : Option Json
  pub clash : Option (Bytes → Result SubscriptionError Bytes)

-- `Overrides::load`, and the texts of JSON.
pub record Templates (Bytes : Type 0) : Type 0 where
  pub load : Result SubscriptionError (Overrides Bytes)
  pub parse_json : Bytes → Option Json
  pub print_json : Json → Option Bytes

abbrev pub is_client_sing_box : String → Bool
is_client_sing_box name =
    starts_with "subscription-sing-box" name && not (str_eq name "subscription-sing-box.json")

abbrev pub is_client_clash : String → Bool
is_client_clash name = str_eq name "subscription-clash.yaml" || str_eq name legacy_name

abbrev or_rejected : {A : Type 0} → Option A → Result SubscriptionError A
or_rejected none = err override_rejected
or_rejected (some a) = ok a

module _ {Bytes : Type 0} where
  abbrev accepted_or :
      (VersionProfile → Bytes → Bool)
      → VersionProfile
      → VersionProfile
      → Result SubscriptionError Bytes
      → VersionProfile
  accepted_or accepts candidate rest (err e) = rest
  accepted_or accepts candidate rest (ok rendered) =
      if accepts candidate rendered then candidate else rest

  -- The loop of `select_full_profile`, on the reversed table.
  unfoldable pub select_from :
      Renderers Bytes
      → List ManagedProtocol
      → (VersionProfile → Bytes → Bool)
      → List VersionProfile
      → VersionProfile
  select_from render nodes accepts [] = latest
  select_from render nodes accepts (candidate ∷ candidates) =
      let rest = select_from render nodes accepts candidates in
      if not candidate.supports_anytls && not (is_empty nodes) && all_anytls nodes
      then rest
      else accepted_or accepts candidate rest (render.sing_box_full candidate)

  unfoldable pub select_full_profile :
      Renderers Bytes → List ManagedProtocol → (VersionProfile → Bytes → Bool) → VersionProfile
  unfolding select_from
  select_full_profile render nodes accepts =
      select_from render nodes accepts (reversed version_profiles)

  unfoldable pub resolve_full_profile :
      Renderers Bytes → List ManagedProtocol → Option (Bytes → Bool) → VersionProfile
  unfolding select_full_profile
  resolve_full_profile render nodes none = latest
  resolve_full_profile render nodes (some accepts) =
      select_full_profile render nodes (λ _ rendered. accepts rendered)

  -- The loop over the table.
  unfoldable pub version_artifacts :
      Renderers Bytes
      → List ManagedProtocol
      → List VersionProfile
      → Result SubscriptionError (Artifacts Bytes)
  version_artifacts render nodes [] = ok []
  version_artifacts render nodes (p ∷ ps) =
      let rest = version_artifacts render nodes ps in
      if not p.supports_anytls && all_anytls nodes then rest else (do
        contents ← render.sing_box_full p
        others ← rest
        ok ((version_name p.version, contents) ∷ others))

  abbrev pub generated_with :
      Renderers Bytes
      → List ManagedProtocol
      → VersionProfile
      → Result SubscriptionError (Artifacts Bytes)
  generated_with render nodes chosen = do
    reject_if (is_empty nodes) missing_nodes
    uri ← render.uri
    server ← render.server
    sing_box ← render.sing_box
    clash ← render.clash
    shadowrocket ← render.shadowrocket
    full ← render.sing_box_full chosen
    versions ← version_artifacts render nodes version_profiles
    legacy ← render.clash_legacy
    ok (
        (server_name, server)
        ∷ ("subscription-sing-box.json", sing_box)
        ∷ ("subscription-clash.yaml", clash)
        ∷ ("subscription-uri.txt", uri)
        ∷ ("subscription-base64-uri.txt", render.base64_uri uri)
        ∷ ("subscription-shadowrocket.txt", shadowrocket)
        ∷ (full_name, full)
        ∷ (versions ++ (legacy_name, legacy) ∷ []))

  -- A loop of `apply_client_overrides` over the artifacts that it edits.
  unfoldable pub edit_all :
      (String → Bool)
      → (Bytes → Result SubscriptionError Bytes)
      → Artifacts Bytes
      → Result SubscriptionError (Artifacts Bytes)
  edit_all is_edited edit [] = ok []
  edit_all is_edited edit ((name, contents) ∷ artifacts) = do
    edited ← (if is_edited name then edit contents else ok contents)
    others ← edit_all is_edited edit artifacts
    ok ((name, edited) ∷ others)

  -- `from_str`, `deep_merge` and `to_string_pretty`
  abbrev pub merge_override : Templates Bytes → Json → Bytes → Result SubscriptionError Bytes
  merge_override templates override contents = do
    value ← or_rejected (templates.parse_json contents)
    or_rejected (templates.print_json (deep_merge value override))

  abbrev pub edit_sing_box :
      Templates Bytes → Option Json → Artifacts Bytes → Result SubscriptionError (Artifacts Bytes)
  edit_sing_box templates none artifacts = ok artifacts
  edit_sing_box templates (some override) artifacts =
      edit_all is_client_sing_box (merge_override templates override) artifacts

  abbrev pub edit_clash :
      Option (Bytes → Result SubscriptionError Bytes)
      → Artifacts Bytes
      → Result SubscriptionError (Artifacts Bytes)
  edit_clash none artifacts = ok artifacts
  edit_clash (some merge) artifacts = edit_all is_client_clash merge artifacts

  abbrev pub edit_both :
      Templates Bytes
      → Overrides Bytes
      → Artifacts Bytes
      → Result SubscriptionError (Artifacts Bytes)
  edit_both templates overrides artifacts = do
    edited ← edit_sing_box templates overrides.sing_box artifacts
    edit_clash overrides.clash edited

  unfoldable pub apply_client_overrides :
      Templates Bytes → Artifacts Bytes → Result SubscriptionError (Artifacts Bytes)
  unfolding edit_all
  apply_client_overrides templates artifacts = do
    overrides ← templates.load
    edit_both templates overrides artifacts

  -- Each protocol has generated artifacts, so that `ensure_subscription_nodes` refuses only an empty list.
  unfoldable pub generated_artifacts_for_kernel :
      Templates Bytes
      → (DeploymentConfig → Renderers Bytes)
      → Option (Bytes → Bool)
      → DeploymentConfig
      → Result SubscriptionError (Artifacts Bytes)
  unfolding resolve_full_profile version_artifacts apply_client_overrides
  generated_artifacts_for_kernel templates renderers kernel config =
      let render = renderers config in
      let nodes = config.enabled_protocols in
      (do
        artifacts ← generated_with render nodes (resolve_full_profile render nodes kernel)
        apply_client_overrides templates artifacts)
