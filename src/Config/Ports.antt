-- ===== src/Config/Ports.antt =====
-- The ports of a configuration that passes validation.
use singbox_sub_me.Prelude.{
  ℕ, ◌≤◌, ◌<◌, ◌≡◌, refl, String, Bool, true, false, ◌||◌, Option, none, some, List, [], ◌∷◌, ◌++◌,
  ok, ◌>>◌, >>-eq-ok, All, arith,
}
use singbox_sub_me.Http.Handler.{SubscriptionMode, direct, external_proxy, ip_fallback}
use singbox_sub_me.Config.{
  DeploymentConfig, min_protocol_port, max_protocol_port, has_port, protocol_listener_ports,
}
use singbox_sub_me.Config.Hosts.{validate_deployment_identity}
use singbox_sub_me.Config.Validation.{
  LocalResult, check_ports, check_http_port, check_listen_port, validate_protocols,
  validate_secret_and_accounting, check_mode, validate_subscription_mode, validate,
}

abbrev pub IsProtocolPort : ℕ → Type 0
IsProtocolPort port = (min_protocol_port ≤ port) × (port ≤ max_protocol_port)

abbrev pub AreDistinct : List ℕ → Type 0
AreDistinct [] = Unit
AreDistinct (port ∷ ports) = (has_port port ports ≡ false) × AreDistinct ports

has_port-append :
    (p : ℕ) (xs ys : List ℕ) → has_port p (xs ++ ys) ≡ (has_port p xs || has_port p ys)
has_port-append p [] ys = refl
has_port-append p (x ∷ xs) ys = ground (arith, has_port-append p xs ys)

check_ports_step :
    (seen : List ℕ) (port : ℕ) (ports : List ℕ)
    → check_ports seen (port ∷ ports) ≡ ok tt
    → IsProtocolPort port
      × (has_port port seen ≡ false)
      × (check_ports (seen ++ port ∷ []) ports ≡ ok tt)
unfolding check_ports
check_ports_step seen port ports e = (ground arith, ground arith, ground arith)

-- A port that is checked is not among those before it.
check_ports-fresh :
    (p : ℕ) (seen ports : List ℕ)
    → check_ports seen ports ≡ ok tt
    → has_port p seen ≡ true
    → has_port p ports ≡ false
check_ports-fresh p seen [] e h = refl
check_ports-fresh p seen (port ∷ ports) e h =
    let (_, apart, rest) = check_ports_step seen port ports e in
    let later =
      check_ports-fresh p (seen ++ port ∷ []) ports rest
        (ground (arith, has_port-append p seen (port ∷ []))) in
    ground arith

has_port-last : (seen : List ℕ) (port : ℕ) → has_port port (seen ++ port ∷ []) ≡ true
has_port-last seen port = ground (arith, has_port-append port seen (port ∷ []))

check_ports_sound :
    (seen ports : List ℕ)
    → check_ports seen ports ≡ ok tt
    → All IsProtocolPort ports × AreDistinct ports
check_ports_sound seen [] e = (tt, tt)
check_ports_sound seen (port ∷ ports) e =
    let (range, _, rest) = check_ports_step seen port ports e in
    let (ranges, distinct) = check_ports_sound (seen ++ port ∷ []) ports rest in
    (
      (range, ranges),
      (check_ports-fresh port (seen ++ port ∷ []) ports rest (has_port-last seen port), distinct),
    )

-- The four parts of a validation that passes.
module _ (is_ip is_zone : String → Bool) (resolve : String → String → Option LocalResult) where
  pub validate-parts :
      (c : DeploymentConfig)
      → validate is_ip is_zone resolve c ≡ ok tt
      → (validate_protocols c ≡ ok tt)
        × (validate_secret_and_accounting is_ip is_zone resolve c ≡ ok tt)
        × (check_mode is_ip is_zone resolve c c.subscription_mode ≡ ok tt)
  unfolding validate validate_subscription_mode
  validate-parts c e =
      let mode = check_mode is_ip is_zone resolve c c.subscription_mode in
      let secret = validate_secret_and_accounting is_ip is_zone resolve c in
      let (_, e₁) =
        >>-eq-ok (validate_deployment_identity is_ip c) (validate_protocols c >> (secret >> mode))
          e in
      let (protocols, e₂) = >>-eq-ok (validate_protocols c) (secret >> mode) e₁ in
      let (accounting, e₃) = >>-eq-ok secret mode e₂ in (protocols, accounting, e₃)

-- The port that the subscription is served on, beside the protocols'.
abbrev pub served_port : DeploymentConfig → SubscriptionMode → Option ℕ
served_port c ip_fallback = c.http_port
served_port c external_proxy = c.subscription_listen_port
served_port c direct = none

abbrev pub IsFree : List ℕ → Option ℕ → Type 0
IsFree ports none = Unit
IsFree ports (some port) = (1024 < port) × (has_port port ports ≡ false)

protocols-check_ports :
    (c : DeploymentConfig)
    → validate_protocols c ≡ ok tt
    → check_ports [] (protocol_listener_ports c) ≡ ok tt
unfolding validate_protocols
protocols-check_ports c e = ground arith

check_http_port-IsFree :
    (c : DeploymentConfig) (o : Option ℕ)
    → check_http_port c o ≡ ok tt
    → IsFree (protocol_listener_ports c) o
check_http_port-IsFree c none e = tt
check_http_port-IsFree c (some port) e = (ground arith, ground arith)

check_listen_port-IsFree :
    (c : DeploymentConfig) (o : Option ℕ)
    → check_listen_port c o ≡ ok tt
    → IsFree (protocol_listener_ports c) o
check_listen_port-IsFree c none e = tt
check_listen_port-IsFree c (some port) e = (ground arith, ground arith)

mode-IsFree :
    (is_ip is_zone : String → Bool) (resolve : String → String → Option LocalResult)
    (c : DeploymentConfig) (mode : SubscriptionMode)
    → check_mode is_ip is_zone resolve c mode ≡ ok tt
    → IsFree (protocol_listener_ports c) (served_port c mode)
mode-IsFree is_ip is_zone resolve c ip_fallback e =
    check_http_port-IsFree c c.http_port (ground arith)
mode-IsFree is_ip is_zone resolve c external_proxy e =
    check_listen_port-IsFree c c.subscription_listen_port (ground arith)
mode-IsFree is_ip is_zone resolve c direct e = tt

-- In a configuration that passes, the listener ports of the protocols are in range and pairwise
-- distinct, and the port that the subscription is served on, in the modes that have one, is above
-- 1024 and none of them.
pub validate-ports :
    (is_ip is_zone : String → Bool) (resolve : String → String → Option LocalResult)
    (c : DeploymentConfig)
    → validate is_ip is_zone resolve c ≡ ok tt
    → All IsProtocolPort (protocol_listener_ports c)
      × AreDistinct (protocol_listener_ports c)
      × IsFree (protocol_listener_ports c) (served_port c c.subscription_mode)
validate-ports is_ip is_zone resolve c e =
    let (protocols, _, mode) = validate-parts is_ip is_zone resolve c e in
    let (ranges, distinct) =
      check_ports_sound [] (protocol_listener_ports c) (protocols-check_ports c protocols) in
    (ranges, distinct, mode-IsFree is_ip is_zone resolve c c.subscription_mode mode)
