-- ===== src/Tests/Deployment.antt =====
-- Instances of the theorems on the validation in src/config.rs.
use singbox_sub_me.Prelude.{
  ◌≡◌, refl, String, Bool, true, false, Option, none, some, [], ◌∷◌, All, ok,
}
use singbox_sub_me.Http.Texts.{split, strip_prefix}
use singbox_sub_me.Http.Format.{format, clash, parse_route, route_path}
use singbox_sub_me.Http.Handler.{external_proxy}
use singbox_sub_me.Config.{
  vless_reality, tuic, domain_certificate, natural_month, DeploymentConfig, len, all_chars,
  ends_with_char, protocol_listener_ports,
}
use singbox_sub_me.Config.Hosts.{
  is_hostname, validate_hostname, validate_host, validate_deployment_identity,
}
use singbox_sub_me.Config.Validation.{
  LocalResult, single, check_ports, check_duplicates, validate_enabled_credentials,
  validate_protocols, validate_secret_and_accounting, validate_subscription_mode, validate,
}
use singbox_sub_me.Config.Ports.{IsProtocolPort, AreDistinct, IsFree, validate-ports}
use singbox_sub_me.Config.Links.{validate-parse_route}

abbrev pub never : String → Bool
never s = false

abbrev pub always : String → Bool
always s = true

abbrev pub resolved : String → String → Option LocalResult
resolved zone reset_at = some single

abbrev secret : String
secret = "abcdefghijklmnopqrstuvwxyz0123456789-_ABCDEFG"

abbrev pub deployment : DeploymentConfig
deployment = record {
  subscription_mode = external_proxy;
  subscription_host = "sub.example.com";
  proxy_host = none;
  http_port = none;
  subscription_listen_port = some 8443;
  certificate_mode = domain_certificate;
  interface = "eth0";
  enabled_protocols = vless_reality ∷ tuic ∷ [];
  reality_decoy_sni = some "www.example.com";
  protocol_sni = none;
  subscription_credential = secret;
  accounting_policy = natural_month;
  accounting_timezone = "UTC";
  client_display_timezone = "UTC";
  anchored_reset_at = none;
  client_rule_set_base_url = "https://rules.example.com";
  client_latency_probe_url = "https://probe.example.com";
  vless_reality_port = some 20001;
  vmess_websocket_port = none;
  hysteria2_port = none;
  tuic_port = some 20002;
  anytls_port = none;
}

deployment_passes : validate never always resolved deployment ≡ ok tt
unfolding validate validate_protocols validate_secret_and_accounting validate_subscription_mode
    validate_enabled_credentials validate_deployment_identity validate_host validate_hostname
    is_hostname check_ports check_duplicates protocol_listener_ports len all_chars ends_with_char
    split strip_prefix
deployment_passes = refl

validate-ports_example :
    All IsProtocolPort (protocol_listener_ports deployment)
    × AreDistinct (protocol_listener_ports deployment)
    × IsFree (protocol_listener_ports deployment) (some 8443)
validate-ports_example = validate-ports never always resolved deployment deployment_passes

validate-parse_route_example :
    parse_route (route_path secret (format clash)) ≡ some (secret, format clash)
validate-parse_route_example =
    validate-parse_route never always resolved deployment (format clash) deployment_passes refl
