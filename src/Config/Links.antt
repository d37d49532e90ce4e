-- ===== src/Config/Links.antt =====
-- What a configuration that passes validation is good for.
use singbox_sub_me.Prelude.{ℕ, ◌≡◌, refl, String, Bool, true, false, Option, some, ok, arith}
use singbox_sub_me.Http.Texts.{contains_char}
use singbox_sub_me.Http.Format.{SubscriptionRoute, parse_route, route_path}
use singbox_sub_me.Http.Format.Paths.{is_routed, parse_route-route_path}
use singbox_sub_me.Config.{
  ManagedProtocol, vless_reality, vmess_websocket, hysteria2, tuic, anytls, DeploymentConfig,
  all_chars, enables, is_set,
}
use singbox_sub_me.Config.Validation.{
  LocalResult, is_credential_char, validate_enabled_credentials, validate_protocols,
  validate_secret_and_accounting, validate,
}
use singbox_sub_me.Config.Ports.{validate-parts}

credential-contains_char :
    (k : ℕ) (s : String)
    → is_credential_char k ≡ false
    → all_chars is_credential_char s ≡ true
    → contains_char k s ≡ false
unfolding all_chars contains_char
credential-contains_char k String.[] h e = refl
credential-contains_char k (String.◌∷◌ c s) h e = ground (arith, credential-contains_char k s)

secret-is_credential :
    (is_ip is_zone : String → Bool) (resolve : String → String → Option LocalResult)
    (c : DeploymentConfig)
    → validate_secret_and_accounting is_ip is_zone resolve c ≡ ok tt
    → all_chars is_credential_char c.subscription_credential ≡ true
unfolding validate_secret_and_accounting
secret-is_credential is_ip is_zone resolve c e = ground arith

-- In a deployment that passes validation, the path of every link that the server prints is parsed
-- back to its credential and its route.
pub validate-parse_route :
    (is_ip is_zone : String → Bool) (resolve : String → String → Option LocalResult)
    (c : DeploymentConfig) (route : SubscriptionRoute)
    → validate is_ip is_zone resolve c ≡ ok tt
    → is_routed route ≡ true
    → parse_route (route_path c.subscription_credential route)
      ≡ some (c.subscription_credential, route)
validate-parse_route is_ip is_zone resolve c route e routed =
    let (_, secret, _) = validate-parts is_ip is_zone resolve c e in
    let clean = secret-is_credential is_ip is_zone resolve c secret in
    parse_route-route_path c.subscription_credential route
      (credential-contains_char 47 c.subscription_credential refl clean)
      (credential-contains_char 63 c.subscription_credential refl clean) routed

-- The port of a protocol's listener.
abbrev pub port_of : DeploymentConfig → ManagedProtocol → Option ℕ
port_of c vless_reality = c.vless_reality_port
port_of c vmess_websocket = c.vmess_websocket_port
port_of c hysteria2 = c.hysteria2_port
port_of c tuic = c.tuic_port
port_of c anytls = c.anytls_port

protocols-port_of :
    (c : DeploymentConfig) (p : ManagedProtocol)
    → validate_protocols c ≡ ok tt
    → enables p c.enabled_protocols ≡ true
    → is_set (port_of c p) ≡ true
unfolding validate_protocols validate_enabled_credentials
protocols-port_of c vless_reality e h = ground arith
protocols-port_of c vmess_websocket e h = ground arith
protocols-port_of c hysteria2 e h = ground arith
protocols-port_of c tuic e h = ground arith
protocols-port_of c anytls e h = ground arith

-- In a configuration that passes, every enabled protocol has its credentials, and so its listener.
validate-port_of :
    (is_ip is_zone : String → Bool) (resolve : String → String → Option LocalResult)
    (c : DeploymentConfig) (p : ManagedProtocol)
    → validate is_ip is_zone resolve c ≡ ok tt
    → enables p c.enabled_protocols ≡ true
    → is_set (port_of c p) ≡ true
validate-port_of is_ip is_zone resolve c p e h =
    protocols-port_of c p (validate-parts is_ip is_zone resolve c e).0 h
