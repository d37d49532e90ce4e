-- ===== src/Config/Validation.antt =====
-- src/config.rs: DeploymentConfig::validate, check by check, in the order of the source.
use singbox_sub_me.Prelude.{
  ℕ, String, Bool, true, false, ◌&&◌, ◌||◌, not, Option, none, some, List, [], ◌∷◌, ◌++◌, leb, ◌==◌,
  str_eq, Result, ok, err, ◌>>◌, reject_if,
}
use singbox_sub_me.Http.Handler.{SubscriptionMode, direct, external_proxy, ip_fallback}
use singbox_sub_me.Config.{
  ManagedProtocol, vless_reality, vmess_websocket, hysteria2, tuic, anytls, CertificateMode,
  domain_certificate, self_signed, AccountingPolicy, natural_month, anchored_month,
  DeploymentConfig, ConfigError, invalid_value, min_protocol_port, max_protocol_port, len,
  all_chars, is_alphanumeric, enables, has_port, is_set, protocol_listener_ports,
}
use singbox_sub_me.Config.Hosts.{validate_optional, validate_deployment_identity}

-- The loop over the listener ports; `seen` are those before.
unfoldable pub check_ports : List ℕ → List ℕ → Result ConfigError (Unit {0})
check_ports seen [] = ok tt
check_ports seen (port ∷ ports) = do
  reject_if (not (leb min_protocol_port port && leb port max_protocol_port))
      (invalid_value "Managed protocol ports must be in 10000-65535")
  reject_if (has_port port seen)
      (invalid_value "Managed protocol ports must be unique across TCP and UDP")
  check_ports (seen ++ port ∷ []) ports

-- The loop over the enabled protocols.
unfoldable pub check_duplicates :
    List ManagedProtocol → List ManagedProtocol → Result ConfigError (Unit {0})
check_duplicates seen [] = ok tt
check_duplicates seen (p ∷ ps) = do
  reject_if (enables p seen) (invalid_value "enabled protocols must not contain duplicates")
  check_duplicates (seen ++ p ∷ []) ps

unfoldable pub validate_enabled_credentials :
    List ManagedProtocol → ManagedProtocol → Bool → String → Result ConfigError (Unit {0})
validate_enabled_credentials enabled_protocols protocol has_credentials message =
    reject_if (enables protocol enabled_protocols && not has_credentials) (invalid_value message)

abbrev is_missing_or_empty : Option String → Bool
is_missing_or_empty none = true
is_missing_or_empty (some s) = str_eq s ""

abbrev is_empty_list : List ManagedProtocol → Bool
is_empty_list [] = true
is_empty_list (p ∷ ps) = false

unfoldable pub validate_protocols : DeploymentConfig → Result ConfigError (Unit {0})
validate_protocols c = do
  reject_if (is_empty_list c.enabled_protocols)
      (invalid_value "at least one Managed protocol must be enabled")
  check_ports [] (protocol_listener_ports c)
  check_duplicates [] c.enabled_protocols
  reject_if (enables vless_reality c.enabled_protocols && is_missing_or_empty c.reality_decoy_sni)
      (invalid_value "VLESS Reality requires a Reality decoy SNI")
  validate_enabled_credentials c.enabled_protocols vmess_websocket (is_set c.vmess_websocket_port)
      "VMess WebSocket requires generated node credentials"
  validate_enabled_credentials c.enabled_protocols hysteria2 (is_set c.hysteria2_port)
      "Hysteria2 requires generated node credentials"
  validate_enabled_credentials c.enabled_protocols tuic (is_set c.tuic_port)
      "TUIC requires generated node credentials"
  validate_enabled_credentials c.enabled_protocols anytls (is_set c.anytls_port)
      "AnyTLS requires generated node credentials"
  reject_if (enables vless_reality c.enabled_protocols && not (is_set c.vless_reality_port))
      (invalid_value "VLESS Reality requires generated node credentials")
  validate_optional "Reality decoy SNI" c.reality_decoy_sni
  validate_optional "protocol SNI" c.protocol_sni

-- 45 is the hyphen and 95 the underscore.
abbrev pub is_credential_char : ℕ → Bool
is_credential_char c = is_alphanumeric c || c == 45 || c == 95

abbrev pub is_credential : String → Bool
is_credential s = leb 43 (len s) && all_chars is_credential_char s

-- The resolution of a local time in a zone.
pub data LocalResult : Type 0 where
  single ambiguous missing : LocalResult

-- Where the protocols need a certificate.
abbrev pub needs_certificate : List ManagedProtocol → Bool
needs_certificate ps =
    enables vmess_websocket ps || enables hysteria2 ps || enables tuic ps || enables anytls ps

abbrev is_self_signed : CertificateMode → Bool
is_self_signed self_signed = true
is_self_signed domain_certificate = false

abbrev pub check_http_port : DeploymentConfig → Option ℕ → Result ConfigError (Unit {0})
check_http_port c none = err (invalid_value "IP fallback subscription requires an HTTP port")
check_http_port c (some port) = do
  reject_if (leb port 1024) (invalid_value "IP fallback HTTP port must be higher than 1024")
  reject_if (has_port port (protocol_listener_ports c))
      (invalid_value "IP fallback HTTP port must not conflict with a Managed protocol port")

abbrev pub check_listen_port : DeploymentConfig → Option ℕ → Result ConfigError (Unit {0})
check_listen_port c none =
    err (invalid_value "external reverse-proxy subscription requires a loopback listener port")
check_listen_port c (some port) = do
  reject_if (leb port 1024)
      (invalid_value "external reverse-proxy listener port must be higher than 1024")
  reject_if (has_port port (protocol_listener_ports c)) (
      invalid_value
        "external reverse-proxy listener port must not conflict with a Managed protocol port")

-- The parsers: of addresses, of zones (as whether there is one), and of a local date and time with
-- its resolution in a zone (none where the text is no date).
module _ (is_ip is_zone : String → Bool) (resolve : String → String → Option LocalResult) where
  abbrev pub validate_anchored_reset_local_time : Option LocalResult → Result ConfigError (Unit {0})
  validate_anchored_reset_local_time none =
      err (invalid_value "anchored reset time must use YYYY-MM-DDTHH:MM")
  validate_anchored_reset_local_time (some single) = ok tt
  validate_anchored_reset_local_time (some ambiguous) =
      err (invalid_value "anchored reset time is ambiguous in the accounting timezone")
  validate_anchored_reset_local_time (some missing) =
      err (invalid_value "anchored reset time does not exist in the accounting timezone")

  abbrev pub check_policy :
      String → AccountingPolicy → Option String → Result ConfigError (Unit {0})
  check_policy zone natural_month none = ok tt
  check_policy zone natural_month (some _) =
      err (invalid_value "Natural-month reset must not configure an anchored reset time")
  check_policy zone anchored_month none =
      err (invalid_value "Anchored-month reset requires an anchored reset date and time")
  check_policy zone anchored_month (some reset_at) =
      validate_anchored_reset_local_time (resolve zone reset_at)

  unfoldable pub validate_secret_and_accounting : DeploymentConfig → Result ConfigError (Unit {0})
  validate_secret_and_accounting c = do
    reject_if (not (is_credential c.subscription_credential))
        (invalid_value "subscription credential must be a URL-safe 256-bit secret")
    reject_if (not (is_zone c.accounting_timezone))
        (invalid_value "accounting timezone must be a named IANA timezone")
    reject_if (not (is_zone c.client_display_timezone))
        (invalid_value "client display timezone must be a named IANA timezone")
    check_policy c.accounting_timezone c.accounting_policy c.anchored_reset_at

  abbrev pub check_mode : DeploymentConfig → SubscriptionMode → Result ConfigError (Unit {0})
  check_mode c ip_fallback = do
    reject_if (is_set c.subscription_listen_port)
        (invalid_value "only external reverse-proxy subscription configures a listener port")
    reject_if (not (is_ip c.subscription_host))
        (invalid_value "IP fallback subscription requires an IP address as the subscription host")
    check_http_port c c.http_port
    reject_if (needs_certificate c.enabled_protocols && not (is_self_signed c.certificate_mode)) (
        invalid_value
          "VMess WebSocket, Hysteria2, TUIC, and AnyTLS in IP fallback mode require self-signed certificates")
  check_mode c direct = do
    reject_if (is_ip c.subscription_host)
        (invalid_value "domain subscription modes require a hostname")
    reject_if (is_set c.http_port)
        (invalid_value "only IP fallback subscription configures an HTTP port")
    reject_if (is_set c.subscription_listen_port)
        (invalid_value "only external reverse-proxy subscription configures a listener port")
  check_mode c external_proxy = do
    reject_if (is_ip c.subscription_host)
        (invalid_value "domain subscription modes require a hostname")
    reject_if (is_set c.http_port)
        (invalid_value "only IP fallback subscription configures an HTTP port")
    check_listen_port c c.subscription_listen_port

  unfoldable pub validate_subscription_mode : DeploymentConfig → Result ConfigError (Unit {0})
  validate_subscription_mode c = check_mode c c.subscription_mode

  unfoldable pub validate : DeploymentConfig → Result ConfigError (Unit {0})
  validate c = do
    validate_deployment_identity is_ip c
    validate_protocols c
    validate_secret_and_accounting c
    validate_subscription_mode c
