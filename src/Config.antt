-- ===== src/Config.antt =====
-- src/config.rs: the validation of a deployment's configuration. The parsers of IP addresses, time
-- zones and dates are parameters, as is the time zones' resolution of a local time.
pub mod Hosts
pub mod Validation
pub mod Ports
pub mod Links
use Prim.Native.Char.{code, len_utf8}
use singbox_sub_me.Prelude.{
  ℕ, ◌+◌, ◌≡◌, String, Bool, true, false, ◌&&◌, ◌||◌, not, Option, none, some, List, [], ◌∷◌, ◌++◌,
  leb, ltb, ◌==◌, str_eq, if◌then◌else◌, Result, ok, err, ◌>>=◌, ◌>>◌, reject_if,
}
use singbox_sub_me.Override.{is_whitespace}
use singbox_sub_me.Http.Texts.{split, strip_prefix}
use singbox_sub_me.Http.Handler.{SubscriptionMode, direct, external_proxy, ip_fallback}

pub data ManagedProtocol : Type 0 where
  vless_reality vmess_websocket hysteria2 tuic anytls : ManagedProtocol

pub data CertificateMode : Type 0 where
  domain_certificate self_signed : CertificateMode

pub data AccountingPolicy : Type 0 where
  natural_month anchored_month : AccountingPolicy

-- The fields that `validate` reads; of a node's credentials, its `listen_port`.
pub record DeploymentConfig : Type 0 where
  pub subscription_mode : SubscriptionMode
  pub subscription_host : String
  pub proxy_host : Option String
  pub http_port : Option ℕ
  pub subscription_listen_port : Option ℕ
  pub certificate_mode : CertificateMode
  pub interface : String
  pub enabled_protocols : List ManagedProtocol
  pub reality_decoy_sni : Option String
  pub protocol_sni : Option String
  pub subscription_credential : String
  pub accounting_policy : AccountingPolicy
  pub accounting_timezone : String
  pub client_display_timezone : String
  pub anchored_reset_at : Option String
  pub client_rule_set_base_url : String
  pub client_latency_probe_url : String
  pub vless_reality_port : Option ℕ
  pub vmess_websocket_port : Option ℕ
  pub hysteria2_port : Option ℕ
  pub tuic_port : Option ℕ
  pub anytls_port : Option ℕ

-- `ConfigError::InvalidValue`, with its message.
pub data ConfigError : Type 0 where
  invalid_value : String → ConfigError

-- `MIN_PROTOCOL_PORT` and `MAX_PROTOCOL_PORT`
abbrev pub min_protocol_port : ℕ
min_protocol_port = 10000

abbrev pub max_protocol_port : ℕ
max_protocol_port = 65535

-- `str::len`, in bytes
unfoldable pub len : String → ℕ
len String.[] = 0
len (String.◌∷◌ c s) = len_utf8 c + len s

-- Whether every character passes. The tests below pass ASCII only, and no byte of another
-- character would pass them.
unfoldable pub all_chars : (ℕ → Bool) → String → Bool
all_chars test String.[] = true
all_chars test (String.◌∷◌ c s) = test (code c) && all_chars test s

-- `is_ascii_alphanumeric`
abbrev pub is_alphanumeric : ℕ → Bool
is_alphanumeric c = (leb 48 c && leb c 57) || (leb 65 c && leb c 90) || (leb 97 c && leb c 122)

abbrev pub starts_with : String → String → Bool
starts_with prefix s = elim (strip_prefix prefix s) [ none ↦ false | some _ ↦ true ]

-- `ends_with` of one character
unfoldable pub ends_with_char : ℕ → String → Bool
ends_with_char k String.[] = false
ends_with_char k (String.◌∷◌ c String.[]) = code c == k
ends_with_char k (String.◌∷◌ c (String.◌∷◌ d s)) = ends_with_char k (String.◌∷◌ d s)

abbrev pub is_protocol : ManagedProtocol → ManagedProtocol → Bool
is_protocol vless_reality vless_reality = true
is_protocol vmess_websocket vmess_websocket = true
is_protocol hysteria2 hysteria2 = true
is_protocol tuic tuic = true
is_protocol anytls anytls = true
is_protocol _ _ = false

-- `contains` on protocols and on ports
abbrev pub enables : ManagedProtocol → List ManagedProtocol → Bool
enables p [] = false
enables p (q ∷ qs) = is_protocol q p || enables p qs

abbrev pub has_port : ℕ → List ℕ → Bool
has_port p [] = false
has_port p (q ∷ qs) = q == p || has_port p qs

abbrev pub is_set {ℓ} : {A : Type ℓ} → Option A → Bool
is_set none = false
is_set (some _) = true

abbrev pub listed {ℓ} : {A : Type ℓ} → Option A → List A
listed none = []
listed (some a) = a ∷ []

-- `protocol_listener_ports`, and the chain in `validate_protocols`
unfoldable pub protocol_listener_ports : DeploymentConfig → List ℕ
protocol_listener_ports c =
    listed c.vless_reality_port
    ++ (listed c.vmess_websocket_port
        ++ (listed c.hysteria2_port ++ (listed c.tuic_port ++ listed c.anytls_port)))
