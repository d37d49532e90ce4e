-- ===== src/Config/Hosts.antt =====
-- src/config.rs: host names, the interface, and the URLs.
use singbox_sub_me.Prelude.{
  ℕ, String, Bool, true, ◌&&◌, ◌||◌, not, Option, none, some, List, [], ◌∷◌, leb, ◌==◌, str_eq,
  if◌then◌else◌, Result, ok, err, ◌>>◌, reject_if,
}
use singbox_sub_me.Override.{is_whitespace}
use singbox_sub_me.Http.Texts.{split}
use singbox_sub_me.Config.{
  DeploymentConfig, ConfigError, invalid_value, len, all_chars, is_alphanumeric, starts_with,
  ends_with_char,
}

abbrev is_label_char : ℕ → Bool
is_label_char c = is_alphanumeric c || c == 45

-- One label of a host name; 45 is the hyphen.
abbrev pub is_label : String → Bool
is_label s =
    not (str_eq s "")
    && leb (len s) 63
    && not (starts_with "-" s)
    && not (ends_with_char 45 s)
    && all_chars is_label_char s

abbrev pub are_labels : List String → Bool
are_labels [] = true
are_labels (s ∷ ss) = is_label s && are_labels ss

unfoldable pub is_hostname : String → Bool
is_hostname value = not (str_eq value "") && leb (len value) 253 && are_labels (split 46 value)

abbrev pub host_message : String → String
host_message label =
    if str_eq label "subscription host"
    then "subscription host must be a valid hostname or IP address"
    else if str_eq label "proxy host"
    then "proxy host must be a valid hostname or IP address"
    else if str_eq label "protocol SNI"
    then "protocol SNI must be a valid hostname"
    else "Reality decoy SNI must be a valid hostname"

unfoldable pub validate_hostname : String → String → Result ConfigError (Unit {0})
validate_hostname label value =
    if is_hostname value then ok tt else err (invalid_value (host_message label))

abbrev pub validate_optional : String → Option String → Result ConfigError (Unit {0})
validate_optional label none = ok tt
validate_optional label (some value) = validate_hostname label value

-- 95 is the underscore, 45 the hyphen and 46 the full stop.
abbrev is_interface_char : ℕ → Bool
is_interface_char c = is_alphanumeric c || c == 95 || c == 45 || c == 46

abbrev pub is_interface : String → Bool
is_interface s =
    not (str_eq s "") && leb (len s) 15 && not (starts_with "." s) && all_chars is_interface_char s

abbrev is_visible : ℕ → Bool
is_visible c = not (is_whitespace c)

abbrev pub is_http_url : String → Bool
is_http_url url =
    not (str_eq url "")
    && all_chars is_visible url
    && (starts_with "http://" url || starts_with "https://" url)

-- `value.parse::<IpAddr>().is_ok()` is `is_ip`.
module _ (is_ip : String → Bool) where
  unfoldable pub validate_host : String → String → Result ConfigError (Unit {0})
  validate_host label value = if is_ip value then ok tt else validate_hostname label value

  abbrev validate_proxy_host : Option String → Result ConfigError (Unit {0})
  validate_proxy_host none = ok tt
  validate_proxy_host (some value) = validate_host "proxy host" value

  unfoldable pub validate_deployment_identity : DeploymentConfig → Result ConfigError (Unit {0})
  validate_deployment_identity c = do
    validate_host "subscription host" c.subscription_host
    validate_proxy_host c.proxy_host
    reject_if (not (is_interface c.interface))
        (invalid_value "interface must be a Linux interface name")
    reject_if (not (is_http_url c.client_rule_set_base_url)) (
        invalid_value "client_rule_set_base_url must be an absolute http(s) URL without whitespace")
    reject_if (not (is_http_url c.client_latency_probe_url)) (
        invalid_value "client_latency_probe_url must be an absolute http(s) URL without whitespace")
