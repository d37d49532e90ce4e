-- ===== src/Http/Handler.antt =====
-- src/subscription/serve.rs, subscription_http_response: one request to the subscription listener.
-- What the pages and files hold is the server's; a body is its text.
pub mod Answers
use singbox_sub_me.Prelude.{
  ℕ, ltb, ◌≡◌, String, Bool, true, false, not, Option, none, some, List, [], ◌∷◌, if◌then◌else◌,
  Result, ok, err,
}
use singbox_sub_me.Traffic.Store.{TrafficReport}
use singbox_sub_me.Budget.{IpAddr, Instant, Buckets, try_acquire, retry_after_seconds}
use singbox_sub_me.Http.Format.{
  SubscriptionFormat, SubscriptionRoute, format, qr, index, parse_route,
}
use singbox_sub_me.Http.Secret.{codes, constant_time_eq}

pub data SubscriptionMode : Type 0 where
  direct external_proxy ip_fallback : SubscriptionMode

pub data Method : Type 0 where
  get_method : Method
  other_method : String → Method

pub record Request : Type 0 where
  pub method : Method
  pub has_query : Bool
  pub path : String

-- The keys of the `subscription-userinfo` header; `total` is left out without a limit.
pub record Userinfo : Type 0 where
  pub upload : ℕ
  pub download : ℕ
  pub total : Option ℕ
  pub expire : ℕ
  pub profile_update_interval : ℕ

pub data Response : Type 0 where
  too_many_requests : (retry_after : ℕ) → Response
  method_not_allowed not_found unavailable : Response
  index_page qr_image : (body : String) → Response
  artifact : SubscriptionFormat → (body : String) → Option Userinfo → Response

-- What the handler reads of the deployment: each read may fail.
pub record Server : Type 0 where
  pub subscription_mode : SubscriptionMode
  pub subscription_credential : String
  pub has_nodes : Bool
  pub read_artifact : SubscriptionFormat → Option String
  pub render_index : Option String
  pub render_qr : SubscriptionFormat → Option String
  pub report : Option TrafficReport

abbrev pub is_get : Method → Bool
is_get get_method = true
is_get (other_method _) = false

abbrev pub is_external_proxy : SubscriptionMode → Bool
is_external_proxy external_proxy = true
is_external_proxy _ = false

-- Whether the credential is the deployment's.
abbrev pub is_authorized : Server → String → Bool
is_authorized server credential =
    constant_time_eq (codes credential) (codes server.subscription_credential)

abbrev profile_update_interval_hours : ℕ
profile_update_interval_hours = 24

pub subscription_userinfo : TrafficReport → Userinfo
subscription_userinfo traffic = record {
  upload = traffic.received;
  download = traffic.transmitted;
  total = if ltb 0 traffic.monthly_traffic_limit then some traffic.monthly_traffic_limit else none;
  expire = traffic.next_reset;
  profile_update_interval = profile_update_interval_hours;
}

abbrev pub userinfo_of : Option TrafficReport → Option Userinfo
userinfo_of none = none
userinfo_of (some traffic) = some (subscription_userinfo traffic)

-- `read_authorized`, which tests the credential again.
abbrev pub read_authorized : Server → String → SubscriptionFormat → Option String
read_authorized server credential f =
    if server.has_nodes
    then (if is_authorized server credential then server.read_artifact f else none)
    else none

abbrev page_or_unavailable : (String → Response) → Option String → Response
page_or_unavailable page none = unavailable
page_or_unavailable page (some body) = page body

-- The `match` on the route.
pub serve_route : Server → String → SubscriptionRoute → Response
serve_route server credential (qr f) = page_or_unavailable qr_image (server.render_qr f)
serve_route server credential index = page_or_unavailable index_page server.render_index
serve_route server credential (format f) =
    page_or_unavailable (λ body. artifact f body (userinfo_of server.report))
      (read_authorized server credential f)

abbrev pub answer_route : Server → Option (String × SubscriptionRoute) → Response
answer_route server none = not_found
answer_route server (some (credential, route)) =
    if is_authorized server credential then serve_route server credential route else not_found

-- The handler after the throttle.
pub answer : Server → Request → Response
answer server request =
    if not (is_get request.method)
    then method_not_allowed
    else if request.has_query
    then not_found
    else answer_route server (parse_route request.path)

-- `throttled_http_response`, or what the rest of the handler answers.
abbrev pub throttle_or : Response → Result ℕ (Unit {0}) → Response
throttle_or response (ok _) = response
throttle_or response (err wait) = too_many_requests (retry_after_seconds wait)

module _ (instant_max : ℕ) where
  -- `throttled`: a peer without an address is never throttled.
  abbrev pub throttled : Option IpAddr → Buckets → Instant → Result ℕ (Unit {0}) × Buckets
  throttled none budget now = (ok tt, budget)
  throttled (some peer) budget now = try_acquire instant_max budget peer now

  abbrev pub charge : Server → Option IpAddr → Buckets → Instant → Result ℕ (Unit {0}) × Buckets
  charge server peer budget now =
      if is_external_proxy server.subscription_mode
      then (ok tt, budget)
      else throttled peer budget now

  pub subscription_http_response :
      Server → Option IpAddr → Buckets → Instant → Request → Response × Buckets
  subscription_http_response server peer budget now request =
      let (charged, after) = charge server peer budget now in
      (throttle_or (answer server request) charged, after)
