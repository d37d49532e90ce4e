-- ===== src/Tests/Listener.antt =====
-- Instances of the theorems on src/subscription: the budget, the routes and the handler.
use singbox_sub_me.Prelude.{
  ℕ, ◌+◌, ◌-◌, ◌*◌, ◌/◌, ◌≤◌, ◌≡◌, refl, true, false, none, some, [], ◌∷◌, ok, err, arith, eq_iff,
}
use singbox_sub_me.Budget.{request_burst, one_second, Buckets, try_acquire, spend, refill}
use singbox_sub_me.Budget.Table.{IsTable, try_acquire-IsTable}
use singbox_sub_me.Budget.Rate.{overflow_count}
use singbox_sub_me.Budget.Limit.{accepted, accepted_rate, try_acquire_again, empty-IsTable}
use singbox_sub_me.Http.Texts.{contains_char, split, strip_prefix}
use singbox_sub_me.Http.Format.{
  SubscriptionFormat, SubscriptionRoute, sing_box_version, clash, format, qr, parse_format_path,
  parse_route, route_path, parse_parts_of_route,
}
use singbox_sub_me.Http.Format.Paths.{parse_route-route_path}
use singbox_sub_me.Http.Handler.{
  direct, get_method, Request, too_many_requests, artifact, Server, is_get,
  subscription_http_response,
}
use singbox_sub_me.Http.Handler.Answers.{
  is_revealing, Misses, answers_need_credential, guesses_look_alike, throttle_hides_everything,
  links_are_served,
}

abbrev forever : ℕ
forever = 100000000000000000000

try_acquire-IsTable_example : IsTable (try_acquire forever [] 7 1000).1
try_acquire-IsTable_example = try_acquire-IsTable forever [] 7 1000 empty-IsTable

accepted_rate_example :
    accepted forever 7 [] ((7, 1000) ∷ (8, 2000) ∷ (7, 5000000000) ∷ [])
    ≤ request_burst
      + (6000000000 - 1000) / one_second
      + overflow_count forever [] ((7, 1000) ∷ (8, 2000) ∷ (7, 5000000000) ∷ []) * request_burst
accepted_rate_example =
    accepted_rate forever 7 1000 6000000000 ((7, 1000) ∷ (8, 2000) ∷ (7, 5000000000) ∷ [])
      (omega arith, (omega arith, (omega arith, omega arith)))

-- An address that has spent everything.
abbrev spent : Buckets
spent = (7, record { tokens = 0; at = 1000 }) ∷ []

spent_is_refused : (try_acquire forever spent 7 2000).0 ≡ err one_second
unfolding try_acquire spend refill
spent_is_refused = refl

try_acquire_again_example :
    (try_acquire forever (try_acquire forever spent 7 2000).1 7 2000000000).0 ≡ ok tt
try_acquire_again_example =
    try_acquire_again forever spent 7 2000 2000000000 (record { tokens = 0; at = 1000 }) one_second
      refl (omega arith) spent_is_refused (omega arith) (omega arith)

abbrev v1_12 : SubscriptionFormat
v1_12 = sing_box_version (record { major = 1; minor = 12 })

parse_route-route_path_example :
    parse_route (route_path "s3cret" (qr v1_12)) ≡ some ("s3cret", qr v1_12)
unfolding contains_char
parse_route-route_path_example = parse_route-route_path "s3cret" (qr v1_12) refl refl refl

abbrev server : Server
server = record {
  subscription_mode = direct;
  subscription_credential = "s3cret";
  has_nodes = true;
  read_artifact = λ f. some "proxies: []";
  render_index = some "<html>";
  render_qr = λ f. none;
  report = none;
}

abbrev link : Request
link = record { method = get_method; has_query = false; path = route_path "s3cret" (format clash) }

links_are_served_example :
    (subscription_http_response forever server (some 7) [] 1000 link).0
    ≡ artifact clash "proxies: []" none
unfolding contains_char try_acquire
links_are_served_example =
    links_are_served forever server (some 7) [] 1000 clash "proxies: []" refl refl refl refl refl
      refl

link_reveals :
    is_revealing (subscription_http_response forever server (some 7) [] 1000 link).0 ≡ true
link_reveals = rw links_are_served_example refl

answers_need_credential_example :
    (is_get get_method ≡ true)
    × (false ≡ false)
    × (route : SubscriptionRoute) × (parse_route (route_path "s3cret" (format clash))
        ≡ some ("s3cret", route))
answers_need_credential_example =
    answers_need_credential forever server (some 7) [] 1000 link link_reveals

throttle_hides_everything_example :
    subscription_http_response forever server (some 7) spent 2000 link
    ≡ (too_many_requests 2, (try_acquire forever spent 7 2000).1)
throttle_hides_everything_example =
    throttle_hides_everything forever server 7 spent 2000 one_second link refl spent_is_refused

-- A wrong credential on a path that exists, and a path that does not.
wrong_credential : Misses server (parse_route "/sub/guess/uri")
unfolding parse_route contains_char split strip_prefix parse_parts_of_route parse_format_path
wrong_credential = ground (arith, eq_iff "guess" "s3cret")

guesses_look_alike_example :
    subscription_http_response forever server
      (some 7)
      []
      1000
      (record { method = get_method; has_query = false; path = "/sub/guess/uri" })
    ≡ subscription_http_response forever server
        (some 7)
        []
        1000
        (record { method = get_method; has_query = false; path = "/robots.txt" })
unfolding parse_route contains_char strip_prefix
guesses_look_alike_example =
    guesses_look_alike forever server (some 7) [] 1000 "/sub/guess/uri" "/robots.txt"
      wrong_credential tt
