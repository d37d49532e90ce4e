-- ===== src/Http/Handler/Answers.antt =====
-- Who gets what from the subscription listener.
use singbox_sub_me.Prelude.{
  ℕ, ◌≡◌, ◌≢◌, refl, ap, sym, ◌∙◌, String, Bool, true, false, Option, none, some, Result, ok, err,
  arith, Bool-cases, inl, inr,
}
use singbox_sub_me.Budget.{IpAddr, Instant, Buckets, try_acquire}
use singbox_sub_me.Budget.Limit.{try_acquire_wait}
use singbox_sub_me.Http.Texts.{contains_char}
use singbox_sub_me.Http.Format.{
  SubscriptionFormat, SubscriptionRoute, format, parse_route, route_path,
}
use singbox_sub_me.Http.Format.RoundTrip.{is_served}
use singbox_sub_me.Http.Format.Paths.{parse_route-route_path}
use singbox_sub_me.Http.Secret.{
  codes, constant_time_eq_sound, constant_time_eq_self, codes-injective,
}
use singbox_sub_me.Http.Handler.{
  get_method, Request, Response, too_many_requests, method_not_allowed, not_found, artifact, Server,
  is_get, is_external_proxy, is_authorized, userinfo_of, serve_route, answer_route, answer, charge,
  throttle_or, subscription_http_response,
}

-- The response gives away that the request had the deployment's credential.
abbrev pub is_revealing : Response → Bool
is_revealing (too_many_requests _) = false
is_revealing method_not_allowed = false
is_revealing not_found = false
is_revealing _ = true

is_authorized-eq :
    (server : Server) (credential : String)
    → is_authorized server credential ≡ true
    → credential ≡ server.subscription_credential
is_authorized-eq server credential h =
    codes-injective credential server.subscription_credential
      (constant_time_eq_sound (codes credential) (codes server.subscription_credential) h)

answer_route-revealing :
    (server : Server) (o : Option (String × SubscriptionRoute))
    → is_revealing (answer_route server o) ≡ true
    → (route : SubscriptionRoute) × (o ≡ some (server.subscription_credential, route))
answer_route-revealing server none h = cc
answer_route-revealing server (some (credential, route)) h =
    elim (Bool-cases (is_authorized server credential)) [
      | inl granted ↦
          (route, ap (λ c. some (c, route)) (is_authorized-eq server credential granted))
      | inr denied ↦ absurd (ground (arith, rw denied at h))
    ]

answer-revealing :
    (server : Server) (request : Request)
    → is_revealing (answer server request) ≡ true
    → (is_get request.method ≡ true)
      × (request.has_query ≡ false)
      × (route : SubscriptionRoute) × (parse_route request.path
          ≡ some (server.subscription_credential, route))
unfolding answer
answer-revealing server request h = elim (Bool-cases (is_get request.method)) [
  | inr other ↦ absurd (ground (arith, rw other at h))
  | inl plain ↦ elim (Bool-cases request.has_query) [
    | inl query ↦ absurd (ground (arith, rw (plain, query) at h))
    | inr bare ↦
        let (route, found) =
          answer_route-revealing server (parse_route request.path) (rw (plain, bare) at h) in
        (plain, bare, route, found)
  ]
]

respond-revealing :
    (server : Server) (request : Request) (r : Result ℕ (Unit {0}))
    → is_revealing (throttle_or (answer server request) r) ≡ true
    → is_revealing (answer server request) ≡ true
respond-revealing server request (ok u) h = h
respond-revealing server request (err wait) h = cc

-- Any answer but a throttle, a wrong method and the uniform 404 is an answer to a GET without a
-- query whose path has the deployment's own credential, whole.
pub answers_need_credential :
    (instant_max : ℕ) (server : Server) (peer : Option IpAddr) (budget : Buckets) (now : Instant)
    (request : Request)
    → is_revealing (subscription_http_response instant_max server peer budget now request).0 ≡ true
    → (is_get request.method ≡ true)
      × (request.has_query ≡ false)
      × (route : SubscriptionRoute) × (parse_route request.path
          ≡ some (server.subscription_credential, route))
unfolding subscription_http_response
answers_need_credential instant_max server peer budget now request h =
    answer-revealing server request
      (respond-revealing server request (charge instant_max server peer budget now).0 h)

-- The path has no route, or not the deployment's credential.
abbrev pub Misses : Server → Option (String × SubscriptionRoute) → Type 0
Misses server none = Unit
Misses server (some (credential, route)) = credential ≢ server.subscription_credential

answer_route-Misses :
    (server : Server) (o : Option (String × SubscriptionRoute))
    → Misses server o
    → answer_route server o ≡ not_found
answer_route-Misses server none m = refl
answer_route-Misses server (some (credential, route)) m =
    elim (Bool-cases (is_authorized server credential)) [
      | inl granted ↦ absurd (m (is_authorized-eq server credential granted))
      | inr denied ↦ rw denied refl
    ]

-- Guesses look alike: two GETs without a query that both miss, one with a wrong credential and one
-- with no route at all, say, get the same answer and leave the same budget.
pub guesses_look_alike :
    (instant_max : ℕ) (server : Server) (peer : Option IpAddr) (budget : Buckets) (now : Instant)
    (path other : String)
    → Misses server (parse_route path)
    → Misses server (parse_route other)
    → subscription_http_response instant_max server peer budget now
        (record { method = get_method; has_query = false; path = path })
      ≡ subscription_http_response instant_max server peer budget now
          (record { method = get_method; has_query = false; path = other })
unfolding subscription_http_response answer
guesses_look_alike instant_max server peer budget now path other m n =
    let first = answer_route-Misses server (parse_route path) m in
    let second = answer_route-Misses server (parse_route other) n in
    let (charged, after) = charge instant_max server peer budget now in
    ap (λ a. (throttle_or a charged, after)) (first ∙ sym second)

-- A throttled address gets one answer whatever it asks for, and always to wait two seconds; only a
-- deployment behind its own proxy never throttles.
pub throttle_hides_everything :
    (instant_max : ℕ) (server : Server) (peer : IpAddr) (budget : Buckets) (now : Instant)
    (wait : ℕ) (request : Request)
    → is_external_proxy server.subscription_mode ≡ false
    → (try_acquire instant_max budget peer now).0 ≡ err wait
    → subscription_http_response instant_max server (some peer) budget now request
      ≡ (too_many_requests 2, (try_acquire instant_max budget peer now).1)
unfolding subscription_http_response
throttle_hides_everything instant_max server peer budget now wait request own refused =
    let (_, header) = try_acquire_wait instant_max budget peer now wait refused in
    let charged : charge instant_max server (some peer) budget now
        ≡ try_acquire instant_max budget peer now =
      rw own refl in
    ap (λ p. (throttle_or (answer server request) p.0, p.1)) charged
    ∙ ap (λ r. (throttle_or (answer server request) r, (try_acquire instant_max budget peer now).1))
        refused
    ∙ ap (λ n. (too_many_requests n, (try_acquire instant_max budget peer now).1)) header

-- Every link that the server prints for a format works: a GET of its path gets the stored artifact,
-- with the traffic where the meter can be read, if the request is not throttled, the credential has
-- no slash and no question mark, and the artifact can be read.
pub links_are_served :
    (instant_max : ℕ) (server : Server) (peer : Option IpAddr) (budget : Buckets) (now : Instant)
    (f : SubscriptionFormat) (body : String)
    → (charge instant_max server peer budget now).0 ≡ ok tt
    → contains_char 47 server.subscription_credential ≡ false
    → contains_char 63 server.subscription_credential ≡ false
    → is_served f ≡ true
    → server.has_nodes ≡ true
    → server.read_artifact f ≡ some body
    → (subscription_http_response instant_max server peer budget now (record {
      method = get_method;
      has_query = false;
      path = route_path server.subscription_credential (format f);
    })).0
      ≡ artifact f body (userinfo_of server.report)
unfolding subscription_http_response answer serve_route
links_are_served instant_max server peer budget now f body free no_slash no_query served nodes
      stored =
    let parsed =
      parse_route-route_path server.subscription_credential (format f) no_slash no_query served in
    let own = constant_time_eq_self (codes server.subscription_credential) in
    ap (λ r. throttle_or (answer_route server r) (charge instant_max server peer budget now).0)
      parsed
    ∙ ap (throttle_or (answer_route server (some (server.subscription_credential, format f)))) free
    ∙ rw (own, nodes, stored) refl
