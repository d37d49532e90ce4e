-- ===== src/Budget.antt =====
-- src/subscription/serve.rs, IpBudget: one token bucket for each source address of the subscription
-- listeners. The hash map is a list of its entries, whose order nothing depends on.
pub mod Rate
pub mod Table
pub mod Limit
use singbox_sub_me.Prelude.{
  ℕ, ◌+◌, ◌-◌, ◌*◌, ◌/◌, ◌%◌, ◌≡◌, Bool, true, false, Option, none, some, List, [], ◌∷◌, ltb, leb,
  ◌==◌, if◌then◌else◌, Result, ok, err, length, max, min,
}

-- `REQUEST_BURST`
abbrev pub request_burst : ℕ
request_burst = 60

-- `REQUEST_REFILL`, and one second, in nanoseconds
abbrev pub request_refill : ℕ
request_refill = 1000000000

abbrev pub one_second : ℕ
one_second = 1000000000

-- `MAX_TRACKED_PEERS`
abbrev pub max_tracked_peers : ℕ
max_tracked_peers = 4096

-- An address, as a number, and an instant, in nanoseconds.
abbrev pub IpAddr : Type 0
IpAddr = ℕ

abbrev pub Instant : Type 0
Instant = ℕ

pub record Bucket : Type 0 where
  pub tokens : ℕ
  pub at : Instant

abbrev pub Buckets : Type 0
Buckets = List (IpAddr × Bucket)

-- The whole seconds that a bucket has waited, cast to `u32`.
abbrev pub refilled : Bucket → Instant → ℕ
refilled b now = ((now - b.at) / request_refill) % 4294967296

-- `u32::saturating_add`
abbrev pub u32_saturating_add : ℕ → ℕ → ℕ
u32_saturating_add a b = if leb (a + b) 4294967295 then a + b else 4294967295

-- `HashMap::get`
abbrev pub lookup : IpAddr → Buckets → Option Bucket
lookup peer [] = none
lookup peer ((p, b) ∷ rest) = if p == peer then some b else lookup peer rest

-- The write through `HashMap::get_mut`.
abbrev pub put : IpAddr → Bucket → Buckets → Buckets
put peer new [] = []
put peer new ((p, b) ∷ rest) = if p == peer then (p, new) ∷ rest else (p, b) ∷ put peer new rest

-- What `retain` keeps: a bucket that is not full yet.
abbrev pub is_owing : Instant → Bucket → Bool
is_owing now b = ltb (u32_saturating_add b.tokens (refilled b now)) request_burst

pub retain : Instant → Buckets → Buckets
retain now [] = []
retain now ((p, b) ∷ rest) =
    let kept = retain now rest in if is_owing now b then (p, b) ∷ kept else kept

pub admit : Instant → Buckets → Buckets
unfolding retain
admit now buckets =
    let kept = retain now buckets in if ltb max_tracked_peers (length kept) then [] else kept

-- The platform's last instant is `instant_max`.
module _ (instant_max : ℕ) where
  -- `Instant::checked_add`
  abbrev pub checked_add : Instant → ℕ → Option Instant
  checked_add t d = if leb (t + d) instant_max then some (t + d) else none

  -- The sum, or `now` where there is no such instant.
  abbrev pub advanced : Bucket → Instant → Instant
  advanced b now = elim (checked_add b.at (request_refill * refilled b now)) [
    | none ↦ now
    | some t ↦ t
  ]

  unfoldable pub refill : Bucket → Instant → Bucket
  refill b now =
      if ltb 0 (refilled b now)
      then record {
        tokens = min (u32_saturating_add b.tokens (refilled b now)) request_burst;
        at = advanced b now;
      }
      else b

  -- The rest of `try_acquire` for a bucket that is there.
  unfoldable pub spend : Bucket → Instant → Result ℕ (Unit {0}) × Bucket
  spend b now =
      let topped = refill b now in
      if topped.tokens == 0
      then (err (max (request_refill - (now - topped.at)) one_second), topped)
      else (ok tt, record topped { tokens = topped.tokens - 1 })

  abbrev pub first_bucket : Instant → Bucket
  first_bucket now = record { tokens = request_burst - 1; at = now }

  abbrev pub settle :
      IpAddr → Buckets → Result ℕ (Unit {0}) × Bucket → Result ℕ (Unit {0}) × Buckets
  settle peer buckets (result, after) = (result, put peer after buckets)

  -- `try_acquire`, from what `get_mut` finds.
  abbrev pub acquire : Buckets → IpAddr → Instant → Option Bucket → Result ℕ (Unit {0}) × Buckets
  acquire buckets peer now none = (ok tt, (peer, first_bucket now) ∷ admit now buckets)
  acquire buckets peer now (some b) = settle peer buckets (spend b now)

  unfoldable pub try_acquire : Buckets → IpAddr → Instant → Result ℕ (Unit {0}) × Buckets
  try_acquire buckets peer now = acquire buckets peer now (lookup peer buckets)

-- `throttled_http_response`: the seconds of the `Retry-After` header.
pub retry_after_seconds : ℕ → ℕ
retry_after_seconds wait = wait / one_second + 1
