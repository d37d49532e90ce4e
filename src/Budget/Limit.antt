-- ===== src/Budget/Limit.antt =====
-- What the budget promises: a rate for each address, one answer for every refusal, and an end to it.
use singbox_sub_me.Prelude.{
  ℕ, ◌+◌, ◌-◌, ◌*◌, ◌/◌, ◌≤◌, ◌≡◌, refl, sym, ap, ◌∙◌, true, Option, none, some, List, [], ◌∷◌,
  ◌==◌, if◌then◌else◌, Result, ok, err, arith,
}
use singbox_sub_me.Budget.{
  request_burst, request_refill, one_second, IpAddr, Instant, Bucket, Buckets, lookup, put, refill,
  spend, settle, acquire, try_acquire, retry_after_seconds,
}
use singbox_sub_me.Budget.Table.{IsTable, lookup-put}
use singbox_sub_me.Budget.Rate.{IsInOrder, charged, charges, overflow_count, charges-worth}

abbrev counted : IpAddr → IpAddr → Result ℕ (Unit {0}) → ℕ
counted peer q (ok _) = if q == peer then 1 else 0
counted peer q (err _) = 0

charged-counted :
    (peer q : IpAddr) (r : Result ℕ (Unit {0}))
    → charged peer q r ≡ counted peer q r * request_refill
charged-counted peer q (ok u) = ground arith
charged-counted peer q (err e) = ground arith

-- The requests of `peer` that get through in a run.
pub accepted : (instant_max : ℕ) → IpAddr → Buckets → List (IpAddr × Instant) → ℕ
accepted instant_max peer t [] = 0
accepted instant_max peer t ((q, now) ∷ requests) =
    let (r, after) = try_acquire instant_max t q now in
    counted peer q r + accepted instant_max peer after requests

charges-accepted :
    (instant_max : ℕ) (peer : IpAddr) (t : Buckets) (requests : List (IpAddr × Instant))
    → charges instant_max peer t requests ≡ accepted instant_max peer t requests * request_refill
unfolding charges accepted
charges-accepted instant_max peer t [] = omega arith
charges-accepted instant_max peer t ((q, now) ∷ requests) =
    let (r, after) = try_acquire instant_max t q now in
    omega (arith, charged-counted peer q r, charges-accepted instant_max peer after requests)

pub empty-IsTable : IsTable []
empty-IsTable = record { distinct = tt; bounded = tt; small = omega arith }

-- From an empty table, over any requests of any addresses in the order of time, one address gets
-- through at most a burst, one request more for each second that passes, and one burst more for
-- each time that the table overflows.
pub accepted_rate :
    (instant_max : ℕ) (peer : IpAddr) (start end : Instant) (requests : List (IpAddr × Instant))
    → IsInOrder start end requests
    → accepted instant_max peer [] requests
      ≤ request_burst
        + (end - start) / one_second
        + overflow_count instant_max [] requests * request_burst
accepted_rate instant_max peer start end requests order =
    let bound = charges-worth instant_max peer [] start end requests empty-IsTable order in
    let same = charges-accepted instant_max peer [] requests in omega (arith, bound, same)

spend-err :
    (instant_max : ℕ) (b : Bucket) (now : Instant) {wait : ℕ}
    → (spend instant_max b now).0 ≡ err wait
    → wait ≡ one_second
unfolding spend
spend-err instant_max b now {wait} e = ground arith

acquire-err :
    (instant_max : ℕ) (t : Buckets) (peer : IpAddr) (now : Instant) (o : Option Bucket) {wait : ℕ}
    → (acquire instant_max t peer now o).0 ≡ err wait
    → wait ≡ one_second
acquire-err instant_max t peer now none e = cc
acquire-err instant_max t peer now (some b) e = spend-err instant_max b now e

-- Every refusal asks for one second, and its header for two.
pub try_acquire_wait :
    (instant_max : ℕ) (t : Buckets) (peer : IpAddr) (now : Instant) (wait : ℕ)
    → (try_acquire instant_max t peer now).0 ≡ err wait
    → (wait ≡ one_second) × (retry_after_seconds wait ≡ 2)
unfolding try_acquire
try_acquire_wait instant_max t peer now wait e =
    let asked = acquire-err instant_max t peer now (lookup peer t) e in
    (asked, unfold retry_after_seconds in rw asked refl)

-- The most that a client is taken to wait: `u32` seconds, less a margin.
abbrev pub longest_wait : ℕ
longest_wait = 4000000000 * 1000000000

spend_again :
    (instant_max : ℕ) (b : Bucket) (now later : Instant) {wait : ℕ}
    → b.at ≤ now
    → (spend instant_max b now).0 ≡ err wait
    → now + one_second ≤ later
    → later ≤ now + longest_wait
    → (spend instant_max (spend instant_max b now).1 later).0 ≡ ok tt
unfolding spend refill
spend_again instant_max b now later {wait} past refused waited soon = ground arith

-- An address that is refused gets through a second later, and at any time after that up to the
-- longest wait, if it is alone and its bucket was not topped up in the future.
pub try_acquire_again :
    (instant_max : ℕ) (t : Buckets) (peer : IpAddr) (now later : Instant) (b : Bucket) (wait : ℕ)
    → lookup peer t ≡ some b
    → b.at ≤ now
    → (try_acquire instant_max t peer now).0 ≡ err wait
    → now + one_second ≤ later
    → later ≤ now + longest_wait
    → (try_acquire instant_max (try_acquire instant_max t peer now).1 peer later).0 ≡ ok tt
unfolding try_acquire
try_acquire_again instant_max t peer now later b wait found past refused waited soon =
    let spent = (spend instant_max b now).1 in
    let self : (peer == peer) ≡ true = ground arith in
    let there : lookup peer (put peer spent t) ≡ some spent =
      rw (lookup-put peer peer spent b t found, self) refl in
    let first : acquire instant_max t peer now (lookup peer t)
        ≡ settle instant_max peer t (spend instant_max b now) =
      ap (acquire instant_max t peer now) found in
    let answered : (spend instant_max b now).0 ≡ err wait = sym (ap (λ p. p.0) first) ∙ refused in
    ap (λ u. (acquire instant_max u peer later (lookup peer u)).0) (ap (λ p. p.1) first)
    ∙ ap (λ o. (acquire instant_max (put peer spent t) peer later o).0) there
    ∙ spend_again instant_max b now later past answered waited soon
