-- ===== src/Budget/Rate.antt =====
-- How many requests one address gets through, whatever the others do.
use singbox_sub_me.Prelude.{
  ℕ, ◌+◌, ◌-◌, ◌*◌, ◌≤◌, ◌≡◌, refl, Option, none, some, List, [], ◌∷◌, ltb, ◌==◌, if◌then◌else◌,
  Result, ok, err, length, arith, Bool-cases, inl, inr,
}
use singbox_sub_me.Budget.{
  max_tracked_peers, request_burst, request_refill, IpAddr, Instant, Bucket, Buckets, refilled,
  lookup, retain, admit, refill, spend, acquire, try_acquire,
}
use singbox_sub_me.Budget.Table.{
  HasDistinctPeers, owing, lookup-retain, lookup-put, IsTable, try_acquire-IsTable,
}

-- What a bucket is worth at an instant, in nanoseconds of waiting.
abbrev pub worth : Bucket → Instant → ℕ
worth b now = b.tokens * request_refill + (now - b.at)

abbrev pub price : Result ℕ (Unit {0}) → ℕ
price (ok _) = request_refill
price (err _) = 0

refilled-le : (b : Bucket) (now : Instant) → request_refill * refilled b now ≤ now - b.at
refilled-le b now = omega arith

module _ (instant_max : ℕ) where
  -- A refill only turns waiting into tokens.
  refill-worth : (b : Bucket) (now : Instant) → worth (refill instant_max b now) now ≤ worth b now
  unfolding refill
  refill-worth b now = ground (arith, refilled-le b now)

  spend-worth :
      (b : Bucket) (now : Instant)
      → price (spend instant_max b now).0 + worth (spend instant_max b now).1 now ≤ worth b now
  unfolding spend
  spend-worth b now = ground (arith, refill-worth b now)

-- What an address is worth: a full burst, where it has no bucket.
abbrev pub worth_of : Option Bucket → Instant → ℕ
worth_of none now = request_burst * request_refill
worth_of (some b) now = worth b now

-- Whether a request makes the table overflow and lose every bucket.
abbrev overflows_at : Buckets → Instant → Option Bucket → ℕ
overflows_at t now none = if ltb max_tracked_peers (length (retain now t)) then 1 else 0
overflows_at t now (some b) = 0

pub overflows : Buckets → IpAddr → Instant → ℕ
overflows t peer now = overflows_at t now (lookup peer t)

-- What a request costs the address `peer`.
abbrev pub charged : IpAddr → IpAddr → Result ℕ (Unit {0}) → ℕ
charged peer q r = if q == peer then price r else 0

owing-worth : (now : Instant) (o : Option Bucket) → worth_of (owing now o) now ≤ worth_of o now
owing-worth now none = omega arith
owing-worth now (some b) = ground (arith, refilled-le b now)

-- The requests come in the order of time, between the two instants.
abbrev pub IsInOrder : (start end : Instant) → List (IpAddr × Instant) → Type 0
IsInOrder start end [] = start ≤ end
IsInOrder start end ((q, now) ∷ requests) = (start ≤ now) × IsInOrder now end requests

IsInOrder-last :
    (start end : Instant) (requests : List (IpAddr × Instant))
    → IsInOrder start end requests
    → start ≤ end
IsInOrder-last start end [] h = h
IsInOrder-last start end ((q, now) ∷ requests) (first, order) =
    omega (arith, first, IsInOrder-last now end requests order)

admit-worth :
    (peer : IpAddr) (now : Instant) (t : Buckets)
    → HasDistinctPeers t
    → worth_of (lookup peer (admit now t)) now
      ≤ worth_of (lookup peer t) now + overflows_at t now none * (request_burst * request_refill)
unfolding admit
admit-worth peer now t d = elim (Bool-cases (ltb max_tracked_peers (length (retain now t)))) [
  | inl over ↦ rw over (omega arith)
  | inr under ↦
      rw (under, lookup-retain peer now t d) (omega (arith, owing-worth now (lookup peer t)))
]

module _ (instant_max : ℕ) where
  acquire-worth :
      (peer q : IpAddr) (now : Instant) (t : Buckets) (o : Option Bucket)
      → HasDistinctPeers t
      → lookup q t ≡ o
      → charged peer q (acquire instant_max t q now o).0
          + worth_of (lookup peer (acquire instant_max t q now o).1) now
        ≤ worth_of (lookup peer t) now + overflows_at t now o * (request_burst * request_refill)
  acquire-worth peer q now t none d missing = elim (Bool-cases (q == peer)) [
    | inl same ↦ let eq : q ≡ peer = ground arith in rw (same, ← eq, missing) (omega arith)
    | inr other ↦ rw other (omega (arith, admit-worth peer now t d))
  ]
  acquire-worth peer q now t (some b) d found = elim (Bool-cases (q == peer)) [
    | inl same ↦
        let eq : q ≡ peer = ground arith in
        let spent = spend-worth instant_max b now in
        rw (lookup-put peer q (spend instant_max b now).1 b t found, same, ← eq, found)
          (omega (arith, spent))
    | inr other ↦ rw (lookup-put peer q (spend instant_max b now).1 b t found, other) (omega arith)
  ]

  pub step-worth :
      (peer q : IpAddr) (now : Instant) (t : Buckets)
      → HasDistinctPeers t
      → charged peer q (try_acquire instant_max t q now).0
          + worth_of (lookup peer (try_acquire instant_max t q now).1) now
        ≤ worth_of (lookup peer t) now + overflows t q now * (request_burst * request_refill)
  unfolding try_acquire overflows
  step-worth peer q now t d = acquire-worth peer q now t (lookup q t) d refl

  -- The nanoseconds' worth of requests that `peer` gets through in a run.
  unfoldable pub charges : IpAddr → Buckets → List (IpAddr × Instant) → ℕ
  charges peer t [] = 0
  charges peer t ((q, now) ∷ requests) =
      let (r, after) = try_acquire instant_max t q now in
      charged peer q r + charges peer after requests

  -- How many times the table overflows in a run.
  pub overflow_count : Buckets → List (IpAddr × Instant) → ℕ
  overflow_count t [] = 0
  overflow_count t ((q, now) ∷ requests) =
      overflows t q now + overflow_count (try_acquire instant_max t q now).1 requests

  later-worth :
      (o : Option Bucket) (now later : Instant)
      → now ≤ later
      → worth_of o later ≤ worth_of o now + (later - now)
  later-worth none now later h = omega arith
  later-worth (some b) now later h = omega arith

  pub charges-worth :
      (peer : IpAddr) (t : Buckets) (start end : Instant) (requests : List (IpAddr × Instant))
      → IsTable t
      → IsInOrder start end requests
      → charges peer t requests
        ≤ worth_of (lookup peer t) start
          + (end - start)
          + overflow_count t requests * (request_burst * request_refill)
  unfolding charges overflow_count
  charges-worth peer t start end [] table order = omega arith
  charges-worth peer t start end ((q, now) ∷ requests) table (first, order) =
      let after = (try_acquire instant_max t q now).1 in
      let ih =
        charges-worth peer after now end requests (try_acquire-IsTable instant_max t q now table)
          order in
      let step = step-worth peer q now t table.distinct in
      let waited = later-worth (lookup peer t) start now first in
      let within = IsInOrder-last now end requests order in omega (arith, ih, step, waited, within)
