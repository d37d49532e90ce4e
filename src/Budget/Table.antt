-- ===== src/Budget/Table.antt =====
-- The table of buckets: each address once, and what the table's operations leave of one address.
use singbox_sub_me.Prelude.{
  ℕ, suc, ◌≤◌, ◌≡◌, refl, Option, none, some, [], ◌∷◌, ltb, ◌==◌, if◌then◌else◌, length, arith,
  Bool-cases, inl, inr,
}
use singbox_sub_me.Budget.{
  request_burst, max_tracked_peers, IpAddr, Instant, Bucket, Buckets, lookup, put, is_owing, retain,
  admit, refill, spend, acquire, try_acquire,
}

-- Each address has one bucket.
abbrev pub HasDistinctPeers : Buckets → Type 0
HasDistinctPeers [] = Unit
HasDistinctPeers ((p, b) ∷ rest) = (lookup p rest ≡ none) × HasDistinctPeers rest

-- The bucket, if it is not full.
abbrev pub owing : Instant → Option Bucket → Option Bucket
owing now none = none
owing now (some b) = if is_owing now b then some b else none

pub lookup-retain :
    (peer : IpAddr) (now : Instant) (t : Buckets)
    → HasDistinctPeers t
    → lookup peer (retain now t) ≡ owing now (lookup peer t)
unfolding retain
lookup-retain peer now [] d = refl
lookup-retain peer now ((p, b) ∷ rest) (fresh, d) =
    ground (arith, lookup-retain peer now rest d, fresh)

retain-HasDistinctPeers :
    (now : Instant) (t : Buckets) → HasDistinctPeers t → HasDistinctPeers (retain now t)
unfolding retain
retain-HasDistinctPeers now [] d = tt
retain-HasDistinctPeers now ((p, b) ∷ rest) (fresh, d) = elim (Bool-cases (is_owing now b)) [
  | inl owes ↦
      rw owes (rw (lookup-retain p now rest d, fresh) refl, retain-HasDistinctPeers now rest d)
  | inr full ↦ rw full (retain-HasDistinctPeers now rest d)
]

length-retain : (now : Instant) (t : Buckets) → length (retain now t) ≤ length t
unfolding retain
length-retain now [] = omega arith
length-retain now ((p, b) ∷ rest) = ground (arith, length-retain now rest)

pub lookup-put :
    (peer q : IpAddr) (new b : Bucket) (t : Buckets)
    → lookup q t ≡ some b
    → lookup peer (put q new t) ≡ (if q == peer then some new else lookup peer t)
lookup-put peer q new b [] h = cc
lookup-put peer q new b ((p, c) ∷ rest) h = ground (arith, lookup-put peer q new b rest)

lookup_missing-put :
    (peer q : IpAddr) (new : Bucket) (t : Buckets)
    → lookup peer t ≡ none
    → lookup peer (put q new t) ≡ none
lookup_missing-put peer q new [] h = refl
lookup_missing-put peer q new ((p, c) ∷ rest) h = ground (arith, lookup_missing-put peer q new rest)

put-HasDistinctPeers :
    (q : IpAddr) (new : Bucket) (t : Buckets) → HasDistinctPeers t → HasDistinctPeers (put q new t)
put-HasDistinctPeers q new [] d = tt
put-HasDistinctPeers q new ((p, c) ∷ rest) (fresh, d) = elim (Bool-cases (p == q)) [
  | inl here ↦ rw here (fresh, d)
  | inr there ↦ rw there (lookup_missing-put p q new rest fresh, put-HasDistinctPeers q new rest d)
]

length-put : (q : IpAddr) (new : Bucket) (t : Buckets) → length (put q new t) ≡ length t
length-put q new [] = refl
length-put q new ((p, c) ∷ rest) = ground (arith, length-put q new rest)

admit-HasDistinctPeers :
    (now : Instant) (t : Buckets) → HasDistinctPeers t → HasDistinctPeers (admit now t)
unfolding admit
admit-HasDistinctPeers now t d = elim (Bool-cases (ltb max_tracked_peers (length (retain now t)))) [
  | inl over ↦ rw over tt
  | inr under ↦ rw under (retain-HasDistinctPeers now t d)
]

lookup-admit :
    (peer : IpAddr) (now : Instant) (t : Buckets)
    → HasDistinctPeers t
    → lookup peer t ≡ none
    → lookup peer (admit now t) ≡ none
unfolding admit
lookup-admit peer now t d missing =
    elim (Bool-cases (ltb max_tracked_peers (length (retain now t)))) [
      | inl over ↦ rw over refl
      | inr under ↦ rw (under, lookup-retain peer now t d, missing) refl
    ]

length-admit : (now : Instant) (t : Buckets) → length (admit now t) ≤ max_tracked_peers
unfolding admit
length-admit now t = ground arith

-- Every balance is at most the burst.
abbrev pub AreBounded : Buckets → Type 0
AreBounded [] = Unit
AreBounded ((p, b) ∷ rest) = (b.tokens ≤ request_burst) × AreBounded rest

retain-AreBounded : (now : Instant) (t : Buckets) → AreBounded t → AreBounded (retain now t)
unfolding retain
retain-AreBounded now [] h = tt
retain-AreBounded now ((p, b) ∷ rest) (small, h) = elim (Bool-cases (is_owing now b)) [
  | inl owes ↦ rw owes (small, retain-AreBounded now rest h)
  | inr full ↦ rw full (retain-AreBounded now rest h)
]

put-AreBounded :
    (q : IpAddr) (new : Bucket) (t : Buckets)
    → new.tokens ≤ request_burst
    → AreBounded t
    → AreBounded (put q new t)
put-AreBounded q new [] small h = tt
put-AreBounded q new ((p, b) ∷ rest) small (here, h) = elim (Bool-cases (p == q)) [
  | inl same ↦ rw same (small, h)
  | inr other ↦ rw other (here, put-AreBounded q new rest small h)
]

admit-AreBounded : (now : Instant) (t : Buckets) → AreBounded t → AreBounded (admit now t)
unfolding admit
admit-AreBounded now t h = elim (Bool-cases (ltb max_tracked_peers (length (retain now t)))) [
  | inl over ↦ rw over tt
  | inr under ↦ rw under (retain-AreBounded now t h)
]

lookup-bounded :
    (peer : IpAddr) (t : Buckets) {b : Bucket}
    → AreBounded t
    → lookup peer t ≡ some b
    → b.tokens ≤ request_burst
lookup-bounded peer [] h e = cc
lookup-bounded peer ((p, c) ∷ rest) {b} (small, h) e = elim (Bool-cases (p == peer)) [
  | inl same ↦ let found : c ≡ b = ground arith in rw (← found) small
  | inr other ↦ lookup-bounded peer rest {b = b} h (ground arith)
]

-- One bucket for each address, no balance above the burst, and at most one bucket more than the
-- limit, which is tested before a new bucket goes in.
pub record IsTable (t : Buckets) : Type 0 where
  pub distinct : HasDistinctPeers t
  pub bounded : AreBounded t
  pub small : length t ≤ suc max_tracked_peers

spend-bounded :
    (instant_max : ℕ) (b : Bucket) (now : Instant)
    → b.tokens ≤ request_burst
    → (spend instant_max b now).1.tokens ≤ request_burst
unfolding spend refill
spend-bounded instant_max b now h = ground arith

acquire-IsTable :
    (instant_max : ℕ) (t : Buckets) (peer : IpAddr) (now : Instant) (o : Option Bucket)
    → IsTable t
    → lookup peer t ≡ o
    → IsTable (acquire instant_max t peer now o).1
acquire-IsTable instant_max t peer now none table missing = record {
  distinct =
      (lookup-admit peer now t table.distinct missing, admit-HasDistinctPeers now t table.distinct);
  bounded = (omega arith, admit-AreBounded now t table.bounded);
  small = omega (arith, length-admit now t);
}
acquire-IsTable instant_max t peer now (some b) table found =
    let new = (spend instant_max b now).1 in
    let low = lookup-bounded peer t table.bounded found in
    record {
      distinct = put-HasDistinctPeers peer new t table.distinct;
      bounded = put-AreBounded peer new t (spend-bounded instant_max b now low) table.bounded;
      small = omega (arith, table.small, length-put peer new t);
    }

-- Every request, accepted or refused, leaves such a table.
pub try_acquire-IsTable :
    (instant_max : ℕ) (t : Buckets) (peer : IpAddr) (now : Instant)
    → IsTable t
    → IsTable (try_acquire instant_max t peer now).1
unfolding try_acquire
try_acquire-IsTable instant_max t peer now table =
    acquire-IsTable instant_max t peer now (lookup peer t) table refl
