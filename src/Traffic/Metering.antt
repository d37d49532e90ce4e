-- ===== src/Traffic/Metering.antt =====
-- What the meter reports, whatever the schedule of its polls, reboots and counter rollbacks.
use singbox_sub_me.Prelude.{
  ℕ, ◌+◌, ◌-◌, ◌≤◌, ◌≡◌, refl, sym, ap₂, ◌∙◌, String, true, List, [], ◌∷◌, leb, str_eq, arith,
  eq_iff, eq_refl, u64_max, if◌then◌else◌,
}
use singbox_sub_me.Traffic.{TrafficState, accumulate, live_reported, advance}

-- The totals are `u64` values.
pub record IsBounded (s : TrafficState) : Type 0 where
  pub rx_bounded : s.accumulated_rx ≤ u64_max
  pub tx_bounded : s.accumulated_tx ≤ u64_max

-- A measurement of the counters: boot ID, received, transmitted.
abbrev pub Sample : Type 0
Sample = String × ℕ × ℕ

pub accumulate_all : List Sample → TrafficState → TrafficState
unfolding accumulate
accumulate_all [] s = s
accumulate_all ((boot_id, rx, tx) ∷ samples) s = accumulate_all samples (accumulate s boot_id rx tx)

-- Reading live is what accumulating and then reading gives: a reset task that runs just before a
-- request changes nothing of what the request reports.
pub live_reported-accumulate :
    (s : TrafficState) (boot_id : String) (rx tx : ℕ)
    → IsBounded s
    → (live_reported (accumulate s boot_id rx tx) boot_id rx tx ≡ live_reported s boot_id rx tx)
      × (live_reported s boot_id rx tx ≡ (
        (accumulate s boot_id rx tx).accumulated_rx,
        (accumulate s boot_id rx tx).accumulated_tx,
      ))
unfolding live_reported accumulate
live_reported-accumulate s boot_id rx tx bounded =
    ground (arith, eq_iff s.boot_id boot_id, eq_refl boot_id)

pub accumulate-IsBounded :
    (s : TrafficState) (boot_id : String) (rx tx : ℕ)
    → IsBounded s
    → IsBounded (accumulate s boot_id rx tx)
unfolding accumulate
accumulate-IsBounded s boot_id rx tx bounded = record {
  rx_bounded = ground arith;
  tx_bounded = ground arith;
}

-- The advances of one counter over the samples, each within one boot and upwards, added up.
pub advances : (Sample → ℕ) → (boot_id : String) (baseline : ℕ) → List Sample → ℕ
advances counter boot_id baseline [] = 0
advances counter boot_id baseline (sample ∷ samples) =
    let rest = advances counter sample.0 (counter sample) samples in
    if str_eq boot_id sample.0
    then (if leb baseline (counter sample) then counter sample - baseline + rest else rest)
    else rest

abbrev pub received : Sample → ℕ
received (boot_id, rx, tx) = rx

abbrev pub transmitted : Sample → ℕ
transmitted (boot_id, rx, tx) = tx

abbrev pub capped : ℕ → ℕ
capped n = if leb n u64_max then n else u64_max

-- Over any run of polls, with reboots and rollbacks among them, the accumulated totals are the sums
-- of the counters' advances within each boot, capped at the largest `u64`: nothing that was
-- accumulated is ever lost, and nothing is counted twice.
pub accumulate_all_sums :
    (samples : List Sample) (s : TrafficState)
    → IsBounded s
    → ((accumulate_all samples s).accumulated_rx
        ≡ capped (s.accumulated_rx + advances received s.boot_id s.baseline_rx samples))
      × ((accumulate_all samples s).accumulated_tx
          ≡ capped (s.accumulated_tx + advances transmitted s.boot_id s.baseline_tx samples))
unfolding accumulate_all advances accumulate
accumulate_all_sums [] s bounded = (ground arith, ground arith)
accumulate_all_sums ((boot_id, rx, tx) ∷ samples) s bounded =
    let (ih_rx, ih_tx) =
      accumulate_all_sums samples (accumulate s boot_id rx tx)
        (accumulate-IsBounded s boot_id rx tx bounded) in
    (ground arith, ground arith)

-- The counters only rise from the baselines to the last sample, within one boot.
abbrev pub IsRising : String → (rx tx : ℕ) → List Sample → Sample → Type 0
IsRising boot_id rx tx [] (last_boot, last_rx, last_tx) =
    (boot_id ≡ last_boot) × (rx ≤ last_rx) × (tx ≤ last_tx)
IsRising boot_id rx tx ((next_boot, next_rx, next_tx) ∷ samples) last =
    (boot_id ≡ next_boot)
    × (rx ≤ next_rx)
    × (tx ≤ next_tx)
    × IsRising boot_id next_rx next_tx samples last

IsRising-last :
    (boot_id : String) (rx tx : ℕ) (samples : List Sample) (last_boot : String)
    (last_rx last_tx : ℕ)
    → IsRising boot_id rx tx samples (last_boot, last_rx, last_tx)
    → (boot_id ≡ last_boot) × (rx ≤ last_rx) × (tx ≤ last_tx)
IsRising-last boot_id rx tx [] last_boot last_rx last_tx h = h
IsRising-last boot_id rx tx ((b, r, t) ∷ samples) last_boot last_rx last_tx (e, h, k, rest) =
    let (f, h', k') = IsRising-last boot_id r t samples last_boot last_rx last_tx rest in
    (f, ground arith, ground arith)

advance-advance :
    (accumulated baseline counter last : ℕ)
    → baseline ≤ counter
    → counter ≤ last
    → accumulated ≤ u64_max
    → advance true (advance true accumulated baseline counter) counter last
      ≡ advance true accumulated baseline last
advance-advance accumulated baseline counter last h k bounded = ground arith

accumulate-accumulate :
    (s : TrafficState) (rx tx last_rx last_tx : ℕ)
    → s.baseline_rx ≤ rx
    → s.baseline_tx ≤ tx
    → rx ≤ last_rx
    → tx ≤ last_tx
    → IsBounded s
    → accumulate (accumulate s s.boot_id rx tx) s.boot_id last_rx last_tx
      ≡ accumulate s s.boot_id last_rx last_tx
unfolding accumulate
accumulate-accumulate s rx tx last_rx last_tx h k h' k' bounded =
    let both = λ (a b : ℕ). record s {
      accumulated_rx = a;
      accumulated_tx = b;
      baseline_rx = last_rx;
      baseline_tx = last_tx;
      boot_id = s.boot_id;
    } in
    rw eq_refl (
      ap₂ both (advance-advance s.accumulated_rx s.baseline_rx rx last_rx h h' bounded.rx_bounded)
        (advance-advance s.accumulated_tx s.baseline_tx tx last_tx k k' bounded.tx_bounded))

-- How often the meter polls makes no difference within one boot: any run of polls over rising
-- counters leaves the state that its last poll alone would leave.
pub polling_schedule :
    (samples : List Sample) (s : TrafficState) (boot_id : String) (rx tx : ℕ)
    → IsBounded s
    → IsRising s.boot_id s.baseline_rx s.baseline_tx samples (boot_id, rx, tx)
    → accumulate (accumulate_all samples s) boot_id rx tx ≡ accumulate s boot_id rx tx
unfolding accumulate_all
polling_schedule [] s boot_id rx tx bounded rising = refl
polling_schedule ((b, r, t) ∷ samples) s boot_id rx tx bounded (e, h, k, rising) =
    let (f, h', k') = IsRising-last s.boot_id r t samples boot_id rx tx rising in
    let ih =
      polling_schedule samples (accumulate s b r t) boot_id rx tx
        (accumulate-IsBounded s b r t bounded) (unfold accumulate in rw (sym e) rising) in
    ih ∙ rw (← e, ← f) (accumulate-accumulate s r t rx tx h k h' k' bounded)
