-- ===== src/Traffic.antt =====
-- src/traffic.rs: the metering of one accounting period, from the interface's counters to the
-- reported totals. Clocks and time zones stay outside: a period is an argument.
pub mod Metering
pub mod Correction
pub mod Store
use singbox_sub_me.Prelude.{
  ℕ, ◌+◌, ◌-◌, ◌≡◌, String, Bool, true, false, ◌&&◌, ◌||◌, not, Option, none, some, List, [], ◌∷◌,
  ◌++◌, str_eq, leb, if◌then◌else◌, Result, ok, err, ◌>>=◌, ◌>>◌, ℤ, pos, negsuc, ◌⊖◌, ◌-ℤ◌,
  u64_max, u128_max, saturating_add, checked_add, signed_saturating_add, signed_checked_sub,
}

-- `STATE_SCHEMA_VERSION`
abbrev pub state_schema_version : ℕ
state_schema_version = 2

-- An instant, in seconds; the code only stores it.
abbrev pub Instant : Type 0
Instant = ℕ

pub data CorrectionRecord : Type 0 where
  total_only : ℤ → Instant → CorrectionRecord
  set_direction : (rx tx : ℕ) → Instant → CorrectionRecord

pub record TrafficState : Type 0 where
  pub schema_version : ℕ
  pub cycle_key : String
  pub interface : String
  pub baseline_rx : ℕ
  pub baseline_tx : ℕ
  pub accumulated_rx : ℕ
  pub accumulated_tx : ℕ
  pub boot_id : String
  pub corrections : List CorrectionRecord

-- `TrafficState::new`
unfoldable pub new : (cycle_key interface boot_id : String) → (rx tx : ℕ) → TrafficState
new cycle_key interface boot_id rx tx = record {
  schema_version = state_schema_version;
  cycle_key = cycle_key;
  interface = interface;
  baseline_rx = rx;
  baseline_tx = tx;
  accumulated_rx = 0;
  accumulated_tx = 0;
  boot_id = boot_id;
  corrections = [];
}

-- One direction of `accumulate`: an advance within the same boot is added.
abbrev pub advance : Bool → (accumulated baseline counter : ℕ) → ℕ
advance same_boot accumulated baseline counter =
    if same_boot && leb baseline counter
    then saturating_add accumulated (counter - baseline)
    else accumulated

unfoldable pub accumulate : TrafficState → String → (rx tx : ℕ) → TrafficState
accumulate s boot_id rx tx =
    let same_boot = str_eq s.boot_id boot_id in
    record s {
      accumulated_rx = advance same_boot s.accumulated_rx s.baseline_rx rx;
      accumulated_tx = advance same_boot s.accumulated_tx s.baseline_tx tx;
      baseline_rx = rx;
      baseline_tx = tx;
      boot_id = boot_id;
    }

abbrev pub delta : Bool → (baseline counter : ℕ) → ℕ
delta same_boot baseline counter =
    if same_boot && leb baseline counter then counter - baseline else 0

unfoldable pub live_reported : TrafficState → String → (rx tx : ℕ) → ℕ × ℕ
live_reported s boot_id rx tx =
    let same_boot = str_eq s.boot_id boot_id in
    (
      saturating_add s.accumulated_rx (delta same_boot s.baseline_rx rx),
      saturating_add s.accumulated_tx (delta same_boot s.baseline_tx tx),
    )

abbrev pub adjustment_of : CorrectionRecord → ℤ
adjustment_of (total_only bytes at) = bytes
adjustment_of (set_direction rx tx at) = pos 0

abbrev pub fold_adjustments : ℤ → List CorrectionRecord → ℤ
fold_adjustments z [] = z
fold_adjustments z (c ∷ cs) = fold_adjustments (signed_saturating_add z (adjustment_of c)) cs

unfoldable pub total_adjustment : TrafficState → ℤ
total_adjustment s = fold_adjustments (pos 0) s.corrections

abbrev pub to_u64 : ℕ → ℕ
to_u64 n = if leb n u64_max then n else u64_max

pub corrected_total : (received transmitted : ℕ) → ℤ → ℕ
corrected_total received transmitted (pos n) =
    let added = received + transmitted + n in
    to_u64 (if leb added u128_max then added else u128_max)
corrected_total received transmitted (negsuc n) = to_u64 (received + transmitted - (n + 1))

pub data ConfigError : Type 0 where
  storage state_corrupt : ConfigError
  state_schema_mismatch : ℕ → ConfigError

pub data TrafficError : Type 0 where
  counters boot_id_unreadable no_default_route state_missing state_stale : TrafficError
  invalid_counter schedule overflow : String → TrafficError
  storage_failed : ConfigError → TrafficError

pub record AccountingPeriod : Type 0 where
  pub cycle_key : String
  pub identity : String
  pub next_reset : Instant

-- `AccountingPeriod::active`
abbrev pub active : String → Instant → AccountingPeriod
active identity next_reset = record {
  cycle_key = identity;
  identity = identity;
  next_reset = next_reset;
}

pub record Measurements : Type 0 where
  pub rx : ℕ
  pub tx : ℕ
  pub boot_id : String

pub data CorrectionTarget : Type 0 where
  total : ℕ → CorrectionTarget
  directions : (rx tx : ℕ) → CorrectionTarget

pub record CorrectionPreview : Type 0 where
  pub accounting_period : String
  pub next_reset : Instant
  pub current_received : ℕ
  pub current_transmitted : ℕ
  pub current_total : ℕ
  pub target_received : ℕ
  pub target_transmitted : ℕ
  pub target_total : ℕ

pub record CorrectionPlan : Type 0 where
  pub state : TrafficState
  pub preview : CorrectionPreview

-- The rest of the total's case, from the checked offset.
abbrev pub correct_by :
    TrafficState
    → Instant
    → (received transmitted t : ℕ) → Option ℤ
    → Result TrafficError (TrafficState × ℕ × ℕ × ℕ)
correct_by s now received transmitted t none = err (overflow "total correction adjustment")
correct_by s now received transmitted t (some offset) =
    let corrected = record s { corrections = s.corrections ++ total_only offset now ∷ [] } in
    ok (corrected, received, transmitted, t)

-- The rest of the directions' case, from the checked sum.
abbrev pub correct_to :
    TrafficState
    → Measurements
    → Instant
    → (rx tx : ℕ) → Option ℕ
    → Result TrafficError (TrafficState × ℕ × ℕ × ℕ)
correct_to s m now rx tx none = err (overflow "target directional total")
correct_to s m now rx tx (some _) =
    let corrected = record s {
      accumulated_rx = rx;
      accumulated_tx = tx;
      baseline_rx = m.rx;
      baseline_tx = m.tx;
      boot_id = m.boot_id;
      corrections = s.corrections ++ set_direction rx tx now ∷ [];
    } in
    ok (corrected, rx, tx, corrected_total rx tx (total_adjustment corrected))

-- The `match` on the target: the corrected state, and the three target values.
abbrev pub correct :
    TrafficState
    → Measurements
    → Instant
    → (received transmitted : ℕ) → CorrectionTarget
    → Result TrafficError (TrafficState × ℕ × ℕ × ℕ)
correct s m now received transmitted (total t) =
    correct_by s now received transmitted t
      (signed_checked_sub (t ⊖ (received + transmitted)) (total_adjustment s))
correct s m now received transmitted (directions rx tx) =
    correct_to s m now rx tx (checked_add rx tx)

-- The plan for a corrected state and its three targets.
abbrev pub plan_of :
    TrafficState
    → AccountingPeriod
    → (received transmitted : ℕ) → TrafficState × ℕ × ℕ × ℕ
    → CorrectionPlan
plan_of s period received transmitted
      (corrected, target_received, target_transmitted, target_total) =
    record {
      state = corrected;
      preview = record {
        accounting_period = period.identity;
        next_reset = period.next_reset;
        current_received = received;
        current_transmitted = transmitted;
        current_total = corrected_total received transmitted (total_adjustment s);
        target_received = target_received;
        target_transmitted = target_transmitted;
        target_total = target_total;
      };
    }

unfoldable pub plan_correction :
    TrafficState
    → AccountingPeriod
    → Measurements
    → Instant
    → CorrectionTarget
    → Result TrafficError CorrectionPlan
plan_correction s period m now target =
    let (received, transmitted) = live_reported s m.boot_id m.rx m.tx in
    correct s m now received transmitted target >>= λ corrected.
    ok (plan_of s period received transmitted corrected)
