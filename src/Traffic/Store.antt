-- ===== src/Traffic/Store.antt =====
-- src/traffic.rs and the state file of src/config.rs: the two writers of the accounting state, and
-- its reader. A storage says which of its operations fail.
pub mod Tasks
pub mod Failures
pub mod SetUsed
use singbox_sub_me.Prelude.{
  ℕ, ◌≡◌, String, Bool, true, false, ◌&&◌, not, Option, none, some, str_eq, ◌==◌, if◌then◌else◌,
  Result, ok, err, ◌>>=◌, ◌>>◌, reject_if, ℤ,
}
use singbox_sub_me.Traffic.{
  TrafficState, TrafficError, ConfigError, storage, state_corrupt, state_schema_mismatch,
  storage_failed, state_missing, state_stale, state_schema_version, AccountingPeriod, Measurements,
  Instant, CorrectionTarget, CorrectionPlan, CorrectionPreview, new, accumulate, live_reported,
  total_adjustment, corrected_total, plan_correction,
}
use singbox_sub_me.Traffic.Metering.{IsBounded}

-- `serde_json` on the state, whose numbers are `u64`, and the equality of its texts.
pub record StateCodec : Type 1 where
  pub Bytes : Type 0
  pub from_slice : Bytes → Option TrafficState
  pub to_vec : TrafficState → Bytes
  pub same : Bytes → Bytes → Bool
  pub from_slice-to_vec : (s : TrafficState) → IsBounded s → from_slice (to_vec s) ≡ some s
  pub from_slice-IsBounded : (b : Bytes) {s : TrafficState} → from_slice b ≡ some s → IsBounded s
  pub same_sound : (a b : Bytes) → same a b ≡ true → a ≡ b

-- The part of `DeploymentConfig` that the meter reads.
pub record MeterConfig : Type 0 where
  pub interface : String
  pub monthly_traffic_limit : ℕ

pub record TrafficReport : Type 0 where
  pub interface : String
  pub received : ℕ
  pub transmitted : ℕ
  pub total_adjustment : ℤ
  pub monthly_traffic_limit : ℕ
  pub accounting_period : String
  pub next_reset : Instant

-- `TrafficReport::total`
abbrev pub report_total : TrafficReport → ℕ
report_total r = corrected_total r.received r.transmitted r.total_adjustment

pub report_from_state : MeterConfig → AccountingPeriod → TrafficState → Measurements → TrafficReport
report_from_state config period s m =
    let (received, transmitted) = live_reported s m.boot_id m.rx m.tx in
    record {
      interface = config.interface;
      received = received;
      transmitted = transmitted;
      total_adjustment = total_adjustment s;
      monthly_traffic_limit = config.monthly_traffic_limit;
      accounting_period = period.identity;
      next_reset = period.next_reset;
    }

-- The state's file, and which of the system's calls on it succeed.
pub record Storage (Bytes : Type 0) : Type 0 where
  pub state_file : Option Bytes
  pub lock_works : Bool
  pub read_works : Bool
  pub write_works : Bool
  pub owner_works : Bool

abbrev pub in_storage {ℓ} : {A : Type ℓ} → Result ConfigError A → Result TrafficError A
in_storage (ok a) = ok a
in_storage (err e) = err (storage_failed e)

-- The state belongs to this period and interface.
abbrev pub is_current : AccountingPeriod → MeterConfig → TrafficState → Bool
is_current period config s =
    str_eq s.cycle_key period.cycle_key && str_eq s.interface config.interface

module _ (codec : StateCodec) where
  open codec use {Bytes, from_slice, to_vec, same}

  abbrev pub decode_state : Bytes → Result ConfigError TrafficState
  decode_state contents = elim (from_slice contents) [
    | none ↦ err state_corrupt
    | some s ↦
        if s.schema_version == state_schema_version
        then ok s
        else err (state_schema_mismatch s.schema_version)
  ]

  abbrev pub read_state : Storage Bytes → Result ConfigError (Option Bytes)
  read_state disk = if disk.read_works then ok disk.state_file else err storage

  -- `atomic_write` and then `enforce_live_file_owner`.
  abbrev pub write_state : Bytes → Storage Bytes → Result ConfigError (Unit {0}) × Storage Bytes
  write_state contents disk =
      if disk.write_works
      then (
        if disk.owner_works then ok tt else err storage,
        record disk { state_file = some contents },
      )
      else (err storage, disk)

  abbrev pub is_same : Option Bytes → Bytes → Bool
  is_same none contents = false
  is_same (some prior) contents = same prior contents

  abbrev pub commit {ℓ} :
      {A : Type ℓ}
      → Storage Bytes
      → Option Bytes
      → Result ConfigError (Bytes × A)
      → Result ConfigError A × Storage Bytes
  commit disk prior (err e) = (err e, disk)
  commit disk prior (ok (contents, a)) =
      if is_same prior contents
      then (ok a, disk)
      else let (written, after) = write_state contents disk in (written >>= λ _. ok a, after)

  -- `DeploymentStore::update_state`; the closure also gives what it leaves in the caller's variable.
  abbrev pub update_state {ℓ} :
      {A : Type ℓ}
      → Storage Bytes
      → (Option Bytes → Result ConfigError (Bytes × A))
      → Result ConfigError A × Storage Bytes
  update_state disk update =
      if disk.lock_works
      then elim (read_state disk) [
        | err e ↦ (err e, disk)
        | ok prior ↦ commit disk prior (update prior)
      ]
      else (err storage, disk)

  abbrev pub fresh : MeterConfig → AccountingPeriod → Measurements → TrafficState
  fresh config period m = new period.cycle_key config.interface m.boot_id m.rx m.tx

  abbrev pub prior_state :
      MeterConfig → AccountingPeriod → Measurements → Option Bytes → Result ConfigError TrafficState
  prior_state config period m none = ok (fresh config period m)
  prior_state config period m (some contents) = decode_state contents

  -- The state that the reset task leaves, from the prior one.
  abbrev pub next_state :
      MeterConfig → AccountingPeriod → Measurements → TrafficState → TrafficState
  next_state config period m s =
      if is_current period config s then accumulate s m.boot_id m.rx m.tx else fresh config period m

  -- The closure of `reset_with_runtime`.
  unfoldable pub reconcile :
      MeterConfig
      → AccountingPeriod
      → Measurements
      → Option Bytes
      → Result ConfigError (Bytes × TrafficState)
  reconcile config period m prior = do
    s ← prior_state config period m prior
    ok (to_vec (next_state config period m s), next_state config period m s)

  unfoldable pub reset :
      Storage Bytes
      → MeterConfig
      → Result TrafficError AccountingPeriod
      → Result TrafficError Measurements
      → Result TrafficError TrafficReport × Storage Bytes
  reset disk config (err e) measured = (err e, disk)
  reset disk config (ok period) (err e) = (err e, disk)
  reset disk config (ok period) (ok m) =
      let (result, after) = update_state disk (reconcile config period m) in
      (in_storage result >>= λ s. ok (report_from_state config period s m), after)

  abbrev pub present {ℓ} : {A : Type ℓ} → Option A → Result TrafficError A
  present none = err state_missing
  present (some a) = ok a

  -- The current state, for the reader and for the correction.
  abbrev pub load :
      Storage Bytes → MeterConfig → AccountingPeriod → Result TrafficError TrafficState
  load disk config period = do
    file ← in_storage (read_state disk)
    contents ← present file
    s ← in_storage (decode_state contents)
    reject_if (not (is_current period config s)) state_stale
    ok s

  unfoldable pub report :
      Storage Bytes
      → MeterConfig
      → Result TrafficError AccountingPeriod
      → Result TrafficError Measurements
      → Result TrafficError TrafficReport
  report disk config scheduled measured = do
    period ← scheduled
    s ← load disk config period
    m ← measured
    ok (report_from_state config period s m)

  abbrev pub write_plan :
      Storage Bytes
      → Result TrafficError CorrectionPlan
      → Result TrafficError CorrectionPreview × Storage Bytes
  write_plan disk (err e) = (err e, disk)
  write_plan disk (ok plan) =
      let (written, after) = write_state (to_vec plan.state) disk in
      (in_storage written >>= λ _. ok plan.preview, after)

  unfoldable pub set_used :
      Storage Bytes
      → MeterConfig
      → Result TrafficError AccountingPeriod
      → Result TrafficError Measurements
      → Instant
      → CorrectionTarget
      → Result TrafficError CorrectionPreview × Storage Bytes
  set_used disk config scheduled measured now target = write_plan disk (do
    period ← scheduled
    reject_if (not disk.lock_works) (storage_failed storage)
    s ← load disk config period
    m ← measured
    plan_correction s period m now target)
