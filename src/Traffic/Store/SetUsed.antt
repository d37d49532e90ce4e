-- ===== src/Traffic/Store/SetUsed.antt =====
-- A correction on a storage that works, followed by a read.
use singbox_sub_me.Prelude.{
  ◌+◌, ◌≤◌, ◌≡◌, refl, sym, ap, ◌∙◌, true, some, not, arith, Result, ok, ◌>>=◌, reject_if, u64_max,
}
use singbox_sub_me.Traffic.{
  TrafficState, TrafficError, storage, storage_failed, AccountingPeriod, Measurements, Instant,
  CorrectionTarget, total, directions, CorrectionPlan, plan_correction,
}
use singbox_sub_me.Traffic.Metering.{IsBounded}
use singbox_sub_me.Traffic.Store.{
  StateCodec, MeterConfig, TrafficReport, report_total, report_from_state, Storage, write_plan,
  load, report, set_used,
}
use singbox_sub_me.Traffic.Correction.{IsSound, IsSameAccount, correct_total, correct_directions}
use singbox_sub_me.Traffic.Store.Tasks.{IsReadable, report-readable, Works, with_file}

-- The target fits the machine's counters.
abbrev pub IsAchievable : CorrectionTarget → Type 0
IsAchievable (total t) = t ≤ u64_max
IsAchievable (directions rx tx) = rx + tx ≤ u64_max

-- The report shows what was asked for.
abbrev pub Shows : CorrectionTarget → TrafficReport → Type 0
Shows (total t) r = report_total r ≡ t
Shows (directions rx tx) r = (r.received ≡ rx) × (r.transmitted ≡ tx)

load-readable :
    (codec : StateCodec) (disk : Storage codec.Bytes) (config : MeterConfig)
    (period : AccountingPeriod) (b : codec.Bytes) (s : TrafficState)
    → disk.read_works ≡ true
    → disk.state_file ≡ some b
    → codec.from_slice b ≡ some s
    → IsReadable config period s
    → load codec disk config period ≡ ok s
load-readable codec disk config period b s works file decoded readable =
    ground (arith, works, file, decoded, readable.versioned, readable.current)

-- What a plan that keeps the account commits, a read accepts.
same_account-IsReadable :
    (config : MeterConfig) (period : AccountingPeriod) (s after : TrafficState)
    → IsReadable config period s
    → IsSameAccount s after
    → IsBounded after
    → IsReadable config period after
same_account-IsReadable config period s after readable (v, c, i) bounded = record {
  versioned = v ∙ readable.versioned;
  current = rw (c, i) readable.current;
  bounded = bounded;
}

plan-Shows :
    (s : TrafficState) (config : MeterConfig) (period : AccountingPeriod) (m : Measurements)
    (now : Instant) (target : CorrectionTarget)
    → IsSound s
    → IsAchievable target
    → (plan : CorrectionPlan) × (plan_correction s period m now target ≡ ok plan)
      × IsSound plan.state
      × IsSameAccount s plan.state
      × Shows target (report_from_state config period plan.state m)
      × (report_total (report_from_state config period plan.state m) ≡ plan.preview.target_total)
unfolding report_from_state
plan-Shows s config period m now (total t) sound small =
    let (plan, done, after, live, reached, previewed, account) =
      correct_total s period m now t sound small in
    let shown : report_total (report_from_state config period plan.state m) ≡ t = rw live reached in
    (plan, done, after, account, shown, shown ∙ sym previewed)
plan-Shows s config period m now (directions rx tx) sound small =
    let (plan, done, after, live, later, previewed, account) =
      correct_directions s period m now rx tx 0 0 sound small in
    (plan, done, after, account, rw live (refl, refl), rw (live, previewed) refl)

write_plan-Works :
    (codec : StateCodec) (disk : Storage codec.Bytes) (plan : CorrectionPlan)
    → Works disk
    → write_plan codec disk (ok plan) ≡ (ok plan.preview, with_file (codec.to_vec plan.state) disk)
write_plan-Works codec disk plan works = ground (arith, works)

-- On a storage that works and holds a current state of the meter's own making, a correction to
-- values that fit succeeds, and a read at the same instant reports what was asked for, its total
-- the one that the preview announced. The state stays one of the meter's own making.
pub set_used_then_report :
    (codec : StateCodec) (disk : Storage codec.Bytes) (config : MeterConfig)
    (period : AccountingPeriod) (m : Measurements) (now : Instant) (target : CorrectionTarget)
    (b : codec.Bytes) (s : TrafficState)
    → Works disk
    → disk.state_file ≡ some b
    → codec.from_slice b ≡ some s
    → IsReadable config period s
    → IsSound s
    → IsAchievable target
    → (plan : CorrectionPlan) × (r : TrafficReport) × (set_used codec disk config
          (ok period)
          (ok m)
          now
          target
        ≡ (ok plan.preview, with_file (codec.to_vec plan.state) disk))
      × (report codec (with_file (codec.to_vec plan.state) disk) config (ok period) (ok m) ≡ ok r)
      × Shows target r
      × (report_total r ≡ plan.preview.target_total)
      × IsSound plan.state
unfolding set_used
set_used_then_report codec disk config period m now target b s works file decoded readable sound
      small =
    let (plan, done, after, account, shown, previewed) =
      plan-Shows s config period m now target sound small in
    let accepted =
      same_account-IsReadable config period s plan.state readable account after.bounded in
    let loaded = load-readable codec disk config period b s works.1 file decoded readable in
    let planned : ◌≡◌ {A = Result TrafficError CorrectionPlan}
        (reject_if (not disk.lock_works) (storage_failed storage) >>= λ _.
          load codec disk config period >>= λ s. plan_correction s period m now target)
        (ok plan) =
      ground (arith, works, loaded, done) in
    (
      plan,
      report_from_state config period plan.state m,
      ap (write_plan codec disk) planned ∙ write_plan-Works codec disk plan works,
      report-readable codec (with_file (codec.to_vec plan.state) disk) config period m plan.state
          works.1 refl accepted,
      shown,
      previewed,
      after,
    )
