-- ===== src/Traffic/Store/Tasks.antt =====
-- The reset task and the correction, followed by a read: what they committed is what is reported.
use singbox_sub_me.Prelude.{
  ◌≡◌, refl, ap, ◌∙◌, true, Option, none, some, arith, eq_refl, Result, ok, ◌>>=◌, if◌then◌else◌,
  Bool-cases, Option-cases, inl, inr,
}
use singbox_sub_me.Traffic.{
  TrafficState, ConfigError, state_schema_version, AccountingPeriod, Measurements, new, accumulate,
  live_reported,
}
use singbox_sub_me.Traffic.Metering.{IsBounded, accumulate-IsBounded, live_reported-accumulate}
use singbox_sub_me.Traffic.Store.{
  StateCodec, MeterConfig, TrafficReport, report_from_state, Storage, is_current, fresh,
  prior_state, next_state, in_storage, commit, reconcile, update_state, reset, report,
}

-- A state that a read accepts.
pub record IsReadable (config : MeterConfig) (period : AccountingPeriod) (s : TrafficState)
    : Type 0 where
  pub versioned : s.schema_version ≡ state_schema_version
  pub current : is_current period config s ≡ true
  pub bounded : IsBounded s

fresh-IsReadable :
    (codec : StateCodec) (config : MeterConfig) (period : AccountingPeriod) (m : Measurements)
    → IsReadable config period (fresh codec config period m)
unfolding new
fresh-IsReadable codec config period m = record {
  versioned = refl;
  current = rw (eq_refl config.interface, eq_refl period.cycle_key) refl;
  bounded = record { rx_bounded = omega arith; tx_bounded = omega arith };
}

accumulate-IsReadable :
    (config : MeterConfig) (period : AccountingPeriod) (m : Measurements) (s : TrafficState)
    → IsReadable config period s
    → IsReadable config period (accumulate s m.boot_id m.rx m.tx)
accumulate-IsReadable config period m s readable = record {
  versioned = unfold accumulate in readable.versioned;
  current = unfold accumulate in readable.current;
  bounded = accumulate-IsBounded s m.boot_id m.rx m.tx readable.bounded;
}

-- A read of a file that holds such a state reports it.
pub report-readable :
    (codec : StateCodec) (disk : Storage codec.Bytes) (config : MeterConfig)
    (period : AccountingPeriod) (m : Measurements) (s : TrafficState)
    → disk.read_works ≡ true
    → disk.state_file ≡ some (codec.to_vec s)
    → IsReadable config period s
    → report codec disk config (ok period) (ok m) ≡ ok (report_from_state config period s m)
unfolding report
report-readable codec disk config period m s works file readable = ground (
  arith,
  works,
  file,
  codec.from_slice-to_vec s readable.bounded,
  readable.versioned,
  readable.current,
)

prior_sound :
    (codec : StateCodec) (config : MeterConfig) (period : AccountingPeriod) (m : Measurements)
    (prior : Option codec.Bytes) {s : TrafficState}
    → prior_state codec config period m prior ≡ ok s
    → (s.schema_version ≡ state_schema_version) × IsBounded s
prior_sound codec config period m none {s} e =
    unfold new in (ground arith, record { rx_bounded = ground arith; tx_bounded = ground arith })
prior_sound codec config period m (some b) {s} e = elim (Option-cases (codec.from_slice b)) [
  | inl corrupt ↦ absurd (ground (arith, corrupt))
  | inr (t, decoded) ↦
      let same : s ≡ t = ground (arith, decoded) in
      (ground (arith, decoded), rw same (codec.from_slice-IsBounded b decoded))
]

next-IsReadable :
    (codec : StateCodec) (config : MeterConfig) (period : AccountingPeriod) (m : Measurements)
    (s : TrafficState)
    → s.schema_version ≡ state_schema_version
    → IsBounded s
    → IsReadable config period (next_state codec config period m s)
next-IsReadable codec config period m s versioned bounded =
    elim (Bool-cases (is_current period config s)) [
      | inl current ↦ rw current (
          accumulate-IsReadable config period m s
            (record { versioned = versioned; current = current; bounded = bounded }))
      | inr stale ↦ rw stale (fresh-IsReadable codec config period m)
    ]

abbrev pub Works : {Bytes : Type 0} → Storage Bytes → Type 0
Works disk =
    (disk.lock_works ≡ true)
    × (disk.read_works ≡ true)
    × (disk.write_works ≡ true)
    × (disk.owner_works ≡ true)

abbrev pub with_file : {Bytes : Type 0} → Bytes → Storage Bytes → Storage Bytes
with_file contents disk = record disk { state_file = some contents }

-- A write that is left out, since the file holds the contents already, makes no difference.
commit-file :
    {A : Type 0} (codec : StateCodec) (disk : Storage codec.Bytes) (contents : codec.Bytes) (a : A)
    → Works disk
    → commit codec disk disk.state_file (ok (contents, a)) ≡ (ok a, with_file contents disk)
commit-file codec disk contents a works = elim (Option-cases disk.state_file) [
  | inl missing ↦ ground (arith, missing)
  | inr (prior, there) ↦ elim (Bool-cases (codec.same prior contents)) [
    | inl same ↦ ground (arith, there, same, codec.same_sound prior contents same)
    | inr differs ↦ ground (arith, there, differs)
  ]
]

pub update_state-reads :
    {A : Type 0} (codec : StateCodec) (disk : Storage codec.Bytes)
    (f : Option codec.Bytes → Result ConfigError (codec.Bytes × A))
    → disk.lock_works ≡ true
    → disk.read_works ≡ true
    → update_state codec disk f ≡ commit codec disk disk.state_file (f disk.state_file)
update_state-reads codec disk f locks reads = ground (arith, locks, reads)

reconcile-next :
    (codec : StateCodec) (config : MeterConfig) (period : AccountingPeriod) (m : Measurements)
    (prior : Option codec.Bytes) {s : TrafficState}
    → prior_state codec config period m prior ≡ ok s
    → reconcile codec config period m prior
      ≡ ok (codec.to_vec (next_state codec config period m s), next_state codec config period m s)
unfolding reconcile
reconcile-next codec config period m prior e = rw (reconcile, e) refl

reset-commits :
    (codec : StateCodec) (disk : Storage codec.Bytes) (config : MeterConfig)
    (period : AccountingPeriod) (m : Measurements) {s : TrafficState}
    → Works disk
    → prior_state codec config period m disk.state_file ≡ ok s
    → reset codec disk config (ok period) (ok m) ≡ (
      ok (report_from_state config period (next_state codec config period m s) m),
      with_file (codec.to_vec (next_state codec config period m s)) disk,
    )
unfolding reset
reset-commits codec disk config period m {s} works prior =
    let next = next_state codec config period m s in
    ap
      (λ ((result, after) : Result ConfigError TrafficState × Storage codec.Bytes).
        (in_storage result >>= λ t. ok (report_from_state config period t m), after))
      (update_state-reads codec disk (reconcile codec config period m) works.0 works.1
        ∙ ap (commit codec disk disk.state_file)
            (reconcile-next codec config period m disk.state_file prior)
        ∙ commit-file codec disk (codec.to_vec next) next works)

reported-fresh :
    (codec : StateCodec) (config : MeterConfig) (period : AccountingPeriod) (m : Measurements)
    → live_reported (fresh codec config period m) m.boot_id m.rx m.tx ≡ (0, 0)
unfolding live_reported new
reported-fresh codec config period m = ground (arith, eq_refl m.boot_id)

reported-next :
    (codec : StateCodec) (config : MeterConfig) (period : AccountingPeriod) (m : Measurements)
    (s : TrafficState)
    → IsBounded s
    → live_reported (next_state codec config period m s) m.boot_id m.rx m.tx
      ≡ (if is_current period config s then live_reported s m.boot_id m.rx m.tx else (0, 0))
reported-next codec config period m s bounded = elim (Bool-cases (is_current period config s)) [
  | inl current ↦ rw current (live_reported-accumulate s m.boot_id m.rx m.tx bounded).0
  | inr stale ↦ rw stale (reported-fresh codec config period m)
]

-- On a storage that works, the reset task commits the next state of whatever prior state there is,
-- from a missing file, a stale one or a current one, and a read at the same instant then gives the
-- task's own report. For a current prior state that is what a read before the task would report;
-- for any other the period starts at zero.
pub reset_then_report :
    (codec : StateCodec) (disk : Storage codec.Bytes) (config : MeterConfig)
    (period : AccountingPeriod) (m : Measurements) (s : TrafficState)
    → Works disk
    → prior_state codec config period m disk.state_file ≡ ok s
    → (r : TrafficReport) × (after : Storage codec.Bytes) × (reset codec disk config
          (ok period)
          (ok m)
        ≡ (ok r, after))
      × (report codec after config (ok period) (ok m) ≡ ok r)
      × ((r.received, r.transmitted)
          ≡ (if is_current period config s then live_reported s m.boot_id m.rx m.tx else (0, 0)))
reset_then_report codec disk config period m s works prior =
    let (versioned, bounded) = prior_sound codec config period m disk.state_file prior in
    let next = next_state codec config period m s in
    let readable = next-IsReadable codec config period m s versioned bounded in
    let after = with_file (codec.to_vec next) disk in
    (
      report_from_state config period next m,
      after,
      reset-commits codec disk config period m works prior,
      report-readable codec after config period m next works.1 refl readable,
      unfold report_from_state in reported-next codec config period m s bounded,
    )
