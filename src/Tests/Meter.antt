-- ===== src/Tests/Meter.antt =====
-- Instances of the theorems on src/traffic.rs.
use singbox_sub_me.Prelude.{
  ◌+◌, ◌≡◌, refl, true, false, ◌&&◌, Option, some, none, List, [], ◌∷◌, leb, arith, ok, u64_max,
  if◌then◌else◌,
}
use singbox_sub_me.Traffic.{
  TrafficState, AccountingPeriod, Measurements, CorrectionPlan, total, directions, active, new,
  accumulate, live_reported, total_adjustment, plan_correction,
}
use singbox_sub_me.Traffic.Metering.{
  IsBounded, Sample, accumulate_all, advances, received, transmitted, capped, accumulate_all_sums,
  polling_schedule,
}
use singbox_sub_me.Traffic.Correction.{IsSound, new-IsSound}
use singbox_sub_me.Traffic.Store.{
  StateCodec, Storage, MeterConfig, TrafficReport, report_total, is_current, prior_state, reset,
  report, reconcile, set_used,
}
use singbox_sub_me.Traffic.Store.Tasks.{IsReadable, with_file, reset_then_report}
use singbox_sub_me.Traffic.Store.Failures.{IsErr, set_used_keeps}
use singbox_sub_me.Traffic.Store.SetUsed.{Shows, set_used_then_report}

abbrev started : TrafficState
started = new "2026-11" "eth0" "boot-a" 100 200

started-IsSound : IsSound started
started-IsSound = new-IsSound "2026-11" "eth0" "boot-a" 100 200

-- A reboot, and then a rollback of one counter.
abbrev polls : List Sample
polls = ("boot-a", 150, 260) ∷ ("boot-b", 10, 20) ∷ ("boot-b", 40, 5) ∷ []

accumulate_all_sums_example :
    ((accumulate_all polls started).accumulated_rx
      ≡ capped
          (started.accumulated_rx + advances received started.boot_id started.baseline_rx polls))
    × ((accumulate_all polls started).accumulated_tx
        ≡ capped (
            started.accumulated_tx
            + advances transmitted started.boot_id started.baseline_tx polls))
accumulate_all_sums_example = accumulate_all_sums polls started started-IsSound.bounded

polling_schedule_example :
    accumulate (accumulate_all (("boot-a", 150, 260) ∷ []) started) "boot-a" 170 270
    ≡ accumulate started "boot-a" 170 270
unfolding new
polling_schedule_example =
    polling_schedule (("boot-a", 150, 260) ∷ []) started "boot-a" 170 270 started-IsSound.bounded
      (refl, omega arith, omega arith, (refl, omega arith, omega arith))

abbrev november : AccountingPeriod
november = active "2026-11" 1000

abbrev measured : Measurements
measured = record { rx = 150; tx = 260; boot_id = "boot-a" }

abbrev decode_plain : TrafficState → Option TrafficState
decode_plain s =
    if leb s.accumulated_rx u64_max && leb s.accumulated_tx u64_max then some s else none

decode_plain-bounded : (s : TrafficState) → IsBounded s → decode_plain s ≡ some s
decode_plain-bounded s bounded = ground (arith, bounded.rx_bounded, bounded.tx_bounded)

decode_plain-IsBounded : (b s : TrafficState) → decode_plain b ≡ some s → IsBounded s
decode_plain-IsBounded b s e = record { rx_bounded = ground arith; tx_bounded = ground arith }

-- Texts that are states with counters in range.
abbrev state_codec : StateCodec
state_codec = record {
  Bytes = TrafficState;
  from_slice = decode_plain;
  to_vec = λ s. s;
  same = λ a b. false;
  from_slice-to_vec = decode_plain-bounded;
  from_slice-IsBounded = λ b {s} e. decode_plain-IsBounded b s e;
  same_sound = λ a b e. cc;
}

abbrev disk : Storage TrafficState
disk = record {
  state_file = some started;
  lock_works = true;
  read_works = true;
  write_works = true;
  owner_works = true;
}

abbrev meter : MeterConfig
meter = record { interface = "eth0"; monthly_traffic_limit = 1000000 }

started-read : prior_state state_codec meter november measured (some started) ≡ ok started
unfolding new
started-read = refl

reset_then_report_example :
    (r : TrafficReport) × (after : Storage TrafficState) × (reset state_codec disk meter
        (ok november)
        (ok measured)
      ≡ (ok r, after))
    × (report state_codec after meter (ok november) (ok measured) ≡ ok r)
    × ((r.received, r.transmitted) ≡ (
        if is_current november meter started
        then live_reported started "boot-a" 150 260
        else (0, 0)))
reset_then_report_example =
    reset_then_report state_codec disk meter november measured started (refl, refl, refl, refl)
      started-read

started-IsReadable : IsReadable meter november started
unfolding new
started-IsReadable = record { versioned = refl; current = refl; bounded = started-IsSound.bounded }

set_used_then_report_example :
    (plan : CorrectionPlan) × (r : TrafficReport) × (set_used state_codec disk meter
        (ok november)
        (ok measured)
        7
        (total 5000)
      ≡ (ok plan.preview, with_file plan.state disk))
    × (report state_codec (with_file plan.state disk) meter (ok november) (ok measured) ≡ ok r)
    × Shows (total 5000) r
    × (report_total r ≡ plan.preview.target_total)
    × IsSound plan.state
unfolding new
set_used_then_report_example =
    set_used_then_report state_codec disk meter november measured 7 (total 5000) started started
      (refl, refl, refl, refl) refl refl started-IsReadable started-IsSound (omega arith)

-- A disk that is full.
abbrev full_disk : Storage TrafficState
full_disk = record disk { write_works = false }

full_disk-fails : IsErr (reset state_codec full_disk meter (ok november) (ok measured)).0
unfolding reset reconcile new accumulate
full_disk-fails = tt

full_disk-refuses :
    IsErr (set_used state_codec full_disk meter (ok november) (ok measured) 7 (directions 1 2)).0
unfolding set_used new plan_correction live_reported total_adjustment
full_disk-refuses = tt

set_used_keeps_example :
    (set_used state_codec full_disk meter (ok november) (ok measured) 7 (directions 1 2)).1
    ≡ full_disk
set_used_keeps_example =
    set_used_keeps state_codec full_disk meter (ok november) (ok measured) 7 (directions 1 2) refl
      full_disk-refuses
