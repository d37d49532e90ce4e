-- ===== src/Traffic/Correction.antt =====
-- The administrator's corrections: what they set is what is reported, and they never overflow on
-- the states that the meter itself makes.
use singbox_sub_me.Prelude.{
  ℕ, ◌+◌, ◌≤◌, ◌<◌, ◌≡◌, refl, ap, ◌∙◌, String, true, none, some, List, [], ◌∷◌, ◌++◌, arith,
  eq_refl, ok, err, ◌>>=◌, ℤ, pos, negsuc, ◌⊖◌, ◌-ℤ◌, fits, clamp, u64_max, i128_max,
  saturating_add, checked_add, signed_saturating_add, signed_checked_sub, sub-add, clamp-fits,
  fits-sub, fits_weaken,
}
use singbox_sub_me.Traffic.{
  TrafficState, overflow, Measurements, AccountingPeriod, Instant, CorrectionRecord, total_only,
  set_direction, total, directions, CorrectionPlan, adjustment_of, fold_adjustments,
  total_adjustment, corrected_total, live_reported, accumulate, new, correct_by, correct_to,
  plan_of, plan_correction,
}
use singbox_sub_me.Traffic.Metering.{IsBounded, accumulate-IsBounded}

-- Twice `u64::MAX`: the largest adjustment that a correction asks for.
abbrev adjustment_bound : ℕ
adjustment_bound = u64_max + u64_max

pub record IsSound (s : TrafficState) : Type 0 where
  pub bounded : IsBounded s
  pub adjustable : fits adjustment_bound (total_adjustment s) ≡ true

fold-append :
    (cs : List CorrectionRecord) (c : CorrectionRecord) (z : ℤ)
    → fold_adjustments z (cs ++ c ∷ [])
      ≡ signed_saturating_add (fold_adjustments z cs) (adjustment_of c)
fold-append [] c z = refl
fold-append (d ∷ cs) c z = fold-append cs c (signed_saturating_add z (adjustment_of d))

pub new-IsSound :
    (cycle_key interface boot_id : String) (rx tx : ℕ)
    → IsSound (new cycle_key interface boot_id rx tx)
unfolding new total_adjustment
new-IsSound cycle_key interface boot_id rx tx = record {
  bounded = record { rx_bounded = omega arith; tx_bounded = omega arith };
  adjustable = refl;
}

pub accumulate-IsSound :
    (s : TrafficState) (boot_id : String) (rx tx : ℕ)
    → IsSound s
    → IsSound (accumulate s boot_id rx tx)
accumulate-IsSound s boot_id rx tx sound = record {
  bounded = accumulate-IsBounded s boot_id rx tx sound.bounded;
  adjustable = unfold total_adjustment accumulate in sound.adjustable;
}

live-IsBounded :
    (s : TrafficState) (boot_id : String) (rx tx : ℕ)
    → IsBounded s
    → ((live_reported s boot_id rx tx).0 ≤ u64_max) × ((live_reported s boot_id rx tx).1 ≤ u64_max)
unfolding live_reported
live-IsBounded s boot_id rx tx bounded = (ground arith, ground arith)

target-fits :
    (t sum : ℕ) → t ≤ u64_max → sum ≤ adjustment_bound → fits adjustment_bound (t ⊖ sum) ≡ true
target-fits t sum h k = ground arith

-- The offset that a total correction stores is in range, and brings the adjustment to the target.
offset-reaches :
    (target now : ℤ)
    → fits adjustment_bound target ≡ true
    → fits adjustment_bound now ≡ true
    → (signed_checked_sub target now ≡ some (target -ℤ now))
      × (signed_saturating_add now (target -ℤ now) ≡ target)
offset-reaches target now h k =
    let small = fits-sub adjustment_bound adjustment_bound target now h k in
    let in_range =
      fits_weaken (adjustment_bound + adjustment_bound + 1) i128_max (target -ℤ now) (omega arith)
        small in
    let reached =
      clamp-fits i128_max target (fits_weaken adjustment_bound i128_max target (omega arith) h) in
    (rw in_range refl, ap (clamp i128_max) (sub-add target now) ∙ reached)

corrected_total-target :
    (received transmitted t : ℕ)
    → t ≤ u64_max
    → received ≤ u64_max
    → transmitted ≤ u64_max
    → corrected_total received transmitted (t ⊖ (received + transmitted)) ≡ t
unfolding corrected_total
corrected_total-target received transmitted t h k l = ground arith

rebound :
    (s after : TrafficState)
    → IsBounded s
    → after.accumulated_rx ≡ s.accumulated_rx
    → after.accumulated_tx ≡ s.accumulated_tx
    → IsBounded after
rebound s after bounded e f = record {
  rx_bounded = rw e bounded.rx_bounded;
  tx_bounded = rw f bounded.tx_bounded;
}

-- The two states meter the same period and interface.
abbrev pub IsSameAccount : TrafficState → TrafficState → Type 0
IsSameAccount s after =
    (after.schema_version ≡ s.schema_version)
    × (after.cycle_key ≡ s.cycle_key)
    × (after.interface ≡ s.interface)

-- A total that is set is the total that is reported, the directions untouched, from any state that
-- the meter makes: the correction never fails there, and its result is such a state again.
pub correct_total :
    (s : TrafficState) (period : AccountingPeriod) (m : Measurements) (now : Instant) (t : ℕ)
    → IsSound s
    → t ≤ u64_max
    → (plan : CorrectionPlan) × (plan_correction s period m now (total t) ≡ ok plan)
      × IsSound plan.state
      × (live_reported plan.state m.boot_id m.rx m.tx ≡ live_reported s m.boot_id m.rx m.tx)
      × (corrected_total
            (live_reported s m.boot_id m.rx m.tx).0
            (live_reported s m.boot_id m.rx m.tx).1
            (total_adjustment plan.state)
          ≡ t)
      × (plan.preview.target_total ≡ t)
      × IsSameAccount s plan.state
unfolding plan_correction
correct_total s period m now t sound small =
    let (received, transmitted) = live_reported s m.boot_id m.rx m.tx in
    let (h, k) = live-IsBounded s m.boot_id m.rx m.tx sound.bounded in
    let target = t ⊖ (received + transmitted) in
    let target_ok = target-fits t (received + transmitted) small (omega (arith, h, k)) in
    let (offset, reached) = offset-reaches target (total_adjustment s) target_ok sound.adjustable in
    let corrected = record s {
      corrections = s.corrections ++ total_only (target -ℤ total_adjustment s) now ∷ [];
    } in
    let adjustment : total_adjustment corrected ≡ target =
      unfold total_adjustment in
      fold-append s.corrections (total_only (target -ℤ total_adjustment s) now) (pos 0) ∙ reached in
    (
      plan_of s period received transmitted (corrected, received, transmitted, t),
      ap
          (λ o. correct_by s now received transmitted t o >>= λ c.
            ok (plan_of s period received transmitted c))
          offset,
      record {
        bounded = rebound s corrected sound.bounded refl refl;
        adjustable = rw adjustment target_ok;
      },
      unfold live_reported in refl,
      rw adjustment (corrected_total-target received transmitted t small h k),
      refl,
      (refl, refl, refl),
    )

add-zero : (z : ℤ) → fits adjustment_bound z ≡ true → signed_saturating_add z (pos 0) ≡ z
add-zero (pos n) h = ground arith
add-zero (negsuc n) h = ground arith

-- Directions that are set are the directions that are reported, and what the counters gain after
-- that is added to them; the preview's total is the one that will be reported. The correction
-- succeeds where the two fit a `u64` together, from any state that the meter makes.
pub correct_directions :
    (s : TrafficState) (period : AccountingPeriod) (m : Measurements) (now : Instant)
    (rx tx rx' tx' : ℕ)
    → IsSound s
    → rx + tx ≤ u64_max
    → (plan : CorrectionPlan) × (plan_correction s period m now (directions rx tx) ≡ ok plan)
      × IsSound plan.state
      × (live_reported plan.state m.boot_id m.rx m.tx ≡ (rx, tx))
      × (live_reported plan.state m.boot_id (m.rx + rx') (m.tx + tx')
          ≡ (saturating_add rx rx', saturating_add tx tx'))
      × (plan.preview.target_total ≡ corrected_total rx tx (total_adjustment plan.state))
      × IsSameAccount s plan.state
unfolding plan_correction
correct_directions s period m now rx tx rx' tx' sound small =
    let (received, transmitted) = live_reported s m.boot_id m.rx m.tx in
    let corrected = record s {
      accumulated_rx = rx;
      accumulated_tx = tx;
      baseline_rx = m.rx;
      baseline_tx = m.tx;
      boot_id = m.boot_id;
      corrections = s.corrections ++ set_direction rx tx now ∷ [];
    } in
    let fitting : checked_add rx tx ≡ some (rx + tx) = ground arith in
    let adjustment : total_adjustment corrected ≡ total_adjustment s =
      unfold total_adjustment in
      fold-append s.corrections (set_direction rx tx now) (pos 0)
      ∙ add-zero (total_adjustment s) sound.adjustable in
    (
      plan_of s period received transmitted
          (corrected, rx, tx, corrected_total rx tx (total_adjustment corrected)),
      ap (λ o. correct_to s m now rx tx o >>= λ c. ok (plan_of s period received transmitted c))
          fitting,
      record {
        bounded = record { rx_bounded = omega (arith, small); tx_bounded = omega (arith, small) };
        adjustable = rw adjustment sound.adjustable;
      },
      unfold live_reported in ground (arith, eq_refl m.boot_id),
      unfold live_reported in ground (arith, eq_refl m.boot_id),
      refl,
      (refl, refl, refl),
    )

-- Directions that overflow a `u64` together are refused.
pub correct_directions_overflow :
    (s : TrafficState) (period : AccountingPeriod) (m : Measurements) (now : Instant) (rx tx : ℕ)
    → u64_max < rx + tx
    → plan_correction s period m now (directions rx tx) ≡ err (overflow "target directional total")
unfolding plan_correction
correct_directions_overflow s period m now rx tx large =
    let refused : checked_add rx tx ≡ none = ground arith in
    let (received, transmitted) = live_reported s m.boot_id m.rx m.tx in
    ap (λ o. correct_to s m now rx tx o >>= λ c. ok (plan_of s period received transmitted c))
      refused
