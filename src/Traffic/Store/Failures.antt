-- ===== src/Traffic/Store/Failures.antt =====
-- What a failure of the reset task or of a correction leaves behind.
use singbox_sub_me.Prelude.{
  ◌≡◌, refl, ap, ◌∙◌, true, Option, not, arith, Result, ok, err, ◌>>=◌, ◌>>◌, reject_if, Bool-cases,
  inl, inr,
}
use singbox_sub_me.Traffic.{
  TrafficError, ConfigError, storage, storage_failed, AccountingPeriod, Measurements, Instant,
  CorrectionTarget, CorrectionPlan, plan_correction,
}
use singbox_sub_me.Traffic.Store.{
  StateCodec, MeterConfig, report_from_state, Storage, is_same, in_storage, commit, reconcile,
  update_state, write_plan, load, reset, set_used,
}
use singbox_sub_me.Traffic.Store.Tasks.{update_state-reads}

abbrev pub IsErr {ℓ κ} : {E : Type ℓ} {A : Type κ} → Result E A → Type 0
IsErr (ok a) = ⊥
IsErr (err e) = Unit

commit_keeps :
    {A : Type 0} (codec : StateCodec) (disk : Storage codec.Bytes) (prior : Option codec.Bytes)
    (r : Result ConfigError (codec.Bytes × A))
    → disk.owner_works ≡ true
    → IsErr (commit codec disk prior r).0
    → (commit codec disk prior r).1 ≡ disk
commit_keeps codec disk prior (err e) owner failed = refl
commit_keeps codec disk prior (ok (contents, a)) owner failed =
    elim (Bool-cases (is_same codec prior contents)) [
      | inl same ↦ rw same refl
      | inr differs ↦ elim (Bool-cases disk.write_works) [
        | inl works ↦ absurd (rw (differs, works, owner) at failed)
        | inr fails ↦ ground (arith, differs, fails)
      ]
    ]

update_state_keeps :
    {A : Type 0} (codec : StateCodec) (disk : Storage codec.Bytes)
    (f : Option codec.Bytes → Result ConfigError (codec.Bytes × A))
    → disk.owner_works ≡ true
    → IsErr (update_state codec disk f).0
    → (update_state codec disk f).1 ≡ disk
update_state_keeps codec disk f owner failed = elim (Bool-cases disk.lock_works) [
  | inr fails ↦ ground (arith, fails)
  | inl works ↦ elim (Bool-cases disk.read_works) [
    | inr fails ↦ ground (arith, works, fails)
    | inl reads ↦
        let kept = commit_keeps codec disk disk.state_file (f disk.state_file) owner in
        ap (λ p. p.1) (update_state-reads codec disk f works reads)
        ∙ kept (rw (works, reads) at failed)
  ]
]

IsErr-in_storage :
    {A B : Type 0} (r : Result ConfigError A) (f : A → B)
    → IsErr (in_storage r >>= λ a. ok (f a))
    → IsErr r
IsErr-in_storage (ok a) f failed = failed
IsErr-in_storage (err e) f failed = tt

write_plan_keeps :
    (codec : StateCodec) (disk : Storage codec.Bytes) (p : Result TrafficError CorrectionPlan)
    → disk.owner_works ≡ true
    → IsErr (write_plan codec disk p).0
    → (write_plan codec disk p).1 ≡ disk
write_plan_keeps codec disk (err e) owner failed = refl
write_plan_keeps codec disk (ok plan) owner failed = elim (Bool-cases disk.write_works) [
  | inl works ↦ absurd (rw (works, owner) at failed)
  | inr fails ↦ ground (arith, fails)
]

-- A reset task that fails leaves the storage as it was, under the same condition: the owner of a
-- file that is written can be set.
reset_keeps :
    (codec : StateCodec) (disk : Storage codec.Bytes) (config : MeterConfig)
    (scheduled : Result TrafficError AccountingPeriod) (measured : Result TrafficError Measurements)
    → disk.owner_works ≡ true
    → IsErr (reset codec disk config scheduled measured).0
    → (reset codec disk config scheduled measured).1 ≡ disk
unfolding reset
reset_keeps codec disk config (err e) measured owner failed = refl
reset_keeps codec disk config (ok period) (err e) owner failed = refl
reset_keeps codec disk config (ok period) (ok m) owner failed =
    let update = update_state codec disk (reconcile codec config period m) in
    update_state_keeps codec disk (reconcile codec config period m) owner
      (IsErr-in_storage update.0 (λ s. report_from_state config period s m) failed)

-- A correction that fails, for whatever reason but the last, leaves the storage as it was: a missing
-- or stale state, an overflow, or a write that fails. The last reason is the handing over of the
-- file that has just been written to its owner.
pub set_used_keeps :
    (codec : StateCodec) (disk : Storage codec.Bytes) (config : MeterConfig)
    (scheduled : Result TrafficError AccountingPeriod) (measured : Result TrafficError Measurements)
    (now : Instant) (target : CorrectionTarget)
    → disk.owner_works ≡ true
    → IsErr (set_used codec disk config scheduled measured now target).0
    → (set_used codec disk config scheduled measured now target).1 ≡ disk
unfolding set_used
set_used_keeps codec disk config scheduled measured now target owner failed =
    write_plan_keeps codec disk
      (do
        period ← scheduled
        reject_if (not disk.lock_works) (storage_failed storage)
        s ← load codec disk config period
        m ← measured
        plan_correction s period m now target)
      owner failed
