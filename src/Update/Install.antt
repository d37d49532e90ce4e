-- ===== src/Update/Install.antt =====
-- src/update.rs: the guarantees of an update of both binaries.
use singbox_sub_me.Prelude.{
  ◌≡◌, refl, ap, ◌∙◌, String, true, false, Option, some, List, ◌⊎◌, inl, inr, str_eq, Result, ok,
  err, arith, eq_iff,
}
use singbox_sub_me.Http.Texts.{strip_prefix}
use singbox_sub_me.Config.Validation.{validate}
use singbox_sub_me.Disk.{Host, System, Io, ◌>>=◌, ◌>>◌, is_ok}
use singbox_sub_me.Disk.Frames.{view, Wrote, continue_post}
use singbox_sub_me.Update.{
  BackupEntry, Prepared, UpdateError, service_health, sbctl_path, sing_box_path, revalidate,
  replace_both, write_managed_binary, restart_or_roll_back, keep_or_restore, write_second,
}
use singbox_sub_me.Update.Restoring.{In, relatives, AreCopies}
use singbox_sub_me.Update.Ready.{Same}
use singbox_sub_me.Update.Outcomes.{
  is_unit, passed_on, binary-Wrote, binary_error, Mixed, RolledBack, KeptByRestart, restore-Mixed,
  settle-Ends,
}

module _ (system : System) (restart : Io (system.Bytes) UpdateError (Unit {0}))
    (restart_keeps : (h : Host (system.Bytes)) → KeptByRestart system h (restart h).1)
    (w : Host (system.Bytes)) (entries : List (BackupEntry (system.Bytes)))
    (copies : AreCopies system (view w) entries) (first : In sbctl_path (relatives entries))
    (second : In sing_box_path (relatives entries)) where
  open system use {Bytes}

  Same-Mixed :
      (sbctl sing_box : Option Bytes) (h : Host Bytes) → Same w h → Mixed system w sbctl sing_box h
  Same-Mixed sbctl sing_box h same q off unit = inl (same q off)

  -- A write of a candidate, done or not, leaves a mixture.
  write-Mixed :
      (sbctl sing_box : Option Bytes) (path : String) (contents : Bytes) (h : Host Bytes)
      → ((path ≡ sbctl_path) × (some contents ≡ sbctl))
        ⊎ ((path ≡ sing_box_path) × (some contents ≡ sing_box))
      → Mixed system w sbctl sing_box h
      → Mixed system w sbctl sing_box (write_managed_binary system path contents h).1
  write-Mixed sbctl sing_box path contents h which mixed q off unit =
      let wrote = binary-Wrote system path contents h in
      ground (arith, eq_iff q path, mixed q off unit, wrote.others q, wrote.either)

  -- What the replacement of the second binary leaves.
  record Second (sbctl sing_box : Option Bytes) (h : Host Bytes) (r : Result UpdateError (Unit {0}))
      (last : Host Bytes) : Type 0 where
    mixed : Mixed system w sbctl sing_box last
    honest : r ≡ err service_health → ⊥
    done :
        is_ok r ≡ true
        → (view last sing_box_path ≡ sing_box)
          × ((q : String) → str_eq q sing_box_path ≡ false → view last q ≡ view h q)

  keep_or_restore-Second :
      (sbctl sing_box : Option Bytes) (h : Host Bytes) (written : Result UpdateError (Unit {0}))
      (h' : Host Bytes)
      → Mixed system w sbctl sing_box h'
      → (written ≡ err service_health → ⊥)
      → Wrote sing_box_path sing_box h written h'
      → Second sbctl sing_box h
          (keep_or_restore system entries written h').0
          (keep_or_restore system entries written h').1
  keep_or_restore-Second sbctl sing_box h (ok u) h' mixed honest wrote = record {
    mixed = mixed;
    honest = λ e. cc;
    done = λ works. (wrote.done refl, wrote.others);
  }
  keep_or_restore-Second sbctl sing_box h (err e) h' mixed honest wrote = record {
    mixed = restore-Mixed system restart restart_keeps w sbctl sing_box entries copies h' mixed;
    honest = honest;
    done = λ works. cc;
  }

  write_second-Second :
      (sbctl : Option Bytes) (sing_box : Bytes) (h : Host Bytes)
      → Mixed system w sbctl (some sing_box) h
      → Second sbctl
          (some sing_box)
          h
          (write_second system entries sing_box h).0
          (write_second system entries sing_box h).1
  write_second-Second sbctl sing_box h mixed =
      let step = write_managed_binary system sing_box_path sing_box h in
      keep_or_restore-Second sbctl (some sing_box) h step.0 step.1
        (write-Mixed sbctl (some sing_box) sing_box_path sing_box h (inr (refl, refl)) mixed)
        (binary_error system sing_box_path sing_box h)
        (binary-Wrote system sing_box_path sing_box h)

  -- How an update ends: a mixture of old and new contents at the worst, the old contents where the
  -- services did not come up, and the new binaries among the old files where it succeeds.
  pub record Outcome (sbctl sing_box : Option Bytes) (h : Host Bytes)
      (r : Result UpdateError String) (last : Host Bytes) : Type 0 where
    pub mixed : Mixed system w sbctl sing_box last
    pub rolled : r ≡ err service_health → RolledBack system w last
    pub installed :
        is_ok r ≡ true
        → (view last sbctl_path ≡ sbctl)
          × (view last sing_box_path ≡ sing_box)
          × ((q : String)
              → is_unit q ≡ false
              → str_eq q sbctl_path ≡ false
              → str_eq q sing_box_path ≡ false
              → view last q ≡ view h q)

  pub replace_both-Outcome :
      (sbctl sing_box : Bytes) (p : Prepared Bytes) (h : Host Bytes)
      → p.entries ≡ entries
      → validate system.is_ip system.is_zone system.resolve p.config ≡ ok tt
      → Same w h
      → Outcome
          (some sbctl)
          (some sing_box)
          h
          (replace_both system restart sbctl sing_box p h).0
          (replace_both system restart sbctl sing_box p h).1
  unfolding strip_prefix
  replace_both-Outcome sbctl sing_box p h are valid same =
      let one = write_managed_binary system sbctl_path sbctl h in
      let wrote = binary-Wrote system sbctl_path sbctl h in
      let mixed₁ =
        write-Mixed (some sbctl) (some sing_box) sbctl_path sbctl h (inl (refl, refl))
          (Same-Mixed (some sbctl) (some sing_box) h same) in
      let two = write_second system entries sing_box one.1 in
      let second_ = write_second-Second (some sbctl) sing_box one.1 mixed₁ in
      let last = restart_or_roll_back system restart p.point entries two.1 in
      let ends =
        settle-Ends system restart restart_keeps w (some sbctl) (some sing_box) entries copies
          p.point two.1 (restart two.1).0 refl first second second_.mixed in
      rw are (
        continue_post (Outcome (some sbctl) (some sing_box) h) one
          (λ _.
            write_second system entries sing_box
            >> (restart_or_roll_back system restart p.point entries >>= revalidate system p.config))
          (λ u written.
            continue_post (Outcome (some sbctl) (some sing_box) h) two
              (λ _.
                restart_or_roll_back system restart p.point entries >>= revalidate system p.config)
              (λ v replaced.
                continue_post (Outcome (some sbctl) (some sing_box) h) last
                  (revalidate system p.config)
                  (λ point up. rw valid (record {
                    mixed = ends.mixed;
                    rolled = λ bad. cc;
                    installed = λ works.
                        let (new, others) = second_.done (ap is_ok replaced) in
                        let still = ends.kept (ap is_ok up) in
                        (
                          still sbctl_path refl
                              ∙ others sbctl_path refl
                              ∙ wrote.done (ap is_ok written),
                          still sing_box_path refl ∙ new,
                          λ q unit a b. still q unit ∙ others q b ∙ wrote.others q a,
                        );
                  }))
                  (λ e down. record {
                    mixed = ends.mixed;
                    rolled = λ bad. ends.rolled (down ∙ passed_on bad);
                    installed = λ works. cc;
                  }))
              (λ e failed. record {
                mixed = second_.mixed;
                rolled = λ bad. absurd (second_.honest (failed ∙ passed_on bad));
                installed = λ works. cc;
              }))
          (λ e failed. record {
            mixed = mixed₁;
            rolled =
                λ bad. absurd (binary_error system sbctl_path sbctl h (failed ∙ passed_on bad));
            installed = λ works. cc;
          }))
