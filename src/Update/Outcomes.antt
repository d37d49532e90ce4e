-- ===== src/Update/Outcomes.antt =====
-- src/update.rs apply: what each way of ending leaves of the files.
use mathlib.Core.Path.{subst}
use singbox_sub_me.Prelude.{
  ◌≡◌, sym, ap, ◌∙◌, String, Bool, true, false, ◌||◌, Option, some, List, ◌⊎◌, inl, inr, Result, ok,
  err, arith,
}
use singbox_sub_me.Config.{starts_with}
use singbox_sub_me.Disk.{
  set_permissions, StoreError, Host, System, Io, continue, rewrap, map_err, is_ok,
  write_relative_locked, program_mode,
}
use singbox_sub_me.Disk.Frames.{
  view, Wrote, Wrote-continue, continue_post, write_relative-Wrote, set_permissions-view,
}
use singbox_sub_me.Update.{
  BackupEntry, UpdateError, stored, io, rollback, service_health, sbctl_path, sing_box_path,
  set_executable, restore, write_managed_binary, roll_back, settle,
}
use singbox_sub_me.Update.Restoring.{In, relatives, HasHad, AreCopies, restore_either, restore_done}
use singbox_sub_me.Update.Preparing.{is_backup, is_ok-rewrap}

-- The paths that a restart of the services may write: the units and the hooks of certbot.
abbrev pub is_unit : String → Bool
is_unit path =
    starts_with "etc/systemd/system/" path
    || starts_with "etc/letsencrypt/renewal-hooks/deploy/" path

Wrote-rewrap :
    {Bytes E F A : Type 0} (f : E → F) {path : String} {target : Option Bytes} {before : Host Bytes}
    (r : Result E A) (h : Host Bytes)
    → Wrote path target before r h
    → Wrote path target before (rewrap f r) h
Wrote-rewrap f r h wrote = record {
  others = wrote.others;
  either = wrote.either;
  done = λ works. wrote.done (is_ok-rewrap f r works);
}

rollback_error : {A : Type 0} (r : Result StoreError A) → rewrap rollback r ≡ err service_health → ⊥
rollback_error (ok a) h = cc
rollback_error (err e) h = cc

pub passed_on :
    {A B : Type 0} {e x : UpdateError}
    → ◌≡◌ {A = Result UpdateError A} (err e) (err x)
    → ◌≡◌ {A = Result UpdateError B} (err e) (err x)
passed_on h = cc

module _ (system : System) where
  open system use {Bytes}

  pub binary-Wrote :
      (path : String) (contents : Bytes) (w : Host Bytes)
      → Wrote path
          (some contents)
          w
          (write_managed_binary system path contents w).0
          (write_managed_binary system path contents w).1
  binary-Wrote path contents w =
      let step = write_relative_locked system path contents w in
      Wrote-continue (rewrap stored step.0, step.1) (set_executable system io path)
        (Wrote-rewrap stored step.0 step.1 (write_relative-Wrote system path contents w))
        (set_permissions-view system io path program_mode)

  rewrap_stored_error :
      {A B : Type 0} (r : Result StoreError A) (h : Host Bytes) (next : A → Io Bytes UpdateError B)
      → ((a : A) → (next a h).0 ≡ err service_health → ⊥)
      → (continue next (rewrap stored r, h)).0 ≡ err service_health
      → ⊥
  rewrap_stored_error (ok a) h next sound e = sound a e
  rewrap_stored_error (err x) h next sound e = cc

  pub binary_error :
      (path : String) (contents : Bytes) (w : Host Bytes)
      → (write_managed_binary system path contents w).0 ≡ err service_health
      → ⊥
  unfolding set_permissions
  binary_error path contents w =
      let step = write_relative_locked system path contents w in
      rewrap_stored_error step.0 step.1 (λ _. set_executable system io path) (λ a e. ground arith)

  -- A file has what it had, or it is a managed binary that has its candidate's contents.
  abbrev pub Mixed : Host Bytes → Option Bytes → Option Bytes → Host Bytes → Type 0
  Mixed w sbctl sing_box h =
      (q : String)
      → is_backup q ≡ false
      → is_unit q ≡ false
      → (view h q ≡ view w q)
        ⊎ ((q ≡ sbctl_path) × (view h q ≡ sbctl))
        ⊎ ((q ≡ sing_box_path) × (view h q ≡ sing_box))

  -- Files off the rollback points and the units have the same contents.
  abbrev pub Kept : Host Bytes → Host Bytes → Type 0
  Kept w h = (q : String) → is_backup q ≡ false → is_unit q ≡ false → view h q ≡ view w q

  -- The binaries that an update replaces were there before, or no look-up of a file fails.
  abbrev pub IsCertain : Host Bytes → Type 0
  IsCertain w = HasHad system (view w sbctl_path) × HasHad system (view w sing_box_path)

  abbrev pub RolledBack : Host Bytes → Host Bytes → Type 0
  RolledBack w h = IsCertain w → Kept w h

  abbrev pub KeptByRestart : Host Bytes → Host Bytes → Type 0
  KeptByRestart w h = (q : String) → is_unit q ≡ false → view h q ≡ view w q

  module _ (restart : Io Bytes UpdateError (Unit {0}))
      (restart_keeps : (h : Host Bytes) → KeptByRestart h (restart h).1) (w : Host Bytes)
      (sbctl sing_box : Option Bytes) (entries : List (BackupEntry Bytes))
      (copies : AreCopies system (view w) entries) where
    -- Putting the backup back keeps what an update may leave, wherever it stops.
    pub restore-Mixed :
        (h : Host Bytes)
        → Mixed w sbctl sing_box h
        → Mixed w sbctl sing_box (restore system entries h).1
    restore-Mixed h mixed q off unit = elim (restore_either system (view w) entries h q copies) [
      | inl e ↦ rw e (mixed q off unit)
      | inr e ↦ inl e
    ]

    roll_back-Mixed :
        (h : Host Bytes)
        → Mixed w sbctl sing_box h
        → Mixed w sbctl sing_box (roll_back system restart entries h).1
    roll_back-Mixed h mixed =
        continue_post (λ r last. Mixed w sbctl sing_box last)
          (map_err rollback (restore system entries) h)
          (λ _ h'. (err service_health, (restart h').1))
          (λ a restored q off unit.
            rw (restart_keeps (restore system entries h).1 q unit)
              (restore-Mixed h mixed q off unit))
          (λ e failed. restore-Mixed h mixed)

    -- A roll back that reports the failed service has put every file back.
    roll_back-Kept :
        (h : Host Bytes)
        → (IsCertain w
            → (q : String) → is_backup q ≡ false
            → is_unit q ≡ false
            → (view h q ≡ view w q) ⊎ (In q (relatives entries) × HasHad system (view w q)))
        → (roll_back system restart entries h).0 ≡ err service_health
        → RolledBack w (roll_back system restart entries h).1
    roll_back-Kept h listed =
        continue_post (λ r last. r ≡ err service_health → RolledBack w last)
          (map_err rollback (restore system entries) h)
          (λ _ h'. (err service_health, (restart h').1))
          (λ a restored e certain q off unit.
            restart_keeps (restore system entries h).1 q unit
            ∙ restore_done system (view w) entries h q copies (listed certain q off unit)
                (is_ok-rewrap rollback (restore system entries h).0 (ap is_ok restored)))
          (λ e failed e'.
            absurd (rollback_error (restore system entries h).0 (failed ∙ passed_on e')))

    roll_back_fails : (h : Host Bytes) → is_ok (roll_back system restart entries h).0 ≡ true → ⊥
    roll_back_fails h =
        continue_post (λ r last. is_ok r ≡ true → ⊥) (map_err rollback (restore system entries) h)
          (λ _ h'. (err service_health, (restart h').1)) (λ a restored works. cc)
          (λ e failed works. cc)

    -- What the last steps leave of the state `h` that the replacements leave.
    pub record Ends (h : Host Bytes) (r : Result UpdateError String) (last : Host Bytes)
        : Type 0 where
      pub mixed : Mixed w sbctl sing_box last
      pub rolled : r ≡ err service_health → RolledBack w last
      pub kept : is_ok r ≡ true → KeptByRestart h last

    listed :
        (h : Host Bytes)
        → In sbctl_path (relatives entries)
        → In sing_box_path (relatives entries)
        → Mixed w sbctl sing_box h
        → IsCertain w
        → (q : String) → is_backup q ≡ false
        → is_unit q ≡ false
        → (view h q ≡ view w q) ⊎ (In q (relatives entries) × HasHad system (view w q))
    listed h first second mixed (had_first, had_second) q off unit = elim (mixed q off unit) [
      | inl e ↦ inl e
      | inr (inl (e, _)) ↦ inr (
          subst (λ p. In p (relatives entries) × HasHad system (view w p)) (sym e)
            (first, had_first))
      | inr (inr (e, _)) ↦ inr (
          subst (λ p. In p (relatives entries) × HasHad system (view w p)) (sym e)
            (second, had_second))
    ]

    restarted-Mixed :
        (h : Host Bytes) → Mixed w sbctl sing_box h → Mixed w sbctl sing_box (restart h).1
    restarted-Mixed h mixed q off unit = rw (restart_keeps h q unit) (mixed q off unit)

    pub settle-Ends :
        (point : String) (h : Host Bytes) (result : Result UpdateError (Unit {0}))
        → (restart h).0 ≡ result
        → In sbctl_path (relatives entries)
        → In sing_box_path (relatives entries)
        → Mixed w sbctl sing_box h
        → Ends h
            (settle system restart point entries result (restart h).1).0
            (settle system restart point entries result (restart h).1).1
    settle-Ends point h (ok u) e first second mixed = record {
      mixed = restarted-Mixed h mixed;
      rolled = λ bad. cc;
      kept = λ works. restart_keeps h;
    }
    settle-Ends point h (err x) e first second mixed =
        let after = (restart h).1 in
        let still = restarted-Mixed h mixed in
        record {
          mixed = roll_back-Mixed after still;
          rolled = roll_back-Kept after (listed after first second still);
          kept = λ works. elim (roll_back_fails after works) [ ];
        }
