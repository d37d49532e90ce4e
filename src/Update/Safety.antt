-- ===== src/Update/Safety.antt =====
-- src/update.rs apply: the guarantees of an update of both binaries.
use mathlib.Core.Path.{subst, fun_ext}
use singbox_sub_me.Prelude.{
  ◌≡◌, refl, sym, ap, ◌∙◌, String, true, false, Option, none, some, List, [], ◌∷◌, ◌++◌, ◌⊎◌, inl,
  inr, str_eq, Result, ok, err, arith, Bool-cases, ok-injective,
}
use singbox_sub_me.Http.Texts.{strip_prefix}
use singbox_sub_me.Config.{DeploymentConfig}
use singbox_sub_me.Release.{ReleaseManifest, ReleaseArtifact, ReleaseError, verify_trusted}
use singbox_sub_me.Release.Texts.{eq_ignore_ascii_case}
use singbox_sub_me.Disk.{Host, System, Io, ◌>>=◌, give, rewrap, is_ok, attempt}
use singbox_sub_me.Disk.Frames.{view, continue_post}
use singbox_sub_me.Update.{
  Prepared, UpdateError, release, sbctl_health, service_health, managed_paths, sbctl_path,
  sing_box_path, rollback_paths, generation_path, backup_path, read_verified_artifact, prepare,
  replace_both, replace_checked, apply,
}
use singbox_sub_me.Update.Restoring.{In, relatives}
use singbox_sub_me.Update.Preparing.{apart_flipped, is_backup, is_backup-backup_path}
use singbox_sub_me.Update.Ready.{ok_of_rewrap, Same, IsReady, prepare_post}
use singbox_sub_me.Update.Outcomes.{is_unit, Mixed, IsCertain, RolledBack, KeptByRestart}
use singbox_sub_me.Update.Install.{replace_both-Outcome}

module _ (system : System) (restart : Io (system.Bytes) UpdateError (Unit {0}))
    (restart_keeps : (h : Host (system.Bytes)) → KeptByRestart system h (restart h).1)
    (verify_signature : ReleaseManifest → Result ReleaseError (Unit {0})) (timestamp : String)
    (manifest : ReleaseManifest) (w : Host (system.Bytes)) where
  open system use {Bytes}

  -- A candidate of a trusted manifest, with the digest that the manifest pins.
  pub record IsPinned (candidate : Option Bytes) (artifact : ReleaseArtifact) : Type 0 where
    pub trusted : verify_trusted verify_signature manifest ≡ ok tt
    pub bytes : Bytes
    pub given : candidate ≡ some bytes
    pub digest : eq_ignore_ascii_case (system.sha256 bytes) artifact.sha256 ≡ true

  pub record IsInstalled (sbctl sing_box : Option Bytes) (last : Host Bytes) : Type 0 where
    pub sbctl_pinned : IsPinned sbctl manifest.sbctl
    pub sing_box_pinned : IsPinned sing_box manifest.sing_box
    pub sbctl_new : view last sbctl_path ≡ sbctl
    pub sing_box_new : view last sing_box_path ≡ sing_box
    pub others_kept :
        (q : String)
        → is_backup q ≡ false
        → is_unit q ≡ false
        → str_eq q sbctl_path ≡ false
        → str_eq q sing_box_path ≡ false
        → view last q ≡ view w q
    pub copied :
        (q : String)
        → In q managed_paths
        → (b : Bytes) → view w q ≡ some b
        → view last (backup_path (generation_path timestamp) q) ≡ some b

  read_verified_post :
      (name : String) (candidate : Option Bytes) (artifact : ReleaseArtifact) {b : Bytes}
      → read_verified_artifact system name candidate artifact.sha256 ≡ ok b
      → (candidate ≡ some b) × (eq_ignore_ascii_case (system.sha256 b) artifact.sha256 ≡ true)
  unfolding read_verified_artifact
  read_verified_post name none artifact e = cc
  read_verified_post name (some c) artifact {b} e =
      elim (Bool-cases (eq_ignore_ascii_case (system.sha256 c) artifact.sha256)) [
        | inl same ↦
            let is : c ≡ b = ok-injective (rw same at e) in (ap (λ x. some x) is, rw (← is) same)
        | inr differs ↦ absurd (ground arith)
      ]

  -- How `apply` ends, from whatever state and whichever calls fail.
  record Report (sbctl sing_box : Option Bytes) (r : Result UpdateError String) (last : Host Bytes)
      : Type 0 where
    mixed : Mixed system w sbctl sing_box last
    rolled : r ≡ err service_health → RolledBack system w last
    installed :
        is_ok r ≡ true
        → (view last sbctl_path ≡ sbctl)
          × (view last sing_box_path ≡ sing_box)
          × ((q : String)
              → is_backup q ≡ false
              → is_unit q ≡ false
              → str_eq q sbctl_path ≡ false
              → str_eq q sing_box_path ≡ false
              → view last q ≡ view w q)
          × ((q : String)
              → In q managed_paths
              → (b : Bytes) → view w q ≡ some b
              → view last (backup_path (generation_path timestamp) q) ≡ some b)

  unchanged :
      (sbctl sing_box : Option Bytes) (e : UpdateError) (h : Host Bytes)
      → Same w h
      → Report sbctl sing_box (err e) h
  unchanged sbctl sing_box e h same = record {
    mixed = λ q off unit. inl (same q off);
    rolled = λ bad certain q off unit. same q off;
    installed = λ works. cc;
  }

  In-append : (q : String) (xs ys : List String) → In q xs → In q (xs ++ ys)
  In-append q [] ys h = elim h [ ]
  In-append q (x ∷ xs) ys (inl e) = inl e
  In-append q (x ∷ xs) ys (inr h) = inr (In-append q xs ys h)

  managed-rollback_paths :
      (config : DeploymentConfig) (q : String) → In q managed_paths → In q (rollback_paths config)
  unfolding rollback_paths
  managed-rollback_paths config q h = In-append q managed_paths _ h

  replaced :
      (sbctl sing_box : Bytes) (p : Prepared Bytes) (h : Host Bytes)
      → Same w h
      → IsReady system (view w) timestamp p h
      → Report
          (some sbctl)
          (some sing_box)
          (replace_both system restart sbctl sing_box p h).0
          (replace_both system restart sbctl sing_box p h).1
  unfolding strip_prefix managed_paths
  replaced sbctl sing_box p h same ready =
      let listed : (q : String) → In q managed_paths → In q (relatives p.entries) =
        λ q m. subst (In q) (sym ready.paths_are) (managed-rollback_paths p.config q m) in
      let out =
        replace_both-Outcome system restart restart_keeps w p.entries ready.copies
          (listed sbctl_path (inl refl)) (listed sing_box_path (inr (inl refl))) sbctl sing_box p h
          refl ready.validated same in
      record {
        mixed = out.mixed;
        rolled = out.rolled;
        installed = λ works.
            let (one, two, others) = out.installed works in
            (
              one,
              two,
              λ q off unit a b. others q unit a b ∙ same q off,
              λ q m b has.
                  others (backup_path (generation_path timestamp) q) refl
                    (apart_flipped (backup_path (generation_path timestamp) q) sbctl_path
                      (is_backup-backup_path timestamp q) refl)
                    (apart_flipped (backup_path (generation_path timestamp) q) sing_box_path
                      (is_backup-backup_path timestamp q) refl)
                  ∙ ready.saved q (managed-rollback_paths p.config q m) b has,
            );
      }

  same_after_attempt :
      (e : UpdateError) (q : String) → view (attempt system e (λ h. h) w).1 q ≡ view w q
  same_after_attempt e q = ground arith

  view-attempt : (e : UpdateError) → view (attempt system e (λ h. h) w).1 ≡ view w
  view-attempt e = fun_ext (λ q. same_after_attempt e q)

  checked :
      (sbctl sing_box : Bytes)
      → Report
          (some sbctl)
          (some sing_box)
          (replace_checked system restart timestamp sbctl sing_box w).0
          (replace_checked system restart timestamp sbctl sing_box w).1
  checked sbctl sing_box =
      let step = attempt system sbctl_health (λ h. h) w in
      let same₁ : Same w step.1 = λ q off. same_after_attempt sbctl_health q in
      let prepared = prepare_post system timestamp step.1 in
      continue_post (Report (some sbctl) (some sing_box)) step
        (λ _. prepare system timestamp >>= replace_both system restart sbctl sing_box)
        (λ u passed.
          continue_post (Report (some sbctl) (some sing_box)) (prepare system timestamp step.1)
            (replace_both system restart sbctl sing_box)
            (λ p made.
              replaced sbctl sing_box p (prepare system timestamp step.1).1
                (λ q off. prepared.same q off ∙ same₁ q off)
                (subst (λ o. IsReady system o timestamp p (prepare system timestamp step.1).1)
                  (view-attempt sbctl_health) (prepared.ready p made)))
            (λ e failed.
              unchanged (some sbctl) (some sing_box) e (prepare system timestamp step.1).1
                (λ q off. prepared.same q off ∙ same₁ q off)))
        (λ e failed. unchanged (some sbctl) (some sing_box) e step.1 same₁)

  -- Nothing is touched but rollback points and the update fails, or both candidates are pinned.
  End : Option Bytes → Option Bytes → Result UpdateError String → Host Bytes → Type 0
  End sbctl sing_box r last =
      (Same w last × (is_ok r ≡ false))
      ⊎ (IsPinned sbctl manifest.sbctl
          × IsPinned sing_box manifest.sing_box
          × Report sbctl sing_box r last)

  module _ (sbctl sing_box : Option Bytes) where
    pinned :
        (b₁ b₂ : Bytes)
        → verify_trusted verify_signature manifest ≡ ok tt
        → read_verified_artifact system "sbctl" sbctl manifest.sbctl.sha256 ≡ ok b₁
        → read_verified_artifact system "sing-box" sing_box manifest.sing_box.sha256 ≡ ok b₂
        → End sbctl sing_box
            (replace_checked system restart timestamp b₁ b₂ w).0
            (replace_checked system restart timestamp b₁ b₂ w).1
    unfolding End
    pinned b₁ b₂ trusted read₁ read₂ =
        let (given₁, digest₁) = read_verified_post "sbctl" sbctl manifest.sbctl read₁ in
        let (given₂, digest₂) = read_verified_post "sing-box" sing_box manifest.sing_box read₂ in
        inr (
          record { trusted = trusted; bytes = b₁; given = given₁; digest = digest₁ },
          record { trusted = trusted; bytes = b₂; given = given₂; digest = digest₂ },
          rw (given₁, given₂) (checked b₁ b₂),
        )

    apply-End :
        End sbctl sing_box
          (apply system restart verify_signature timestamp manifest sbctl sing_box w).0
          (apply system restart verify_signature timestamp manifest sbctl sing_box w).1
    unfolding apply End
    apply-End =
        let first = read_verified_artifact system "sbctl" sbctl manifest.sbctl.sha256 in
        let second = read_verified_artifact system "sing-box" sing_box manifest.sing_box.sha256 in
        let both = λ (b : Bytes). give second >>= replace_checked system restart timestamp b in
        continue_post (End sbctl sing_box)
          (give (rewrap release (verify_trusted verify_signature manifest)) w)
          (λ _. give first >>= both)
          (λ u trusted.
            continue_post (End sbctl sing_box) (give first w) both
              (λ b₁ read₁.
                continue_post (End sbctl sing_box) (give second w)
                  (replace_checked system restart timestamp b₁)
                  (λ b₂ read₂.
                    pinned b₁ b₂
                      (ok_of_rewrap release (verify_trusted verify_signature manifest) trusted)
                      read₁ read₂)
                  (λ e failed. inl (λ q off. refl, refl)))
              (λ e failed. inl (λ q off. refl, refl)))
          (λ e failed. inl (λ q off. refl, refl))

    -- Whichever calls of the system fail, and wherever the update stops: a file outside the rollback
    -- points, the systemd units and certbot's deploy hooks has the contents that it had, or it is one of
    -- the two binaries and has the contents of a candidate whose digest a trusted manifest pins, if a
    -- restart of the services writes nothing but units and hooks.
    pub apply_mixes :
        (q : String)
        → is_backup q ≡ false
        → is_unit q ≡ false
        → let last =
            (apply system restart verify_signature timestamp manifest sbctl sing_box w).1 in
          (view last q ≡ view w q)
          ⊎ ((q ≡ sbctl_path) × IsPinned sbctl manifest.sbctl × (view last q ≡ sbctl))
          ⊎ ((q ≡ sing_box_path) × IsPinned sing_box manifest.sing_box × (view last q ≡ sing_box))
    unfolding End
    apply_mixes q off unit = elim apply-End [
      | inl (same, _) ↦ inl (same q off)
      | inr (one, two, report) ↦ elim (report.mixed q off unit) [
        | inl e ↦ inl e
        | inr (inl (is, e)) ↦ inr (inl (is, one, e))
        | inr (inr (is, e)) ↦ inr (inr (is, two, e))
      ]
    ]

    -- An update that ends with the services unhealthy has put back the contents of every file outside
    -- the rollback points, the systemd units and certbot's deploy hooks, if both binaries were there
    -- before or no look-up of a file fails, and a restart of the services writes nothing but units and
    -- hooks.
    pub apply_rolls_back :
        (apply system restart verify_signature timestamp manifest sbctl sing_box w).0
          ≡ err service_health
        → IsCertain system w
        → (q : String) → is_backup q ≡ false
        → is_unit q ≡ false
        → view (apply system restart verify_signature timestamp manifest sbctl sing_box w).1 q
          ≡ view w q
    unfolding End
    apply_rolls_back bad certain q off unit = elim apply-End [
      | inl (same, _) ↦ same q off
      | inr (one, two, report) ↦ report.rolled bad certain q off unit
    ]

    -- An update that succeeds came from a trusted manifest that pins both candidates; the binaries have
    -- the candidates' contents, every other file outside the rollback points, the systemd units and
    -- certbot's deploy hooks has what it had, and the rollback point has a copy of each managed file
    -- that there was, if a restart of the services writes nothing but units and hooks.
    pub apply_installs :
        {point : String}
        → (apply system restart verify_signature timestamp manifest sbctl sing_box w).0 ≡ ok point
        → IsInstalled sbctl sing_box
            (apply system restart verify_signature timestamp manifest sbctl sing_box w).1
    unfolding End
    apply_installs good = elim apply-End [
      | inl (_, fails) ↦ cc (fails, ap is_ok good)
      | inr (one, two, report) ↦
          let (new₁, new₂, others, saved) = report.installed (ap is_ok good) in
          record {
            sbctl_pinned = one;
            sing_box_pinned = two;
            sbctl_new = new₁;
            sing_box_new = new₂;
            others_kept = others;
            copied = saved;
          }
    ]
