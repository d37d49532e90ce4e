-- ===== src/Update/Copies.antt =====
-- src/update.rs backup: the entries and the saved copies are what the files had.
use singbox_sub_me.Prelude.{
  ◌≡◌, refl, sym, ap, ap₂, ◌∙◌, String, true, false, Option, some, List, [], ◌∷◌, ◌⊎◌, inl, inr,
  str_eq, Result, ok, All, eq_iff, Bool-cases, ok-injective,
}
use singbox_sub_me.Http.Texts.{followed_by}
use singbox_sub_me.Disk.{Host, System, ◌>>=◌, ◌>>◌, give, read}
use singbox_sub_me.Disk.Frames.{view, continue_post, read-view}
use singbox_sub_me.Update.{BackupEntry, UpdateError, io, backup_path, save, backup_one, backup}
use singbox_sub_me.Update.Restoring.{In, relatives}
use singbox_sub_me.Update.Preparing.{is_backup, followed_by-injective, apart, save_post, read_value}

-- What a copy of one file leaves: the saved copy, or what was there, and every other file.
record Copies {Bytes : Type 0} (saved path : String) (before : Host Bytes)
    (result : Result UpdateError (BackupEntry Bytes)) (after : Host Bytes) : Type 0 where
  others : (q : String) → str_eq q saved ≡ false → view after q ≡ view before q
  either : (view after saved ≡ view before saved) ⊎ (view after saved ≡ view before path)
  entry :
      (e : BackupEntry Bytes)
      → result ≡ ok e
      → (e.relative ≡ path)
        × (e.contents ≡ view before path)
        × ((b : Bytes) → view before path ≡ some b → view after saved ≡ some b)

pub record Backed {Bytes : Type 0} (old : String → Option Bytes) (point : String)
    (paths : List String) (before : Host Bytes)
    (result : Result UpdateError (List (BackupEntry Bytes))) (after : Host Bytes) : Type 0 where
  pub spares : (q : String) → is_backup q ≡ false → view after q ≡ view before q
  pub either :
      (q : String)
      → (view after (backup_path point q) ≡ view before (backup_path point q))
        ⊎ (view after (backup_path point q) ≡ old q)
  pub entries :
      (es : List (BackupEntry Bytes))
      → result ≡ ok es
      → (relatives es ≡ paths)
        × All (λ (e : BackupEntry Bytes). e.contents ≡ old e.relative) es
        × ((q : String)
            → In q paths
            → (b : Bytes) → old q ≡ some b
            → view after (backup_path point q) ≡ some b)

either_of :
    {A : Type 0} {a b b' c c' : A} → (a ≡ b) ⊎ (a ≡ c) → b ≡ b' → c ≡ c' → (a ≡ b') ⊎ (a ≡ c')
either_of (inl e) f g = inl (e ∙ f)
either_of (inr e) f g = inr (e ∙ g)

abbrev drop_first : String → String
drop_first String.[] = ""
drop_first (String.◌∷◌ c s) = s

module _ (system : System) where
  open system use {Bytes}

  backup_one-Copies :
      (point path : String) (w : Host Bytes)
      → Copies
          (backup_path point path)
          path
          w
          (backup_one system point path w).0
          (backup_one system point path w).1
  backup_one-Copies point path w =
      let saved = backup_path point path in
      let step = read system io path w in
      let same = λ (q : String). read-view system io path w q in
      continue_post (Copies saved path w) step
        (λ contents.
          save system saved contents >> give (ok (record { relative = path; contents = contents })))
        (λ contents worked.
          let stored = save_post system saved contents step.1 in
          let is = read_value system io path w worked in
          continue_post (Copies saved path w) (save system saved contents step.1)
            (λ _. give (ok (record { relative = path; contents = contents })))
            (λ u kept. record {
              others = λ q other. stored.others q other ∙ same q;
              either = either_of stored.either (same saved) is;
              entry = λ e made.
                  let whole = ok-injective (sym made) in
                  (
                    ap (λ (x : BackupEntry Bytes). x.relative) whole,
                    ap (λ (x : BackupEntry Bytes). x.contents) whole ∙ is,
                    λ b has. stored.done (rw kept refl) b (is ∙ has),
                  );
            })
            (λ e failed. record {
              others = λ q other. stored.others q other ∙ same q;
              either = either_of stored.either (same saved) is;
              entry = λ x made. cc;
            }))
        (λ e failed. record {
          others = λ q other. same q;
          either = inl (same saved);
          entry = λ x made. cc;
        })

  module _ (old : String → Option Bytes) (point : String)
      (inside : (relative : String) → is_backup (backup_path point relative) ≡ true) where
    same_relative :
        (q path : String) → str_eq (backup_path point q) (backup_path point path) ≡ true → q ≡ path
    same_relative q path same =
        let e = (eq_iff (backup_path point q) (backup_path point path)).0 same in
        ap drop_first (followed_by-injective point (followed_by "/" q) (followed_by "/" path) e)

    one_either :
        (path q : String) (w : Host Bytes)
        → view w path ≡ old path
        → (view (backup_one system point path w).1 (backup_path point q)
            ≡ view w (backup_path point q))
          ⊎ (view (backup_one system point path w).1 (backup_path point q) ≡ old q)
    one_either path q w was =
        let copied = backup_one-Copies point path w in
        elim (Bool-cases (str_eq (backup_path point q) (backup_path point path))) [
          | inl same ↦
              let is : q ≡ path = same_relative q path same in
              rw is (either_of copied.either refl was)
          | inr other ↦ inl (copied.others (backup_path point q) other)
        ]

    then_either :
        {a b c x : Option Bytes} → (b ≡ c) ⊎ (b ≡ x) → (a ≡ b) ⊎ (a ≡ x) → (a ≡ c) ⊎ (a ≡ x)
    then_either (inl e) (inl f) = inl (f ∙ e)
    then_either (inr e) (inl f) = inr (f ∙ e)
    then_either first (inr f) = inr f

    either_kept :
        {a b : Option Bytes} {x : Bytes} → (a ≡ b) ⊎ (a ≡ some x) → b ≡ some x → a ≡ some x
    either_kept (inl e) f = e ∙ f
    either_kept (inr e) f = e

    pub backup_post :
        (paths : List String) (w : Host Bytes)
        → All (λ path. is_backup path ≡ false) paths
        → ((q : String) → is_backup q ≡ false → view w q ≡ old q)
        → Backed old point paths w (backup system point paths w).0 (backup system point paths w).1
    unfolding backup
    backup_post [] w off before = record {
      spares = λ q off. refl;
      either = λ q. inl refl;
      entries = λ es made.
          let whole = ok-injective made in
          rw (← whole) (refl, tt, λ q listed b has. elim listed [ ]);
    }
    backup_post (path ∷ paths) w (first, off) before =
        let step = backup_one system point path w in
        let copied = backup_one-Copies point path w in
        let spared = λ (q : String) (h : is_backup q ≡ false).
          copied.others q (apart q (backup_path point path) h (inside path)) in
        continue_post (Backed old point (path ∷ paths) w) step
          (λ entry. backup system point paths >>= λ entries. give (ok (entry ∷ entries)))
          (λ entry worked.
            let (is_path, is_old, kept) = copied.entry entry worked in
            let rest = backup_post paths step.1 off (λ q h. spared q h ∙ before q h) in
            continue_post (Backed old point (path ∷ paths) w) (backup system point paths step.1)
              (λ entries. give (ok (entry ∷ entries)))
              (λ entries done. record {
                spares = λ q h. rest.spares q h ∙ spared q h;
                either = λ q. then_either (one_either path q w (before path first)) (rest.either q);
                entries = λ es made.
                    let (paths_are, copies, saved) = rest.entries entries done in
                    let whole = ok-injective made in
                    rw (← whole) (
                      ap₂ ◌∷◌ is_path paths_are,
                      (is_old ∙ before path first ∙ ap old (sym is_path), copies),
                      λ q listed b has. elim listed [
                        | inl here ↦
                            let was : view w path ≡ some b =
                              before path first ∙ ap old (sym here) ∙ has in
                            either_kept
                              (either_of (rest.either q)
                                (ap (λ (x : String). view step.1 (backup_path point x)) here) has)
                              (kept b was)
                        | inr there ↦ saved q there b has
                      ],
                    );
              })
              (λ e failed. record {
                spares = λ q h. rest.spares q h ∙ spared q h;
                either = λ q. then_either (one_either path q w (before path first)) (rest.either q);
                entries = λ es made. cc;
              }))
          (λ e failed. record {
            spares = spared;
            either = λ q. one_either path q w (before path first);
            entries = λ es made. cc;
          })
