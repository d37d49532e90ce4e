-- ===== src/Update/Preparing.antt =====
-- src/update.rs up to the first replacement: the rollback point, its pruning and the backup.
use singbox_sub_me.Prelude.{
  suc, ◌≡◌, refl, ap, ◌∙◌, String, Bool, true, false, Option, none, some, List, [], ◌∷◌, ◌⊎◌, inl,
  inr, str_eq, Result, ok, err, arith, eq_iff, Bool-cases,
}
use singbox_sub_me.Http.Texts.{followed_by, strip_prefix}
use singbox_sub_me.Config.{starts_with}
use singbox_sub_me.Disk.{
  storage, Host, System, Io, continue, ◌>>◌, is_ok, attempt, rewrap, read, load,
  write_root_only_locked,
}
use singbox_sub_me.Disk.Frames.{view, continue_post, write_root_only-Wrote, read-view}
use singbox_sub_me.Update.{
  io, operation, stored, generation_path, backup_path, is_inside, remove_generation, add_generation,
  save, stale_generations, remove_all, prune_rollback_history, rollback_directory,
}

-- The paths of rollback points.
abbrev pub is_backup : String → Bool
is_backup path = starts_with "var/backups/sbctl/rollback/" path

strip_prefix-followed_by : (p s : String) → strip_prefix p (followed_by p s) ≡ some s
unfolding strip_prefix
strip_prefix-followed_by String.[] s = refl
strip_prefix-followed_by (String.◌∷◌ c p) s = ground (arith, strip_prefix-followed_by p s)

pub followed_by-injective : (p a b : String) → followed_by p a ≡ followed_by p b → a ≡ b
followed_by-injective p a b e = cc (strip_prefix-followed_by p a, strip_prefix-followed_by p b, e)

starts_with-followed_by :
    (p r s : String) → starts_with (followed_by p r) s ≡ true → starts_with p s ≡ true
unfolding strip_prefix
starts_with-followed_by String.[] r s h = refl
starts_with-followed_by (String.◌∷◌ c p) r String.[] h = cc
starts_with-followed_by (String.◌∷◌ c p) r (String.◌∷◌ d s) h =
    ground (arith, starts_with-followed_by p r s)

pub is_backup-backup_path :
    (timestamp relative : String)
    → is_backup (backup_path (generation_path timestamp) relative) ≡ true
unfolding strip_prefix
is_backup-backup_path timestamp relative = refl

followed_by_assoc :
    (a b c : String) → followed_by (followed_by a b) c ≡ followed_by a (followed_by b c)
followed_by_assoc String.[] b c = refl
followed_by_assoc (String.◌∷◌ x a) b c = ap (String.◌∷◌ x) (followed_by_assoc a b c)

is_inside-is_backup : (name q : String) → is_backup q ≡ false → is_inside name q ≡ false
is_inside-is_backup name q off = elim (Bool-cases (is_inside name q)) [
  | inl e ↦ absurd (
      ground
        (arith, starts_with-followed_by "var/backups/sbctl/rollback/" (followed_by name "/") q))
  | inr e ↦ e
]

-- A step that touches nothing but rollback points.
abbrev pub Spares : {Bytes E A : Type 0} → Io Bytes E A → Type 0
Spares m = (w : Host _) (q : String) → is_backup q ≡ false → view (m w).1 q ≡ view w q

pub Spares-bind :
    {Bytes E A B : Type 0} (m : Io Bytes E A) (next : A → Io Bytes E B)
    → Spares m
    → ((a : A) → Spares (next a))
    → (w : Host Bytes) (q : String) → is_backup q ≡ false
    → view (continue next (m w)).1 q ≡ view w q
Spares-bind m next first rest w q off =
    continue_post (λ r h. view h q ≡ view w q) (m w) next
      (λ a e. rest a (m w).1 q off ∙ first w q off) (λ e failed. first w q off)

pub is_ok-rewrap :
    {E F A : Type 0} (f : E → F) (r : Result E A) → is_ok (rewrap f r) ≡ true → is_ok r ≡ true
is_ok-rewrap f (ok a) works = refl
is_ok-rewrap f (err e) works = cc

pub apart : (q path : String) → is_backup q ≡ false → is_backup path ≡ true → str_eq q path ≡ false
apart q path off on = elim (Bool-cases (str_eq q path)) [
  | inl same ↦ cc ((eq_iff q path).0 same, off, on)
  | inr other ↦ other
]

pub apart_flipped :
    (path q : String) → is_backup path ≡ true → is_backup q ≡ false → str_eq path q ≡ false
apart_flipped path q on off = elim (Bool-cases (str_eq path q)) [
  | inl same ↦ cc ((eq_iff path q).0 same, off, on)
  | inr other ↦ other
]

pub record Saves {Bytes E A : Type 0} (path : String) (contents : Option Bytes)
    (before : Host Bytes) (result : Result E A) (after : Host Bytes) : Type 0 where
  pub others : (q : String) → str_eq q path ≡ false → view after q ≡ view before q
  pub either : (view after path ≡ view before path) ⊎ (view after path ≡ contents)
  pub done : is_ok result ≡ true → (b : Bytes) → contents ≡ some b → view after path ≡ some b

module _ (system : System) where
  open system use {Bytes}

  remove_all-view :
      (names : List String) (w : Host Bytes) (q : String)
      → is_backup q ≡ false
      → view (remove_all system names w) q ≡ view w q
  unfolding remove_all
  remove_all-view [] w q off = refl
  remove_all-view (name ∷ names) w q off =
      let step = (attempt system io (remove_generation name) w).1 in
      remove_all-view names step q off ∙ ground (arith, is_inside-is_backup name q off)

  prune-view :
      (w : Host Bytes) (q : String)
      → is_backup q ≡ false
      → view (prune_rollback_history system w) q ≡ view w q
  unfolding prune_rollback_history
  prune-view w q off = ground (
    arith,
    remove_all-view (stale_generations w.generations) (record w { calls = suc w.calls }) q off,
  )

  pub attempt-Spares :
      {E : Type 0} (e : E) (effect : Host Bytes → Host Bytes)
      → ((w : Host Bytes) (q : String) → view (effect w) q ≡ view w q)
      → Spares (attempt system e effect)
  attempt-Spares e effect keeps w q off = ground (arith, keeps (record w { calls = suc w.calls }) q)

  pub rollback_directory-Spares :
      (timestamp : String) → Spares (rollback_directory system timestamp)
  unfolding rollback_directory
  rollback_directory-Spares timestamp =
      Spares-bind (attempt system io (add_generation timestamp))
        (λ _. attempt system operation (λ w. w) >> λ w.
          (ok (generation_path timestamp), prune_rollback_history system w))
        (attempt-Spares io (add_generation timestamp) (λ w q. refl))
        (λ a.
          Spares-bind (attempt system operation (λ w. w))
            (λ _ w. (ok (generation_path timestamp), prune_rollback_history system w))
            (attempt-Spares operation (λ w. w) (λ w q. refl)) (λ b. prune-view))

  pub rollback_directory_point :
      (timestamp : String) (w : Host Bytes) {point : String}
      → (rollback_directory system timestamp w).0 ≡ ok point
      → point ≡ generation_path timestamp
  unfolding rollback_directory
  rollback_directory_point timestamp w made = ground arith

  pub load-Spares : Spares (load system)
  unfolding load
  load-Spares w q off = ground (arith, read-view system storage "etc/sbctl/config.toml" w q)

  -- What a save of `contents` at `path` leaves there and elsewhere.
  pub save_post :
      (path : String) (contents : Option Bytes) (w : Host Bytes)
      → Saves path contents w (save system path contents w).0 (save system path contents w).1
  save_post path none w = record {
    others = λ q other. refl;
    either = inl refl;
    done = λ works b e. cc;
  }
  save_post path (some contents) w =
      let wrote = write_root_only-Wrote system path contents w in
      record {
        others = wrote.others;
        either = wrote.either;
        done = λ works b e.
            wrote.done (is_ok-rewrap stored (write_root_only_locked system path contents w).0 works)
            ∙ e;
      }

  pub read_value :
      {E : Type 0} (e : E) (path : String) (w : Host Bytes) {contents : Option Bytes}
      → (read system e path w).0 ≡ ok contents
      → contents ≡ view w path
  unfolding read
  read_value e path w h = ground arith
