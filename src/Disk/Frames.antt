-- ===== src/Disk/Frames.antt =====
-- What the locked writers of src/config.rs leave in the file that they write, and in every other.
use singbox_sub_me.Prelude.{
  ℕ, suc, ◌∙◌, ◌≡◌, refl, String, true, false, Option, none, some, ◌⊎◌, inl, inr, str_eq,
  if◌then◌else◌, Result, ok, err, arith, Bool-cases, ◌&&◌, eq_iff, eq_refl,
}
use singbox_sub_me.Disk.{
  storage, unsafe_path, give, private_mode, is_ok, safe_managed_path, File, Host, System, Io,
  continue, contents_of, remode, set_permissions, set_owner, atomic_write, enforce_live_file_owner,
  account_of, is_unsafe, write_relative_locked, write_root_only_locked, read, remove_file,
}

-- The contents that a reader of the path finds.
abbrev pub view : {Bytes : Type 0} → Host Bytes → String → Option Bytes
view w path = contents_of (w.files path)

-- A path's contents were set to `target`, or were about to be: `result` says that they were.
pub record Wrote {Bytes : Type 0} {E A : Type 0} (path : String) (target : Option Bytes)
    (before : Host Bytes) (result : Result E A) (after : Host Bytes) : Type 0 where
  pub others : (q : String) → str_eq q path ≡ false → view after q ≡ view before q
  pub either : (view after path ≡ view before path) ⊎ (view after path ≡ target)
  pub done : is_ok result ≡ true → view after path ≡ target

-- Reasoning about a step and what follows it: the rest from a value, or the step's own error.
pub continue_post :
    {Bytes E A B : Type 0} (Q : Result E B → Host Bytes → Type 0) (x : Result E A × Host Bytes)
    (next : A → Io Bytes E B)
    → ((a : A) → x.0 ≡ ok a → Q (next a x.1).0 (next a x.1).1)
    → ((e : E) → x.0 ≡ err e → Q (err e) x.1)
    → Q (continue next x).0 (continue next x).1
continue_post Q (ok a, h) next good bad = good a refl
continue_post Q (err e, h) next good bad = bad e refl

-- A chain that succeeds has a first step that does.
pub continue-eq-ok :
    {Bytes E A B : Type 0} (x : Result E A × Host Bytes) (next : A → Io Bytes E B) {b : B}
    → (continue next x).0 ≡ ok b
    → (a : A) × (x.0 ≡ ok a) × ((next a x.1).0 ≡ ok b)
continue-eq-ok (ok a, h) next e = (a, refl, e)
continue-eq-ok (err e, h) next e' = cc

-- A step that no reader of contents sees.
abbrev pub Keeps : {Bytes E A : Type 0} → Io Bytes E A → Type 0
Keeps m = (w : Host _) (q : String) → view (m w).1 q ≡ view w q

pub Wrote-continue :
    {Bytes E A B : Type 0} {path : String} {target : Option Bytes} {before : Host Bytes}
    (x : Result E A × Host Bytes) (later : Io Bytes E B)
    → Wrote path target before x.0 x.1
    → Keeps later
    → Wrote path target before (continue (λ _. later) x).0 (continue (λ _. later) x).1
Wrote-continue {path} (ok a, h) later wrote keeps = record {
  others = λ q other. keeps h q ∙ wrote.others q other;
  either = rw (keeps h path) wrote.either;
  done = λ works. keeps h path ∙ wrote.done refl;
}
Wrote-continue (err e, h) later wrote keeps = record {
  others = wrote.others;
  either = wrote.either;
  done = λ works. cc;
}

pub unwritten :
    {Bytes E A : Type 0} (path : String) (target : Option Bytes) (w : Host Bytes) (e : E)
    → Wrote {A = A} path target w (err e) w
unwritten path target w e = record {
  others = λ q other. refl;
  either = inl refl;
  done = λ works. cc;
}

module _ (system : System) where
  open system use {Bytes}

  contents_of-remode :
      (mode : ℕ) (file : Option (File Bytes))
      → contents_of (remode system mode file) ≡ contents_of file
  contents_of-remode mode none = refl
  contents_of-remode mode (some file) = refl

  pub set_permissions-view :
      {E : Type 0} (e : E) (path : String) (mode : ℕ) (w : Host Bytes) (q : String)
      → view (set_permissions system e path mode w).1 q ≡ view w q
  unfolding set_permissions
  set_permissions-view e path mode w q =
      ground (arith, eq_iff q path, contents_of-remode mode (w.files path))

  pub set_owner-view :
      (path : String) (mode : ℕ) (w : Host Bytes) (q : String)
      → view (set_owner system path mode w).1 q ≡ view w q
  unfolding set_owner
  set_owner-view path mode w q =
      ground (arith, set_permissions-view storage path mode (record w { calls = suc w.calls }) q)

  pub enforce-view :
      (path : String) (w : Host Bytes) (q : String)
      → view (enforce_live_file_owner system path w).1 q ≡ view w q
  unfolding enforce_live_file_owner
  enforce-view path w q = ground (arith, set_owner-view path (account_of path).1 w q)

  atomic_write-view :
      (path : String) (contents : Bytes) (w : Host Bytes) (q : String)
      → view (atomic_write system path contents w).1 q ≡ (
          if is_ok (atomic_write system path contents w).0 && str_eq q path
          then some contents
          else view w q)
  unfolding atomic_write
  atomic_write-view path contents w q = ground arith

  pub atomic_write-Wrote :
      (path : String) (contents : Bytes) (w : Host Bytes)
      → Wrote path
          (some contents)
          w
          (atomic_write system path contents w).0
          (atomic_write system path contents w).1
  atomic_write-Wrote path contents w =
      let written = atomic_write system path contents w in
      let at = atomic_write-view path contents w in
      record {
        others = λ q other. ground (arith, at q);
        either = ground (arith, at path, eq_refl path);
        done = λ works. ground (arith, at path, eq_refl path);
      }

  pub write_relative-Wrote :
      (path : String) (contents : Bytes) (w : Host Bytes)
      → Wrote path
          (some contents)
          w
          (write_relative_locked system path contents w).0
          (write_relative_locked system path contents w).1
  unfolding write_relative_locked safe_managed_path
  write_relative-Wrote path contents w = elim (Bool-cases (is_unsafe path)) [
    | inl e ↦ rw e (unwritten path (some contents) w unsafe_path)
    | inr e ↦ rw e (
        Wrote-continue (atomic_write system path contents w) (enforce_live_file_owner system path)
          (atomic_write-Wrote path contents w) (enforce-view path))
  ]

  pub write_root_only-Wrote :
      (path : String) (contents : Bytes) (w : Host Bytes)
      → Wrote path
          (some contents)
          w
          (write_root_only_locked system path contents w).0
          (write_root_only_locked system path contents w).1
  unfolding write_root_only_locked safe_managed_path
  write_root_only-Wrote path contents w = elim (Bool-cases (is_unsafe path)) [
    | inl e ↦ rw e (unwritten path (some contents) w unsafe_path)
    | inr e ↦ rw e (
        Wrote-continue (atomic_write system path contents w)
          (if system.live then set_owner system path private_mode else give (ok tt))
          (atomic_write-Wrote path contents w)
          (λ h q. ground (arith, set_owner-view path private_mode h q)))
  ]

  pub remove_file-Wrote :
      (path : String) (w : Host Bytes)
      → Wrote path none w (remove_file system path w).0 (remove_file system path w).1
  unfolding remove_file
  remove_file-Wrote path w = record {
    others = λ q other. ground arith;
    either = ground (arith, eq_refl path);
    done = λ works. ground (arith, eq_refl path);
  }

  pub read-view : {E : Type 0} (e : E) (path : String) → Keeps (read system e path)
  unfolding read
  read-view e path w q = ground arith
