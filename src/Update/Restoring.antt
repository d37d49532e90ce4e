-- ===== src/Update/Restoring.antt =====
-- src/update.rs restore: what putting a backup back leaves in every file.
use singbox_sub_me.Prelude.{
  ℕ, suc, ◌≡◌, ◌&&◌, Bool, false, Result, str_eq, refl, String, true, Option, none, some, List, [],
  ◌∷◌, ◌⊎◌, inl, inr, if◌then◌else◌, ok, All, arith, eq_iff,
}
use singbox_sub_me.Config.{starts_with}
use singbox_sub_me.Disk.{
  storage, StoreError, File, Host, System, give, is_ok, is_present, write_relative_locked,
}
use singbox_sub_me.Disk.Frames.{
  view, Wrote-continue, continue_post, set_permissions-view, write_relative-Wrote,
  remove_file-Wrote,
}
use singbox_sub_me.Update.{BackupEntry, remove_found, put_back, restore, set_executable}

abbrev pub In : String → List String → Type 0
In q [] = ⊥
In q (path ∷ paths) = (q ≡ path) ⊎ In q paths

abbrev pub relatives : {Bytes : Type 0} → List (BackupEntry Bytes) → List String
relatives [] = []
relatives (entry ∷ entries) = entry.relative ∷ relatives entries

abbrev pub is_some : {A : Type 0} → Option A → Bool
is_some none = false
is_some (some a) = true

module _ (system : System) where
  open system use {Bytes}

  -- Contents that there were, or look-ups that work.
  abbrev pub HasHad : Option Bytes → Type 0
  HasHad target = (is_some target ≡ true) ⊎ ((n : ℕ) → system.looks n ≡ true)

  -- What putting one file back leaves: a file that there was not is certainly removed only where no
  -- look-up fails.
  record PutBack (path : String) (target : Option Bytes) (before : Host Bytes)
      (result : Result StoreError (Unit {0})) (after : Host Bytes) : Type 0 where
    others : (q : String) → str_eq q path ≡ false → view after q ≡ view before q
    either : (view after path ≡ view before path) ⊎ (view after path ≡ target)
    done : is_ok result ≡ true → HasHad target → view after path ≡ target

  remove_found-PutBack :
      (path : String) (w : Host Bytes) (there : Bool)
      → (HasHad none → there ≡ false → view w path ≡ none)
      → PutBack path none w
          (remove_found system path there w).0
          (remove_found system path there w).1
  remove_found-PutBack path w false absent = record {
    others = λ q other. refl;
    either = inl refl;
    done = λ works had. absent had refl;
  }
  remove_found-PutBack path w true absent =
      let wrote = remove_file-Wrote system path w in
      record { others = wrote.others; either = wrote.either; done = λ works had. wrote.done works }

  unfound :
      (path : String) (w : Host Bytes) (file : Option (File Bytes))
      → w.files path ≡ file
      → HasHad none
      → (system.looks w.calls && is_present file) ≡ false
      → view w path ≡ none
  unfound path w none same had missed = rw same refl
  unfound path w (some file) same (inl never) missed = cc
  unfound path w (some file) same (inr looks) missed = ground (arith, looks w.calls)

  put_back-PutBack :
      (path : String) (target : Option Bytes) (w : Host Bytes)
      → PutBack path target w (put_back system path target w).0 (put_back system path target w).1
  put_back-PutBack path none w =
      let found =
        remove_found-PutBack path (record w { calls = suc w.calls })
          (system.looks w.calls && is_present (w.files path))
          (λ had missed. unfound path w (w.files path) refl had missed) in
      record { others = found.others; either = found.either; done = found.done }
  put_back-PutBack path (some contents) w =
      let wrote =
        Wrote-continue (write_relative_locked system path contents w)
          (if starts_with "usr/local/bin/" path
            then set_executable system storage path
            else give (ok tt))
          (write_relative-Wrote system path contents w)
          (λ h q. ground (arith, set_permissions-view system storage path 0o755 h q)) in
      record { others = wrote.others; either = wrote.either; done = λ works had. wrote.done works }

  -- The entries are what `old` has.
  abbrev pub AreCopies : (String → Option Bytes) → List (BackupEntry Bytes) → Type 0
  AreCopies old entries = All (λ (e : BackupEntry Bytes). e.contents ≡ old e.relative) entries

  -- A restoration, finished or not, makes a file what it was, or leaves it.
  pub restore_either :
      (old : String → Option Bytes) (entries : List (BackupEntry Bytes)) (w : Host Bytes)
      (q : String)
      → AreCopies old entries
      → (view (restore system entries w).1 q ≡ view w q)
        ⊎ (view (restore system entries w).1 q ≡ old q)
  unfolding restore
  restore_either old [] w q copies = inl refl
  restore_either old (entry ∷ entries) w q (copy, copies) =
      let step = put_back system entry.relative entry.contents w in
      let wrote = put_back-PutBack entry.relative entry.contents w in
      let first : (view step.1 q ≡ view w q) ⊎ (view step.1 q ≡ old q) =
        ground (arith, eq_iff q entry.relative, wrote.others q, wrote.either) in
      continue_post (λ r h. (view h q ≡ view w q) ⊎ (view h q ≡ old q)) step
        (λ _. restore system entries)
        (λ a worked. ground (arith, restore_either old entries step.1 q copies)) (λ e failed. first)

  -- A restoration that works makes a file what it was if the file is in the backup, or was so before.
  pub restore_done :
      (old : String → Option Bytes) (entries : List (BackupEntry Bytes)) (w : Host Bytes)
      (q : String)
      → AreCopies old entries
      → (view w q ≡ old q) ⊎ (In q (relatives entries) × HasHad (old q))
      → is_ok (restore system entries w).0 ≡ true
      → view (restore system entries w).1 q ≡ old q
  unfolding restore
  restore_done old [] w q copies listed =
      λ works. elim listed [ inl h ↦ h | inr (h, _) ↦ elim h [ ] ]
  restore_done old (entry ∷ entries) w q (copy, copies) listed =
      let step = put_back system entry.relative entry.contents w in
      let wrote = put_back-PutBack entry.relative entry.contents w in
      continue_post (λ r h. is_ok r ≡ true → view h q ≡ old q) step (λ _. restore system entries)
        (λ a worked.
          restore_done old entries step.1 q copies
            (ground (arith, eq_iff q entry.relative, wrote.others q, wrote.done)))
        (λ e failed works. cc)
