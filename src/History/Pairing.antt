-- ===== src/History/Pairing.antt =====
-- crates/client-core/src/state.rs event_lines: which lines get a record.
use singbox_sub_me.Prelude.{
  ◌<◌, ◌≤◌, ◌≡◌, refl, sym, ◌∙◌, String, false, none, some, Option, List, [], ◌∷◌, ◌++◌, str_eq,
  eq_refl, length, All, arith,
}
use singbox_sub_me.History.{Snapshot, event_limit, push_record, pair_lines, event_lines}
use singbox_sub_me.History.Windows.{window, window_whole, window_back, window-All}
use singbox_sub_me.History.Refinement.{
  Push, note, happened, log, sample, push_all, keep, keep_all, newest, push_all-keep_all,
}
use mathlib.Core.List.{append_assoc, append-nil}

module _ {R : Type 0} (render : R → String) where
  -- The lines that a run of pushes adds, each record beside its own line.
  unfoldable pub own_lines : List (Push R) → List (String × Option R)
  own_lines [] = []
  own_lines (note m ∷ ps) = (m, none) ∷ own_lines ps
  own_lines (happened r ∷ ps) = (render r, some r) ∷ own_lines ps
  own_lines (log l ∷ ps) = own_lines ps
  own_lines (sample u d ∷ ps) = own_lines ps

  unfoldable pub texts : List (Push R) → List String
  texts [] = []
  texts (note m ∷ ps) = m ∷ texts ps
  texts (happened r ∷ ps) = render r ∷ texts ps
  texts (log l ∷ ps) = texts ps
  texts (sample u d ∷ ps) = texts ps

  unfoldable pub records : List (Push R) → List R
  records [] = []
  records (note m ∷ ps) = records ps
  records (happened r ∷ ps) = r ∷ records ps
  records (log l ∷ ps) = records ps
  records (sample u d ∷ ps) = records ps

  -- The text is not the rendering of the first record.
  abbrev pub IsOther : String → List R → Type 0
  IsOther m [] = Unit
  IsOther m (r ∷ rs) = str_eq (render r) m ≡ false

  -- No note reads like the next record.
  unfoldable pub NotesDiffer : List (Push R) → Type 0
  unfolding records
  NotesDiffer [] = Unit
  NotesDiffer (note m ∷ ps) = IsOther m (records ps) × NotesDiffer ps
  NotesDiffer (happened r ∷ ps) = NotesDiffer ps
  NotesDiffer (log l ∷ ps) = NotesDiffer ps
  NotesDiffer (sample u d ∷ ps) = NotesDiffer ps

  pair_other :
      (m : String) (ms : List String) (rs : List R)
      → IsOther m rs
      → pair_lines render (m ∷ ms) rs ≡ (m, none) ∷ pair_lines render ms rs
  unfolding pair_lines
  pair_other m ms [] other = refl
  pair_other m ms (r ∷ rs) other = rw other refl

  pair_own :
      (ps : List (Push R))
      → NotesDiffer ps
      → pair_lines render (texts ps) (records ps) ≡ own_lines ps
  unfolding NotesDiffer texts records own_lines pair_lines
  pair_own [] d = refl
  pair_own (note m ∷ ps) d = rw (pair_other m (texts ps) (records ps) d.0, pair_own ps d.1) refl
  pair_own (happened r ∷ ps) d = rw (eq_refl (render r), pair_own ps d) refl
  pair_own (log l ∷ ps) d = pair_own ps d
  pair_own (sample u v ∷ ps) d = pair_own ps d

  kept_texts :
      (ps : List (Push R)) (s : Snapshot R) → (keep_all render ps s).events ≡ s.events ++ texts ps
  unfolding keep_all keep texts
  kept_texts [] s = sym (append-nil s.events)
  kept_texts (note m ∷ ps) s =
      kept_texts ps (keep render (note m) s) ∙ append_assoc s.events (m ∷ []) (texts ps)
  kept_texts (happened r ∷ ps) s =
      kept_texts ps (keep render (happened r) s) ∙ append_assoc s.events (render r ∷ []) (texts ps)
  kept_texts (log l ∷ ps) s = kept_texts ps (keep render (log l) s)
  kept_texts (sample u d ∷ ps) s = kept_texts ps (keep render (sample u d) s)

  kept_records :
      (ps : List (Push R)) (s : Snapshot R)
      → (keep_all render ps s).event_records ≡ s.event_records ++ records ps
  unfolding keep_all keep records
  kept_records [] s = sym (append-nil s.event_records)
  kept_records (note m ∷ ps) s = kept_records ps (keep render (note m) s)
  kept_records (happened r ∷ ps) s =
      kept_records ps (keep render (happened r) s)
      ∙ append_assoc s.event_records (r ∷ []) (records ps)
  kept_records (log l ∷ ps) s = kept_records ps (keep render (log l) s)
  kept_records (sample u d ∷ ps) s = kept_records ps (keep render (sample u d) s)

  -- What the lines are after pushes, from a state that is within its limits.
  pushed_lines :
      (ps : List (Push R)) (s : Snapshot R)
      → event_lines render (push_all render ps (newest s))
        ≡ pair_lines render
            (window event_limit (s.events ++ texts ps))
            (window event_limit (s.event_records ++ records ps))
  unfolding event_lines newest
  pushed_lines ps s = rw (push_all-keep_all render ps s, kept_texts ps s, kept_records ps s) refl

  records_fewer : (ps : List (Push R)) → length (records ps) ≤ length (texts ps)
  unfolding records texts
  records_fewer [] = omega arith
  records_fewer (note m ∷ ps) = omega (arith, records_fewer ps)
  records_fewer (happened r ∷ ps) = omega (arith, records_fewer ps)
  records_fewer (log l ∷ ps) = records_fewer ps
  records_fewer (sample u d ∷ ps) = records_fewer ps

  -- From empty histories, after pushes that add at most 200 event lines and in which no plain line reads
  -- like the next record, event_lines gives each record beside its own line, and no record beside a plain
  -- line.
  pub pushes-own_lines :
      (ps : List (Push R)) (s : Snapshot R)
      → s.events ≡ []
      → s.event_records ≡ []
      → length (texts ps) ≤ event_limit
      → NotesDiffer ps
      → event_lines render (push_all render ps (newest s)) ≡ own_lines ps
  pushes-own_lines ps s no_events no_records few differ =
      let fewer : length (records ps) ≤ event_limit = omega (arith, few, records_fewer ps) in
      rw
        (
          pushed_lines ps s,
          no_events,
          no_records,
          window_whole event_limit (texts ps) few,
          window_whole event_limit (records ps) fewer,
        )
        (pair_own ps differ)

  pair_blocked :
      (r : R) (rs : List R) (ms : List String)
      → All (λ m. str_eq (render r) m ≡ false) ms
      → All (λ line. line.1 ≡ none) (pair_lines render ms (r ∷ rs))
  unfolding pair_lines
  pair_blocked r rs [] others = tt
  pair_blocked r rs (m ∷ ms) (other, others) = rw other (refl, pair_blocked r rs ms others)

  -- Once 200 further event lines have pushed out the line of the oldest record, and none of them reads
  -- like it, event_lines shows no record beside any line, however many of them have records, until 200
  -- records have been pushed.
  pub lost_record_blocks :
      (r : R) (ps : List (Push R)) (s : Snapshot R)
      → s.event_records ≡ []
      → event_limit ≤ length (texts ps)
      → length (records ps) < event_limit
      → All (λ m. str_eq (render r) m ≡ false) (texts ps)
      → All
          (λ line. line.1 ≡ none)
          (event_lines render (push_all render ps (push_record render r (newest s))))
  unfolding texts records
  lost_record_blocks r ps s no_records many few others =
      let late = append_assoc s.events (render r ∷ []) (texts ps) in
      let after = window_back event_limit (s.events ++ render r ∷ []) (texts ps) many in
      let kept : length (r ∷ records ps) ≤ event_limit = omega (arith, few) in
      rw
        (
          pushed_lines (happened r ∷ ps) s,
          no_records,
          window_whole event_limit (r ∷ records ps) kept,
          ← late,
          after,
        )
        (pair_blocked r (records ps) (window event_limit (texts ps))
          (window-All _ event_limit (texts ps) others))
