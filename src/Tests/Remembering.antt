-- ===== src/Tests/Remembering.antt =====
-- Instances of the theorems on the bounded histories.
use singbox_sub_me.Prelude.{
  ℕ, zero, suc, ◌≤◌, ◌<◌, ◌≡◌, refl, String, false, none, some, List, [], ◌∷◌, str_eq, All, length,
  arith,
}
use singbox_sub_me.History.{Snapshot, push_record, event_lines, event_limit}
use singbox_sub_me.History.Refinement.{
  Push, note, happened, log, sample, push_all, keep_all, newest, push_all-keep_all,
}
use singbox_sub_me.History.Pairing.{
  own_lines, texts, records, NotesDiffer, pushes-own_lines, lost_record_blocks,
}

abbrev empty : Snapshot ℕ
empty = record {
  events = [];
  event_records = [];
  core_logs = [];
  traffic_history = [];
  upload_speed = 0;
  download_speed = 0;
}

-- Two kinds of event.
abbrev render : ℕ → String
render zero = "ready"
render (suc n) = "stopped"

abbrev morning : List (Push ℕ)
morning = happened 0 ∷ sample 7 9 ∷ note "checking" ∷ log "started" ∷ happened 1 ∷ []

push_all-keep_all_example :
    push_all render morning (newest empty) ≡ newest (keep_all render morning empty)
push_all-keep_all_example = push_all-keep_all render morning empty

few_lines : length (texts render morning) ≤ event_limit
unfolding texts
few_lines = ground arith

morning_differs : NotesDiffer render morning
unfolding NotesDiffer
morning_differs = (refl, tt)

pushes-own_lines_example :
    event_lines render (push_all render morning (newest empty)) ≡ own_lines render morning
pushes-own_lines_example = pushes-own_lines render morning empty refl refl few_lines morning_differs

morning_lines :
    own_lines render morning ≡ ("ready", some 0) ∷ ("checking", none) ∷ ("stopped", some 1) ∷ []
unfolding own_lines
morning_lines = refl

-- n notes, and then the second event.
abbrev busy : ℕ → List (Push ℕ)
busy zero = happened 1 ∷ []
busy (suc n) = note "checking" ∷ busy n

busy_others : (n : ℕ) → All (λ m. str_eq "ready" m ≡ false) (texts render (busy n))
unfolding texts
busy_others zero = (refl, tt)
busy_others (suc n) = (refl, busy_others n)

many_lines : event_limit ≤ length (texts render (busy 200))
unfolding texts
many_lines = ground arith

few_records : length (records render (busy 200)) < event_limit
unfolding records
few_records = ground arith

lost_record_blocks_example :
    All
      (λ line. line.1 ≡ none)
      (event_lines render (push_all render (busy 200) (push_record render 0 (newest empty))))
lost_record_blocks_example =
    lost_record_blocks render 0 (busy 200) empty refl many_lines few_records (busy_others 200)
