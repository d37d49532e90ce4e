-- ===== src/History/Refinement.antt =====
-- crates/client-core/src/state.rs: the histories as windows on all that was ever pushed.
use singbox_sub_me.Prelude.{ℕ, suc, ◌≡◌, refl, ◌∙◌, String, List, [], ◌∷◌, ◌++◌, arith}
use singbox_sub_me.History.{
  Snapshot, pop_above, pop_from, traffic_history_limit, event_limit, log_limit, push_event,
  push_record, push_log, push_traffic,
}
use singbox_sub_me.History.Windows.{
  window, window_again, window-append, pop_above-window, pop_from-window,
}

-- One call of a push method.
pub data Push (R : Type 0) : Type 0 where
  note : (message : String) → Push R
  happened : (event : R) → Push R
  log : (line : String) → Push R
  sample : (up down : ℕ) → Push R

module _ {R : Type 0} (render : R → String) where
  abbrev pub push : Push R → Snapshot R → Snapshot R
  push (note message) s = push_event message s
  push (happened event) s = push_record render event s
  push (log line) s = push_log line s
  push (sample up down) s = push_traffic up down s

  abbrev pub push_all : List (Push R) → Snapshot R → Snapshot R
  push_all [] s = s
  push_all (p ∷ ps) s = push_all ps (push p s)

  -- The specification: nothing is ever forgotten.
  unfoldable pub keep : Push R → Snapshot R → Snapshot R
  keep (note message) s = record s { events = s.events ++ message ∷ [] }
  keep (happened event) s = record s {
    events = s.events ++ render event ∷ [];
    event_records = s.event_records ++ event ∷ [];
  }
  keep (log line) s = record s { core_logs = s.core_logs ++ line ∷ [] }
  keep (sample up down) s = record s {
    upload_speed = up;
    download_speed = down;
    traffic_history = s.traffic_history ++ record { up = up; down = down } ∷ [];
  }

  unfoldable pub keep_all : List (Push R) → Snapshot R → Snapshot R
  unfolding keep
  keep_all [] s = s
  keep_all (p ∷ ps) s = keep_all ps (keep p s)

-- The newest 200 events, 200 records, 500 log lines and 300 samples.
unfoldable pub newest : {R : Type 0} → Snapshot R → Snapshot R
unfolding window
newest s = record s {
  events = window event_limit s.events;
  event_records = window event_limit s.event_records;
  core_logs = window log_limit s.core_logs;
  traffic_history = window traffic_history_limit s.traffic_history;
}

pushed :
    {A : Type 0} (n : ℕ) (xs : List A) (x : A)
    → pop_above n (window n xs ++ x ∷ []) ≡ window n (xs ++ x ∷ [])
pushed n xs x = pop_above-window n (window n xs ++ x ∷ []) ∙ window_again n n xs x (omega arith)

made_room :
    {A : Type 0} (n : ℕ) (xs : List A) (x : A)
    → pop_from (suc n) (window (suc n) xs) ++ x ∷ [] ≡ window (suc n) (xs ++ x ∷ [])
made_room n xs x =
    rw (pop_from-window, window-append) (window_again (suc n) (suc n) xs x (omega arith))

module _ {R : Type 0} (render : R → String) where
  push-keep : (p : Push R) (s : Snapshot R) → push render p (newest s) ≡ newest (keep render p s)
  unfolding newest keep push_event push_record push_log push_traffic
  push-keep (note message) s = rw pushed refl
  push-keep (happened event) s = rw (pushed, made_room 199) refl
  push-keep (log line) s = rw pushed refl
  push-keep (sample up down) s = rw pushed refl

  -- Whatever is pushed, in whatever order, the histories are the newest 200 events, 200 records, 500 log
  -- lines and 300 samples of all that was ever pushed, if they were so at the start.
  pub push_all-keep_all :
      (ps : List (Push R)) (s : Snapshot R)
      → push_all render ps (newest s) ≡ newest (keep_all render ps s)
  unfolding keep_all
  push_all-keep_all [] s = refl
  push_all-keep_all (p ∷ ps) s = rw (push-keep p s) (push_all-keep_all ps (keep render p s))
