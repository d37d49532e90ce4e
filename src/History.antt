-- ===== src/History.antt =====
-- crates/client-core/src/state.rs: the bounded histories of the published snapshot, oldest first, and
-- the pairing of event lines with their records. `render` is `EventRecord::render_zh`.
pub mod Windows
pub mod Refinement
pub mod Pairing
use singbox_sub_me.Prelude.{
  ℕ, suc, ◌-◌, ◌≡◌, String, Bool, true, false, Option, none, some, List, [], ◌∷◌, ◌++◌, max, ltb,
  leb, str_eq, if◌then◌else◌, length, drop,
}

-- `TRAFFIC_HISTORY`
abbrev pub traffic_history_limit : ℕ
traffic_history_limit = 300

abbrev pub event_limit : ℕ
event_limit = 200

abbrev pub log_limit : ℕ
log_limit = 500

pub record TrafficPoint : Type 0 where
  pub up : ℕ
  pub down : ℕ

-- The histories of `ClientSnapshot`, over the type of event records.
pub record Snapshot (R : Type 0) : Type 0 where
  pub events : List String
  pub event_records : List R
  pub core_logs : List String
  pub traffic_history : List TrafficPoint
  pub upload_speed : ℕ
  pub download_speed : ℕ

module _ {ℓ} {A : Type ℓ} where
  -- `while self.len() > limit { self.pop_front(); }`
  unfoldable pub pop_above : ℕ → List A → List A
  pop_above limit [] = []
  pop_above limit (x ∷ xs) =
      let rest = pop_above limit xs in if ltb limit (length (x ∷ xs)) then rest else x ∷ xs

  -- `while self.len() >= limit { self.pop_front(); }`
  unfoldable pub pop_from : ℕ → List A → List A
  pop_from limit [] = []
  pop_from limit (x ∷ xs) =
      let rest = pop_from limit xs in if leb limit (length (x ∷ xs)) then rest else x ∷ xs

-- `iter().map(…).max().unwrap_or(0)`
unfoldable pub peak : (TrafficPoint → ℕ) → List TrafficPoint → ℕ
peak rate [] = 0
peak rate (p ∷ ps) = max (rate p) (peak rate ps)

module _ {R : Type 0} where
  unfoldable pub push_event : String → Snapshot R → Snapshot R
  push_event message s = record s { events = pop_above event_limit (s.events ++ message ∷ []) }

  unfoldable pub push_log : String → Snapshot R → Snapshot R
  push_log line s = record s { core_logs = pop_above log_limit (s.core_logs ++ line ∷ []) }

  unfoldable pub push_traffic : ℕ → ℕ → Snapshot R → Snapshot R
  push_traffic up down s = record s {
    upload_speed = up;
    download_speed = down;
    traffic_history =
        pop_above traffic_history_limit (s.traffic_history ++ record { up = up; down = down } ∷ []);
  }

  unfoldable pub traffic_peak : Snapshot R → ℕ
  unfolding peak
  traffic_peak s = peak (λ p. max p.up p.down) s.traffic_history

  unfoldable pub download_peak : Snapshot R → ℕ
  unfolding peak
  download_peak s = peak (λ p. p.down) s.traffic_history

  unfoldable pub upload_peak : Snapshot R → ℕ
  unfolding peak
  upload_peak s = peak (λ p. p.up) s.traffic_history

  module _ (render : R → String) where
    unfoldable pub push_record : R → Snapshot R → Snapshot R
    unfolding push_event
    push_record r s =
        push_event (render r)
          (record s { event_records = pop_from event_limit s.event_records ++ r ∷ [] })

    abbrev pub matches : Option R → String → Bool
    matches none text = false
    matches (some r) text = str_eq (render r) text

    abbrev pub first : List R → Option R
    first [] = none
    first (r ∷ rs) = some r

    abbrev pub rest : List R → List R
    rest [] = []
    rest (r ∷ rs) = rs

    -- The loop of `event_lines`; the records are the pending one and those behind it.
    unfoldable pub pair_lines : List String → List R → List (String × Option R)
    pair_lines [] records = []
    pair_lines (text ∷ texts) records =
        let paired = (text, first records) ∷ pair_lines texts (rest records) in
        let unpaired = (text, none) ∷ pair_lines texts records in
        if matches (first records) text then paired else unpaired

    unfoldable pub event_lines : Snapshot R → List (String × Option R)
    unfolding pair_lines
    event_lines s = pair_lines s.events s.event_records
