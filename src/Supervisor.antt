-- ===== src/Supervisor.antt =====
-- crates/client-core/src/controller.rs: the engine's care for the core that it runs. The engine
-- handles one event at a time; an instant is a number of nanoseconds.
pub mod Sanity
pub mod Allowance
pub mod Stopping
use singbox_sub_me.Prelude.{
  ℕ, zero, suc, ◌+◌, ◌-◌, ◌*◌, ◌^◌, min, ◌≡◌, Bool, true, false, ◌&&◌, ◌||◌, not, Option, none,
  some, List, [], ◌∷◌, leb, ltb, if◌then◌else◌,
}
use singbox_sub_me.Runtime.{TrafficMode, system_proxy, tun}

abbrev pub second : ℕ
second = 1000000000

-- `MAX_AUTO_RESTARTS` and `STABLE_RUN`
abbrev pub max_auto_restarts : ℕ
max_auto_restarts = 5

abbrev pub stable_run : ℕ
stable_run = 60 * second

-- The operation that runs in the background: a start of the core in a mode, or any other.
pub data Operation : Type 0 where
  startup : TrafficMode → Operation
  other : Operation

pub record PendingOperation : Type 0 where
  pub operation : Operation
  pub restarting : Bool

pub record Engine : Type 0 where
  -- The handle of the core's process is held.
  pub child : Bool
  pub core_running : Bool
  pub starting : Bool
  pub pending : Option PendingOperation
  pub restart_at : Option ℕ
  pub restart_attempts : ℕ
  -- `snapshot.restart_attempts`
  pub shown_attempts : ℕ
  pub healthy_since : Option ℕ
  -- The engine's own record of the system's proxy. A `disable` that fails is ignored where the core stops
  -- or crashes, and the record is cleared all the same: it does not say what the system does.
  pub system_proxy_enabled : Bool
  -- `settings.traffic_mode` and `snapshot.traffic_mode`
  pub traffic_mode : TrafficMode
  pub shown_mode : TrafficMode
  pub auto_system_proxy : Bool

-- core.rs `restart_backoff`, in seconds
unfoldable pub restart_backoff : ℕ → ℕ
restart_backoff attempt = min (2 ^ min (attempt + 1) 5) 30

-- What the environment answers to a start: whether the mode, the profile, the core's file and the
-- override allow one.
abbrev pub Startable : Type 0
Startable = TrafficMode → Bool

unfoldable pub spawn_operation : Operation → Engine → Engine
spawn_operation operation e = record e {
  pending =
      some (record { operation = operation; restarting = ltb 0 e.restart_attempts && e.starting });
}

unfoldable pub cancel_operation : Engine → Engine
cancel_operation e = record e { pending = none; starting = false }

unfoldable pub schedule_restart : ℕ → Engine → Engine
schedule_restart now e =
    let down = record e {
      healthy_since = none;
      restart_at = none;
      core_running = false;
      system_proxy_enabled = false;
    } in
    if leb max_auto_restarts e.restart_attempts then down else record down {
      restart_attempts = e.restart_attempts + 1;
      shown_attempts = e.restart_attempts + 1;
      restart_at = some (now + restart_backoff e.restart_attempts * second);
    }

-- Whether the start is accepted, with the engine after it.
unfoldable pub start_core : Startable → Engine → Bool × Engine
unfolding spawn_operation
start_core startable e =
    if e.core_running || e.starting
    then (true, e)
    else if startable e.traffic_mode
    then (true, spawn_operation (startup e.traffic_mode) (record e { starting = true }))
    else (false, e)

unfoldable pub stop_core : Engine → Engine
unfolding cancel_operation
stop_core e = record (cancel_operation e) {
  healthy_since = none;
  core_running = false;
  starting = false;
  restart_at = none;
  restart_attempts = 0;
  shown_attempts = 0;
  system_proxy_enabled = false;
  child = false;
}

abbrev pub is_system_proxy : TrafficMode → Bool
is_system_proxy system_proxy = true
is_system_proxy tun = false

-- The closure that a finished operation hands back; `enabled` is the system's answer to a change of
-- its proxy.
unfoldable pub complete : ℕ → Bool → Operation → Engine → Engine
complete now enabled other e = e
complete now enabled (startup mode) e = record e {
  child = true;
  core_running = true;
  healthy_since = some now;
  restart_at = none;
  system_proxy_enabled =
      if is_system_proxy mode && e.auto_system_proxy && enabled
      then true
      else e.system_proxy_enabled;
}

abbrev settle_failure : ℕ → Bool → Engine → Engine
settle_failure now restarting e = if restarting then schedule_restart now e else e

-- `finish_operation`, where the pending operation has finished: well or not.
unfoldable pub finish_pending : ℕ → Bool → Bool → Option PendingOperation → Engine → Engine
unfolding complete schedule_restart
finish_pending now enabled succeeded none e = e
finish_pending now enabled true (some p) e =
    record (complete now enabled p.operation (record e { pending = none })) { starting = false }
finish_pending now enabled false (some p) e =
    settle_failure now p.restarting (record e { pending = none; starting = false })

unfoldable pub finish_operation : ℕ → Bool → Bool → Engine → Engine
unfolding finish_pending
finish_operation now enabled succeeded e = finish_pending now enabled succeeded e.pending e

abbrev pub is_stable : ℕ → Option ℕ → Bool
is_stable now none = false
is_stable now (some since) = leb stable_run (now - since)

unfoldable pub reset_restarts_after_stable_run : ℕ → Engine → Engine
reset_restarts_after_stable_run now e =
    if is_stable now e.healthy_since
    then record e { restart_attempts = 0; shown_attempts = 0 }
    else e

-- `watch_core_exit`; `exited` is the answer of `try_wait`.
unfoldable pub watch_core_exit : ℕ → Bool → Engine → Bool × Engine
unfolding schedule_restart
watch_core_exit now exited e =
    if e.child && exited
    then (true, schedule_restart now (record e { child = false }))
    else (false, e)

abbrev pub is_none {ℓ} : {A : Type ℓ} → Option A → Bool
is_none none = true
is_none (some _) = false

abbrev pub is_due : ℕ → Option ℕ → Bool
is_due now none = false
is_due now (some at) = leb at now

abbrev retried : ℕ → Bool × Engine → Engine
retried now (true, e) = e
retried now (false, e) = schedule_restart now e

-- The two halves of `poll`; `updates` says that an automatic update of the subscription is due.
unfoldable pub poll_running : ℕ → Bool → Bool → Engine → Engine
unfolding watch_core_exit reset_restarts_after_stable_run spawn_operation cancel_operation
poll_running now exited updates e =
    let (gone, after) = watch_core_exit now exited e in
    let kept = reset_restarts_after_stable_run now after in
    if gone
    then cancel_operation after
    else if is_none kept.pending && updates
    then spawn_operation other kept
    else kept

unfoldable pub poll_stopped : ℕ → Startable → Engine → Engine
unfolding start_core schedule_restart
poll_stopped now startable e =
    if is_none e.pending && is_due now e.restart_at
    then retried now (start_core startable (record e { restart_at = none }))
    else e

unfoldable pub poll : ℕ → Startable → Bool → Bool → Engine → Engine
unfolding poll_running poll_stopped
poll now startable exited updates e =
    if e.core_running then poll_running now exited updates e else poll_stopped now startable e

-- The commands that reach the core, and the others by whether they start a background operation.
pub data Command : Type 0 where
  start_command stop_command restart_command toggle_system_proxy : Command
  set_traffic_mode : TrafficMode → Bool → Command
  background : Bool → Command
  -- The patch's traffic mode and switch of the proxy, and whether it has a port.
  update_settings : Option TrafficMode → Option Bool → Bool → Command

-- `toggle_system_proxy`; `works` is the system's answer.
unfoldable pub toggle_proxy : Bool → Engine → Engine
toggle_proxy works e =
    if not works
    then e
    else if e.system_proxy_enabled
    then record e { system_proxy_enabled = false }
    else if is_system_proxy e.shown_mode && e.core_running
    then record e { system_proxy_enabled = true }
    else e

-- `apply_traffic_mode`, where the settings can be saved and where they cannot.
unfoldable pub apply_traffic_mode : Bool → TrafficMode → Engine → Engine
apply_traffic_mode saves mode e =
    if saves
    then record e { traffic_mode = mode; shown_mode = mode }
    else record e { traffic_mode = mode }

-- What follows a restart in the new mode: a refusal brings the previous mode back.
unfoldable pub settle_mode : Bool → Startable → TrafficMode → Bool × Engine → Engine
unfolding apply_traffic_mode stop_core start_core
settle_mode saves startable previous (true, e) = e
settle_mode saves startable previous (false, e) =
    let back = apply_traffic_mode saves previous e in
    if saves then (start_core startable (stop_core back)).1 else back

unfoldable pub change_mode : Bool → Bool → Startable → TrafficMode → Bool → Engine → Engine
unfolding settle_mode apply_traffic_mode stop_core start_core
change_mode saves again startable mode restart e =
    let changed = apply_traffic_mode saves mode e in
    if not e.core_running
    then changed
    else if not restart
    then e
    else if not saves
    then changed
    else settle_mode again startable e.traffic_mode (start_core startable (stop_core changed))

abbrev or_kept : {A : Type 0} → A → Option A → A
or_kept old none = old
or_kept old (some new) = new

-- `update_settings`: the settings change before they are saved.
unfoldable pub change_settings : Bool → Option TrafficMode → Option Bool → Bool → Engine → Engine
change_settings saves mode proxy port e =
    let patched = record e {
      traffic_mode = or_kept e.traffic_mode mode;
      auto_system_proxy = or_kept e.auto_system_proxy proxy;
    } in
    if e.core_running && (not (is_none mode) || port)
    then e
    else if saves
    then record patched { shown_mode = patched.traffic_mode }
    else patched

-- `apply`; `works` is what the system answers to the saving of settings and to the proxy's change,
-- and `again` what it answers to a second saving.
unfoldable pub apply : Bool → Bool → Startable → Command → Engine → Engine
unfolding start_core stop_core toggle_proxy change_mode change_settings spawn_operation
apply works again startable start_command e =
    let fresh = record e { restart_attempts = 0; shown_attempts = 0 } in
    (start_core startable (if e.core_running || e.starting then e else fresh)).1
apply works again startable stop_command e = stop_core e
apply works again startable restart_command e = (start_core startable (stop_core e)).1
apply works again startable toggle_system_proxy e = toggle_proxy works e
apply works again startable (set_traffic_mode mode restart) e =
    change_mode works again startable mode restart e
apply works again startable (background spawns) e = if spawns then spawn_operation other e else e
apply works again startable (update_settings mode proxy port) e =
    change_settings works mode proxy port e

abbrev pub passes_gate : Command → Bool
passes_gate stop_command = true
passes_gate restart_command = true
passes_gate _ = false

-- The loop of `run` on one command: a pending operation holds all but two of them back.
unfoldable pub receive : Bool → Bool → Startable → Command → Engine → Engine
unfolding apply
receive works again startable command e =
    if not (is_none e.pending) && not (passes_gate command)
    then e
    else apply works again startable command e

-- What the engine's task meets: a command, the end of the pending operation, or a poll. The command
-- `Shutdown` ends the loop, and with it a list of events.
pub data Event : Type 0 where
  received : Bool → Bool → Startable → Command → Event
  finished : ℕ → Bool → Bool → Event
  polled : ℕ → Startable → Bool → Bool → Event

unfoldable pub step : Event → Engine → Engine
unfolding receive finish_operation poll
step (received works again startable command) e = receive works again startable command e
step (finished now enabled succeeded) e = finish_operation now enabled succeeded e
step (polled now startable exited updates) e = poll now startable exited updates e

unfoldable pub run : List Event → Engine → Engine
unfolding step
run [] e = e
run (event ∷ events) e = run events (step event e)
