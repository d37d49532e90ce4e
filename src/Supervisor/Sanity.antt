-- ===== src/Supervisor/Sanity.antt =====
-- crates/client-core/src/controller.rs: what always holds of the engine.
use singbox_sub_me.Prelude.{
  ℕ, ◌≤◌, ◌≡◌, refl, Bool, true, false, Option, none, some, List, [], ◌∷◌, not, ◌&&◌, arith,
  Bool-cases, inl, inr,
}
use singbox_sub_me.Supervisor.{
  startup, other, PendingOperation, Engine, max_auto_restarts, Event, received, finished, is_none,
  finish_operation, passes_gate, polled, Startable, Command, start_command, stop_command,
  restart_command, toggle_system_proxy, set_traffic_mode, background, update_settings, step, run,
  schedule_restart, complete, finish_pending, receive, apply, poll,
}

abbrev pub is_startup : Option PendingOperation → Bool
is_startup none = false
is_startup (some p) = elim p.operation [ startup mode ↦ true | other ↦ false ]

abbrev pub is_retry : Option PendingOperation → Bool
is_retry none = false
is_retry (some p) = p.restarting

abbrev pub is_set : Option ℕ → Bool
is_set none = false
is_set (some n) = true

pub record IsSane (e : Engine) : Type 0 where
  -- A core runs exactly while its process is held, and it has been healthy since some instant.
  pub held : e.child ≡ e.core_running
  pub healthy : is_set e.healthy_since ≡ e.core_running
  -- A start is under way exactly while its operation is pending, and never beside a running core.
  pub starts : is_startup e.pending ≡ e.starting
  pub alone : e.starting ≡ true → e.core_running ≡ false
  pub retries : is_retry e.pending ≡ true → e.starting ≡ true
  -- A restart is planned only while no core runs.
  pub planned : is_set e.restart_at ≡ true → e.core_running ≡ false
  pub limited : e.restart_attempts ≤ max_auto_restarts
  pub shown : e.shown_attempts ≡ e.restart_attempts
  -- The system's proxy is recorded as on only while a core runs behind it.
  pub proxied : e.system_proxy_enabled ≡ true → e.core_running ≡ true

finish-IsSane :
    (now : ℕ) (enabled succeeded : Bool) (e : Engine) (pending : Option PendingOperation)
    → e.pending ≡ pending
    → IsSane e
    → IsSane (finish_pending now enabled succeeded pending e)
unfolding finish_pending complete schedule_restart
finish-IsSane now enabled true e none same s = ground arith
finish-IsSane now enabled false e none same s = ground arith
finish-IsSane now enabled true e (some p) same s = ground arith
finish-IsSane now enabled false e (some p) same s = ground arith

poll-IsSane :
    (now : ℕ) (startable : Startable) (exited updates : Bool) (e : Engine)
    → IsSane e
    → IsSane (poll now startable exited updates e)
unfolding poll schedule_restart
poll-IsSane now startable exited updates e s = ground arith

apply-IsSane :
    (works again : Bool) (startable : Startable) (command : Command) (e : Engine)
    → e.pending ≡ none
    → IsSane e
    → IsSane (apply works again startable command e)
unfolding apply
apply-IsSane works again startable start_command e free s = ground arith
apply-IsSane works again startable stop_command e free s = ground arith
apply-IsSane works again startable restart_command e free s = ground arith
apply-IsSane works again startable toggle_system_proxy e free s = ground arith
apply-IsSane works again startable (set_traffic_mode mode restart) e free s = ground arith
apply-IsSane works again startable (background spawns) e free s = ground arith
apply-IsSane works again startable (update_settings mode proxy port) e free s = ground arith

interrupt-IsSane :
    (works again : Bool) (startable : Startable) (command : Command) (e : Engine)
    → passes_gate command ≡ true
    → IsSane e
    → IsSane (apply works again startable command e)
unfolding apply
interrupt-IsSane works again startable stop_command e passes s = ground arith
interrupt-IsSane works again startable restart_command e passes s = ground arith
interrupt-IsSane works again startable start_command e passes s = cc
interrupt-IsSane works again startable toggle_system_proxy e passes s = cc
interrupt-IsSane works again startable (set_traffic_mode mode restart) e passes s = cc
interrupt-IsSane works again startable (background spawns) e passes s = cc
interrupt-IsSane works again startable (update_settings mode proxy port) e passes s = cc

free_of :
    (pending : Option PendingOperation) (command : Command)
    → passes_gate command ≡ false
    → (not (is_none pending) && not (passes_gate command)) ≡ false
    → pending ≡ none
free_of none command stays open_ = refl
free_of (some p) command stays open_ = ground arith

receive-IsSane :
    (works again : Bool) (startable : Startable) (command : Command) (e : Engine)
    → IsSane e
    → IsSane (receive works again startable command e)
unfolding receive
receive-IsSane works again startable command e s =
    let held = not (is_none e.pending) && not (passes_gate command) in
    elim (Bool-cases held) [
      | inl blocked ↦ rw blocked s
      | inr open_ ↦ rw open_ (elim (Bool-cases (passes_gate command)) [
        | inl passes ↦ interrupt-IsSane works again startable command e passes s
        | inr stays ↦
            apply-IsSane works again startable command e (free_of e.pending command stays open_) s
      ])
    ]

-- Every event of the engine keeps it sane.
pub step-IsSane : (event : Event) (e : Engine) → IsSane e → IsSane (step event e)
unfolding step finish_operation
step-IsSane (received works again startable command) e s =
    receive-IsSane works again startable command e s
step-IsSane (finished now enabled succeeded) e s =
    finish-IsSane now enabled succeeded e e.pending refl s
step-IsSane (polled now startable exited updates) e s = poll-IsSane now startable exited updates e s

-- Over any sequence of commands, ends of operations and polls, an engine that is sane stays so: the
-- core runs exactly while its process is held, a start is pending exactly while one is under way and
-- never beside a running core, a restart is planned only while no core runs, no more than five
-- restarts are counted, and the engine records the system's proxy as on only while a core runs.
pub run-IsSane : (events : List Event) (e : Engine) → IsSane e → IsSane (run events e)
unfolding run
run-IsSane [] e s = s
run-IsSane (event ∷ events) e s = run-IsSane events (step event e) (step-IsSane event e s)
