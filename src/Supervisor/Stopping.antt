-- ===== src/Supervisor/Stopping.antt =====
-- crates/client-core/src/controller.rs stop_core: a core that the user stops stays stopped.
use singbox_sub_me.Prelude.{◌≡◌, false, none, List, [], ◌∷◌, arith}
use singbox_sub_me.Supervisor.{
  Engine, Event, received, finished, polled, start_command, stop_command, restart_command,
  toggle_system_proxy, set_traffic_mode, background, update_settings, schedule_restart, complete,
  stop_core, step, run,
}
use singbox_sub_me.Supervisor.Sanity.{is_startup, is_retry}

pub record IsStopped (e : Engine) : Type 0 where
  pub no_child : e.child ≡ false
  pub not_running : e.core_running ≡ false
  pub not_starting : e.starting ≡ false
  pub not_planned : e.restart_at ≡ none
  pub no_start : is_startup e.pending ≡ false
  pub no_retry : is_retry e.pending ≡ false
  pub no_proxy : e.system_proxy_enabled ≡ false

-- Any event but a command to start or restart the core.
abbrev pub IsQuiet : Event → Type 0
IsQuiet (received works again startable start_command) = ⊥
IsQuiet (received works again startable restart_command) = ⊥
IsQuiet event = Unit

abbrev pub AllQuiet : List Event → Type 0
AllQuiet [] = Unit
AllQuiet (event ∷ events) = IsQuiet event × AllQuiet events

step-IsStopped :
    (event : Event) (e : Engine) → IsQuiet event → IsStopped e → IsStopped (step event e)
unfolding step schedule_restart complete
step-IsStopped (received works again startable start_command) e q s = elim q [ ]
step-IsStopped (received works again startable restart_command) e q s = elim q [ ]
step-IsStopped (received works again startable stop_command) e q s = ground arith
step-IsStopped (received works again startable toggle_system_proxy) e q s = ground arith
step-IsStopped (received works again startable (set_traffic_mode m r)) e q s = ground arith
step-IsStopped (received works again startable (background spawns)) e q s = ground arith
step-IsStopped (received works again startable (update_settings m p o)) e q s = ground arith
step-IsStopped (finished now enabled succeeded) e q s = ground arith
step-IsStopped (polled now startable exited updates) e q s = ground arith

run-IsStopped :
    (events : List Event) (e : Engine) → AllQuiet events → IsStopped e → IsStopped (run events e)
unfolding run
run-IsStopped [] e q s = s
run-IsStopped (event ∷ events) e (q, qs) s =
    run-IsStopped events (step event e) qs (step-IsStopped event e q s)

-- From whatever state the user stops the core, in the middle of a start or a planned restart, say: over
-- any events but a command to start or restart it, no core runs, none is being started, none is
-- planned, and the engine records the system's proxy as off.
pub stop_lasts :
    (events : List Event) (e : Engine) → AllQuiet events → IsStopped (run events (stop_core e))
unfolding stop_core
stop_lasts events e quiet = run-IsStopped events (stop_core e) quiet (ground arith)
