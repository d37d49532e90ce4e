-- ===== src/Supervisor/Allowance.antt =====
-- crates/client-core/src/controller.rs: how often the engine restarts a core by itself, and when.
use singbox_sub_me.Prelude.{
  ℕ, zero, suc, ◌+◌, ◌-◌, ◌*◌, ◌≤◌, ◌<◌, ◌≡◌, Bool, true, false, ◌&&◌, not, List, [], ◌∷◌,
  if◌then◌else◌, leb, arith,
}
use singbox_sub_me.Supervisor.{
  Engine, second, max_auto_restarts, restart_backoff, Startable, Event, received, finished, polled,
  start_command, stop_command, restart_command, set_traffic_mode, background, update_settings,
  toggle_system_proxy, is_stable, schedule_restart, complete, poll, step, run,
}
use singbox_sub_me.Supervisor.Sanity.{IsSane, is_set, step-IsSane}

-- The events that leave the core to the engine: no command to start, stop or restart it, and no poll
-- of a core that has run for the stable time.
abbrev pub IsUnattended : Event → Engine → Type 0
IsUnattended (received works again startable (background spawns)) e = Unit
IsUnattended (received works again startable toggle_system_proxy) e = Unit
IsUnattended (received works again startable (update_settings mode proxy port)) e = Unit
IsUnattended (received works again startable command) e = ⊥
IsUnattended (finished now enabled succeeded) e = Unit
IsUnattended (polled now startable exited updates) e = is_stable now e.healthy_since ≡ false

abbrev pub AllUnattended : List Event → Engine → Type 0
AllUnattended [] e = Unit
AllUnattended (event ∷ events) e = IsUnattended event e × AllUnattended events (step event e)

-- The event starts the core.
abbrev pub launched : Event → Engine → ℕ
launched event e = if not e.starting && (step event e).starting then 1 else 0

unfoldable pub launches : List Event → Engine → ℕ
launches [] e = 0
launches (event ∷ events) e = launched event e + launches events (step event e)

-- The starts that the engine may still make by itself.
abbrev pub allowance : Engine → ℕ
allowance e = max_auto_restarts - e.restart_attempts + (if is_set e.restart_at then 1 else 0)

step_spends :
    (event : Event) (e : Engine)
    → IsSane e
    → IsUnattended event e
    → launched event e + allowance (step event e) ≤ allowance e
unfolding step schedule_restart complete
step_spends (received works again startable (background spawns)) e s u = ground arith
step_spends (received works again startable (update_settings m p o)) e s u = ground arith
step_spends (received works again startable toggle_system_proxy) e s u = ground arith
step_spends (received works again startable start_command) e s u = elim u [ ]
step_spends (received works again startable stop_command) e s u = elim u [ ]
step_spends (received works again startable restart_command) e s u = elim u [ ]
step_spends (received works again startable (set_traffic_mode m r)) e s u = elim u [ ]
step_spends (finished now enabled succeeded) e s u = ground arith
step_spends (polled now startable exited updates) e s u = ground arith

-- Left to itself, without a stable run in between, the engine starts a core no more often than its
-- allowance: five times from a start by the user, whatever fails and however the events fall.
pub launches_limited :
    (events : List Event) (e : Engine)
    → IsSane e
    → AllUnattended events e
    → launches events e + allowance (run events e) ≤ allowance e
unfolding launches run
launches_limited [] e s u = omega arith
launches_limited (event ∷ events) e s (u, rest) = omega (
  arith,
  step_spends event e s u,
  launches_limited events (step event e) (step-IsSane event e s) rest,
)

backoff_bounds :
    (attempts : ℕ) → attempts < 5 → (2 ≤ restart_backoff attempts) × (restart_backoff attempts ≤ 30)
unfolding restart_backoff
backoff_bounds zero h = omega arith
backoff_bounds (suc zero) h = omega arith
backoff_bounds (suc (suc zero)) h = omega arith
backoff_bounds (suc (suc (suc zero))) h = omega arith
backoff_bounds (suc (suc (suc (suc zero)))) h = omega arith
backoff_bounds (suc (suc (suc (suc (suc n))))) h = absurd (omega arith)

-- When a poll finds that a running core has exited, and fewer than five restarts are counted, the
-- next poll starts the core again exactly if the back-off has passed, which is two to thirty seconds,
-- and the mode can be started.
pub crash_restarts :
    (e : Engine) (now later : ℕ) (startable startable' : Startable) (exited updates updates' : Bool)
    → IsSane e
    → e.core_running ≡ true
    → e.restart_attempts < max_auto_restarts
    → let after = poll now startable true updates e in
      (after.core_running ≡ false)
      × ((poll later startable' exited updates' after).starting ≡ (
          leb (now + restart_backoff e.restart_attempts * second) later
          && startable' e.traffic_mode))
      × (2 ≤ restart_backoff e.restart_attempts)
      × (restart_backoff e.restart_attempts ≤ 30)
unfolding poll schedule_restart
crash_restarts e now later startable startable' exited updates updates' s running few =
    let (least, most) = backoff_bounds e.restart_attempts few in
    (ground arith, ground arith, least, most)
