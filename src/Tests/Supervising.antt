-- ===== src/Tests/Supervising.antt =====
-- Instances of the theorems on the engine's care for the core.
use singbox_sub_me.Prelude.{
  ◌+◌, ◌*◌, ◌≤◌, ◌≡◌, refl, true, false, ◌&&◌, none, some, List, [], ◌∷◌, leb, arith,
}
use singbox_sub_me.Runtime.{system_proxy}
use singbox_sub_me.Supervisor.{
  Engine, Startable, Event, received, finished, polled, start_command, second, finish_operation,
  restart_backoff, schedule_restart, complete, stop_core, poll, step, run,
}
use singbox_sub_me.Supervisor.Sanity.{IsSane, run-IsSane}
use singbox_sub_me.Supervisor.Allowance.{
  AllUnattended, allowance, launches, launches_limited, crash_restarts,
}
use singbox_sub_me.Supervisor.Stopping.{IsStopped, stop_lasts}

abbrev idle : Engine
idle = record {
  child = false;
  core_running = false;
  starting = false;
  pending = none;
  restart_at = none;
  restart_attempts = 0;
  shown_attempts = 0;
  healthy_since = none;
  system_proxy_enabled = false;
  traffic_mode = system_proxy;
  shown_mode = system_proxy;
  auto_system_proxy = true;
}

abbrev running : Engine
running = record idle {
  child = true;
  core_running = true;
  healthy_since = some 0;
  system_proxy_enabled = true;
}

abbrev allowed : Startable
allowed mode = true

idle-IsSane : IsSane idle
idle-IsSane = ground arith

running-IsSane : IsSane running
running-IsSane = ground arith

-- The core exits, is started again after two seconds, and does not come up.
abbrev crash : List Event
crash =
    polled second allowed true false
    ∷ polled (3 * second) allowed false false
    ∷ finished (4 * second) true false
    ∷ polled (5 * second) allowed false false
    ∷ []

-- A second restart is planned, four seconds after the failed start.
crash_replans : (run crash running).restart_at ≡ some (8 * second)
unfolding run schedule_restart restart_backoff complete
crash_replans = refl

run-IsSane_example :
    IsSane (run (received true true allowed start_command ∷ finished 7 true true ∷ crash) idle)
run-IsSane_example =
    run-IsSane (received true true allowed start_command ∷ finished 7 true true ∷ crash) idle
      idle-IsSane

crash_unattended : AllUnattended crash running
unfolding step schedule_restart complete finish_operation restart_backoff
crash_unattended = (refl, (refl, (tt, (refl, tt))))

launches_limited_example :
    launches crash running + allowance (run crash running) ≤ allowance running
launches_limited_example = launches_limited crash running running-IsSane crash_unattended

crash_restarts_example :
    let after = poll second allowed true false running in
    (after.core_running ≡ false)
    × ((poll (3 * second) allowed false false after).starting
        ≡ (leb (second + restart_backoff 0 * second) (3 * second) && true))
    × (2 ≤ restart_backoff 0)
    × (restart_backoff 0 ≤ 30)
crash_restarts_example =
    crash_restarts running second (3 * second) allowed allowed false false false running-IsSane refl
      (omega arith)

stop_lasts_example : IsStopped (run crash (stop_core running))
stop_lasts_example = stop_lasts crash running (tt, (tt, (tt, (tt, tt))))
