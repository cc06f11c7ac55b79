-- ===== src/Monitor/Enforce/Tests.antt =====
-- A quota that is exceeded while a call fails, and the rounds after it.
use singbox_deploy.Common.{◌≡◌, refl, ◌&&◌, ◌||◌, not, true, false, none}
use singbox_deploy.Monitor.Quota.{
  TrafficLimits, TrafficTotals, TrafficPackage, total, limit_exceeded, exceeded, extend_limit,
  with_package,
}
use singbox_deploy.Monitor.Enforce.{
  World, Call, Faults, stop_service, persist_marker, set_stopped_by_quota, enforce_stop, no_limits,
  reconcile_quota, restart,
}
use singbox_deploy.Monitor.Enforce.Ownership.{
  Scene, Reach, Succeeds, after_call, spent, reconcile, here, next, Reach-Accounted,
  reconcile_quota_causes, reconcile_quota_settles, stop_is_released,
}

abbrev fine : Call
fine = record { succeeds = true; leaves = true }

abbrev late_failure : Call
late_failure = record { succeeds = false; leaves = true }

abbrev no_faults : Faults
no_faults = record {
  usage = true;
  grant = true;
  inspect = true;
  start = fine;
  stop = fine;
  persist = fine;
}

-- The stop fails after it stopped the service.
abbrev stop_faults : Faults
stop_faults = record no_faults { stop = late_failure }

abbrev limits : TrafficLimits
limits = record { in_bytes = 1000; out_bytes = 0; total_bytes = 0 }

abbrev nothing : TrafficPackage
nothing = record { in_bytes = 0; out_bytes = 0; total_bytes = 0 }

abbrev top_up : TrafficPackage
top_up = record { in_bytes = 500; out_bytes = 0; total_bytes = 0 }

abbrev used : TrafficTotals
used = record { in_bytes = 1000; out_bytes = 10 }

abbrev running : World
running = record { active = true; marker = false; memory = false }

abbrev start : Scene
start = record { world = running; outside = false }

abbrev stopped : Scene
stopped = after_call start (reconcile_quota true stop_faults limits used nothing running).1

stops : Reach start stopped
stops = next here (reconcile true stop_faults limits used nothing start)

no_faults-Succeeds : Succeeds no_faults
no_faults-Succeeds = record {
  usage = refl;
  grant = refl;
  inspect = refl;
  start = refl;
  stop = refl;
  persist = refl;
}

stopped_still : stopped.world.active ≡ false
unfolding reconcile_quota enforce_stop stop_service set_stopped_by_quota persist_marker exceeded
    with_package no_limits limit_exceeded extend_limit
stopped_still = refl

top_up_spares : spent limits used top_up ≡ false
unfolding exceeded with_package no_limits limit_exceeded extend_limit total
top_up_spares = refl

Reach-Accounted_example : (stopped.world.active || stopped.outside || stopped.world.marker) ≡ true
Reach-Accounted_example = Reach-Accounted refl stops

reconcile_quota_causes_example :
    (true ≡ true)
    × (spent limits used nothing ≡ true)
    × ((true || false) ≡ true)
    × ((not true || (reconcile_quota true stop_faults limits used nothing running).1.marker) ≡ true)
    × ((not true || (reconcile_quota true stop_faults limits used nothing running).1.memory) ≡ true)
reconcile_quota_causes_example =
    reconcile_quota_causes true stop_faults limits used nothing running stopped_still

reconcile_quota_settles_example :
    ((reconcile_quota true no_faults limits used nothing running).0 ≡ none)
    × (((reconcile_quota true no_faults limits used nothing running).1.active)
        ≡ (not (spent limits used nothing) && (true || false)))
    × (reconcile_quota true no_faults limits used nothing
          (reconcile_quota true no_faults limits used nothing running).1
        ≡ (none, (reconcile_quota true no_faults limits used nothing running).1))
reconcile_quota_settles_example =
    reconcile_quota_settles no_faults limits used nothing running no_faults-Succeeds

stop_is_released_example :
    reconcile_quota true no_faults limits used top_up (restart true stopped.world)
    ≡ (none, record { active = true; marker = false; memory = false })
stop_is_released_example =
    stop_is_released no_faults limits used top_up refl stops stopped_still refl no_faults-Succeeds
      top_up_spares
