-- ===== src/Monitor/Enforce/Ownership.antt =====
-- Who keeps sing-box stopped: the monitor, with its marker on disk, or somebody else.
use singbox_deploy.Common.{◌≡◌, refl, Bool, true, false, not, ◌&&◌, ◌||◌, arith, none}
use singbox_deploy.Monitor.Quota.{
  TrafficLimits, TrafficTotals, TrafficPackage, exceeded, with_package,
}
use singbox_deploy.Monitor.Enforce.{
  World, Faults, start_service, stop_service, persist_marker, set_stopped_by_quota, recover,
  enforce_stop, no_limits, reconcile_quota, Release, release_quota_stop, restart,
}

-- The world, and whether sing-box was stopped from outside since it last ran.
pub record Scene : Type 0 where
  pub world : World
  pub outside : Bool

abbrev pub after_call : Scene → World → Scene
after_call s w = record { world = w; outside = s.outside && not w.active }

-- The monitor's rounds, its restarts, releases by another process, and stops and starts by others.
pub data Step : Scene → Scene → Type 0 where
  reconcile :
      (has_control : Bool) (faults : Faults) (limits : TrafficLimits) (used : TrafficTotals)
      (pkg : TrafficPackage) (s : Scene)
      → Step s (after_call s (reconcile_quota has_control faults limits used pkg s.world).1)
  restarted : (read : Bool) (s : Scene) → Step s (record s { world = restart read s.world })
  release : (r : Release) (s : Scene) → Step s (after_call s (release_quota_stop r s.world).1)
  stopped_outside :
      (s : Scene) → Step s (record s { world = record s.world { active = false }; outside = true })
  started_outside :
      (s : Scene) → Step s (record s { world = record s.world { active = true }; outside = false })

pub data Reach (s : Scene) : Scene → Type 0 where
  here : Reach s s
  next : {t u : Scene} → Reach s t → Step t u → Reach s u

-- Sing-box runs, or it was stopped from outside, or the marker is on disk.
abbrev pub Accounted : Bool → World → Type 0
Accounted outside w = (w.active || outside || w.marker) ≡ true

reconcile-Accounted :
    (has_control : Bool) (faults : Faults) (limits : TrafficLimits) (used : TrafficTotals)
    (pkg : TrafficPackage) (w : World) (outside : Bool)
    → Accounted outside w
    → Accounted
        (outside && not (reconcile_quota has_control faults limits used pkg w).1.active)
        (reconcile_quota has_control faults limits used pkg w).1
unfolding reconcile_quota recover enforce_stop start_service stop_service set_stopped_by_quota
    persist_marker
reconcile-Accounted has_control faults limits used pkg w outside h = ground arith

release-Accounted :
    (r : Release) (w : World) (outside : Bool)
    → Accounted outside w
    → Accounted (outside && not (release_quota_stop r w).1.active) (release_quota_stop r w).1
unfolding release_quota_stop start_service persist_marker
release-Accounted r w outside h = ground arith

restart-Accounted :
    (read : Bool) (w : World) (outside : Bool)
    → Accounted outside w
    → Accounted outside (restart read w)
unfolding restart
restart-Accounted read w outside h = h

Step-Accounted :
    {s t : Scene} → Step s t → Accounted s.outside s.world → Accounted t.outside t.world
Step-Accounted (reconcile has_control faults limits used pkg s) h =
    reconcile-Accounted has_control faults limits used pkg s.world s.outside h
Step-Accounted (restarted read s) h = restart-Accounted read s.world s.outside h
Step-Accounted (release r s) h = release-Accounted r s.world s.outside h
Step-Accounted (stopped_outside s) h = refl
Step-Accounted (started_outside s) h = refl

-- Over any run of rounds, restarts, releases and stops and starts by others, whatever fails: from a
-- world in which sing-box runs, whenever it does not run it was stopped from outside or the marker
-- of the monitor's own stop is on disk.
pub Reach-Accounted :
    {s t : Scene}
    → s.world.active ≡ true
    → Reach s t
    → (t.world.active || t.outside || t.world.marker) ≡ true
Reach-Accounted {s} h here = rw h refl
Reach-Accounted h (next r step) = Step-Accounted step (Reach-Accounted h r)

pub record Succeeds (f : Faults) : Type 0 where
  pub usage : f.usage ≡ true
  pub grant : f.grant ≡ true
  pub inspect : f.inspect ≡ true
  pub start : f.start.succeeds ≡ true
  pub stop : f.stop.succeeds ≡ true
  pub persist : f.persist.succeeds ≡ true

-- Whether the use reaches a configured limit with the grant on top.
abbrev pub spent : TrafficLimits → TrafficTotals → TrafficPackage → Bool
spent limits used pkg = not (no_limits limits) && exceeded (with_package limits pkg) used

-- Whichever calls fail, a round changes whether sing-box runs only where the monitor has a control;
-- it stops it only where the use reaches a limit, and leaves both the marker and the monitor's
-- memory saying that it owns the stop; and it starts it only where no limit is reached and its
-- memory said that it owned a stop.
pub reconcile_quota_causes :
    (has_control : Bool) (faults : Faults) (limits : TrafficLimits) (used : TrafficTotals)
    (pkg : TrafficPackage) (w : World)
    → (reconcile_quota has_control faults limits used pkg w).1.active ≡ not w.active
    → (has_control ≡ true)
      × (spent limits used pkg ≡ w.active)
      × ((w.active || w.memory) ≡ true)
      × ((not w.active || (reconcile_quota has_control faults limits used pkg w).1.marker) ≡ true)
      × ((not w.active || (reconcile_quota has_control faults limits used pkg w).1.memory) ≡ true)
unfolding reconcile_quota recover enforce_stop start_service stop_service set_stopped_by_quota
    persist_marker
reconcile_quota_causes has_control faults limits used pkg w changed =
    (ground arith, ground arith, ground arith, ground arith, ground arith)

-- A round in which every call succeeds stops sing-box where a limit is reached, runs it where none
-- is and the monitor owned the stop, and leaves nothing for a second such round to do.
pub reconcile_quota_settles :
    (faults : Faults) (limits : TrafficLimits) (used : TrafficTotals) (pkg : TrafficPackage)
    (w : World)
    → Succeeds faults
    → ((reconcile_quota true faults limits used pkg w).0 ≡ none)
      × (((reconcile_quota true faults limits used pkg w).1.active)
          ≡ (not (spent limits used pkg) && (w.active || w.memory)))
      × (reconcile_quota true faults limits used pkg
            (reconcile_quota true faults limits used pkg w).1
          ≡ (none, (reconcile_quota true faults limits used pkg w).1))
unfolding reconcile_quota recover enforce_stop start_service stop_service set_stopped_by_quota
    persist_marker
reconcile_quota_settles faults limits used pkg w h = (
  ground (arith, h.usage, h.grant, h.inspect, h.start, h.stop, h.persist),
  ground (arith, h.usage, h.grant, h.inspect, h.start, h.stop, h.persist),
  ground (arith, h.usage, h.grant, h.inspect, h.start, h.stop, h.persist),
)

-- From any world that the runs reach and in which sing-box stands still without having been stopped
-- from outside, a monitor that starts anew and reads its marker brings sing-box back, and gives the
-- marker up, in one round in which every call succeeds and no limit is reached.
pub stop_is_released :
    {s t : Scene} (faults : Faults) (limits : TrafficLimits) (used : TrafficTotals)
    (pkg : TrafficPackage)
    → s.world.active ≡ true
    → Reach s t
    → t.world.active ≡ false
    → t.outside ≡ false
    → Succeeds faults
    → spent limits used pkg ≡ false
    → reconcile_quota true faults limits used pkg (restart true t.world)
      ≡ (none, record { active = true; marker = false; memory = false })
unfolding reconcile_quota recover enforce_stop start_service stop_service set_stopped_by_quota
    persist_marker restart
stop_is_released {t} faults limits used pkg runs r still not_outside h under =
    let owned : t.world.marker ≡ true = ground (arith, Reach-Accounted runs r) in
    ground (arith, owned, h.usage, h.grant, h.inspect, h.start, h.stop, h.persist)
