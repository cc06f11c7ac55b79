-- ===== src/Monitor/Enforce.antt =====
-- internal/monitor/server.go, internal/monitor/quota_release.go: the quota is enforced by stopping
-- and starting sing-box. A call of the service manager or the store that fails may still have had
-- its effect: `leaves` says whether it had. A failed start stops nothing and a failed stop starts
-- nothing, as of a service manager. The logging is left out.
pub mod Ownership
mod Tests
use singbox_deploy.Common.{
  Bool, true, false, not, ◌&&◌, ◌||◌, if◌then◌else◌, nat_beq, Option, none, some,
}
use singbox_deploy.Monitor.Quota.{
  TrafficLimits, TrafficTotals, TrafficPackage, exceeded, with_package,
}

-- The service, the store's marker, and the monitor's `stoppedByQuota`.
pub record World : Type 0 where
  pub active : Bool
  pub marker : Bool
  pub memory : Bool

pub record Call : Type 0 where
  pub succeeds : Bool
  pub leaves : Bool

pub record Faults : Type 0 where
  pub usage : Bool
  pub grant : Bool
  pub inspect : Bool
  pub start : Call
  pub stop : Call
  pub persist : Call

pub data EnforceError : Type 0 where
  start_failed stop_failed inspect_failed persist_failed usage_failed package_failed : EnforceError

-- `control.Start` and `control.Stop`
unfoldable pub start_service : Call → World → Bool × World
start_service call w =
    (call.succeeds, record w { active = call.succeeds || call.leaves || w.active })

unfoldable pub stop_service : Call → World → Bool × World
stop_service call w =
    (call.succeeds, record w { active = not call.succeeds && not call.leaves && w.active })

-- `store.SetQuotaStopped`
unfoldable pub persist_marker : Call → Bool → World → Bool × World
persist_marker call stopped w = (
  call.succeeds,
  record w { marker = if call.succeeds || call.leaves then stopped else w.marker },
)

unfoldable pub set_stopped_by_quota : Call → Bool → World → Bool × World
unfolding persist_marker
set_stopped_by_quota call stopped w =
    let r = persist_marker call stopped w in
    if r.0 then (true, record r.1 { memory = stopped }) else (false, r.1)

-- Start, then give up the ownership.
unfoldable pub recover : Faults → World → Option EnforceError × World
unfolding start_service set_stopped_by_quota
recover faults w =
    let started = start_service faults.start w in
    let cleared = set_stopped_by_quota faults.persist false started.1 in
    if started.0
    then (if cleared.0 then (none, cleared.1) else (some persist_failed, cleared.1))
    else (some start_failed, started.1)

-- Take the ownership, then stop.
unfoldable pub enforce_stop : Faults → World → Option EnforceError × World
unfolding stop_service set_stopped_by_quota
enforce_stop faults w =
    let owned = set_stopped_by_quota faults.persist true w in
    let stopped = stop_service faults.stop owned.1 in
    if owned.0
    then (if stopped.0 then (none, stopped.1) else (some stop_failed, stopped.1))
    else (some persist_failed, owned.1)

unfoldable pub no_limits : TrafficLimits → Bool
no_limits l = nat_beq l.in_bytes 0 && nat_beq l.out_bytes 0 && nat_beq l.total_bytes 0

-- `has_control` is `m.control != nil`; the limits are the configured ones.
unfoldable pub reconcile_quota :
    Bool
    → Faults
    → TrafficLimits
    → TrafficTotals
    → TrafficPackage
    → World
    → Option EnforceError × World
unfolding recover enforce_stop no_limits
reconcile_quota has_control faults limits used pkg w =
    if not has_control
    then (none, w)
    else if no_limits limits
    then (if w.memory then recover faults w else (none, w))
    else if not faults.usage
    then (some usage_failed, w)
    else if not faults.grant
    then (some package_failed, w)
    else if exceeded (with_package limits pkg) used
    then (if not faults.inspect
        then (some inspect_failed, w)
        else if w.active
        then enforce_stop faults w
        else (none, w))
    else if w.memory
    then recover faults w
    else (none, w)

-- What a release of the stop reads and calls: the database file, its opening and the marker, and
-- whether it was given a starter.
pub record Release : Type 0 where
  pub stat : Bool
  pub exists : Bool
  pub opens : Bool
  pub read : Bool
  pub has_start : Bool
  pub start : Call
  pub persist : Call

pub data ReleaseError : Type 0 where
  stat_failed open_failed read_failed no_starter start_failed persist_failed : ReleaseError

-- A database file that does not exist holds no marker.
unfoldable pub release_quota_stop : Release → World → Option ReleaseError × World
unfolding start_service persist_marker
release_quota_stop r w =
    let started = start_service r.start w in
    let cleared = persist_marker r.persist false started.1 in
    if not r.stat
    then (some stat_failed, w)
    else if not r.exists
    then (none, w)
    else if not r.opens
    then (some open_failed, w)
    else if not r.read
    then (some read_failed, w)
    else if not w.marker
    then (none, w)
    else if not r.has_start
    then (some no_starter, w)
    else if started.0
    then (if cleared.0 then (none, cleared.1) else (some persist_failed, cleared.1))
    else (some start_failed, started.1)

-- `stoppedByQuota` of a new monitor: the marker, or false where it cannot be read.
unfoldable pub restart : Bool → World → World
restart read w = record w { memory = if read then w.marker else false }
