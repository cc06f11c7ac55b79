-- ===== src/Monitor/Cycle.antt =====
-- internal/monitor/quota.go: the monthly quota cycle, over civil times in GMT. `date` and
-- `add_months` are time.Date and Time.AddDate where they are used here: a day up to 31 in a month
-- of the calendar, one month on or back. Times have whole seconds, which is exact for `After` at a
-- boundary; years are after 0 and the reset day, which the forms keep from 1 to 31, is not negative.
pub mod Boundary
pub mod Around
pub mod Bracket
pub mod Overflow
mod Tests
use singbox_deploy.Common.{
  ℕ, zero, suc, ◌+◌, ◌-◌, ◌*◌, ◌%◌, Bool, true, false, not, ◌&&◌, ◌||◌, if◌then◌else◌, ltb, leb,
  nat_beq, Option, none, some, ℤ, pos, negsuc,
}

pub record Time : Type 0 where
  pub year : ℕ
  pub month : ℕ
  pub day : ℕ
  pub seconds : ℕ

unfoldable pub is_leap : ℕ → Bool
is_leap y = nat_beq (y % 4) 0 && (not (nat_beq (y % 100) 0) || nat_beq (y % 400) 0)

unfoldable pub days_in : ℕ → ℕ → ℕ
days_in y m =
    if nat_beq m 2
    then (if is_leap y then 29 else 28)
    else if nat_beq m 4 || nat_beq m 6 || nat_beq m 9 || nat_beq m 11
    then 30
    else 31

-- The order of times in a calendar.
abbrev pub month_index : Time → ℕ
month_index t = t.year * 12 + t.month

abbrev pub instant : Time → ℕ
instant t = ((t.year * 12 + t.month) * 32 + t.day) * 86400 + t.seconds

unfoldable pub after : Time → Time → Bool
after t u = ltb (instant u) (instant t)

-- The months before and after, in the year that they fall in.
unfoldable pub previous_month : ℕ → ℕ → ℕ × ℕ
previous_month y m = if nat_beq m 1 then (y - 1, 12) else (y, m - 1)

unfoldable pub next_month : ℕ → ℕ → ℕ × ℕ
next_month y m = if nat_beq m 12 then (y + 1, 1) else (y, m + 1)

-- `time.Date` at a day that may be 0, or past the end of its month by less than a month.
unfoldable pub date : ℕ → ℕ → ℕ → ℕ → Time
date y m d s =
    if nat_beq d 0
    then record {
      year = (previous_month y m).0;
      month = (previous_month y m).1;
      day = days_in (previous_month y m).0 (previous_month y m).1;
      seconds = s;
    }
    else if leb d (days_in y m)
    then record { year = y; month = m; day = d; seconds = s }
    else record {
      year = (next_month y m).0;
      month = (next_month y m).1;
      day = d - days_in y m;
      seconds = s;
    }

-- `AddDate(0, -1, 0)` and `AddDate(0, 1, 0)`
unfoldable pub month_back : Time → Time
month_back t =
    date (previous_month t.year t.month).0 (previous_month t.year t.month).1 t.day t.seconds

unfoldable pub month_on : Time → Time
month_on t = date (next_month t.year t.month).0 (next_month t.year t.month).1 t.day t.seconds

unfoldable pub clamp_day : ℕ → ℕ → ℕ → ℕ
clamp_day y m d = if ltb (days_in y m) d then days_in y m else d

-- `resetBoundaryHour`; none where no hour is given.
unfoldable pub reset_boundary_hour : Option ℤ → ℕ
reset_boundary_hour none = 0
reset_boundary_hour (some (pos h)) = if ltb 23 h then 0 else h
reset_boundary_hour (some (negsuc h)) = 0

-- `if resetDay < 1 { resetDay = 1 }`
unfoldable pub first_day : ℕ → ℕ
first_day d = if ltb d 1 then 1 else d

-- The boundary of a month: the reset day or the last day, at the reset hour.
unfoldable pub boundary : ℕ → ℕ → ℕ → ℕ → Time
unfolding clamp_day
boundary y m d hour = record { year = y; month = m; day = clamp_day y m d; seconds = hour * 3600 }

unfoldable pub cycle_start : Time → ℕ → Option ℤ → Time
cycle_start now reset_day reset_hour =
    let d = first_day reset_day in
    let hour = reset_boundary_hour reset_hour in
    let candidate = boundary now.year now.month d hour in
    let prev = month_back now in
    if not (after candidate now) then candidate else boundary prev.year prev.month d hour

unfoldable pub next_cycle_reset : Time → ℕ → Option ℤ → Time
next_cycle_reset now reset_day reset_hour =
    let hour = reset_boundary_hour reset_hour in
    let start = cycle_start now reset_day (some (pos hour)) in
    let next = month_on start in
    date next.year next.month (clamp_day next.year next.month reset_day) (hour * 3600)
