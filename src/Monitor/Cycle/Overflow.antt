-- ===== src/Monitor/Cycle/Overflow.antt =====
-- Where `AddDate` leaves the calendar: a day that the month it goes to does not have.
use singbox_deploy.Common.{ℕ, ◌-◌, ◌*◌, ◌≤◌, ◌<◌, ◌≡◌, refl, ap, ◌∙◌, arith, Option, some, ℤ, pos}
use singbox_deploy.Monitor.Cycle.{
  Time, days_in, instant, after, previous_month, next_month, date, month_back, month_on, clamp_day,
  reset_boundary_hour, first_day, boundary, cycle_start, next_cycle_reset,
}
use singbox_deploy.Monitor.Cycle.Boundary.{
  IsTime, next_month_index, clamp_day_bounds, clamp_day-le, boundary_order, reset_boundary_hour-le,
  date_inside, cycle_start_late,
}

date_over :
    (y m d s : ℕ)
    → days_in y m < d
    → date y m d s ≡ record {
      year = (next_month y m).0;
      month = (next_month y m).1;
      day = d - days_in y m;
      seconds = s;
    }
unfolding date
date_over y m d s over = ground arith

-- Going back a month from a day that the month before does not have stays in the month.
month_back_over :
    (now : Time)
    → IsTime now
    → days_in (previous_month now.year now.month).0 (previous_month now.year now.month).1 < now.day
    → ((month_back now).year ≡ now.year) × ((month_back now).month ≡ now.month)
unfolding month_back next_month previous_month
month_back_over now h over =
    let e =
      date_over (previous_month now.year now.month).0 (previous_month now.year now.month).1 now.day
        now.seconds over in
    (
      ap (λ t. t.year) e ∙ ground (arith, h.year, h.month_low, h.month_high),
      ap (λ t. t.month) e ∙ ground (arith, h.year, h.month_low, h.month_high),
    )

-- On a day that the month before does not have, and before the boundary of the month itself, the
-- start of the cycle is that boundary, which is after now.
pub cycle_start_future :
    (now : Time) (reset_day : ℕ) (reset_hour : Option ℤ)
    → IsTime now
    → days_in (previous_month now.year now.month).0 (previous_month now.year now.month).1 < now.day
    → instant now
      < instant (boundary now.year now.month (first_day reset_day) (reset_boundary_hour reset_hour))
    → (cycle_start now reset_day reset_hour
        ≡ boundary now.year now.month (first_day reset_day) (reset_boundary_hour reset_hour))
      × (instant now < instant (cycle_start now reset_day reset_hour))
unfolding after
cycle_start_future now reset_day reset_hour h over late =
    let (ey, em) = month_back_over now h over in
    let e : cycle_start now reset_day reset_hour
        ≡ boundary now.year now.month (first_day reset_day) (reset_boundary_hour reset_hour) =
      cycle_start_late now reset_day reset_hour (ground arith) ∙ rw (ey, em) refl in
    (e, rw e late)

-- Where the month after the cycle's start does not have the start's day, the next reset is the
-- boundary of the month after that one, and the boundary of the skipped month is before it.
pub next_cycle_reset_skips :
    (now : Time) (reset_day y m : ℕ) (reset_hour : Option ℤ)
    → 1 ≤ reset_day
    → 1 ≤ m
    → m ≤ 12
    → cycle_start now reset_day (some (pos (reset_boundary_hour reset_hour)))
      ≡ boundary y m reset_day (reset_boundary_hour reset_hour)
    → days_in (next_month y m).0 (next_month y m).1 < clamp_day y m reset_day
    → (next_cycle_reset now reset_day reset_hour
        ≡ boundary
            (next_month (next_month y m).0 (next_month y m).1).0
            (next_month (next_month y m).0 (next_month y m).1).1
            reset_day
            (reset_boundary_hour reset_hour))
      × (instant (
            boundary
              (next_month y m).0
              (next_month y m).1
              reset_day
              (reset_boundary_hour reset_hour))
          < instant (next_cycle_reset now reset_day reset_hour))
unfolding next_cycle_reset month_on boundary
next_cycle_reset_skips now d y m reset_hour lo m_lo m_hi e over =
    let hour = reset_boundary_hour reset_hour in
    let ny = (next_month y m).0 in
    let nm = (next_month y m).1 in
    let zy = (next_month ny nm).0 in
    let zm = (next_month ny nm).1 in
    let (index, n_lo, n_hi) = next_month_index y m m_lo m_hi in
    let (index2, z_lo, z_hi) = next_month_index ny nm n_lo n_hi in
    let over_e = date_over ny nm (clamp_day y m d) (hour * 3600) over in
    let (d_lo, d_hi) = clamp_day_bounds zy zm d lo in
    let result : next_cycle_reset now d reset_hour ≡ boundary zy zm d hour =
      rw (e, over_e)
        (date_inside zy zm (clamp_day zy zm d) (hour * 3600) d_lo (clamp_day-le zy zm d)) in
    (
      result,
      rw result (
          boundary_order ny nm zy zm d hour lo (reset_boundary_hour-le reset_hour)
            (omega (arith, index2))),
    )
