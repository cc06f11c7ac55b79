-- ===== src/Monitor/Cycle/Tests.antt =====
-- Dates at which the claims about the cycle are applied.
use singbox_deploy.Common.{ℕ, ◌≤◌, ◌<◌, ◌≡◌, refl, ◌⊎◌, arith, none, some, pos}
use singbox_deploy.Monitor.Cycle.{
  Time, is_leap, days_in, instant, after, previous_month, next_month, date, month_back, clamp_day,
  reset_boundary_hour, first_day, boundary, cycle_start, next_cycle_reset,
}
use singbox_deploy.Monitor.Cycle.Boundary.{IsBoundary, IsTime, cycle_start_latest}
use singbox_deploy.Monitor.Cycle.Bracket.{cycle_brackets_now}
use singbox_deploy.Monitor.Cycle.Overflow.{cycle_start_future, next_cycle_reset_skips}

-- 2 a.m. on the last day of March, and of January
abbrev march_31 : Time
march_31 = record { year = 2025; month = 3; day = 31; seconds = 7200 }

abbrev january_31 : Time
january_31 = record { year = 2025; month = 1; day = 31; seconds = 7200 }

abbrev march_2 : Time
march_2 = record { year = 2025; month = 3; day = 2; seconds = 7200 }

march_31-IsTime : IsTime march_31
unfolding days_in
march_31-IsTime = record {
  year = ground arith;
  month_low = ground arith;
  month_high = ground arith;
  day_low = ground arith;
  day_high = ground arith;
  seconds = ground arith;
}

march_2-IsTime : IsTime march_2
unfolding days_in
march_2-IsTime = record {
  year = ground arith;
  month_low = ground arith;
  month_high = ground arith;
  day_low = ground arith;
  day_high = ground arith;
  seconds = ground arith;
}

march_room :
    march_2.day
    ≤ days_in
        (previous_month march_2.year march_2.month).0
        (previous_month march_2.year march_2.month).1
unfolding days_in previous_month is_leap
march_room = ground arith

march_over :
    days_in
      (previous_month march_31.year march_31.month).0
      (previous_month march_31.year march_31.month).1
    < march_31.day
unfolding days_in previous_month is_leap
march_over = ground arith

march_late :
    instant march_31
    < instant
        (boundary march_31.year march_31.month (first_day 31) (reset_boundary_hour (some (pos 5))))
unfolding boundary first_day reset_boundary_hour clamp_day days_in
march_late = ground arith

january_start :
    cycle_start january_31 31 (some (pos (reset_boundary_hour none)))
    ≡ boundary 2025 1 31 (reset_boundary_hour none)
unfolding cycle_start boundary first_day reset_boundary_hour clamp_day days_in is_leap after
    month_back date previous_month next_month
january_start = refl

january_over : days_in (next_month 2025 1).0 (next_month 2025 1).1 < clamp_day 2025 1 31
unfolding days_in next_month is_leap clamp_day
january_over = ground arith

cycle_start_latest_example :
    IsBoundary
      (first_day 31)
      (reset_boundary_hour (some (pos 5)))
      (cycle_start march_2 31 (some (pos 5)))
    × (instant (cycle_start march_2 31 (some (pos 5))) ≤ instant march_2)
    × ((y m : ℕ)
        → 1 ≤ m
        → m ≤ 12
        → instant (boundary y m (first_day 31) (reset_boundary_hour (some (pos 5))))
          ≤ instant march_2
        → instant (boundary y m (first_day 31) (reset_boundary_hour (some (pos 5))))
          ≤ instant (cycle_start march_2 31 (some (pos 5))))
cycle_start_latest_example = cycle_start_latest march_2 31 (some (pos 5)) march_2-IsTime march_room

cycle_brackets_now_example :
    IsBoundary 15 (reset_boundary_hour (some (pos 5))) (cycle_start march_31 15 (some (pos 5)))
    × IsBoundary 15
        (reset_boundary_hour (some (pos 5)))
        (next_cycle_reset march_31 15 (some (pos 5)))
    × (instant (cycle_start march_31 15 (some (pos 5))) ≤ instant march_31)
    × (instant march_31 < instant (next_cycle_reset march_31 15 (some (pos 5))))
    × ((y m : ℕ)
        → 1 ≤ m
        → m ≤ 12
        → (instant (boundary y m 15 (reset_boundary_hour (some (pos 5))))
            ≤ instant (cycle_start march_31 15 (some (pos 5))))
          ⊎ (instant (next_cycle_reset march_31 15 (some (pos 5)))
              ≤ instant (boundary y m 15 (reset_boundary_hour (some (pos 5))))))
cycle_brackets_now_example =
    cycle_brackets_now march_31 15 (some (pos 5)) march_31-IsTime (ground arith) (ground arith)

cycle_start_future_example :
    (cycle_start march_31 31 (some (pos 5))
      ≡ boundary 2025 3 (first_day 31) (reset_boundary_hour (some (pos 5))))
    × (instant march_31 < instant (cycle_start march_31 31 (some (pos 5))))
cycle_start_future_example =
    cycle_start_future march_31 31 (some (pos 5)) march_31-IsTime march_over march_late

next_cycle_reset_skips_example :
    (next_cycle_reset january_31 31 none
      ≡ boundary
          (next_month (next_month 2025 1).0 (next_month 2025 1).1).0
          (next_month (next_month 2025 1).0 (next_month 2025 1).1).1
          31
          (reset_boundary_hour none))
    × (instant (boundary (next_month 2025 1).0 (next_month 2025 1).1 31 (reset_boundary_hour none))
        < instant (next_cycle_reset january_31 31 none))
next_cycle_reset_skips_example =
    next_cycle_reset_skips january_31 31 2025 1 none (ground arith) (ground arith) (ground arith)
      january_start january_over
