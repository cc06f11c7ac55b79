-- ===== src/Monitor/Cycle/Around.antt =====
-- The two months around a time, where the reset day is one of every month's.
use singbox_deploy.Common.{
  ℕ, ◌*◌, ◌≤◌, ◌<◌, ◌≡◌, refl, ◌∙◌, arith, true, false, Bool-cases, inl, inr, Option, none, some, ℤ,
  pos, negsuc,
}
use singbox_deploy.Monitor.Cycle.{
  Time, days_in, instant, after, previous_month, next_month, month_back, month_on, clamp_day,
  reset_boundary_hour, first_day, boundary, cycle_start, next_cycle_reset,
}
use singbox_deploy.Monitor.Cycle.Boundary.{
  IsTime, days_in_bounds, clamp_day-le, reset_boundary_hour-le, previous_month_index,
  next_month_index, date_inside, boundary_bounds, time_bounds, cycle_start_early, cycle_start_late,
  month_back_inside, after_iff,
}

clamp_day_short : (y m d : ℕ) → d ≤ 28 → clamp_day y m d ≡ d
unfolding clamp_day
clamp_day_short y m d h = ground (arith, days_in_bounds y m)

first_day_self : (d : ℕ) → 1 ≤ d → first_day d ≡ d
unfolding first_day
first_day_self d h = ground arith

reset_boundary_hour_again :
    (h : Option ℤ)
    → reset_boundary_hour (some (pos (reset_boundary_hour h))) ≡ reset_boundary_hour h
unfolding reset_boundary_hour
reset_boundary_hour_again none = ground arith
reset_boundary_hour_again (some (pos h)) = ground arith
reset_boundary_hour_again (some (negsuc h)) = ground arith

-- A month on from a boundary is the next month's.
month_on-boundary :
    (y m d hour : ℕ)
    → 1 ≤ d
    → d ≤ 28
    → month_on (boundary y m d hour) ≡ boundary (next_month y m).0 (next_month y m).1 d hour
unfolding month_on boundary
month_on-boundary y m d hour lo hi =
    rw (clamp_day_short y m d hi, clamp_day_short (next_month y m).0 (next_month y m).1 d hi)
      (date_inside (next_month y m).0 (next_month y m).1 d (hour * 3600) lo
        (omega (arith, days_in_bounds (next_month y m).0 (next_month y m).1)))

cycle_start_again :
    (now : Time) (d : ℕ) (h : Option ℤ)
    → cycle_start now d (some (pos (reset_boundary_hour h))) ≡ cycle_start now d h
unfolding cycle_start
cycle_start_again now d h = rw (reset_boundary_hour_again h) refl

next-of_previous :
    (y m : ℕ)
    → 1 ≤ y
    → 1 ≤ m
    → m ≤ 12
    → ((next_month (previous_month y m).0 (previous_month y m).1).0 ≡ y)
      × ((next_month (previous_month y m).0 (previous_month y m).1).1 ≡ m)
unfolding next_month previous_month
next-of_previous y m hy lo hi = ground arith

pub next_reset_of_start :
    (now : Time) (reset_day : ℕ) (reset_hour : Option ℤ) (y m : ℕ)
    → 1 ≤ reset_day
    → reset_day ≤ 28
    → cycle_start now reset_day reset_hour ≡ boundary y m reset_day (reset_boundary_hour reset_hour)
    → next_cycle_reset now reset_day reset_hour
      ≡ boundary (next_month y m).0 (next_month y m).1 reset_day (reset_boundary_hour reset_hour)
unfolding next_cycle_reset boundary
next_reset_of_start now d reset_hour y m lo hi e =
    rw
      (
        cycle_start_again now d reset_hour,
        e,
        month_on-boundary y m d (reset_boundary_hour reset_hour) lo hi,
      )
      (date_inside (next_month y m).0 (next_month y m).1
        (clamp_day (next_month y m).0 (next_month y m).1 d) (reset_boundary_hour reset_hour * 3600)
        (rw (clamp_day_short (next_month y m).0 (next_month y m).1 d hi) lo)
        (clamp_day-le (next_month y m).0 (next_month y m).1 d))

-- The day of a time before its month's boundary is one of every month's.
room_of_late :
    (now : Time) (d hour : ℕ)
    → 1 ≤ d
    → d ≤ 28
    → instant now < instant (boundary now.year now.month d hour)
    → hour ≤ 23
    → now.day ≤ days_in (previous_month now.year now.month).0 (previous_month now.year now.month).1
unfolding boundary
room_of_late now d hour lo hi late hour_hi = omega (
  arith,
  days_in_bounds (previous_month now.year now.month).0 (previous_month now.year now.month).1,
  clamp_day_short now.year now.month d hi,
)

-- The start and the next reset are boundaries of months that follow each other, and now is between.
pub record Around (now : Time) (d : ℕ) (reset_hour : Option ℤ) (y m : ℕ) : Type 0 where
  pub low : 1 ≤ m
  pub high : m ≤ 12
  pub start : cycle_start now d reset_hour ≡ boundary y m d (reset_boundary_hour reset_hour)
  pub begun : instant (boundary y m d (reset_boundary_hour reset_hour)) ≤ instant now
  pub ends :
      instant now
      < instant (boundary (next_month y m).0 (next_month y m).1 d (reset_boundary_hour reset_hour))

Around-early :
    (now : Time) (d : ℕ) (reset_hour : Option ℤ)
    → IsTime now
    → 1 ≤ d
    → after (boundary now.year now.month d (reset_boundary_hour reset_hour)) now ≡ false
    → cycle_start now d reset_hour ≡ boundary now.year now.month d (reset_boundary_hour reset_hour)
    → Around now d reset_hour now.year now.month
Around-early now d reset_hour h lo early e =
    let (index, n_lo, n_hi) = next_month_index now.year now.month h.month_low h.month_high in
    record {
      low = h.month_low;
      high = h.month_high;
      start = e;
      begun =
          after_iff (boundary now.year now.month d (reset_boundary_hour reset_hour)) now false
            early;
      ends = omega (
        arith,
        time_bounds now h,
        boundary_bounds (next_month now.year now.month).0 (next_month now.year now.month).1 d
            (reset_boundary_hour reset_hour) lo (reset_boundary_hour-le reset_hour),
      );
    }

Around-late :
    (now : Time) (d : ℕ) (reset_hour : Option ℤ)
    → IsTime now
    → 1 ≤ d
    → d ≤ 28
    → after (boundary now.year now.month d (reset_boundary_hour reset_hour)) now ≡ true
    → cycle_start now d reset_hour
      ≡ boundary (month_back now).year (month_back now).month d (reset_boundary_hour reset_hour)
    → Around now d reset_hour
        (previous_month now.year now.month).0
        (previous_month now.year now.month).1
Around-late now d reset_hour h lo hi late e =
    let hour = reset_boundary_hour reset_hour in
    let hour_hi = reset_boundary_hour-le reset_hour in
    let now_late = after_iff (boundary now.year now.month d hour) now true late in
    let (ey, em) = month_back_inside now h (room_of_late now d hour lo hi now_late hour_hi) in
    let (index, p_lo, p_hi) =
      previous_month_index now.year now.month h.year h.month_low h.month_high in
    let (ny, nm) = next-of_previous now.year now.month h.year h.month_low h.month_high in
    record {
      low = p_lo;
      high = p_hi;
      start = e ∙ rw (ey, em) refl;
      begun = omega (
        arith,
        time_bounds now h,
        boundary_bounds (previous_month now.year now.month).0 (previous_month now.year now.month).1
            d hour lo hour_hi,
      );
      ends = rw (ny, nm) now_late;
    }

pub around :
    (now : Time) (d : ℕ) (reset_hour : Option ℤ)
    → IsTime now
    → 1 ≤ d
    → d ≤ 28
    → (y : ℕ) × (m : ℕ) × Around now d reset_hour y m
around now d reset_hour h lo hi =
    let e = first_day_self d lo in
    let hour = reset_boundary_hour reset_hour in
    elim (Bool-cases (after (boundary now.year now.month d hour) now)) [
      | inl late ↦ (
        (previous_month now.year now.month).0,
        (previous_month now.year now.month).1,
        Around-late now d reset_hour h lo hi late
            (cycle_start_late now d reset_hour (rw e late) ∙ rw e refl),
      )
      | inr early ↦ (
        now.year,
        now.month,
        Around-early now d reset_hour h lo early
            (cycle_start_early now d reset_hour (rw e early) ∙ rw e refl),
      )
    ]
