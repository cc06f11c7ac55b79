-- ===== src/Monitor/Cycle/Boundary.antt =====
-- Where the cycle's start and the next reset are what they mean to be.
use singbox_deploy.Common.{
  ℕ, ◌+◌, ◌*◌, ◌≤◌, ◌<◌, ◌≡◌, refl, ap, arith, Bool, true, false, Bool-cases, inl, inr, ltb, Option,
  none, some, ℤ, pos, negsuc, if◌then◌else◌,
}
use singbox_deploy.Monitor.Cycle.{
  Time, days_in, instant, after, previous_month, next_month, date, month_back, clamp_day,
  reset_boundary_hour, first_day, boundary, cycle_start,
}

pub record IsTime (t : Time) : Type 0 where
  pub year : 1 ≤ t.year
  pub month_low : 1 ≤ t.month
  pub month_high : t.month ≤ 12
  pub day_low : 1 ≤ t.day
  pub day_high : t.day ≤ days_in t.year t.month
  pub seconds : t.seconds < 86400

pub days_in_bounds : (y m : ℕ) → (28 ≤ days_in y m) × (days_in y m ≤ 31)
unfolding days_in
days_in_bounds y m = ground arith

pub clamp_day_bounds : (y m d : ℕ) → 1 ≤ d → (1 ≤ clamp_day y m d) × (clamp_day y m d ≤ 31)
unfolding clamp_day
clamp_day_bounds y m d h = ground (arith, days_in_bounds y m)

pub clamp_day-le : (y m d : ℕ) → clamp_day y m d ≤ days_in y m
unfolding clamp_day
clamp_day-le y m d = ground arith

pub reset_boundary_hour-le : (h : Option ℤ) → reset_boundary_hour h ≤ 23
unfolding reset_boundary_hour
reset_boundary_hour-le none = omega arith
reset_boundary_hour-le (some (pos h)) = ground arith
reset_boundary_hour-le (some (negsuc h)) = omega arith

pub first_day_pos : (d : ℕ) → 1 ≤ first_day d
unfolding first_day
first_day_pos d = ground arith

-- Months count on by one.
pub previous_month_index :
    (y m : ℕ)
    → 1 ≤ y
    → 1 ≤ m
    → m ≤ 12
    → ((previous_month y m).0 * 12 + (previous_month y m).1 + 1 ≡ y * 12 + m)
      × (1 ≤ (previous_month y m).1)
      × ((previous_month y m).1 ≤ 12)
unfolding previous_month
previous_month_index y m hy lo hi = ground arith

pub next_month_index :
    (y m : ℕ)
    → 1 ≤ m
    → m ≤ 12
    → ((next_month y m).0 * 12 + (next_month y m).1 ≡ y * 12 + m + 1)
      × (1 ≤ (next_month y m).1)
      × ((next_month y m).1 ≤ 12)
unfolding next_month
next_month_index y m lo hi = ground arith

pub date_inside :
    (y m d s : ℕ)
    → 1 ≤ d
    → d ≤ days_in y m
    → date y m d s ≡ record { year = y; month = m; day = d; seconds = s }
unfolding date
date_inside y m d s lo hi = ground arith

-- A boundary stands inside its month.
pub boundary_bounds :
    (y m d hour : ℕ)
    → 1 ≤ d
    → hour ≤ 23
    → ((y * 12 + m) * 2764800 + 86400 ≤ instant (boundary y m d hour))
      × (instant (boundary y m d hour) < (y * 12 + m + 1) * 2764800)
unfolding boundary
boundary_bounds y m d hour lo hi = omega (arith, clamp_day_bounds y m d lo)

pub time_bounds :
    (t : Time)
    → IsTime t
    → ((t.year * 12 + t.month) * 2764800 + 86400 ≤ instant t)
      × (instant t < (t.year * 12 + t.month + 1) * 2764800)
time_bounds t h = omega (arith, h.day_low, h.day_high, h.seconds, days_in_bounds t.year t.month)

-- A boundary of an earlier month is before one of a later month.
pub boundary_order :
    (y m y2 m2 d hour : ℕ)
    → 1 ≤ d
    → hour ≤ 23
    → y * 12 + m < y2 * 12 + m2
    → instant (boundary y m d hour) < instant (boundary y2 m2 d hour)
boundary_order y m y2 m2 d hour lo hi lt =
    omega (arith, boundary_bounds y m d hour lo hi, boundary_bounds y2 m2 d hour lo hi)

pub boundary_order_le :
    (y m y2 m2 d hour : ℕ)
    → 1 ≤ d
    → hour ≤ 23
    → 1 ≤ m
    → m ≤ 12
    → 1 ≤ m2
    → m2 ≤ 12
    → y * 12 + m ≤ y2 * 12 + m2
    → instant (boundary y m d hour) ≤ instant (boundary y2 m2 d hour)
boundary_order_le y m y2 m2 d hour lo hi m_lo m_hi m2_lo m2_hi le =
    elim (Bool-cases (ltb (y * 12 + m) (y2 * 12 + m2))) [
      | inl earlier ↦ omega (arith, boundary_order y m y2 m2 d hour lo hi (ground arith))
      | inr same ↦
          let ys : y ≡ y2 = ground arith in
          let ms : m ≡ m2 = ground arith in
          omega (
            arith,
            ap (λ v. instant (boundary v m d hour)) ys,
            ap (λ v. instant (boundary y2 v d hour)) ms,
          )
    ]

-- A boundary at or before a time is of that time's month or of an earlier one.
pub month_not_later :
    (now : Time) (y m d hour : ℕ)
    → IsTime now
    → 1 ≤ d
    → hour ≤ 23
    → instant (boundary y m d hour) ≤ instant now
    → y * 12 + m ≤ now.year * 12 + now.month
month_not_later now y m d hour h lo hi le =
    omega (arith, boundary_bounds y m d hour lo hi, time_bounds now h)

-- Of an earlier one, where that month's own boundary is still to come.
pub month_earlier :
    (now : Time) (y m d hour : ℕ)
    → IsTime now
    → 1 ≤ d
    → hour ≤ 23
    → 1 ≤ m
    → m ≤ 12
    → instant now < instant (boundary now.year now.month d hour)
    → instant (boundary y m d hour) ≤ instant now
    → y * 12 + m < now.year * 12 + now.month
month_earlier now y m d hour h lo hi m_lo m_hi late le =
    elim (Bool-cases (ltb (y * 12 + m) (now.year * 12 + now.month))) [
      | inl earlier ↦ ground arith
      | inr same ↦ absurd (
          omega (
            arith,
            boundary_order_le now.year now.month y m d hour lo hi h.month_low h.month_high m_lo m_hi
                (ground arith),
          ))
    ]

-- The boundary of some month, for a reset day and hour.
abbrev pub IsBoundary : ℕ → ℕ → Time → Type 0
IsBoundary d hour t = (y : ℕ) × (m : ℕ) × (1 ≤ m) × (m ≤ 12) × (t ≡ boundary y m d hour)

-- Which boundary `CycleStart` returns.
pub cycle_start_early :
    (now : Time) (reset_day : ℕ) (reset_hour : Option ℤ)
    → after (boundary now.year now.month (first_day reset_day) (reset_boundary_hour reset_hour)) now
      ≡ false
    → cycle_start now reset_day reset_hour
      ≡ boundary now.year now.month (first_day reset_day) (reset_boundary_hour reset_hour)
unfolding cycle_start
cycle_start_early now reset_day reset_hour e = ground arith

pub cycle_start_late :
    (now : Time) (reset_day : ℕ) (reset_hour : Option ℤ)
    → after (boundary now.year now.month (first_day reset_day) (reset_boundary_hour reset_hour)) now
      ≡ true
    → cycle_start now reset_day reset_hour
      ≡ boundary
          (month_back now).year
          (month_back now).month
          (first_day reset_day)
          (reset_boundary_hour reset_hour)
unfolding cycle_start
cycle_start_late now reset_day reset_hour e = ground arith

pub month_back_inside :
    (now : Time)
    → IsTime now
    → now.day ≤ days_in (previous_month now.year now.month).0 (previous_month now.year now.month).1
    → ((month_back now).year ≡ (previous_month now.year now.month).0)
      × ((month_back now).month ≡ (previous_month now.year now.month).1)
unfolding month_back
month_back_inside now h room =
    let e =
      date_inside (previous_month now.year now.month).0 (previous_month now.year now.month).1
        now.day now.seconds h.day_low room in
    (ap (λ t. t.year) e, ap (λ t. t.month) e)

pub after_iff :
    (t u : Time) (b : Bool)
    → after t u ≡ b
    → (if b then instant u < instant t else instant t ≤ instant u)
unfolding after
after_iff t u true h = ground arith
after_iff t u false h = ground arith

-- Where the month before now's has a day like now's, the start of the cycle is the boundary of some
-- month, it is at or before now, and the boundary of every month that is at or before now is at or
-- before it.
pub cycle_start_latest :
    (now : Time) (reset_day : ℕ) (reset_hour : Option ℤ)
    → IsTime now
    → now.day ≤ days_in (previous_month now.year now.month).0 (previous_month now.year now.month).1
    → IsBoundary
        (first_day reset_day)
        (reset_boundary_hour reset_hour)
        (cycle_start now reset_day reset_hour)
      × (instant (cycle_start now reset_day reset_hour) ≤ instant now)
      × ((y m : ℕ)
          → 1 ≤ m
          → m ≤ 12
          → instant (boundary y m (first_day reset_day) (reset_boundary_hour reset_hour))
            ≤ instant now
          → instant (boundary y m (first_day reset_day) (reset_boundary_hour reset_hour))
            ≤ instant (cycle_start now reset_day reset_hour))
cycle_start_latest now reset_day reset_hour h room =
    let d = first_day reset_day in
    let hour = reset_boundary_hour reset_hour in
    let lo = first_day_pos reset_day in
    let hi = reset_boundary_hour-le reset_hour in
    elim (Bool-cases (after (boundary now.year now.month d hour) now)) [
      | inl late ↦
          let (ey, em) = month_back_inside now h room in
          let (index, p_lo, p_hi) =
            previous_month_index now.year now.month h.year h.month_low h.month_high in
          let now_late = after_iff (boundary now.year now.month d hour) now true late in
          rw (cycle_start_late now reset_day reset_hour late, ey, em)
            (
              (
                (previous_month now.year now.month).0,
                (previous_month now.year now.month).1,
                p_lo,
                p_hi,
                refl,
              ),
              omega (
                arith,
                boundary_bounds (previous_month now.year now.month).0
                    (previous_month now.year now.month).1 d hour lo hi,
                time_bounds now h,
              ),
              λ y m m_lo m_hi le.
                  boundary_order_le y m (previous_month now.year now.month).0
                    (previous_month now.year now.month).1 d hour lo hi m_lo m_hi p_lo p_hi
                    (omega (arith, month_earlier now y m d hour h lo hi m_lo m_hi now_late le)),
            )
      | inr early ↦ rw (cycle_start_early now reset_day reset_hour early) (
        (now.year, now.month, h.month_low, h.month_high, refl),
        after_iff (boundary now.year now.month d hour) now false early,
        λ y m m_lo m_hi le.
            boundary_order_le y m now.year now.month d hour lo hi m_lo m_hi h.month_low h.month_high
              (month_not_later now y m d hour h lo hi le),
      )
    ]
