-- ===== src/Monitor/Cycle/Bracket.antt =====
-- Where the reset day is one of every month's, the cycle around a time is the one it means to be.
use singbox_deploy.Common.{
  ℕ, ◌+◌, ◌*◌, ◌≤◌, ◌<◌, refl, arith, Bool-cases, ◌⊎◌, inl, inr, ltb, Option, ℤ,
}
use singbox_deploy.Monitor.Cycle.{
  Time, instant, next_month, reset_boundary_hour, boundary, cycle_start, next_cycle_reset,
}
use singbox_deploy.Monitor.Cycle.Boundary.{
  IsTime, IsBoundary, reset_boundary_hour-le, next_month_index, boundary_order_le,
}
use singbox_deploy.Monitor.Cycle.Around.{next_reset_of_start, around}

-- A boundary that is not after a time, and one that is, are not in a month the wrong way round.
months_apart :
    (now : Time) (y m y2 m2 d hour : ℕ)
    → 1 ≤ d
    → hour ≤ 23
    → 1 ≤ m
    → m ≤ 12
    → 1 ≤ m2
    → m2 ≤ 12
    → instant (boundary y m d hour) ≤ instant now
    → instant now < instant (boundary y2 m2 d hour)
    → y * 12 + m < y2 * 12 + m2
months_apart now y m y2 m2 d hour lo hi m_lo m_hi m2_lo m2_hi le lt =
    elim (Bool-cases (ltb (y * 12 + m) (y2 * 12 + m2))) [
      | inl earlier ↦ ground arith
      | inr later ↦ absurd (
          omega (
            arith,
            le,
            lt,
            boundary_order_le y2 m2 y m d hour lo hi m2_lo m2_hi m_lo m_hi (ground arith),
          ))
    ]

-- For a reset day from 1 to 28 and any time, the cycle's start and the next reset are boundaries of
-- months, the start is at or before the time and the reset after it, and the boundary of every month
-- is at or before the one or at or after the other.
pub cycle_brackets_now :
    (now : Time) (reset_day : ℕ) (reset_hour : Option ℤ)
    → IsTime now
    → 1 ≤ reset_day
    → reset_day ≤ 28
    → IsBoundary reset_day (reset_boundary_hour reset_hour) (cycle_start now reset_day reset_hour)
      × IsBoundary reset_day
          (reset_boundary_hour reset_hour)
          (next_cycle_reset now reset_day reset_hour)
      × (instant (cycle_start now reset_day reset_hour) ≤ instant now)
      × (instant now < instant (next_cycle_reset now reset_day reset_hour))
      × ((y m : ℕ)
          → 1 ≤ m
          → m ≤ 12
          → (instant (boundary y m reset_day (reset_boundary_hour reset_hour))
              ≤ instant (cycle_start now reset_day reset_hour))
            ⊎ (instant (next_cycle_reset now reset_day reset_hour)
                ≤ instant (boundary y m reset_day (reset_boundary_hour reset_hour))))
cycle_brackets_now now d reset_hour h lo hi =
    let (y, m, a) = around now d reset_hour h lo hi in
    let hour = reset_boundary_hour reset_hour in
    let hour_hi = reset_boundary_hour-le reset_hour in
    let (index, n_lo, n_hi) = next_month_index y m a.low a.high in
    let ny = (next_month y m).0 in
    let nm = (next_month y m).1 in
    rw (next_reset_of_start now d reset_hour y m lo hi a.start, a.start)
      (
        (y, m, a.low, a.high, refl),
        (ny, nm, n_lo, n_hi, refl),
        a.begun,
        a.ends,
        λ y2 m2 m2_lo m2_hi.
            elim (Bool-cases (ltb (instant now) (instant (boundary y2 m2 d hour)))) [
              | inl later ↦ inr (
                  boundary_order_le ny nm y2 m2 d hour lo hour_hi n_lo n_hi m2_lo m2_hi (
                    omega (
                      arith,
                      index,
                      months_apart now y m y2 m2 d hour lo hour_hi a.low a.high m2_lo m2_hi a.begun
                          (ground arith),
                    )))
              | inr not_later ↦ inl (
                  boundary_order_le y2 m2 y m d hour lo hour_hi m2_lo m2_hi a.low a.high (
                    omega (
                      arith,
                      index,
                      months_apart now y2 m2 ny nm d hour lo hour_hi m2_lo m2_hi n_lo n_hi
                          (ground arith) a.ends,
                    )))
            ],
      )
