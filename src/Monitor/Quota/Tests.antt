-- ===== src/Monitor/Quota/Tests.antt =====
-- Limits and grants at which the claims about packages are applied.
use singbox_deploy.Common.{◌≡◌, ◌↔◌, ◌⊎◌, true, arith}
use singbox_deploy.Monitor.Quota.{
  TrafficLimits, TrafficPackage, TrafficTotals, total, exceeded, with_package, add_package, max_u64,
}
use singbox_deploy.Monitor.Quota.Grants.{
  IsLimits, IsPackage, Reached, with_package-add_package, exceeded-with_package,
}

abbrev limits : TrafficLimits
limits = record { in_bytes = 1000; out_bytes = 0; total_bytes = 1500 }

abbrev top_up : TrafficPackage
top_up = record { in_bytes = 200; out_bytes = 300; total_bytes = max_u64 }

abbrev used : TrafficTotals
used = record { in_bytes = 1100; out_bytes = 600 }

limits-IsLimits : IsLimits limits
limits-IsLimits = record {
  in_bytes = ground arith;
  out_bytes = ground arith;
  total_bytes = ground arith;
}

top_up-IsPackage : IsPackage top_up
top_up-IsPackage = record {
  in_bytes = ground arith;
  out_bytes = ground arith;
  total_bytes = ground arith;
}

with_package-add_package_example :
    with_package (with_package limits top_up) top_up
    ≡ with_package limits (add_package top_up top_up)
with_package-add_package_example =
    with_package-add_package limits top_up top_up limits-IsLimits top_up-IsPackage top_up-IsPackage

exceeded-with_package_example :
    (exceeded (with_package limits top_up) used ≡ true)
    ↔ (Reached 1000 200 1100 ⊎ (Reached 0 300 600 ⊎ Reached 1500 max_u64 (total used)))
exceeded-with_package_example =
    exceeded-with_package limits top_up used limits-IsLimits top_up-IsPackage
