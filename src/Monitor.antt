-- ===== src/Monitor.antt =====
-- internal/monitor: the traffic quota of a node, its monthly cycle and its enforcement.
pub mod Quota
pub mod Cycle
pub mod Enforce
