-- ===== src/Netwatch.antt =====
-- netwatch.py: the `Detector` of the network watch. `Address` tells which claims count, `Detector`
-- is the state and its methods; `Findings`, `Tables` and `Alerts` prove.
pub mod Address
pub mod Detector
pub mod Observe
pub mod Notes
pub mod Findings
pub mod Eviction
pub mod Raise
pub mod Tables
pub mod Invariant
pub mod Alerts
pub mod Servers
pub mod Runs
mod Examples
