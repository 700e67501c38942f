-- ===== src/Rebuild.antt =====
-- rebuild.py: the registry of rebuild jobs, the thread that runs one, and the shell script that it
-- hands to its helper.
pub mod Shell
pub mod Failure
pub mod Jobs
pub mod Registry
pub mod Runs
pub mod Threads
pub mod Quoting
mod Examples
