-- ===== src/Disk.antt =====
-- disk_usage.py and disk_delete.py: paths, cached scans and deletion.
pub mod Path
pub mod Normal
pub mod Under
pub mod Split
pub mod Scans
pub mod Host
pub mod Delete
pub mod Safety
pub mod Forget
pub mod Usage
mod Examples
