-- ===== src/Config.antt =====
-- config.py: the settings that the dashboard may give to the agent.
pub mod Settings
pub mod Clean
pub mod Store
pub mod Merge
pub mod Applied
pub mod Saving
pub mod Update
pub mod Entries
pub mod Forms
pub mod Slashes
pub mod View
mod Examples
