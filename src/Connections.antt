-- ===== src/Connections.antt =====
-- connections.py: flows of the kernel's conntrack table, grouped into conversations and attributed
-- to containers.
pub mod Flow
pub mod Aggregate
pub mod Conversations
pub mod Rows
pub mod Totals
pub mod Lookup
pub mod Processes
mod Examples
