-- ===== src/Sockets.antt =====
-- sockets.py: which process of the host holds the socket behind a flow.
pub mod Table
pub mod Owners
pub mod Search
pub mod Holders
