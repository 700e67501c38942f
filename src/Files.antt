-- ===== src/Files.antt =====
-- files.py: the file manager.
pub mod Write
pub mod Safety
pub mod Roots
pub mod Owner
pub mod Change
pub mod Policy
pub mod Links
pub mod Unlinked
pub mod Guards
pub mod Confined
mod Examples
