-- ===== src/ComposeEdit.antt =====
-- compose_edit.py: applying an edited compose file. `Watch` is the look-out after `up`, `Apply` the
-- job that saves the file, brings the project up and rolls back.
pub mod Watch
pub mod Apply
pub mod Rounds
pub mod Vigil
pub mod Settled
pub mod Save
mod Examples
