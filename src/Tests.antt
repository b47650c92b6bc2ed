-- ===== src/Tests.antt =====
-- Tests: runs at concrete inputs, and the theorems applied where their hypotheses hold.
pub mod Wire
pub mod Frames
pub mod Requests
pub mod Connections
pub mod Entries
pub mod Mappings
pub mod Jobs
pub mod Headers
pub mod About
pub mod Tries
pub mod Reloads
pub mod Blocklists
pub mod Compilations
