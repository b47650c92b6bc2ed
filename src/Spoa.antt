-- ===== src/Spoa.antt =====
-- The protocol agent, src/spoa: wire format, frames, request evaluation.
pub mod Varint
pub mod Reader
pub mod Writer
pub mod TypedData
pub mod Message
pub mod Frame
pub mod Parse
pub mod Categories
pub mod Database
pub mod Entry
pub mod Mapping
pub mod Metadata
pub mod Reload
pub mod Agent
pub mod Server
