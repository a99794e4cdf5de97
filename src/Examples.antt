-- ===== src/Examples.antt =====
-- Test data, and the theorems at concrete inputs.
pub mod Table
pub mod Codec
mod Log
mod Board
mod Joining
mod Entries
mod Shelf
mod Frames
mod Heartbeat
pub mod Hosts
mod Feed
mod Gate
mod Naming
mod Peers
