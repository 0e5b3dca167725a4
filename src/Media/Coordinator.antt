-- ===== src/Media/Coordinator.antt =====
-- internal/media/stream_coordinator.go. What runs under `mu` is one function on the coordinator's state;
-- the operations are composed of them. A stream's fan-out and its startup are shared by pointer: they
-- stand in a store, under the number of the stream's lease, and the coordinator holds the number.
pub mod Sections
pub mod Operations
pub mod Invariant
pub mod Steps
mod Examples
