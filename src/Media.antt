-- ===== src/Media.antt =====
-- internal/media: the coordinator of the stream, its health, the fan-out, the distributor and the keyframe reader.
pub mod Packets
pub mod Keyframes
pub mod Coordinator
pub mod Fanout
pub mod Health
pub mod Distributor
