-- ===== src/OpenWebNet.antt =====
-- internal/openwebnet: the datagrams and frames of the intercom's bus, and the events that they mean.
pub mod Commands
pub mod Diagnostics
pub mod Frames
pub mod Datagram
pub mod Mapper
