-- ===== src/Signaling.antt =====
-- internal/signaling: the owner of the SIP dialogs.
pub mod Manager
