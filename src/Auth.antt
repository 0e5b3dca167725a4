-- ===== src/Auth.antt =====
-- internal/auth: who may pair with the device, and who owns it.
pub mod Store
