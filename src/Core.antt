-- ===== src/Core.antt =====
-- internal/core: the events of the companion and the state that they project to.
pub mod Events
pub mod State
