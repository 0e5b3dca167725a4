-- ===== src/App.antt =====
-- internal/app: what connects the components.
pub mod BusCall
pub mod RingHolder
pub mod RingWatch
