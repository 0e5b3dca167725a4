-- ===== src/Signaling/Manager.antt =====
-- internal/signaling/manager.go. Each critical section, from `mu.Lock` to `mu.Unlock`, is one function
-- on the manager's state; the exported operations are composed of them. Where an operation gives the
-- lock up, `between` stands for what other goroutines do to the state before it takes it again, and
-- the answers of dialogs, of the dialer and of the bus are arguments.
pub mod Sections
pub mod Operations
pub mod Invariant
pub mod Projection
pub mod Rounds
pub mod World
pub mod Endings
pub mod Queries
mod Examples
