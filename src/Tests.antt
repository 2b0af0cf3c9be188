-- ===== src/Tests.antt =====
-- Concrete inputs at which the theorems are applied.
pub mod Reference
pub mod Lines
pub mod Messages
pub mod Queue
pub mod Calls
pub mod Client
pub mod Delivery
pub mod Composed
pub mod Server
pub mod Polling
pub mod Watchers
pub mod Locking
pub mod Events
