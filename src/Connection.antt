-- ===== src/Connection.antt =====
-- `SocketConnection` of python-client/src/hammerspoon_macapi/connection.py. Each method is cut at
-- its `await`s into the pieces that the event loop runs without interruption, and each piece is a
-- function on the state: `State` has the fields and what the methods share, `Calls` the pieces of
-- `call`, `Reading` those of the reader task, `Lifecycle` those of connecting, disconnecting,
-- reconnecting and closing, `Steps` puts them together for
-- any interleaving, and `Locking` for those that `_connect_lock` allows.
mod State
mod Calls
mod Reading
mod Lifecycle
pub mod Ids
pub mod Registry
pub mod Steps
pub mod Pieces
pub mod Invariant
pub mod Correlation
pub mod Interleaving
pub mod Settled
pub mod Disconnect
pub mod Shutdown
pub mod Reconnect
pub mod Delivery
pub mod Races
pub mod Locking
unfoldable pub use State.*
unfoldable pub use Calls.*
unfoldable pub use Reading.*
unfoldable pub use Lifecycle.*
