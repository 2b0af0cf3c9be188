-- ===== src/Server.antt =====
-- The server's side of the protocol, in hammerspoon/macapi: how it cuts the stream into records
-- (`Framing`), validates a request and builds a response (`Wire`), dispatches it (`Dispatch`),
-- checks its parameters (`Parameters`), keeps the subscriptions of its one client
-- (`Subscriptions`, `Patterns`) and sends events (`EventBus`). `Polling` has the reads that feed
-- `Framing`, `Capabilities` the answer to the handshake, and `Watchers` the source of the events. `Requests`, `Answers` and
-- `RoundTrip` are about calls from one side to the other and back, `History` and `Mirror` about
-- subscriptions on both sides, and `EventDelivery` about events on their way.
pub mod Framing
pub mod Wire
pub mod Dispatch
pub mod Requests
pub mod Answers
pub mod RoundTrip
pub mod Patterns
pub mod Subscriptions
pub mod Registry
pub mod Parameters
pub mod EventBus
pub mod Polling
pub mod EventDelivery
pub mod Matching
pub mod History
pub mod Mirror
pub mod Capabilities
pub mod Watchers
