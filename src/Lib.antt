-- ===== src/Lib.antt =====
-- A model of the Python client of macpony (package `hammerspoon_macapi`, under
-- python-client/src/hammerspoon_macapi), which talks over a Unix socket to a server inside
-- Hammerspoon (hammerspoon/macapi), and of the server's side of that talk: requests and responses
-- that are correlated by id, and events that the server pushes, each as one line of JSON.
--
-- The parts, and how they interact:
-- * `Lines` models `SocketConnection._iter_lines` of connection.py, which cuts the byte stream into
--   records. A byte is a number, and the chunks that `read` returns are a list.
-- * `Protocol` models protocol.py: the envelopes, `encode_line`, `decode_message` and
--   `parse_result`. A record of `Lines` is what `decode_message` takes.
-- * `Errors` models exceptions.py, with `rpc_exception`.
-- * `Models` and `Events` model models.py and events.py: a class is the list of its annotated
--   fields, and `parse_event` turns a wire event into an instance of the class for its name.
-- * `Connection` models `SocketConnection` of connection.py. A method is cut at its `await`s, and
--   `Connection.Steps` lets the pieces run in every order. `State` has the fields, `Calls` is
--   `call`, `Reading` is `_reader_loop` (`Delivery` puts it behind `Lines`), `Lifecycle` is
--   `connect`, `_connect_once`, `close` and `_handle_disconnect`, and `Reconnect` is the loop over
--   the delays of `_reconnect_loop`. `Locking` is the relation of the moves that `_connect_lock`
--   allows. Futures and streams are numbers, and what a piece does to the outside is listed in
--   `effects`.
-- * `EventsClient` models namespaces/events.py: the bounded queue, its iterator, the handlers with
--   their tasks (`Handlers`), and the remembered subscriptions (`Subscribing`).
-- * `Client` models `MacAPI` in client.py on top of both: the callbacks between them, `connect` with
--   its handshake (`Handshake`), `close` (`Closing`), the way of the bytes into the queue
--   (`Stream`), a lost connection without `auto_reconnect` (`Offline`), `_reconnect_loop` with the
--   handshake in its rounds (`Reconnecting`), and the client as a context manager (`Context`).
-- * `Namespaces` models the other files of namespaces/: what each typed method gives to `call`. Its
--   child `Server` and `Events.Catalog` have the names that the server registers, from
--   hammerspoon/macapi.
-- * `Exports` has the names that the package imports and exports.
-- * `Server` models the other side of the wire, in hammerspoon/macapi: `Framing` is `callback` of
--   server.lua, `Wire` is protocol.lua, `Dispatch` is `M.handle` of dispatcher.lua,
--   `Polling` is `read_next`, `poll_connections`, `M.start` and `M.stop` around it with the tags of
--   reads (`Socket` and what uses it put the queue of reads in the client's socket beside it),
--   `Subscriptions` and `Patterns` are subscriptions.lua, `EventBus` is eventbus.lua, and
--   `Parameters` has the checks of validators.lua in the services' methods.
--   `Capabilities` is the answer to `system.capabilities`, and `Watchers` is watchers.lua with
--   state.lua. `RoundTrip` puts the server behind the client's calls, `Mirror` behind the client's
--   subscriptions, and `EventDelivery` before the client's queue.
-- * `Prelude` has the shared names and lemmas, `Json` the values, `Constants` the constants, and
--   `Tests` the inputs at which the theorems are applied.
--
-- What is not part of the repository is a parameter: `json.loads` and `json.dumps` are functions,
-- the first with each kind of exception that the client tells apart, the random part of an id is an
-- argument, and pydantic is a validator with the laws of `IsPydantic`, which `Tests.Reference`
-- meets. So are `hs.json.decode`, `hs.json.encode` and the handlers of the server's services, which
-- call the API of Hammerspoon.
--
-- Bounds and fuel: the inner loop of `_iter_lines` runs on fuel one above the length of the buffer,
-- which is enough since each round takes a byte out. The digits of a request id run on fuel one
-- above the number. The size bound of a record and of the queue are arguments where the source's
-- constant does not matter. Python's integers have no bound. A float is a multiple of a power of
-- two, an infinity or NaN.
--
-- Not modelled: the texts of exceptions and logs, the event loop's choice of the next task (every
-- order is allowed), what an event handler does apart from how it ends, the paths of files, the
-- registration of the server's watchers and what its services do once their parameters are checked,
-- the files and timers of its listener, and the tests and the documents.
pub mod Prelude
pub mod Errors
pub mod Json
pub mod Pydantic
pub mod Constants
pub mod Lines
pub mod Protocol
pub mod Models
pub mod Events
pub mod Exports
pub mod Connection
pub mod EventsClient
pub mod Client
pub mod Namespaces
pub mod Server
pub mod Tests
