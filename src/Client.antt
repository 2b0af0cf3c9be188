-- ===== src/Client.antt =====
-- `MacAPI` of python-client/src/hammerspoon_macapi/client.py: the connection and the events client
-- with the callbacks between them, the handshake `_on_connected`, `connect` and `close`.
pub mod Handshake
pub mod Stream
pub mod Closing
pub mod Offline
pub mod Reconnecting
pub mod Context
use macpony.Prelude.{
  ℕ, String, Bool, true, false, Option, none, some, List, [], ◌∷◌, ◌++◌, length, if◌then◌else◌,
}
use macpony.Prelude.Dict.{Dict}
use macpony.Prelude.Int.{ℤ, pos, eq_nat}
use macpony.Errors.{Exception, Outcome, returned, raised, protocol_version, server_capability}
use macpony.EventsClient.{EventSubscription, EventsClient, restore_finish, on_event}
use macpony.Connection.{
  ConnectionState, SocketConnection, Effect, delivered, notified_disconnected, is_connected_state,
  pending_count, begin_connect, attach, connect_refused, connect_finish,
}
use macpony.EventsClient
use macpony.Connection

-- An instance of `Capabilities` in models.py, without the fields that a `Literal` fixes.
pub record Capabilities : Type 0 where
  pub version : ℤ
  pub server_version : String
  pub single_client : Bool
  pub methods : List String
  pub events : List String
  pub features : Dict Bool

-- The fields that change; `remembered` are the subscriptions of the events client.
pub record MacApi : Type 0 where
  pub capabilities : Option Capabilities
  pub events : EventsClient
  pub remembered : List EventSubscription
  pub connection : SocketConnection

-- `__init__`
abbrev pub create : Bool → ℕ → MacApi
create auto_reconnect event_queue_size = record {
  capabilities = none;
  events = EventsClient.initial event_queue_size;
  remembered = [];
  connection = Connection.initial auto_reconnect;
}

-- The properties `connection_state`, `connected` and `pending_requests`, and
-- `wait_until_connected`: does it return at once?
abbrev pub connection_state : MacApi → ConnectionState
connection_state api = api.connection.state

abbrev pub is_connected : MacApi → Bool
is_connected api = is_connected_state api.connection.state

abbrev pub pending_requests : MacApi → ℕ
pending_requests api = pending_count api.connection

abbrev pub wait_until_connected : MacApi → Bool
wait_until_connected api = Connection.wait_until_connected api.connection

-- The callbacks that `__init__` hands to the connection: `on_event` and `close` of the events client.
unfoldable pub call_back : List Effect → EventsClient → EventsClient
call_back [] c = c
call_back (delivered e ∷ effects) c = call_back effects (on_event e c)
call_back (notified_disconnected ∷ effects) c = call_back effects (EventsClient.close c)
call_back (_ ∷ effects) c = call_back effects c

-- A piece of the connection with the callbacks that it makes. The events client does not touch the
-- connection, so that they can be run after the piece.
unfoldable pub run_piece : (SocketConnection → SocketConnection) → MacApi → MacApi
unfolding call_back
run_piece piece api =
    let connection = piece (record api.connection { effects = [] }) in
    record api {
      events = call_back connection.effects api.events;
      connection = record connection { effects = api.connection.effects ++ connection.effects };
    }

-- `restore_subscriptions`: nothing is sent, and nothing can fail, if nothing is remembered.
-- `restored` is the outcome of its call.
unfoldable pub restore_subscriptions :
    Outcome (List EventSubscription) → MacApi → Option Exception × MacApi
unfolding restore_finish
restore_subscriptions restored api = elim api.remembered [
  | [] ↦ (none, api)
  | s ∷ ss ↦
      let (outcome, remembered) = restore_finish restored (s ∷ ss) in
      let api' = record api { remembered = remembered } in
      elim outcome [ returned u ↦ (none, api') | raised e ↦ (some e, api') ]
]

-- `_on_connected`, from the outcomes of its two calls: the exception that leaves it, if any.
unfoldable pub on_connected :
    Outcome Capabilities → Outcome (List EventSubscription) → MacApi → Option Exception × MacApi
unfolding restore_subscriptions
on_connected (raised e) restored api = (some e, api)
on_connected (returned caps) restored api =
    if eq_nat caps.version 1
    then (if caps.single_client
        then restore_subscriptions restored (record api { capabilities = some caps })
        else (some server_capability, api))
    else (some (protocol_version 1 caps.version), api)

-- The rest of `connect` after `open_unix_connection` has returned, when nothing else runs.
unfoldable pub finish_connect :
    Outcome Capabilities → Outcome (List EventSubscription) → MacApi → Outcome Bool × MacApi
unfolding on_connected connect_finish
finish_connect result restored api =
    let (error, api') = on_connected result restored api in
    let (outcome, connection) = connect_finish error api'.connection in
    (outcome, record api' { connection = connection })

-- `connect`, with what `open_unix_connection` and the two calls of the handshake come to.
unfoldable pub connect :
    Bool → Outcome Capabilities → Outcome (List EventSubscription) → MacApi → Outcome Bool × MacApi
unfolding begin_connect attach connect_refused finish_connect
connect opened result restored api =
    let (outcome, connection) = begin_connect api.connection in
    elim outcome [
      | returned true ↦
          if opened
          then finish_connect result restored (record api { connection = attach connection })
          else (let (error, connection') = connect_refused connection in
              (raised error, record api { connection = connection' }))
      | returned false ↦ (returned false, api)
      | raised e ↦ (raised e, api)
    ]

-- `close`, when nothing else runs at its `await`s.
unfoldable pub close : MacApi → MacApi
unfolding run_piece
close api = run_piece Connection.close (record api { events = EventsClient.close api.events })
