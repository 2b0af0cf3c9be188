-- ===== src/Client/Offline.antt =====
-- A client that does not reconnect by itself, after its connection was lost.
use mathlib.Core.Path.{subst}
use macpony.Lines.{start, iter_lines}
use macpony.Prelude.{
  ◌⊎◌, ℕ, ◌≡◌, refl, sym, ap, ◌∙◌, Bool, true, false, Option, none, some, List, [], ◌∷◌, ◌++◌,
  arith,
}
use macpony.Errors.{Exception, Outcome, returned, raised}
use macpony.Pydantic.{Validator}
use macpony.Protocol.{Loads}
use macpony.EventsClient.{EventSubscription, EventsClient, on_event}
use macpony.Connection.{
  read_records, is_connected_state, begin_connect, attach, SocketConnection, Effect, connected,
  disconnected, delivered, notified_disconnected, handle_disconnect, drop_effects, connect_finish,
}
use macpony.Client.{
  Capabilities, MacApi, is_connected, call_back, run_piece, on_connected, finish_connect, connect,
}
use macpony.Client.Handshake.{IsAccepted, accepts}
use macpony.Client.Stream.{receive_stream}
use macpony.Client.Closing.{drop_effects-silent}
use macpony.EventsClient

-- `_handle_disconnect`, with the callbacks that it makes.
unfoldable pub lose_connection : Option ℕ → Exception → MacApi → MacApi
unfolding run_piece
lose_connection current error = run_piece (handle_disconnect current error)

-- Nothing that is called back reaches a closed events client.
closed-call_back :
    (effects : List Effect) (c : EventsClient) → c.is_closed ≡ true → call_back effects c ≡ c
unfolding call_back EventsClient.close on_event
closed-call_back [] c h = refl
closed-call_back (delivered e ∷ l) c h =
    ap (call_back l) (let t : on_event e c ≡ c = ground (arith, h) in t) ∙ closed-call_back l c h
closed-call_back (notified_disconnected ∷ l) c h =
    ap (call_back l) (let t : EventsClient.close c ≡ c = ground (arith, h) in t)
    ∙ closed-call_back l c h
closed-call_back (_ ∷ l) c h = closed-call_back l c h

close-closed : (c : EventsClient) → (EventsClient.close c).is_closed ≡ true
unfolding EventsClient.close
close-closed c = ground arith

handle_disconnect-effects :
    (current : Option ℕ) (error : Exception) (s : SocketConnection)
    → s.auto_reconnect ≡ false
    → s.is_closing ≡ false
    → (handle_disconnect current error s).effects
      ≡ (s.effects ++ drop_effects current s.reader_task s.writer) ++ notified_disconnected ∷ []
unfolding handle_disconnect
handle_disconnect-effects current error s a c = ground (arith, a, c)

lose_connection-events :
    (current : Option ℕ) (error : Exception) (api : MacApi)
    → api.connection.auto_reconnect ≡ false
    → api.connection.is_closing ≡ false
    → (lose_connection current error api).events ≡ EventsClient.close api.events
unfolding lose_connection handle_disconnect call_back
lose_connection-events current error api a c =
    let s = record api.connection { effects = [] } in
    ap (λ l. call_back l api.events) (handle_disconnect-effects current error s a c)
    ∙ drop_effects-silent current s.reader_task s.writer (notified_disconnected ∷ []) api.events

lose_connection-state :
    (current : Option ℕ) (error : Exception) (api : MacApi)
    → api.connection.auto_reconnect ≡ false
    → api.connection.is_closing ≡ false
    → let s = (lose_connection current error api).connection in
      (s.state ≡ disconnected) × (s.is_closing ≡ false)
unfolding lose_connection handle_disconnect
lose_connection-state current error api a c = ground (arith, a, c)

on_connected-events :
    (result : Outcome Capabilities) (restored : Outcome (List EventSubscription)) (api : MacApi)
    → (on_connected result restored api).1.events ≡ api.events
unfolding on_connected
on_connected-events (raised e) restored api = refl
on_connected-events (returned caps) restored api = ground arith

connect_finish-returned :
    (o : Option Exception) (s : SocketConnection)
    → o ≡ none
    → ((connect_finish o s).0 ≡ returned true) × ((connect_finish o s).1.state ≡ connected)
unfolding connect_finish
connect_finish-returned none s h = (refl, refl)
connect_finish-returned (some e) s h = absurd (cc)

-- Whether the server is accepted depends only on what is remembered.
pub moved :
    (result : Outcome Capabilities) (restored : Outcome (List EventSubscription))
    (api other : MacApi)
    → other.remembered ≡ api.remembered
    → IsAccepted result restored api
    → IsAccepted result restored other
moved result restored api other same h = record {
  caps = h.caps;
  answered = h.answered;
  same_version = h.same_version;
  exclusive = h.exclusive;
  replayed =
      subst (λ l. (l ≡ []) ⊎ ((k : List EventSubscription) × (restored ≡ returned k))) (sym same)
        h.replayed;
}

lose_connection-remembered :
    (current : Option ℕ) (error : Exception) (api : MacApi)
    → (lose_connection current error api).remembered ≡ api.remembered
unfolding lose_connection
lose_connection-remembered current error api = refl

receive_stream-closed :
    (loads : List ℕ → Loads) (validate : Validator) (limit : ℕ) (chunks : List (List ℕ))
    (api : MacApi)
    → api.events.is_closed ≡ true
    → (receive_stream loads validate limit chunks api).events ≡ api.events
unfolding receive_stream
receive_stream-closed loads validate limit chunks api h =
    let piece : SocketConnection → SocketConnection =
      λ s. (read_records loads validate (iter_lines limit chunks start).0 s).1 in
    closed-call_back (piece (record api.connection { effects = [] })).effects api.events h

finish_connect-accepted :
    (result : Outcome Capabilities) (restored : Outcome (List EventSubscription)) (api : MacApi)
    → IsAccepted result restored api
    → let (outcome, api') = finish_connect result restored api in
      (outcome ≡ returned true) × (api'.connection.state ≡ connected) × (api'.events ≡ api.events)
unfolding finish_connect
finish_connect-accepted result restored api h =
    let (error, api') = on_connected result restored api in
    let (first, second) =
      connect_finish-returned error api'.connection (accepts result restored api h) in
    (first, second, on_connected-events result restored api)

connect-opened :
    (result : Outcome Capabilities) (restored : Outcome (List EventSubscription)) (api : MacApi)
    → api.connection.state ≡ disconnected
    → api.connection.is_closing ≡ false
    → connect true result restored api
      ≡ finish_connect result restored
          (record api { connection = attach (begin_connect api.connection).1 })
unfolding connect begin_connect
connect-opened result restored api st c = ground (arith, st, c)

-- A client without `auto_reconnect` that has lost its connection can connect again, to any server
-- that the handshake accepts. But the loss has closed its events client, nothing opens it again,
-- and so the connected client ignores whatever events the new stream brings.
pub lose_connection-ignores_events :
    (current : Option ℕ) (error : Exception) (result : Outcome Capabilities)
    (restored : Outcome (List EventSubscription)) (loads : List ℕ → Loads) (validate : Validator)
    (limit : ℕ) (chunks : List (List ℕ)) (api : MacApi)
    → api.connection.auto_reconnect ≡ false
    → api.connection.is_closing ≡ false
    → IsAccepted result restored api
    → let (outcome, api') = connect true result restored (lose_connection current error api) in
      (outcome ≡ returned true)
      × (is_connected api' ≡ true)
      × (api'.events ≡ EventsClient.close api.events)
      × ((receive_stream loads validate limit chunks api').events ≡ api'.events)
lose_connection-ignores_events current error result restored loads validate limit chunks api a c h =
    let lost = lose_connection current error api in
    let api' = (connect true result restored lost).1 in
    let (st, open_still) = lose_connection-state current error api a c in
    let attached = attach (begin_connect lost.connection).1 in
    let way = connect-opened result restored lost st open_still in
    let (first, second, third) =
      finish_connect-accepted result restored (record lost { connection = attached })
        (moved result restored api (record lost { connection = attached })
          (lose_connection-remembered current error api) h) in
    let same : api'.events ≡ EventsClient.close api.events =
      ap (λ (r : Outcome Bool × MacApi). r.1.events) way
      ∙ third
      ∙ lose_connection-events current error api a c in
    (
      ap (λ (r : Outcome Bool × MacApi). r.0) way ∙ first,
      ap (λ (r : Outcome Bool × MacApi). is_connected r.1) way ∙ ap is_connected_state second,
      same,
      receive_stream-closed loads validate limit chunks api'
          (ap (λ (x : EventsClient). x.is_closed) same ∙ close-closed api.events),
    )
