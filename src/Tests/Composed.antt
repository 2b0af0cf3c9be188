-- ===== src/Tests/Composed.antt =====
-- A whole client that is fed, closed and cut off, and the theorems on `MacAPI` applied to it.
use macpony.Prelude.{◌≡◌, refl, inl, true, false, none, some, List, [], ◌∷◌, ◌++◌, arith, All}
use macpony.Errors.{
  Exception, returned, raised, connection, connection_lost, is_closing, not_connected, peer_closed,
  server_capability,
}
use macpony.EventsClient.{EventSubscription, initial, yields, stops}
use macpony.EventsClient.Queue.{takes, receives}
use macpony.EventsClient.Closing.{next_all, ending}
use macpony.Connection.{disconnected, begin_call}
use macpony.Connection.Reconnect.{delays_from}
use macpony.Client.{pending_requests, on_connected, MacApi, connect, is_connected, close}
use macpony.Client.Handshake.{IsAccepted}
use macpony.Client.Stream.{receive_stream}
use macpony.Client.Closing.{close-ends_client}
use macpony.Client.Offline.{lose_connection, lose_connection-ignores_events}
use macpony.Client.Reconnecting.{Round, refused, answered, reconnect_rounds, IsFailing}
use macpony.Client.Reconnecting.Liveness.{IsReconnected, lose_connection-reconnects}
use macpony.Tests.Calls.{busy}
use macpony.Tests.Client.{server}
use macpony.Tests.Delivery.{loads_event, two_chunks}
use macpony.Tests.Queue.{copied, woke_up, joined, full_client}
use macpony.Tests.Reference.{reference}
use macpony.EventsClient

abbrev pub listening : MacApi
listening = record {
  capabilities = none;
  events = EventsClient.initial 2;
  remembered = [];
  connection = busy;
}

abbrev loaded_client : MacApi
loaded_client = record listening { events = full_client }

close-ends_client_example :
    let api' = close loaded_client in
    ((next_all (takes ∷ receives joined ∷ takes ∷ takes ∷ []) api'.events).0
      ≡ yields woke_up ∷ stops ∷ stops ∷ [])
    × (api'.events.handler_tasks ≡ [])
    × (api'.connection.state ≡ disconnected)
    × (pending_requests api' ≡ 0)
    × (connect true (returned server) (returned []) api' ≡ (raised (connection is_closing), api'))
    × (begin_call "ffffffff" "system.info" none api'.connection
        ≡ (raised (connection not_connected), api'.connection))
    × (close api' ≡ api')
unfolding ending
close-ends_client_example =
    close-ends_client (takes ∷ receives joined ∷ takes ∷ takes ∷ []) (copied ∷ woke_up ∷ [])
      loaded_client true (returned server) (returned []) "ffffffff" "system.info" none refl refl

-- A client that does not reconnect by itself.
abbrev manual : MacApi
manual = record loaded_client { connection = record busy { auto_reconnect = false } }

abbrev lost : Exception
lost = connection_lost peer_closed

manual-IsAccepted : IsAccepted (returned server) (returned []) manual
manual-IsAccepted = record {
  caps = server;
  answered = refl;
  same_version = refl;
  exclusive = refl;
  replayed = inl refl;
}

lose_connection-ignores_events_example :
    let (outcome, api') =
      connect true (returned server) (returned []) (lose_connection (some 0) lost manual) in
    (outcome ≡ returned true)
    × (is_connected api' ≡ true)
    × (api'.events ≡ EventsClient.close manual.events)
    × ((receive_stream loads_event reference 100 two_chunks api').events ≡ api'.events)
lose_connection-ignores_events_example =
    lose_connection-ignores_events (some 0) lost (returned server) (returned []) loads_event
      reference 100 two_chunks manual refl refl manual-IsAccepted

-- The socket is refused, then the server wants several clients, then the call is refused.
abbrev rounds : List Round
rounds =
    refused
    ∷ answered (returned (record server { single_client = false })) (returned [])
    ∷ answered (raised (connection not_connected)) (returned [])
    ∷ []

rounds-IsFailing : All (IsFailing loaded_client) rounds
unfolding on_connected
rounds-IsFailing =
    (tt, ((server_capability, refl, refl), ((connection not_connected, refl, refl), tt)))

loaded-IsAccepted : IsAccepted (returned server) (returned []) loaded_client
loaded-IsAccepted = record {
  caps = server;
  answered = refl;
  same_version = refl;
  exclusive = refl;
  replayed = inl refl;
}

lose_connection-reconnects_example :
    let (sleeps, end) =
      reconnect_rounds 3 1
        (rounds ++ answered (returned server) (returned []) ∷ [])
        (lose_connection (some 0) lost loaded_client) in
    (sleeps ≡ 1 ∷ 2 ∷ 3 ∷ []) × IsReconnected loaded_client (returned server) (returned []) end
unfolding delays_from
lose_connection-reconnects_example =
    lose_connection-reconnects (some 0) lost 1 3 rounds [] (returned server) (returned [])
      loaded_client refl refl (omega arith) rounds-IsFailing loaded-IsAccepted
