-- ===== src/Client/Closing.antt =====
-- `close` of the whole client.
use macpony.Prelude.{
  length, Bool, ℕ, sym, ap, ◌∙◌, append-nil, some, ◌≡◌, refl, false, none, String, Option, List, [],
  ◌++◌, map, arith,
}
use macpony.Errors.{
  connection_lost, connection_closed, Outcome, raised, connection, is_closing, not_connected,
}
use macpony.Json.{Fields}
use macpony.Events.{MacEvent}
use macpony.EventsClient.{EventSubscription, item, EventsClient, is_full, HandlerTask}
use macpony.EventsClient.Queue.{Use}
use macpony.EventsClient.Closing.{next_all, ending, after_marker, close-ends_iterator}
use macpony.Connection.{
  SocketConnection, Effect, Task, running, absent, finished, disconnected, begin_call,
  begin_connect, cancel_effects, drop_effects,
}
use macpony.Connection.Pieces.{fail_pending-empty}
use macpony.Connection.Shutdown.{close-again}
use macpony.Client.{pending_requests, Capabilities, MacApi, connect, call_back, run_piece, close}
use macpony.EventsClient
use macpony.Connection

-- The effects of closing and of dropping a transport call nothing back.
pub drop_effects-silent :
    (current reader_task writer : Option ℕ) (rest : List Effect) (c : EventsClient)
    → call_back (drop_effects current reader_task writer ++ rest) c ≡ call_back rest c
unfolding call_back drop_effects
drop_effects-silent current none none rest c = refl
drop_effects-silent current none (some w) rest c = refl
drop_effects-silent current (some t) none rest c = ground arith
drop_effects-silent current (some t) (some w) rest c = ground arith

close-silent :
    (task : Task) (reader_task writer : Option ℕ) (c : EventsClient)
    → call_back (cancel_effects task ++ drop_effects none reader_task writer) c ≡ c
unfolding call_back
close-silent running r w c =
    ap (λ l. call_back l c) (sym (append-nil (drop_effects none r w)))
    ∙ drop_effects-silent none r w [] c
close-silent absent r w c =
    ap (λ l. call_back l c) (sym (append-nil (drop_effects none r w)))
    ∙ drop_effects-silent none r w [] c
close-silent finished r w c =
    ap (λ l. call_back l c) (sym (append-nil (drop_effects none r w)))
    ∙ drop_effects-silent none r w [] c

close-events : (api : MacApi) → (close api).events ≡ EventsClient.close api.events
unfolding close Connection.close
close-events api =
    let s = api.connection in
    close-silent s.reconnect_task s.reader_task s.writer (EventsClient.close api.events)

-- A second `close` of the events client changes nothing, and calls no one.
close-again_events :
    (c : EventsClient) → EventsClient.close (EventsClient.close c) ≡ EventsClient.close c
unfolding EventsClient.close
close-again_events c = ground arith

-- A client whose two parts stay as they are when they are closed again.
close-same :
    (api : MacApi)
    → EventsClient.close api.events ≡ api.events
    → Connection.close (record api.connection { effects = [] })
      ≡ record api.connection { effects = [] }
    → close api ≡ api
unfolding close call_back
close-same api c s =
    ap (λ (e : EventsClient). run_piece Connection.close (record api { events = e })) c
    ∙ ap
        (λ (t : SocketConnection).
          let api' : MacApi = record api {
            events = call_back t.effects api.events;
            connection = record t { effects = api.connection.effects ++ t.effects };
          } in
          api')
        s
    ∙ ap
        (λ (l : List Effect).
          let api' : MacApi = record api { connection = record api.connection { effects = l } } in
          api')
        (append-nil api.connection.effects)

close-again_connection :
    (s : SocketConnection)
    → let t = record (Connection.close s) { effects = [] } in Connection.close t ≡ t
unfolding Connection.close
close-again_connection s =
    close-again (record (Connection.close s) { effects = [] }) refl refl refl refl refl refl refl
      (fail_pending-empty (connection_lost connection_closed) s.pending s.futures)

close-twice : (api : MacApi) → close (close api) ≡ close api
unfolding close
close-twice api =
    close-same (close api)
      (ap EventsClient.close (close-events api)
        ∙ close-again_events api.events
        ∙ sym (close-events api))
      (close-again_connection (record api.connection { effects = [] }))

close-tasks : (c : EventsClient) → c.is_closed ≡ false → (EventsClient.close c).handler_tasks ≡ []
unfolding EventsClient.close
close-tasks c o = ground arith

-- `close` of a client that is not closed: every use of the iterator yields the next of the events
-- that are left in the queue and, once those are gone, stops, whatever still arrives; no task of a
-- handler and no call is left; the connection is disconnected, `connect` and calls raise `ConnectionError`
-- and change nothing; and to close the client again changes nothing.
pub close-ends_client :
    (us : List Use) (q : List MacEvent) (api : MacApi) (opened : Bool)
    (result : Outcome Capabilities) (restored : Outcome (List EventSubscription))
    (random method : String) (params : Option Fields)
    → api.events.is_closed ≡ false
    → api.events.queue ≡ map item q
    → let api' = close api in
      ((next_all us api'.events).0
        ≡ ending us (after_marker (is_full api.events.maxsize api.events.queue) q))
      × (api'.events.handler_tasks ≡ [])
      × (api'.connection.state ≡ disconnected)
      × (pending_requests api' ≡ 0)
      × (connect opened result restored api' ≡ (raised (connection is_closing), api'))
      × (begin_call random method params api'.connection
          ≡ (raised (connection not_connected), api'.connection))
      × (close api' ≡ api')
unfolding connect close Connection.close begin_call Connection.pending_count
close-ends_client us q api opened result restored random method params o k = (
  ap (λ c. (next_all us c).0) (close-events api) ∙ close-ends_iterator us q api.events o k,
  ap (λ (c : EventsClient). c.handler_tasks) (close-events api) ∙ close-tasks api.events o,
  refl,
  ap length (
      fail_pending-empty (connection_lost connection_closed) api.connection.pending
        api.connection.futures),
  refl,
  refl,
  close-twice api,
)
