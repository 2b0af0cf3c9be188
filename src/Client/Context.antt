-- ===== src/Client/Context.antt =====
-- `async with MacAPI(…) as mac:`, by `__aenter__` and `__aexit__`.
use macpony.Prelude.{◌≡◌, refl, Bool, false, Bool-cases, inl, inr, Option, none, some, List, []}
use macpony.Errors.{
  Exception, Outcome, returned, raised, connection, connection_lost, connection_closed,
  initial_failed, handshake_failed,
}
use macpony.EventsClient.{EventSubscription}
use macpony.Connection.{
  SocketConnection, disconnected, drop_transport, begin_connect, attach, connect_refused,
  connect_finish,
}
use macpony.Connection.Delivery.{Outcome-cases}
use macpony.Connection.Pieces.{fail_pending-empty}
use macpony.Client.{Capabilities, MacApi, finish_connect, connect, close}
use macpony.Connection

-- The statement, with what `connect` comes to and a body that returns or raises: a `connect` that
-- raises runs neither the body nor `close`, and an exception of the body leaves the statement.
unfoldable pub with_client :
    {A : Type 0}
    → Bool
    → Outcome Capabilities
    → Outcome (List EventSubscription)
    → (MacApi → Outcome A × MacApi)
    → MacApi
    → Outcome A × MacApi
with_client opened result restored body api =
    let (entered, api') = connect opened result restored api in
    let (outcome, api'') = body api' in
    elim entered [ raised e ↦ (raised e, api') | returned _ ↦ (outcome, close api'') ]

-- Disconnected, without transport, and no call waits.
pub record IsIdle (s : SocketConnection) : Type 0 where
  pub state : s.state ≡ disconnected
  pub writer : s.writer ≡ none
  pub reader : s.reader ≡ none
  pub pending : s.pending ≡ []

connect_refused-IsIdle : (s : SocketConnection) → IsIdle (connect_refused s).1
unfolding connect_refused drop_transport
connect_refused-IsIdle s = record {
  state = refl;
  writer = refl;
  reader = refl;
  pending = fail_pending-empty (connection initial_failed) s.pending s.futures;
}

connect_finish-IsIdle :
    (error : Option Exception) (e : Exception) (s : SocketConnection)
    → (connect_finish error s).0 ≡ raised e
    → IsIdle (connect_finish error s).1
unfolding connect_finish drop_transport
connect_finish-IsIdle none e s h = absurd (cc)
connect_finish-IsIdle (some x) e s h =
    let t = drop_transport none (connection handshake_failed) s in
    record {
      state = refl;
      writer = refl;
      reader = refl;
      pending = fail_pending-empty (connection initial_failed) t.pending t.futures;
    }

connect-IsIdle :
    (opened : Bool) (result : Outcome Capabilities) (restored : Outcome (List EventSubscription))
    (e : Exception) (api : MacApi)
    → IsIdle api.connection
    → (connect opened result restored api).0 ≡ raised e
    → IsIdle (connect opened result restored api).1.connection
unfolding connect begin_connect finish_connect
connect-IsIdle opened result restored e api h k = elim (Bool-cases api.connection.is_closing) [
  | inl c ↦
      rw (h.state, c)
        (record { state = refl; writer = h.writer; reader = h.reader; pending = h.pending })
  | inr c ↦ elim (Bool-cases opened) [
    | inl o ↦ rw (h.state, c, o) (connect_finish-IsIdle _ e _ (rw (h.state, c, o) at k))
    | inr o ↦
        rw (h.state, c, o)
          (connect_refused-IsIdle
            (begin_connect (record api.connection { state = disconnected; is_closing = false })).1)
  ]
]

close-IsIdle : (api : MacApi) → IsIdle (close api).connection
unfolding close Connection.close
close-IsIdle api = record {
  state = refl;
  writer = refl;
  reader = refl;
  pending =
      fail_pending-empty (connection_lost connection_closed) api.connection.pending
        api.connection.futures;
}

-- Whatever `connect` and the body come to, an `async with` on a client that is idle leaves it
-- disconnected, without transport and without a call that waits. If `connect` raises, that is what
-- leaves the statement, and the body is not run; else the outcome of the body leaves it.
pub with_client-IsIdle :
    {A : Type 0} (opened : Bool) (result : Outcome Capabilities)
    (restored : Outcome (List EventSubscription)) (body : MacApi → Outcome A × MacApi)
    (api : MacApi)
    → IsIdle api.connection
    → let (entered, api') = connect opened result restored api in
      let (outcome, api'') = with_client opened result restored body api in
      IsIdle api''.connection
      × (outcome ≡ (elim entered [ raised e ↦ raised e | returned _ ↦ (body api').0 ]))
unfolding with_client
with_client-IsIdle opened result restored body api h =
    let (entered, api') = connect opened result restored api in
    elim (Outcome-cases entered) [
      | inl (b, k) ↦ rw (k, with_client) (close-IsIdle (body api').1, refl)
      | inr (e, k) ↦ rw (k, with_client) (connect-IsIdle opened result restored e api h k, refl)
    ]
