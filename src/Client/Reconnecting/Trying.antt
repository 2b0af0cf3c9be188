-- ===== src/Client/Reconnecting/Trying.antt =====
-- `_reconnect_loop` goes on while its rounds fail.
use mathlib.Core.Path.{subst}
use macpony.Prelude.{
  ℕ, ◌≡◌, refl, sym, ap, ◌∙◌, ◌⊎◌, inl, inr, true, false, Option, none, some, List, [], ◌∷◌, ◌++◌,
  append-nil, arith,
}
use macpony.Errors.{connection, handshake_failed, Exception, Outcome, returned, raised}
use macpony.EventsClient.{EventSubscription, EventsClient}
use macpony.Connection.{
  SocketConnection, attach, task_after, needs_task, Task, running, finished, absent,
  reconnect_finish, reconnect_open, handle_disconnect, started_reconnect, drop_effects,
}
use macpony.Connection.Pieces.{fail_pending-empty}
use macpony.Client.{Capabilities, MacApi, call_back, on_connected}
use macpony.Client.Closing.{drop_effects-silent}
use macpony.Client.Offline.{lose_connection}
use macpony.Client.Reconnecting.{Round, refused, answered, shake_hands, round, IsFailing}

-- The loop goes on, and the rest of the client is as it was at the start.
pub record IsTrying (start api : MacApi) : Type 0 where
  pub is_open : api.connection.is_closing ≡ false
  pub goes_on : api.connection.reconnect_task ≡ running
  pub pending : api.connection.pending ≡ []
  pub events : api.events ≡ start.events
  pub remembered : api.remembered ≡ start.remembered

Task-cases : (t : Task) → (t ≡ running) ⊎ (needs_task t ≡ true)
Task-cases absent = inr refl
Task-cases running = inl refl
Task-cases finished = inr refl

handle_disconnect-reconnects :
    (current : Option ℕ) (error : Exception) (s : SocketConnection)
    → s.auto_reconnect ≡ true
    → s.is_closing ≡ false
    → let s' = handle_disconnect current error s in
      (s'.is_closing ≡ false) × (s'.reconnect_task ≡ running) × (s'.pending ≡ [])
unfolding handle_disconnect
handle_disconnect-reconnects current error s a c = elim (Task-cases s.reconnect_task) [
  | inl e ↦ (
    ground (arith, a, c),
    ground (arith, a, c),
    ground (arith, a, c, fail_pending-empty error s.pending s.futures),
  )
  | inr e ↦ (
    ground (arith, a, c),
    ground (arith, a, c),
    ground (arith, a, c, fail_pending-empty error s.pending s.futures),
  )
]

on_connected-raises :
    (result : Outcome Capabilities) (restored : Outcome (List EventSubscription)) (api : MacApi)
    (e : Exception)
    → (on_connected result restored api).0 ≡ some e
    → let api' = (on_connected result restored api).1 in
      (api'.connection ≡ api.connection)
      × (api'.events ≡ api.events)
      × (api'.remembered ≡ api.remembered)
unfolding on_connected
on_connected-raises (raised x) restored api e h = (refl, refl, refl)
on_connected-raises (returned caps) restored api e h = (ground arith, ground arith, ground arith)

-- What the handshake raises depends only on what is remembered.
on_connected-same :
    (result : Outcome Capabilities) (restored : Outcome (List EventSubscription))
    (api other : MacApi)
    → other.remembered ≡ api.remembered
    → (on_connected result restored other).0 ≡ (on_connected result restored api).0
unfolding on_connected
on_connected-same (raised x) restored api other h = refl
on_connected-same (returned caps) restored api other h = ground arith

-- The effects of the loss call nothing back.
handle_disconnect-effects :
    (current : Option ℕ) (error : Exception) (s : SocketConnection)
    → s.auto_reconnect ≡ true
    → s.is_closing ≡ false
    → s.effects ≡ []
    → let dropped = drop_effects current s.reader_task s.writer in
      ((handle_disconnect current error s).effects ≡ dropped ++ [])
      ⊎ ((handle_disconnect current error s).effects ≡ dropped ++ started_reconnect ∷ [])
unfolding handle_disconnect
handle_disconnect-effects current error s a o e = elim (Task-cases s.reconnect_task) [
  | inl k ↦ inl (ground (arith, a, o, e, append-nil (drop_effects current s.reader_task s.writer)))
  | inr k ↦ inr (ground (arith, a, o, e))
]

reconnect-silent :
    (current : Option ℕ) (error : Exception) (s : SocketConnection) (c : EventsClient)
    → s.auto_reconnect ≡ true
    → s.is_closing ≡ false
    → s.effects ≡ []
    → call_back (handle_disconnect current error s).effects c ≡ c
unfolding call_back
reconnect-silent current error s c a o e = elim (handle_disconnect-effects current error s a o e) [
  | inl k ↦ ap (λ l. call_back l c) k ∙ drop_effects-silent current s.reader_task s.writer [] c
  | inr k ↦
      ap (λ l. call_back l c) k
      ∙ drop_effects-silent current s.reader_task s.writer (started_reconnect ∷ []) c
]

pub lose_connection-IsTrying :
    (current : Option ℕ) (error : Exception) (api : MacApi)
    → api.connection.auto_reconnect ≡ true
    → api.connection.is_closing ≡ false
    → IsTrying api (lose_connection current error api)
unfolding lose_connection
lose_connection-IsTrying current error api a c =
    let s = record api.connection { effects = [] } in
    let (op, task, none_left) = handle_disconnect-reconnects current error s a c in
    record {
      is_open = op;
      goes_on = task;
      pending = none_left;
      events = reconnect-silent current error s api.events a c refl;
      remembered = refl;
    }

reconnect_finish-raises :
    (o : Option Exception) (e : Exception) (s : SocketConnection)
    → o ≡ some e
    → task_after e running ≡ running
    → s.is_closing ≡ false
    → s.reconnect_task ≡ running
    → let s' = reconnect_finish o s in
      (s'.is_closing ≡ false) × (s'.reconnect_task ≡ running) × (s'.pending ≡ [])
unfolding reconnect_finish
reconnect_finish-raises none e s h k c t = absurd (cc)
reconnect_finish-raises (some x) e s h k c t =
    let same : x ≡ e = cc in
    (
      c,
      ap (λ y. task_after y s.reconnect_task) same ∙ ap (task_after e) t ∙ k,
      fail_pending-empty (connection handshake_failed) s.pending s.futures,
    )

round_refused : (start api : MacApi) → IsTrying start api → round refused api ≡ api
unfolding round reconnect_open
round_refused start api h = ground (arith, h.is_open)

pub round_answered :
    (result : Outcome Capabilities) (restored : Outcome (List EventSubscription))
    (start api : MacApi)
    → IsTrying start api
    → round (answered result restored) api
      ≡ shake_hands result restored (record api { connection = attach api.connection })
unfolding round reconnect_open
round_answered result restored start api h = ground (arith, h.is_open)

shake_hands-IsTrying :
    (result : Outcome Capabilities) (restored : Outcome (List EventSubscription))
    (start api : MacApi) (e : Exception)
    → IsTrying start api
    → (on_connected result restored start).0 ≡ some e
    → task_after e running ≡ running
    → IsTrying start (shake_hands result restored api)
unfolding shake_hands
shake_hands-IsTrying result restored start api e h raises caught =
    let (error, api') = on_connected result restored api in
    let now : (on_connected result restored api).0 ≡ some e =
      on_connected-same result restored start api h.remembered ∙ raises in
    let (same, events, remembered) = on_connected-raises result restored api e now in
    let (op, task, none_left) =
      reconnect_finish-raises error e api'.connection now caught
        (ap (λ (s : SocketConnection). s.is_closing) same ∙ h.is_open)
        (ap (λ (s : SocketConnection). s.reconnect_task) same ∙ h.goes_on) in
    record {
      is_open = op;
      goes_on = task;
      pending = none_left;
      events = events ∙ h.events;
      remembered = remembered ∙ h.remembered;
    }

pub attach-IsTrying :
    (start api : MacApi)
    → IsTrying start api
    → IsTrying start (record api { connection = attach api.connection })
unfolding attach
attach-IsTrying start api h = record {
  is_open = h.is_open;
  goes_on = h.goes_on;
  pending = h.pending;
  events = h.events;
  remembered = h.remembered;
}

pub round-IsTrying :
    (r : Round) (start api : MacApi)
    → IsTrying start api
    → IsFailing start r
    → IsTrying start (round r api)
round-IsTrying refused start api h f = subst (IsTrying start) (sym (round_refused start api h)) h
round-IsTrying (answered result restored) start api h (e, raises, caught) =
    subst (IsTrying start) (sym (round_answered result restored start api h)) (
      shake_hands-IsTrying result restored start (record api { connection = attach api.connection })
        e (attach-IsTrying start api h) raises caught)
