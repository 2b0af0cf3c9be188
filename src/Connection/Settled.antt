-- ===== src/Connection/Settled.antt =====
-- A future that is done stays as it is: no call is answered twice.
use macpony.Prelude.{
  ℕ, String, ◌≡◌, ◌≢◌, inl, inr, Option, none, some, List, [], ◌∷◌, arith, Option-cases, Bool-cases,
  Option-rule, get_elem?, get_elem?-append, get_elem?-set_ne, ◌==◌,
}
use macpony.Prelude.Dict.{Dict, lookup, erase}
use macpony.Errors.{
  Exception, connection, connection_lost, initial_failed, handshake_failed, connection_closed,
}
use macpony.Json.{Fields}
use macpony.Pydantic.{Validator}
use macpony.Protocol.{WireMessage, response, event, protocol_error}
use macpony.Connection.{
  absent, SocketConnection, Future, waiting, resolved, failed, settle, fail_pending, drop_transport,
  begin_call, write_request, begin_write, end_write, finish_call, settled, timed_out, cancelled,
  pop_and_settle, handle_message, begin_connect, attach, connect_refused, connect_finish,
  begin_disconnect, end_disconnect, reconnect_open, reconnect_finish, task_after, begin_close,
  end_close,
}
use macpony.Connection.Steps.{
  Action, calls, writes, begins_write, ends_write, waits, reads, starts_connect, attaches,
  refuses_connect, finishes_connect, starts_disconnect, ends_disconnect, opens_reconnect,
  finishes_reconnect, starts_close, ends_close, step, run,
}

module _ (f : ℕ) (v : Future) (done : v ≢ waiting) where
  -- The future is done, with this outcome.
  abbrev IsDone : List Future → Type 0
  IsDone futures = get_elem? futures f ≡ some v

  settle-IsDone : (g : ℕ) (u : Future) (fs : List Future) → IsDone fs → IsDone (settle g u fs)
  unfolding settle
  settle-IsDone g u fs h = elim (Bool-cases (g == f)) [
    | inl e ↦ ground arith
    | inr e ↦ ground (arith, get_elem?-set_ne fs g f u)
  ]

  fail_pending-IsDone :
      (e : Exception) (items pending : Dict ℕ) (fs : List Future)
      → IsDone fs
      → IsDone (fail_pending e items pending fs).1
  unfolding fail_pending
  fail_pending-IsDone e [] pending fs h = h
  fail_pending-IsDone e ((id, g) ∷ items) pending fs h =
      fail_pending-IsDone e items (erase id pending) (settle g (failed e) fs)
        (settle-IsDone g (failed e) fs h)

  drop_transport-IsDone :
      (current : Option ℕ) (e : Exception) (s : SocketConnection)
      → IsDone s.futures
      → IsDone (drop_transport current e s).futures
  unfolding drop_transport
  drop_transport-IsDone current e s h = fail_pending-IsDone e s.pending s.pending s.futures h

  begin_call-IsDone :
      (random method : String) (p : Option Fields) (s : SocketConnection)
      → IsDone s.futures
      → IsDone (begin_call random method p s).1.futures
  unfolding begin_call
  begin_call-IsDone random method p s h =
      ground (arith, get_elem?-append s.futures (waiting ∷ []) f v h)

  pop_and_settle-IsDone :
      (id : String) (u : Future) (s : SocketConnection)
      → IsDone s.futures
      → IsDone (pop_and_settle id u s).futures
  unfolding pop_and_settle
  pop_and_settle-IsDone id u s h = elim (Option-cases (lookup id s.pending)) [
    | inl e ↦ ground arith
    | inr (g, e) ↦ ground (arith, settle-IsDone g u s.futures h)
  ]

  handle_message-IsDone :
      (validate : Validator) (m : WireMessage) (s : SocketConnection)
      → IsDone s.futures
      → IsDone (handle_message validate m s).futures
  unfolding handle_message
  handle_message-IsDone validate (response m) s h = pop_and_settle-IsDone m.id (resolved m) s h
  handle_message-IsDone validate (event raw) s h = ground arith
  handle_message-IsDone validate (protocol_error m) s h =
      Option-rule (λ (t : SocketConnection). IsDone t.futures) m.id _ _ (λ _. h)
        λ id _. pop_and_settle-IsDone id _ s h

  step-IsDone :
      (validate : Validator) (a : Action) (s : SocketConnection)
      → IsDone s.futures
      → IsDone (step validate a s).futures
  unfolding step write_request begin_write end_write finish_call begin_connect attach
      connect_refused connect_finish begin_disconnect end_disconnect reconnect_open reconnect_finish
      begin_close end_close
  step-IsDone validate (calls random method params) s h = begin_call-IsDone random method params s h
  step-IsDone validate (writes w c) s h = ground arith
  step-IsDone validate (begins_write c) s h = ground arith
  step-IsDone validate (ends_write w c) s h = ground arith
  step-IsDone validate (waits a settled c) s h = h
  step-IsDone validate (waits a timed_out c) s h = h
  step-IsDone validate (waits a cancelled c) s h = h
  step-IsDone validate (reads m) s h = handle_message-IsDone validate m s h
  step-IsDone validate starts_connect s h = ground arith
  step-IsDone validate attaches s h = h
  step-IsDone validate refuses_connect s h =
      drop_transport-IsDone none (connection initial_failed) s h
  step-IsDone validate (finishes_connect none) s h = h
  step-IsDone validate (finishes_connect (some e)) s h =
      drop_transport-IsDone none (connection initial_failed)
        (drop_transport none (connection handshake_failed) s)
        (drop_transport-IsDone none (connection handshake_failed) s h)
  step-IsDone validate (starts_disconnect current e) s h = drop_transport-IsDone current e s h
  step-IsDone validate ends_disconnect s h = ground arith
  step-IsDone validate (opens_reconnect opened) s h = ground arith
  step-IsDone validate (finishes_reconnect none) s h = h
  step-IsDone validate (finishes_reconnect (some e)) s h =
      drop_transport-IsDone none (connection handshake_failed)
        (record s { reconnect_task = task_after e s.reconnect_task }) h
  step-IsDone validate starts_close s h = h
  step-IsDone validate ends_close s h =
      drop_transport-IsDone none (connection_lost connection_closed)
        (record s { reconnect_task = absent }) h

  -- Whatever happens afterwards, a future that is done keeps its outcome: a call is answered at
  -- most once, and no later response, error or disconnect changes the answer.
  pub run-keeps_outcome :
      (validate : Validator) (actions : List Action) (s : SocketConnection)
      → get_elem? s.futures f ≡ some v
      → get_elem? (run validate actions s).futures f ≡ some v
  unfolding run
  run-keeps_outcome validate [] s h = h
  run-keeps_outcome validate (a ∷ actions) s h =
      run-keeps_outcome validate actions (step validate a s) (step-IsDone validate a s h)
