-- ===== src/Connection/Pieces.antt =====
-- The well-formed states of the connection, and that every piece leads to one.
use Prim.Native.String.{count}
use text.Mathlib.TextPositions.{eq_refl}
use macpony.Prelude.{
  ℕ, String, ◌≡◌, refl, ap, ◌∙◌, Bool, Option, List, [], ◌∷◌, Option-rule, if-rule,
}
use macpony.Prelude.Dict.{Dict, lookup, erase}
use macpony.Errors.{Exception, Outcome}
use macpony.Json.{Fields}
use macpony.Pydantic.{Annotation, Validator}
use macpony.Events.{parse_event}
use macpony.Protocol.{WireMessage, response, event, protocol_error}
use macpony.Connection.{
  ConnectionState, connecting, disconnected, reconnecting, Effect, delivered, is_writer, perform,
  needs_task, is_connected_state, may_call, forget, SocketConnection, Future, failed, resolved,
  settle, fail_pending, drop_transport, set_state, register, begin_call, write_request, begin_write,
  end_write, Writing, lock_cancelled, drained, drain_failed, drain_cancelled, finish_call, Waited,
  settled, timed_out, cancelled, Call, pop_and_settle, handle_message, begin_connect, attach,
  end_disconnect, reconnect_open,
}
use macpony.Connection.Registry.{IsRegister, erase-IsRegister, insert-IsRegister, settle-IsRegister}

-- The register is in order, and reader, writer and reader task belong to one stream.
pub record IsValid (s : SocketConnection) : Type 0 where
  pub calls_register : IsRegister s.pending s.futures s.request_counter
  pub one_reader : s.reader ≡ s.writer
  pub one_task : s.reader_task ≡ s.writer

erase-head : (id : String) (f : ℕ) (d : Dict ℕ) → erase id ((id, f) ∷ d) ≡ d
unfolding erase
erase-head id f d = rw eq_refl

-- Every entry of the snapshot is popped, so nothing is left.
pub fail_pending-empty :
    (e : Exception) (d : Dict ℕ) (futures : List Future) → (fail_pending e d d futures).0 ≡ []
unfolding fail_pending
fail_pending-empty e [] futures = refl
fail_pending-empty e ((id, f) ∷ d) futures =
    ap (λ (p : Dict ℕ). (fail_pending e d p (settle f (failed e) futures)).0) (erase-head id f d)
    ∙ fail_pending-empty e d (settle f (failed e) futures)

pub IsRegister-empty : (futures : List Future) (c : ℕ) → IsRegister [] futures c
IsRegister-empty futures c = record { keys = tt; waits = tt; distinct = tt; ids = tt }

pub drop_transport-IsValid :
    (current : Option ℕ) (e : Exception) (s : SocketConnection)
    → IsValid (drop_transport current e s)
unfolding drop_transport
drop_transport-IsValid current e s = record {
  calls_register =
      rw (fail_pending-empty e s.pending s.futures)
        (IsRegister-empty (fail_pending e s.pending s.pending s.futures).1 s.request_counter);
  one_reader = refl;
  one_task = refl;
}

pub set_state-IsValid :
    (st : ConnectionState) (s : SocketConnection) → IsValid s → IsValid (set_state st s)
unfolding set_state
set_state-IsValid st s h = record {
  calls_register = h.calls_register;
  one_reader = h.one_reader;
  one_task = h.one_task;
}

register-IsValid :
    (w : ℕ) (random method : String) (params : Fields) (s : SocketConnection)
    → count random ≡ 8
    → IsValid s
    → IsValid (register w random method params s).1
unfolding register
register-IsValid w random method params s k h = record {
  calls_register =
      insert-IsRegister s.pending s.futures s.request_counter random k h.calls_register;
  one_reader = h.one_reader;
  one_task = h.one_task;
}

pub begin_call-IsValid :
    (random method : String) (params : Option Fields) (s : SocketConnection)
    → count random ≡ 8
    → IsValid s
    → IsValid (begin_call random method params s).1
unfolding begin_call
begin_call-IsValid random method params s k h =
    Option-rule (λ (r : Outcome Call × SocketConnection). IsValid r.1) s.writer _ _ (λ _. h)
      λ w e.
        if-rule (λ (r : Outcome Call × SocketConnection). IsValid r.1) (may_call s.state) _ _
          (λ q.
            Option-rule (λ (r : Outcome Call × SocketConnection). IsValid r.1) params _ _
              (λ _. register-IsValid w random method Fields.empty s k h)
              (λ p _. register-IsValid w random method p s k h))
          (λ _. h)

perform-IsValid : (e : Effect) (s : SocketConnection) → IsValid s → IsValid (perform e s)
perform-IsValid e s h = record {
  calls_register = h.calls_register;
  one_reader = h.one_reader;
  one_task = h.one_task;
}

forget-IsValid : (id : String) (s : SocketConnection) → IsValid s → IsValid (forget id s)
forget-IsValid id s h = record {
  calls_register = erase-IsRegister s.pending s.futures s.request_counter id h.calls_register;
  one_reader = h.one_reader;
  one_task = h.one_task;
}

pop_and_settle-IsValid :
    (id : String) (v : Future) (s : SocketConnection) → IsValid s → IsValid (pop_and_settle id v s)
unfolding pop_and_settle
pop_and_settle-IsValid id v s h =
    Option-rule IsValid (lookup id s.pending) _ _ (λ _. h)
      λ f e. record {
        calls_register =
            settle-IsRegister s.pending s.futures s.request_counter id f v e h.calls_register;
        one_reader = h.one_reader;
        one_task = h.one_task;
      }

pub handle_message-IsValid :
    (validate : Validator) (m : WireMessage) (s : SocketConnection)
    → IsValid s
    → IsValid (handle_message validate m s)
unfolding handle_message
handle_message-IsValid validate (response m) s h = pop_and_settle-IsValid m.id (resolved m) s h
handle_message-IsValid validate (event raw) s h =
    Option-rule IsValid (parse_event validate raw) _ _ (λ _. h)
      λ e _. perform-IsValid (delivered e) s h
handle_message-IsValid validate (protocol_error m) s h =
    Option-rule IsValid m.id _ _ (λ _. h) λ id _. pop_and_settle-IsValid id _ s h

pub write_request-IsValid :
    (w : Writing) (c : Call) (s : SocketConnection) → IsValid s → IsValid (write_request w c s).1
unfolding write_request
write_request-IsValid lock_cancelled c s h = h
write_request-IsValid drained c s h =
    if-rule (λ (r : Outcome Bool × SocketConnection). IsValid r.1) (is_writer c.writer s.writer) _ _
      (λ _. perform-IsValid _ s h) (λ _. forget-IsValid c.request.id s h)
write_request-IsValid drain_failed c s h =
    if-rule (λ (r : Outcome Bool × SocketConnection). IsValid r.1) (is_writer c.writer s.writer) _ _
      (λ _. forget-IsValid c.request.id _ (perform-IsValid _ s h))
      (λ _. forget-IsValid c.request.id s h)
write_request-IsValid drain_cancelled c s h =
    if-rule (λ (r : Outcome Bool × SocketConnection). IsValid r.1) (is_writer c.writer s.writer) _ _
      (λ _. perform-IsValid _ s h) (λ _. forget-IsValid c.request.id s h)

pub begin_write-IsValid :
    (c : Call) (s : SocketConnection) → IsValid s → IsValid (begin_write c s).1
unfolding begin_write
begin_write-IsValid c s h =
    if-rule (λ (r : Outcome Bool × SocketConnection). IsValid r.1) (is_writer c.writer s.writer) _ _
      (λ _. perform-IsValid _ s h) (λ _. forget-IsValid c.request.id s h)

pub end_write-IsValid :
    (w : Writing) (c : Call) (s : SocketConnection) → IsValid s → IsValid (end_write w c s).1
unfolding end_write
end_write-IsValid drain_failed c s h = forget-IsValid c.request.id s h
end_write-IsValid _ c s h = h

pub finish_call-IsValid :
    (validate : Validator) (a : Annotation) (w : Waited) (c : Call) (s : SocketConnection)
    → IsValid s
    → IsValid (finish_call validate a w c s).1
unfolding finish_call
finish_call-IsValid validate a timed_out c s h = forget-IsValid c.request.id s h
finish_call-IsValid validate a cancelled c s h = forget-IsValid c.request.id s h
finish_call-IsValid validate a settled c s h = h

pub begin_connect-IsValid : (s : SocketConnection) → IsValid s → IsValid (begin_connect s).1
unfolding begin_connect
begin_connect-IsValid s h =
    if-rule (λ (r : Outcome Bool × SocketConnection). IsValid r.1) (is_connected_state s.state) _ _
      (λ _. h)
      (λ _.
        if-rule (λ (r : Outcome Bool × SocketConnection). IsValid r.1) s.is_closing _ _ (λ _. h)
          (λ _. set_state-IsValid connecting s h))

pub attach-IsValid : (s : SocketConnection) → IsValid s → IsValid (attach s)
unfolding attach
attach-IsValid s h = record {
  calls_register = h.calls_register;
  one_reader = refl;
  one_task = refl;
}

pub end_disconnect-IsValid : (s : SocketConnection) → IsValid s → IsValid (end_disconnect s)
unfolding end_disconnect
end_disconnect-IsValid s h =
    if-rule IsValid s.auto_reconnect _ _
      (λ _.
        if-rule IsValid (needs_task s.reconnect_task) _ _
          (λ _. record {
            calls_register = h.calls_register;
            one_reader = h.one_reader;
            one_task = h.one_task;
          })
          (λ _. set_state-IsValid reconnecting s h))
      (λ _. perform-IsValid _ _ (set_state-IsValid disconnected s h))

pub reconnect_open-IsValid :
    (b : Bool) (s : SocketConnection) → IsValid s → IsValid (reconnect_open b s)
unfolding reconnect_open
reconnect_open-IsValid b s h =
    if-rule IsValid s.is_closing _ _
      (λ _. record {
        calls_register = h.calls_register;
        one_reader = h.one_reader;
        one_task = h.one_task;
      })
      (λ _. if-rule IsValid b _ _ (λ _. attach-IsValid s h) (λ _. h))
