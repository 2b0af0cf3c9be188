-- ===== src/Connection/Interleaving.antt =====
-- A call across everything that the other tasks do while it waits.
mod Waiting
use Prim.Native.String.{count}
use macpony.Prelude.{
  ℕ, ◌+◌, String, ◌≡◌, refl, sym, ap, ◌∙◌, ◌≢◌, inl, inr, Option, none, some, List, [], ◌∷◌, arith,
  All, length, Option-cases, Option-rule, if-rule, get_elem?, get_elem?-append, eq_iff,
}
use macpony.Prelude.Dict.{lookup, erase, lookup-insert, lookup-erase_ne}
use macpony.Errors.{Outcome}
use macpony.Json.{Fields}
use macpony.Events.{parse_event}
use macpony.Pydantic.{Annotation, Validator}
use macpony.Protocol.{ResponseEnvelope, WireMessage, response, event, protocol_error}
use macpony.Connection.{
  SocketConnection, Future, waiting, Call, Writing, drained, settled, timed_out, cancelled,
  may_call, register, begin_call, write_request, begin_write, end_write, finish_response,
  finish_call, pop_and_settle, handle_message, begin_connect, attach, connect_finish,
  end_disconnect, reconnect_open, reconnect_finish, begin_close,
}
use macpony.Connection.Ids.{request_id}
use macpony.Connection.Registry.{lookup-fresh, IsDistinct-lookup}
use macpony.Connection.Pieces.{IsValid}
use macpony.Connection.Invariant.{step-IsValid}
use macpony.Connection.Correlation.{IsWaiting, pop_and_settle_lem, finish_call-response}
use macpony.Connection.Steps.{
  Action, calls, writes, begins_write, ends_write, waits, reads, starts_connect, attaches,
  refuses_connect, finishes_connect, starts_disconnect, ends_disconnect, opens_reconnect,
  finishes_reconnect, starts_close, ends_close, step, run, IsProper,
}
use Waiting.{
  IsQuiet, IsQuiet-IsProper, begin_call-keeps, write_request-keeps, begin_write-keeps,
  end_write-keeps, handle_message-keeps, same_calls, erase-keeps,
}

module _ (id : String) (f : ℕ) where
  step-IsWaiting :
      (validate : Validator) (a : Action) (s : SocketConnection)
      → IsValid s
      → IsQuiet id a
      → IsWaiting id f s
      → IsWaiting id f (step validate a s)
  unfolding step end_write finish_call begin_connect attach connect_finish end_disconnect
      reconnect_open reconnect_finish begin_close
  step-IsWaiting validate (calls random method params) s v q h =
      begin_call-keeps id f random method params s q v h
  step-IsWaiting validate (writes w c) s v q h = write_request-keeps id f w c s q h
  step-IsWaiting validate (begins_write c) s v q h = begin_write-keeps id f c s q h
  step-IsWaiting validate (ends_write drained c) s v q h = h
  step-IsWaiting validate (ends_write w c) s v q h = end_write-keeps id f w c s q h
  step-IsWaiting validate (waits a settled c) s v q h = h
  step-IsWaiting validate (waits a timed_out c) s v q h = record {
    entry = erase-keeps id f c.request.id s q h.entry;
    future = h.future;
  }
  step-IsWaiting validate (waits a cancelled c) s v q h = record {
    entry = erase-keeps id f c.request.id s q h.entry;
    future = h.future;
  }
  step-IsWaiting validate (reads m) s v q h = handle_message-keeps id f validate m s v q h
  step-IsWaiting validate starts_connect s v q h =
      same_calls id f s _ (ground arith) (ground arith) h
  step-IsWaiting validate attaches s v q h = same_calls id f s _ refl refl h
  step-IsWaiting validate refuses_connect s v q h = absurd q
  step-IsWaiting validate (finishes_connect none) s v q h = same_calls id f s _ refl refl h
  step-IsWaiting validate (finishes_connect (some e)) s v q h = absurd q
  step-IsWaiting validate (starts_disconnect current e) s v q h = absurd q
  step-IsWaiting validate ends_disconnect s v q h =
      same_calls id f s _ (ground arith) (ground arith) h
  step-IsWaiting validate (opens_reconnect opened) s v q h =
      same_calls id f s _ (ground arith) (ground arith) h
  step-IsWaiting validate (finishes_reconnect none) s v q h = same_calls id f s _ refl refl h
  step-IsWaiting validate (finishes_reconnect (some e)) s v q h = absurd q
  step-IsWaiting validate starts_close s v q h = same_calls id f s _ refl refl h
  step-IsWaiting validate ends_close s v q h = absurd q

  run-IsWaiting :
      (validate : Validator) (actions : List Action) (s : SocketConnection)
      → IsValid s
      → All (IsQuiet id) actions
      → IsWaiting id f s
      → IsValid (run validate actions s) × IsWaiting id f (run validate actions s)
  unfolding run
  run-IsWaiting validate [] s v q h = (v, h)
  run-IsWaiting validate (a ∷ actions) s v q h =
      run-IsWaiting validate actions (step validate a s)
        (step-IsValid validate a s (IsQuiet-IsProper id a q.0) v) q.1
        (step-IsWaiting validate a s v q.0 h)

-- A call that waits is answered by the response with its id, whatever happens in between, if
-- nothing of that is about its id, but for the end of its own write, or takes the transport down:
-- other calls are made, written, answered, timed out and cancelled, events and errors arrive,
-- connecting and closing begin.
pub run-response :
    (validate : Validator) (a : Annotation) (m : ResponseEnvelope) (c : Call)
    (actions : List Action) (s : SocketConnection)
    → IsValid s
    → IsWaiting c.request.id c.future s
    → All (IsQuiet c.request.id) actions
    → m.id ≡ c.request.id
    → let s' = handle_message validate (response m) (run validate actions s) in
      ((finish_call validate a settled c s').0
        ≡ some (finish_response validate c.request.method a m))
      × (lookup c.request.id s'.pending ≡ none)
run-response validate a m c actions s v h q e =
    let (v', h') = run-IsWaiting c.request.id c.future validate actions s v q h in
    finish_call-response validate a m c (run validate actions s) v' h' e
