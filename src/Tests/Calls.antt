-- ===== src/Tests/Calls.antt =====
-- A connection with a call in flight, and the theorems on calls applied to it.
use mathlib.Core.Path.{subst}
use macpony.Prelude.{
  ◌≡◌, refl, true, false, none, some, String, List, [], ◌∷◌, arith, All, get_elem?, eq_iff,
}
use macpony.Prelude.Dict.{lookup, insert}
use macpony.Prelude.Int.{pos}
use macpony.Errors.{Exception, raised, connection_lost, peer_closed}
use macpony.Json.{arr, nil, empty, finite}
use macpony.Pydantic.{any_value, list_of}
use macpony.Protocol.{ResponseEnvelope, response, event}
use macpony.Connection.{
  SocketConnection, initial, connected, absent, waiting, resolved, failed, wrote, started_reader,
  Call, settled, drained, begin_call, write_request, attach, connect_finish, finish_call,
  finish_response, handle_message, drop_transport, handle_disconnect, begin_connect,
}
use macpony.Connection.Steps.{
  Action, calls, writes, ends_write, reads, starts_connect, attaches, finishes_connect,
  starts_disconnect, ends_disconnect, starts_close, ends_close, run, IsProper,
}
use macpony.Connection.Pieces.{IsValid}
use macpony.Connection.Invariant.{run-IsValid}
use macpony.Connection.Correlation.{IsWaiting}
use macpony.Connection.Interleaving.{run-response}
use macpony.Connection.Settled.{run-keeps_outcome}
use macpony.Connection.Disconnect.{drop_transport-fails_pending, finish_call-lost}
use macpony.Tests.Reference.{reference}

-- The call in flight, its answer, and another one.
abbrev pub call_id : String
call_id = "req-00000001-0a1b2c3d"

abbrev pub in_flight : Call
in_flight = record {
  writer = 0;
  request = record { id = call_id; method = "apps.list"; params = empty };
  future = 0;
}

abbrev answer : ResponseEnvelope
answer = record { id = call_id; ok = true; result = arr nil; error = none }

abbrev script : List Action
script =
    starts_connect
    ∷ attaches
    ∷ finishes_connect none
    ∷ calls "0a1b2c3d" "apps.list" (some empty)
    ∷ writes drained in_flight
    ∷ []

script-IsProper : All IsProper script
script-IsProper = (tt, (tt, (tt, (refl, (tt, tt)))))

abbrev pub busy : SocketConnection
busy = record {
  auto_reconnect = true;
  state = connected;
  is_closing = false;
  connected_event = true;
  reader = some 0;
  writer = some 0;
  reader_task = some 0;
  reconnect_task = absent;
  pending = (call_id, 0) ∷ [];
  request_counter = 1;
  futures = waiting ∷ [];
  streams = 1;
  effects = started_reader 0 ∷ wrote 0 in_flight.request ∷ [];
}

busy_runs : run reference script (initial true) ≡ busy
unfolding run write_request begin_call connect_finish attach begin_connect insert
busy_runs = refl

pub busy-IsValid : IsValid busy
busy-IsValid = subst IsValid busy_runs (run-IsValid reference true script script-IsProper)

pub busy-IsWaiting : IsWaiting call_id 0 busy
unfolding lookup
busy-IsWaiting = record { entry = refl; future = refl }

run-IsValid_example : IsValid (run reference script (initial true))
run-IsValid_example = run-IsValid reference true script script-IsProper

-- What other tasks do while the call waits.
abbrev meanwhile : List Action
meanwhile =
    ends_write drained in_flight
    ∷ calls "ffffffff" "system.info" (some empty)
    ∷ reads (
        event (record {
          seq = pos 7;
          event = "system.didWake";
          timestamp = finite (pos 5) 1;
          payload = empty;
        }))
    ∷ reads (
        response
          (record { id = "req-00000002-ffffffff"; ok = true; result = arr nil; error = none }))
    ∷ starts_close
    ∷ []

run-response_example :
    let s' = handle_message reference (response answer) (run reference meanwhile busy) in
    ((finish_call reference (list_of any_value) settled in_flight s').0
      ≡ some (finish_response reference "apps.list" (list_of any_value) answer))
    × (lookup call_id s'.pending ≡ none)
run-response_example =
    run-response reference (list_of any_value) answer in_flight meanwhile busy busy-IsValid
      busy-IsWaiting
      (tt, (refl, (tt, (λ e. ground (arith, eq_iff "req-00000002-ffffffff" call_id), (tt, tt)))))
      refl

abbrev lost : Exception
lost = connection_lost peer_closed

run-keeps_outcome_example :
    get_elem?
      (run reference
        (starts_disconnect none lost ∷ ends_disconnect ∷ starts_close ∷ ends_close ∷ [])
        (record busy { futures = resolved answer ∷ [] })).futures
      0
    ≡ some (resolved answer)
run-keeps_outcome_example =
    run-keeps_outcome 0 (resolved answer) (λ e. ground arith) reference
      (starts_disconnect none lost ∷ ends_disconnect ∷ starts_close ∷ ends_close ∷ [])
      (record busy { futures = resolved answer ∷ [] }) refl

drop_transport-fails_pending_example :
    let s' = drop_transport (some 0) lost busy in
    (s'.pending ≡ [])
    × (s'.writer ≡ none)
    × (s'.reader ≡ none)
    × (s'.reader_task ≡ none)
    × (s'.connected_event ≡ false)
    × (get_elem? s'.futures 0 ≡ some (failed lost))
drop_transport-fails_pending_example =
    drop_transport-fails_pending (some 0) lost busy busy-IsValid 0

finish_call-lost_example :
    (finish_call reference
      (list_of any_value)
      settled
      in_flight
      (handle_disconnect (some 0) lost busy)).0
    ≡ some (raised lost)
finish_call-lost_example =
    finish_call-lost reference (list_of any_value) (some 0) lost in_flight busy busy-IsValid
      busy-IsWaiting
