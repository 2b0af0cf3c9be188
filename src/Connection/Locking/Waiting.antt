-- ===== src/Connection/Locking/Waiting.antt =====
-- `wait_until_connected` under the lock.
use macpony.Prelude.{ℕ, ◌≡◌, refl, Bool, true, Option, none, some, arith}
use macpony.Errors.{Exception}
use macpony.Pydantic.{Validator}
use macpony.Connection.{
  connected, SocketConnection, wait_until_connected, register, next_request_id, drop_transport,
  begin_call, write_request, begin_write, end_write, finish_call, pop_and_settle, handle_message,
  begin_connect, attach, connect_refused, connect_finish, handle_disconnect, reconnect_open,
  reconnect_finish, end_close,
}
use macpony.Connection.Steps.{Action, calls, writes, begins_write, ends_write, waits, reads, step}
use macpony.Connection.Locking.{
  World, IsWork, Move, works, loses, enters, opens, refuses, finishes, retries, gives_up, reopens,
  misses, refinishes, closes, Reach, start, later,
}

-- The event is set in the state `connected` only.
IsTimely : SocketConnection → Type 0
IsTimely s = s.connected_event ≡ true → s.state ≡ connected

step-IsTimely :
    (validate : Validator) (a : Action) (s : SocketConnection)
    → IsWork a
    → IsTimely s
    → IsTimely (step validate a s)
unfolding IsTimely step begin_call register begin_write end_write write_request finish_call
    handle_message pop_and_settle next_request_id
step-IsTimely validate (calls random method params) s h k = λ e. ground (arith, k)
step-IsTimely validate (writes w c) s h k = λ e. ground (arith, k)
step-IsTimely validate (begins_write c) s h k = λ e. ground (arith, k)
step-IsTimely validate (ends_write w c) s h k = λ e. ground (arith, k)
step-IsTimely validate (waits a w c) s h k = λ e. ground (arith, k)
step-IsTimely validate (reads m) s h k = λ e. ground (arith, k)
step-IsTimely validate _ s h k = absurd h

handle_disconnect-IsTimely :
    (current : Option ℕ) (e : Exception) (s : SocketConnection)
    → IsTimely (handle_disconnect current e s)
unfolding IsTimely handle_disconnect drop_transport
handle_disconnect-IsTimely current e s = λ h. absurd (ground (arith, h))

Move-IsTimely :
    {validate : Validator} {w w' : World}
    → Move validate w w'
    → IsTimely w.connection
    → IsTimely w'.connection
unfolding IsTimely begin_connect connect_refused connect_finish reconnect_open reconnect_finish
    attach end_close drop_transport
Move-IsTimely {validate} {w} (works a h) k = step-IsTimely validate a w.connection h k
Move-IsTimely {w} (loses current e l) k = handle_disconnect-IsTimely current e w.connection
Move-IsTimely {w} (enters f n b) k = λ h. ground (arith, k, h)
Move-IsTimely {w} (opens f) k = k
Move-IsTimely {w} (refuses f) k = λ h. absurd (ground (arith, h))
Move-IsTimely {w} (finishes none f) k = λ h. refl
Move-IsTimely {w} (finishes (some e) f) k = λ h. absurd (ground (arith, h))
Move-IsTimely {w} (retries f r n) k = k
Move-IsTimely {w} (gives_up f r n) k = λ h. ground (arith, k, h)
Move-IsTimely {w} (reopens f) k = k
Move-IsTimely {w} (misses f) k = k
Move-IsTimely {w} (refinishes none f) k = λ h. refl
Move-IsTimely {w} (refinishes (some e) f) k = λ h. absurd (ground (arith, h))
Move-IsTimely {w} closes k = λ h. absurd (ground (arith, h))

Reach-IsTimely :
    {validate : Validator} {auto : Bool} {w : World} → Reach validate auto w → IsTimely w.connection
unfolding IsTimely
Reach-IsTimely start = λ h. absurd (ground (arith, h))
Reach-IsTimely (later r m) = Move-IsTimely m (Reach-IsTimely r)

-- Under the lock, a `wait_until_connected` that does not wait finds the connection in the state
-- `connected`. The moves are those of the lock: no `connect` begins beside the reconnect task, a loss
-- is that of a transport that is there or comes while the reconnect task runs, and what a dropped
-- transport is awaited for comes at once.
pub Reach-wait_until_connected :
    (validate : Validator) (auto_reconnect : Bool) (w : World)
    → Reach validate auto_reconnect w
    → wait_until_connected w.connection ≡ true
    → w.connection.state ≡ connected
unfolding IsTimely wait_until_connected
Reach-wait_until_connected validate auto_reconnect w r h = Reach-IsTimely r h
