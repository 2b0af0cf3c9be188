-- ===== src/Connection/Locking.antt =====
-- `_connect_lock`: the tasks that open streams, as a relation between states. `connect` and each
-- round of `_reconnect_loop` hold the lock from their start to the end of their handshake. What
-- `_drop_transport` awaits, the end of a cancelled reader and of a closed writer, comes at once
-- here; the orders in which it does not are among those of `Connection.Steps`.
pub mod Open
pub mod Streams
pub mod Actions
pub mod Waiting
use macpony.Prelude.{ℕ, ◌≡◌, ◌≢◌, ◌⊎◌, Bool, true, false, Option, none, some}
use macpony.Errors.{Exception, connection, returned, handshake_failed, builtin, cancelled_error}
use macpony.Pydantic.{Validator}
use macpony.Connection.{
  running, needs_task, SocketConnection, initial, begin_connect, attach, connect_refused,
  connect_finish, handle_disconnect, reconnect_open, reconnect_finish, begin_close, end_close,
}
use macpony.Connection.Steps.{
  Action, calls, writes, begins_write, ends_write, waits, reads, step, IsProper,
}

-- Which task holds the lock: a `connect`, or the reconnect task.
pub data Holder : Type 0 where
  first again : Holder

-- Free, or held at one of the two `await`s of `_connect_once`: that of the stream, and that of the
-- handshake.
pub data Lock : Type 0 where
  free : Lock
  opening shaking : Holder → Lock

pub record World : Type 0 where
  pub connection : SocketConnection
  pub lock : Lock

abbrev pub at_start : Bool → World
at_start auto_reconnect = record { connection = initial auto_reconnect; lock = free }

-- The pieces that open and end no stream.
abbrev pub IsWork : Action → Type 0
IsWork (calls random method params) = IsProper (calls random method params)
IsWork (writes w c) = Unit {0}
IsWork (begins_write c) = Unit {0}
IsWork (ends_write w c) = Unit {0}
IsWork (waits a w c) = Unit {0}
IsWork (reads m) = Unit {0}
IsWork _ = ⊥

-- The lock after the cancellation of the reconnect task.
abbrev pub released : Lock → Lock
released (opening again) = free
released (shaking again) = free
released lock = lock

-- What the cancelled reconnect task does before it ends: in the handshake, `_connect_once` drops
-- the transport.
abbrev pub cancel_round : Lock → SocketConnection → SocketConnection
cancel_round (shaking again) s = reconnect_finish (some (builtin cancelled_error)) s
cancel_round lock s = s

-- One move of one task. A `connect` does not begin while the reconnect task runs, and a loss is that
-- of a transport that is there, or comes while the reconnect task runs.
pub data Move (validate : Validator) (w : World) : World → Type 0 where
  works :
      (a : Action)
      → IsWork a
      → Move validate w (record w { connection = step validate a w.connection })
  loses :
      (current : Option ℕ) (e : Exception)
      → (w.connection.writer ≢ none) ⊎ (needs_task w.connection.reconnect_task ≡ false)
      → Move validate w (record w { connection = handle_disconnect current e w.connection })
  enters :
      w.lock ≡ free
      → needs_task w.connection.reconnect_task ≡ true
      → (begin_connect w.connection).0 ≡ returned true
      → Move validate w
          (record { connection = (begin_connect w.connection).1; lock = opening first })
  opens :
      w.lock ≡ opening first
      → Move validate w (record { connection = attach w.connection; lock = shaking first })
  refuses :
      w.lock ≡ opening first
      → Move validate w (record { connection = (connect_refused w.connection).1; lock = free })
  finishes :
      (e : Option Exception)
      → w.lock ≡ shaking first
      → Move validate w (record { connection = (connect_finish e w.connection).1; lock = free })
  retries :
      w.lock ≡ free
      → w.connection.reconnect_task ≡ running
      → w.connection.is_closing ≡ false
      → Move validate w (record w { lock = opening again })
  gives_up :
      w.lock ≡ free
      → w.connection.reconnect_task ≡ running
      → w.connection.is_closing ≡ true
      → Move validate w (record w { connection = reconnect_open false w.connection })
  reopens :
      w.lock ≡ opening again
      → Move validate w (record { connection = attach w.connection; lock = shaking again })
  misses : w.lock ≡ opening again → Move validate w (record w { lock = free })
  refinishes :
      (e : Option Exception)
      → w.lock ≡ shaking again
      → Move validate w (record { connection = reconnect_finish e w.connection; lock = free })
  closes : Move validate w (record {
    connection = end_close (cancel_round w.lock (begin_close w.connection));
    lock = released w.lock;
  })

pub data Reach (validate : Validator) (auto_reconnect : Bool) : World → Type 0 where
  start : Reach validate auto_reconnect (at_start auto_reconnect)
  later :
      {w w' : World}
      → Reach validate auto_reconnect w
      → Move validate w w'
      → Reach validate auto_reconnect w'
