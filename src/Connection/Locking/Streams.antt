-- ===== src/Connection/Locking/Streams.antt =====
-- Under the lock of `connect` and `_reconnect_loop` no stream is left open.
use macpony.Prelude.{◌≡◌, refl, ◌≢◌, ◌⊎◌, ◌∙◌, Bool, true, false, none, some, [], arith}
use macpony.Pydantic.{Validator}
use macpony.Connection.{
  needs_task, is_connected_state, SocketConnection, drop_transport, begin_connect, attach,
  connect_finish, reconnect_open, reconnect_finish, begin_close, end_close,
}
use macpony.Connection.Steps.{step}
use macpony.Connection.Locking.{
  Lock, free, opening, shaking, first, again, World, cancel_round, Move, works, loses, enters,
  opens, refuses, finishes, retries, gives_up, reopens, misses, refinishes, closes, Reach, start,
  later,
}
use macpony.Connection.Locking.Open.{
  open_streams, current_stream, IsTidy, IsDown, IsSame, attach-IsTidy, step-IsSame,
  handle_disconnect-IsDown, connect_refused-IsDown, connect_finish-IsDown, reconnect_finish-IsDown,
  begin_close-IsTidy, cancel_round-IsTidy, end_close-IsDown,
}

-- When a stream may be opened, there is none.
abbrev IsClear : Lock → SocketConnection → Type 0
IsClear free s =
    (is_connected_state s.state ≡ false → s.writer ≡ none)
    × (needs_task s.reconnect_task ≡ false → s.writer ≡ none)
IsClear (opening first) s = (s.writer ≡ none) × (needs_task s.reconnect_task ≡ true)
IsClear (opening again) s = s.writer ≡ none
IsClear (shaking first) s = needs_task s.reconnect_task ≡ false → s.writer ≡ none
IsClear (shaking again) s = Unit {0}

record IsOrderly (w : World) : Type 0 where
  tidy : IsTidy w.connection
  clear : IsClear w.lock w.connection

-- A state without transport keeps the order, if no reconnect task runs where a `connect` opens.
IsClear-down :
    (lock : Lock) (s : SocketConnection)
    → (lock ≡ opening first → needs_task s.reconnect_task ≡ true)
    → s.writer ≡ none
    → IsClear lock s
IsClear-down free s h e = (λ k. e, λ k. e)
IsClear-down (opening first) s h e = (e, h refl)
IsClear-down (opening again) s h e = e
IsClear-down (shaking first) s h e = λ k. e
IsClear-down (shaking again) s h e = tt

IsClear-same : (lock : Lock) (s t : SocketConnection) → IsSame s t → IsClear lock s → IsClear lock t
IsClear-same free s t e h = ground (arith, e.writer, e.state, e.reconnect_task)
IsClear-same (opening first) s t e h = ground (arith, e.writer, e.reconnect_task)
IsClear-same (opening again) s t e h = e.writer ∙ h
IsClear-same (shaking first) s t e h = ground (arith, e.writer, e.state, e.reconnect_task)
IsClear-same (shaking again) s t e h = tt

down-IsOrderly :
    (w : World)
    → (w.lock ≡ opening first → needs_task w.connection.reconnect_task ≡ true)
    → IsDown w.connection
    → IsOrderly w
unfolding IsDown
down-IsOrderly w h (tidy, down) = record {
  tidy = tidy;
  clear = IsClear-down w.lock w.connection h down;
}

-- Where a `connect` opens its stream there is nothing to lose.
no_loss :
    (w : World)
    → IsOrderly w
    → (w.connection.writer ≢ none) ⊎ (needs_task w.connection.reconnect_task ≡ false)
    → w.lock ≢ opening first
no_loss w o h e = ground (arith, o.clear, h, e)

end_close-absent : (s : SocketConnection) → needs_task (end_close s).reconnect_task ≡ true
unfolding end_close drop_transport
end_close-absent s = refl

Move-IsOrderly :
    {validate : Validator} {w w' : World} → Move validate w w' → IsOrderly w → IsOrderly w'
unfolding begin_connect connect_finish reconnect_open reconnect_finish attach
Move-IsOrderly {validate} {w} (works a h) o =
    let e = step-IsSame validate a w.connection h in
    record {
      tidy = ground (arith, o.tidy, e.streams, e.writer);
      clear = IsClear-same w.lock w.connection (step validate a w.connection) e o.clear;
    }
Move-IsOrderly {w} (loses current e l) o =
    down-IsOrderly _ (λ h. absurd (no_loss w o l h))
      (handle_disconnect-IsDown current e w.connection o.tidy)
Move-IsOrderly {w} (enters f n b) o = record {
  tidy = ground (arith, o.tidy);
  clear = ground (arith, f, n, b, o.clear);
}
Move-IsOrderly {w} (opens f) o = record {
  tidy = attach-IsTidy w.connection (ground (arith, f, o.clear)) o.tidy;
  clear = ground (arith, f, o.clear);
}
Move-IsOrderly {w} (refuses f) o =
    down-IsOrderly _ (λ h. cc) (connect_refused-IsDown w.connection o.tidy)
Move-IsOrderly {w} (finishes none f) o = record {
  tidy = o.tidy;
  clear = ground (arith, f, o.clear);
}
Move-IsOrderly {w} (finishes (some e) f) o =
    down-IsOrderly _ (λ h. cc) (connect_finish-IsDown e w.connection o.tidy)
Move-IsOrderly {w} (retries f r n) o = record {
  tidy = o.tidy;
  clear = ground (arith, f, r, o.clear);
}
Move-IsOrderly {w} (gives_up f r n) o = record {
  tidy = ground (arith, o.tidy);
  clear = ground (arith, f, r, n, o.clear);
}
Move-IsOrderly {w} (reopens f) o = record {
  tidy = attach-IsTidy w.connection (ground (arith, f, o.clear)) o.tidy;
  clear = tt;
}
Move-IsOrderly {w} (misses f) o = record { tidy = o.tidy; clear = ground (arith, f, o.clear) }
Move-IsOrderly {w} (refinishes none f) o = record {
  tidy = o.tidy;
  clear = (λ h. absurd (ground (arith, h)), λ h. absurd (ground (arith, h)));
}
Move-IsOrderly {w} (refinishes (some e) f) o =
    down-IsOrderly _ (λ h. cc) (reconnect_finish-IsDown e w.connection o.tidy)
Move-IsOrderly {w} closes o =
    let s = cancel_round w.lock (begin_close w.connection) in
    let begun = begin_close-IsTidy w.connection o.tidy in
    down-IsOrderly _ (λ h. end_close-absent s)
      (end_close-IsDown s (cancel_round-IsTidy w.lock (begin_close w.connection) begun))

Reach-IsOrderly :
    {validate : Validator} {auto : Bool} {w : World} → Reach validate auto w → IsOrderly w
unfolding open_streams
Reach-IsOrderly start = record { tidy = refl; clear = (λ h. refl, λ h. refl) }
Reach-IsOrderly (later r m) = Move-IsOrderly m (Reach-IsOrderly r)

-- Under the lock, no stream is left open: in every state that calls, messages, losses, connects,
-- rounds of the reconnect task and closing reach, the streams whose writer is not closed are just
-- that of the current writer, if there is one. The conditions on the moves are: no `connect` begins
-- beside the reconnect task, a loss is that of a transport that is there or comes while the
-- reconnect task runs, and what a dropped transport is awaited for comes at once.
pub Reach-open_streams :
    (validate : Validator) (auto_reconnect : Bool) (w : World)
    → Reach validate auto_reconnect w
    → open_streams w.connection.effects [] ≡ current_stream w.connection.writer
Reach-open_streams validate auto_reconnect w r = (Reach-IsOrderly r).tidy
