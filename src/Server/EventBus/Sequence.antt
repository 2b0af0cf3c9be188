-- ===== src/Server/EventBus/Sequence.antt =====
-- The numbers of the events.
use macpony.Prelude.{
  Option-cases, if◌then◌else◌, inl, inr, Bool-cases, ℕ, ◌+◌, ◌≤◌, String, Bool, List, [], ◌∷◌, ◌++◌,
  length, arith,
}
use macpony.Prelude.Dict.{Dict, lookup, erase}
use macpony.Server.Subscriptions.{matches, include_data}
use macpony.Json.{Float, Json}
use macpony.Server.EventBus.{
  coalesce, object_payload, empty_object, without_name, Message, Bus, start, enqueue, post, emit,
  timer_fires, client_disconnected, flush_bus, max_queue_size,
}
use macpony.Server.EventBus.Ascending.{
  IsAscending, enqueue-IsAscending, enqueue-length, flush-IsAscending, join-IsAscending,
  IsAscending-le,
}

-- What can happen to the bus: an event is emitted while the registry is as given, the timer of a
-- name fires, the server flushes, or the client leaves. `sends` says for each message whether it
-- can be sent at that time.
pub data BusStep : Type 0 where
  emits : Dict Bool → (Message → Bool) → Float → String → Json → Bool → BusStep
  fires : (Message → Bool) → Float → String → BusStep
  flushes : (Message → Bool) → BusStep
  leaves : BusStep

unfoldable pub bus_step : BusStep → Bus → List Message × Bus
unfolding emit timer_fires client_disconnected flush_bus
bus_step (emits registry sends now name payload is_frequent) bus =
    let (_, sent, bus') = emit registry sends now name payload is_frequent bus in (sent, bus')
bus_step (fires sends now name) bus = timer_fires sends now name bus
bus_step (flushes sends) bus = flush_bus sends bus
bus_step leaves bus = ([], client_disconnected bus)

-- All messages that are sent, in order, and the bus.
unfoldable pub bus_steps : List BusStep → Bus → List Message × Bus
unfolding bus_step
bus_steps [] bus = ([], bus)
bus_steps (s ∷ steps) bus =
    let (sent, bus') = bus_step s bus in
    let (more, end) = bus_steps steps bus' in (sent ++ more, end)

-- The queue is within its bound, and goes on above the number that was sent last.
abbrev IsReady : ℕ → Bus → Type 0
IsReady last bus = IsAscending last bus.queue bus.sequence × (length bus.queue ≤ max_queue_size)

-- What is sent goes on above the last number, and the bus is ready for the next one.
abbrev IsNext : ℕ → List Message × Bus → Type 0
IsNext last r = (mid : ℕ) × IsAscending last r.0 mid × IsReady mid r.1

flush_bus-IsNext :
    (sends : Message → Bool) (last : ℕ) (bus : Bus)
    → IsReady last bus
    → IsNext last (flush_bus sends bus)
unfolding flush_bus
flush_bus-IsNext sends last bus (h, k) =
    let (mid, first, rest, shorter) = flush-IsAscending sends last bus.queue bus.sequence h in
    (mid, first, (rest, omega (arith, shorter, k)))

post-IsNext :
    (sends : Message → Bool) (now : Float) (name : String) (payload : Json) (last : ℕ) (bus : Bus)
    → IsReady last bus
    → IsNext last (post sends now name payload bus)
unfolding post
post-IsNext sends now name payload last bus (h, k) =
    let seq = bus.sequence + 1 in
    let message : Message = record {
      seq = seq;
      event = name;
      timestamp = now;
      payload = payload;
    } in
    let (mid, first, rest, shorter) =
      flush-IsAscending sends last (enqueue message bus.queue) seq
        (enqueue-IsAscending last bus.queue message bus.sequence h (omega arith)) in
    (mid, first, (rest, omega (arith, shorter, enqueue-length bus.queue message k)))

nothing-IsNext : (last : ℕ) (bus : Bus) → IsReady last bus → IsNext last ([], bus)
nothing-IsNext last bus h = (last, omega arith, h)

coalesce-IsNext :
    (name : String) (payload : Json) (last : ℕ) (bus : Bus)
    → IsReady last bus
    → IsNext last ([], coalesce name payload bus)
unfolding coalesce
coalesce-IsNext name payload last bus h = (last, omega arith, h)

emit-IsNext :
    (registry : Dict Bool) (sends : Message → Bool) (now : Float) (name : String) (payload : Json)
    (is_frequent : Bool) (last : ℕ) (bus : Bus)
    → IsReady last bus
    → let (_, sent, bus') = emit registry sends now name payload is_frequent bus in
      IsNext last (sent, bus')
unfolding emit
emit-IsNext registry sends now name payload is_frequent last bus h =
    let data_of = if include_data name registry then object_payload payload else empty_object in
    elim (Bool-cases (matches name registry)) [
      | inl e ↦ elim (Bool-cases is_frequent) [
        | inl k ↦ rw e (rw k (coalesce-IsNext name data_of last bus h))
        | inr k ↦ rw e (rw k (post-IsNext sends now name data_of last bus h))
      ]
      | inr e ↦ rw e (nothing-IsNext last bus h)
    ]

timer_fires-IsNext :
    (sends : Message → Bool) (now : Float) (name : String) (last : ℕ) (bus : Bus)
    → IsReady last bus
    → IsNext last (timer_fires sends now name bus)
unfolding timer_fires
timer_fires-IsNext sends now name last bus h =
    let bus' : Bus = record bus {
      pending = erase name bus.pending;
      timers = without_name name bus.timers;
    } in
    elim (Option-cases (lookup name bus.pending)) [
      | inl e ↦ rw (e, timer_fires) (nothing-IsNext last bus' h)
      | inr (latest, e) ↦ rw (e, timer_fires) (post-IsNext sends now name latest last bus' h)
    ]

bus_step-IsNext :
    (s : BusStep) (last : ℕ) (bus : Bus) → IsReady last bus → IsNext last (bus_step s bus)
unfolding bus_step client_disconnected
bus_step-IsNext (emits registry sends now name payload is_frequent) last bus h =
    emit-IsNext registry sends now name payload is_frequent last bus h
bus_step-IsNext (fires sends now name) last bus h = timer_fires-IsNext sends now name last bus h
bus_step-IsNext (flushes sends) last bus h = flush_bus-IsNext sends last bus h
bus_step-IsNext leaves last bus (h, k) =
    (last, omega arith, (IsAscending-le last bus.queue bus.sequence h, omega arith))

bus_steps-IsNext :
    (steps : List BusStep) (last : ℕ) (bus : Bus)
    → IsReady last bus
    → IsNext last (bus_steps steps bus)
unfolding bus_steps
bus_steps-IsNext [] last bus h = nothing-IsNext last bus h
bus_steps-IsNext (s ∷ steps) last bus h =
    let (mid, first, ready) = bus_step-IsNext s last bus h in
    let (end, more, done) = bus_steps-IsNext steps mid (bus_step s bus).1 ready in
    (
      end,
      join-IsAscending last (bus_step s bus).0 mid (bus_steps steps (bus_step s bus).1).0 end first
          more,
      done,
    )

-- Whatever is emitted, coalesced, dropped, sent or refused, and however often the client leaves, the
-- events that the server sends have ascending numbers, those that wait in its queue have
-- greater ones, up to the number that was given last, and at most 256 of them wait.
pub bus_steps-IsAscending :
    (steps : List BusStep)
    → let (sent, bus) = bus_steps steps start in
      (mid : ℕ) × IsAscending 0 sent mid
      × IsAscending mid bus.queue bus.sequence
      × (length bus.queue ≤ 256)
bus_steps-IsAscending steps =
    let (mid, sent, (queue, short)) = bus_steps-IsNext steps 0 start (omega arith, omega arith) in
    (mid, sent, queue, short)
