-- ===== src/Server/Polling/Tags.antt =====
-- The tags of reads in every state that the server's reads and timers reach.
use macpony.Prelude.{
  ℕ, ◌≤◌, ◌<◌, ◌≡◌, refl, Bool, true, false, Option, none, some, List, [], ◌∷◌, arith, length,
  length-append, All,
}
use macpony.Server.Framing as Framing
use macpony.Server.Framing.{Input}
use macpony.Server.Polling.{
  Sight, ReadState, loaded, read_next, spend, callback, reset, poll_connections, start, stop,
  ReadEvent, starts, polls, answers, stops, step, run,
}

-- The tags that the server remembers: nothing, one read, a recovery alone, or a recovery that began
-- behind one read.
abbrev pub HasShape : List ℕ → Option ℕ → Type 0
HasShape [] none = Unit {0}
HasShape [] (some r) = ⊥
HasShape (t ∷ []) none = Unit {0}
HasShape (t ∷ []) (some r) = t ≡ r
HasShape (t ∷ u ∷ []) none = ⊥
HasShape (t ∷ u ∷ []) (some r) = (u ≡ r) × (t < u)
HasShape (t ∷ u ∷ v ∷ ts) recovery = ⊥

-- The clock of the oldest remembered read runs as long as a tag is remembered.
abbrev pub HasClock : List ℕ → Option ℕ → Type 0
HasClock [] none = Unit {0}
HasClock [] (some t) = ⊥
HasClock (t ∷ ts) none = ⊥
HasClock (t ∷ ts) (some s) = Unit {0}

-- The buffer is bounded, and empty while a record is dropped.
abbrev pub IsBounded : ℕ → Input → Type 0
IsBounded limit i = (length i.buffer ≤ limit) × (i.dropping ≡ true → i.buffer ≡ [])

pub record IsValid (limit : ℕ) (s : ReadState) : Type 0 where
  pub shape : HasShape s.pending s.recovery
  pub below : All (λ t. t ≤ s.next_tag) s.pending
  pub clock : HasClock s.pending s.started_at
  pub bounded : IsBounded limit s.input
  pub quiet : s.is_listening ≡ false → s.pending ≡ []

read_next-IsValid :
    (limit : ℕ) (b : Bool) (e : Sight) (s : ReadState)
    → IsValid limit s
    → IsValid limit (read_next b e s).1
unfolding read_next
read_next-IsValid limit b e s v = ground arith

spend-IsValid : (limit tag : ℕ) (s : ReadState) → IsValid limit s → IsValid limit (spend tag s)
unfolding spend
spend-IsValid limit tag s v = ground arith

Framing_callback-IsBounded :
    (limit byte : ℕ) (i : Input)
    → IsBounded limit i
    → IsBounded limit (Framing.callback limit byte i).1
unfolding Framing.callback
Framing_callback-IsBounded limit byte i h = ground (arith, length-append i.buffer (byte ∷ []))

with_input-IsValid :
    (limit : ℕ) (i : Input) (s : ReadState)
    → IsBounded limit i
    → IsValid limit s
    → IsValid limit (record s { input = i })
with_input-IsValid limit i s h v = record {
  shape = v.shape;
  below = v.below;
  clock = v.clock;
  bounded = h;
  quiet = v.quiet;
}

callback-IsValid :
    (limit byte tag clients : ℕ) (e : Sight) (s : ReadState)
    → IsValid limit s
    → IsValid limit (callback limit byte tag clients e s).1
unfolding callback
callback-IsValid limit byte tag clients e s v =
    let spent = spend-IsValid limit tag s v in
    let input = (Framing.callback limit byte s.input).1 in
    let filled =
      with_input-IsValid limit input (spend tag s)
        (Framing_callback-IsBounded limit byte s.input v.bounded) spent in
    ground (
      arith,
      spent,
      read_next-IsValid limit false e (record (spend tag s) { input = input }) filled,
    )

reset-IsValid : (limit clients : ℕ) (s : ReadState) → IsValid limit (reset clients s)
unfolding reset
reset-IsValid limit clients s = record {
  shape = tt;
  below = tt;
  clock = tt;
  bounded = (omega arith, λ h. refl);
  quiet = λ h. refl;
}

poll_connections-IsValid :
    (limit interval clients now : ℕ) (e e' : Sight) (s : ReadState)
    → IsValid limit s
    → IsValid limit (poll_connections interval clients now e e' s).1
unfolding poll_connections
poll_connections-IsValid limit interval clients now e e' s v =
    let first = read_next-IsValid limit false e s v in
    ground (
      arith,
      first,
      read_next-IsValid limit true e' (read_next false e s).1 first,
      reset-IsValid limit clients s,
      read_next-IsValid limit false e (reset clients s) (reset-IsValid limit clients s),
    )

fresh-IsValid : (limit : ℕ) (b : Bool) → IsValid limit (record loaded { is_listening = b })
fresh-IsValid limit b = record {
  shape = tt;
  below = tt;
  clock = tt;
  bounded = (omega arith, λ h. refl);
  quiet = λ h. refl;
}

start-IsValid :
    (limit : ℕ) (is_bound : Bool) (e : Sight) (s : ReadState)
    → IsValid limit s
    → IsValid limit (start is_bound e s).1
unfolding start
start-IsValid limit is_bound e s v = ground (
  arith,
  read_next-IsValid limit false e (record loaded { is_listening = true })
      (fresh-IsValid limit true),
)

step_reads-IsValid :
    (limit interval : ℕ) (event : ReadEvent) (s : ReadState)
    → IsValid limit s
    → IsValid limit (step limit interval event s).1
unfolding step stop
step_reads-IsValid limit interval (starts is_bound e) s v = start-IsValid limit is_bound e s v
step_reads-IsValid limit interval (polls clients now e e') s v =
    poll_connections-IsValid limit interval clients now e e' s v
step_reads-IsValid limit interval (answers byte tag clients e) s v =
    callback-IsValid limit byte tag clients e s v
step_reads-IsValid limit interval stops s v = ground arith

run_reads-IsValid :
    (limit interval : ℕ) (events : List ReadEvent) (s : ReadState)
    → IsValid limit s
    → IsValid limit (run limit interval events s)
unfolding run
run_reads-IsValid limit interval [] s v = v
run_reads-IsValid limit interval (e ∷ es) s v =
    run_reads-IsValid limit interval es (step limit interval e s).1
      (step_reads-IsValid limit interval e s v)

-- After any sequence of starts, polls, answers to reads and stops from the loaded module, the server
-- remembers at most the tags of one read and of one recovery behind it, which were given out; the
-- clock runs exactly while a tag is remembered; without a listener no tag is remembered; and the
-- buffer is within the bound, and empty while a record is dropped. This says nothing of the reads
-- whose tags were forgotten, which the socket may still hold.
pub run-loaded-IsValid :
    (limit interval : ℕ) (events : List ReadEvent)
    → IsValid limit (run limit interval events loaded)
run-loaded-IsValid limit interval events =
    run_reads-IsValid limit interval events loaded (fresh-IsValid limit false)
