-- ===== src/Server/Polling.antt =====
-- The reads of hammerspoon/macapi/server.lua: `read_next` asks the socket for one byte under a new
-- tag, `callback` answers a tag, and `poll_connections` runs on a timer. `connections()`, the clock
-- and what the socket says to a read are arguments.
pub mod Tags
pub mod Stale
pub mod Socket
pub mod Session
pub mod Churn
pub mod Requests
use macpony.Prelude.{
  ℕ, ◌+◌, Bool, true, false, ◌&&◌, Option, none, some, List, [], ◌∷◌, ◌++◌, leb, ◌==◌,
  if◌then◌else◌,
}
use macpony.Server.Framing as Framing
use macpony.Server.Framing.{Input}

-- What one run of `read_next` finds: the number of clients, the clock, and whether `listener:read`
-- neither fails nor refuses.
pub record Sight : Type 0 where
  pub clients : ℕ
  pub now : ℕ
  pub accepts : Bool

-- The variables of the module; `pending` has the keys of `pending_read_tags`.
pub record ReadState : Type 0 where
  pub is_listening : Bool
  pub pending : List ℕ
  pub recovery : Option ℕ
  pub started_at : Option ℕ
  pub next_tag : ℕ
  pub connection_count : ℕ
  pub input : Input

-- What a handler does: a read under a tag that the socket takes, a line for `protocol.decode`, and
-- `eventbus.client_disconnected()`.
pub data ReadEffect : Type 0 where
  asks : ℕ → ReadEffect
  decodes : List ℕ → ReadEffect
  clears_events : ReadEffect

-- Before the first `M.start`.
abbrev pub loaded : ReadState
loaded = record {
  is_listening = false;
  pending = [];
  recovery = none;
  started_at = none;
  next_tag = 0;
  connection_count = 0;
  input = Framing.start;
}

abbrev pub is_pending : ℕ → List ℕ → Bool
is_pending tag [] = false
is_pending tag (t ∷ tags) = if t == tag then true else is_pending tag tags

-- `pending_read_tags[tag] = nil`
abbrev pub without_tag : ℕ → List ℕ → List ℕ
without_tag tag [] = []
without_tag tag (t ∷ tags) = if t == tag then tags else t ∷ without_tag tag tags

-- `recovery_read_tag == tag`
abbrev pub is_recovery : Option ℕ → ℕ → Bool
is_recovery none tag = false
is_recovery (some r) tag = r == tag

-- `if not next(pending_read_tags) then pending_read_started_at = nil end`
abbrev pub started_while : List ℕ → Option ℕ → Option ℕ
started_while [] started = none
started_while (t ∷ tags) started = started

-- `if not pending_read_started_at then …`
abbrev pub started_by : ℕ → Option ℕ → Option ℕ
started_by now none = some now
started_by now (some t) = some t

-- The tag is registered before the socket is asked, and taken back if the socket does not take it.
unfoldable pub begin_read : Bool → Sight → ReadState → List ReadEffect × ReadState
begin_read is_recovering e s =
    let tag = s.next_tag + 1 in
    let started = started_by e.now s.started_at in
    let recovery = if is_recovering then some tag else s.recovery in
    if e.accepts
    then (
      asks tag ∷ [],
      record s {
        next_tag = tag;
        pending = s.pending ++ tag ∷ [];
        recovery = recovery;
        started_at = started;
      },
    )
    else (
      [],
      record s {
        next_tag = tag;
        pending = without_tag tag (s.pending ++ tag ∷ []);
        recovery = if is_recovery recovery tag then none else recovery;
        started_at = started_while (without_tag tag (s.pending ++ tag ∷ [])) started;
      },
    )

-- May a read begin? At most one recovery, and no other read beside any.
abbrev pub may_read : Bool → ReadState → Bool
may_read true s = elim s.recovery [ none ↦ true | some r ↦ false ]
may_read false s = elim s.pending [ [] ↦ true | t ∷ tags ↦ false ]

unfoldable pub read_next : Bool → Sight → ReadState → List ReadEffect × ReadState
unfolding begin_read
read_next is_recovering e s =
    if s.is_listening && may_read is_recovering s && (e.clients == 1)
    then begin_read is_recovering e s
    else ([], s)

-- The start of `callback`, behind its first guard: the tag is spent, and all tags with it if it was
-- the recovery's.
unfoldable pub spend : ℕ → ReadState → ReadState
spend tag s =
    let is_last = is_recovery s.recovery tag in
    let left : List ℕ = if is_last then [] else without_tag tag s.pending in
    record s {
      pending = left;
      recovery = if is_last then none else s.recovery;
      started_at = started_while left s.started_at;
    }

abbrev pub decoded : Option (List ℕ) → List ReadEffect
decoded none = []
decoded (some line) = decodes line ∷ []

-- `callback` with one byte. What `dispatcher.handle` and `eventbus.flush` do changes none of the
-- variables, and stands for itself in `Server.Dispatch` and `Server.EventBus`.
unfoldable pub callback :
    (limit byte tag clients : ℕ) → Sight → ReadState → List ReadEffect × ReadState
unfolding spend read_next Framing.callback
callback limit byte tag clients e s =
    if is_pending tag s.pending
    then (let s' = spend tag s in
        if s.is_listening && (clients == 1)
        then (let (line, input) = Framing.callback limit byte s.input in
            let (effects, s'') = read_next false e (record s' { input = input }) in
            (decoded line ++ effects, s''))
        else ([], s'))
    else ([], s)

-- `connection_read_recovery_interval` has passed since the clock was started.
abbrev pub is_overdue : (interval now : ℕ) → ReadState → Bool
is_overdue interval now s = elim s.started_at [
  | none ↦ false
  | some t ↦ may_read true s && leb (t + interval) now
]

-- What a change of the number of clients resets.
unfoldable pub reset : ℕ → ReadState → ReadState
reset clients s = record s {
  connection_count = clients;
  pending = [];
  recovery = none;
  started_at = none;
  input = Framing.start;
}

unfoldable pub poll_connections :
    (interval clients now : ℕ) → Sight → Sight → ReadState → List ReadEffect × ReadState
unfolding read_next reset
poll_connections interval clients now e e' s =
    if s.is_listening
    then if clients == s.connection_count
      then (let (effects, s') = read_next false e s in
          if (clients == 1) && is_overdue interval now s'
          then (let (effects', s'') = read_next true e' s' in (effects ++ effects', s''))
          else (effects, s'))
      else if clients == 0
      then (clears_events ∷ [], reset clients s)
      else if clients == 1
      then read_next false e (reset clients s)
      else ([], reset clients s)
    else ([], s)

-- `M.start`, apart from the files, the timers and `eventbus.init`; the flag says whether the path is free and the socket is bound, and without it the
-- method raises.
unfoldable pub start : Bool → Sight → ReadState → List ReadEffect × ReadState
unfolding read_next
start is_bound e s =
    if s.is_listening
    then ([], s)
    else if is_bound
    then read_next false e (record loaded { is_listening = true })
    else ([], s)

-- `M.stop`, apart from the files, the timers and `eventbus.stop`.
unfoldable pub stop : ReadState → ReadState
stop s =
    if s.is_listening
    then record s {
      is_listening = false;
      pending = [];
      recovery = none;
      started_at = none;
      connection_count = 0;
      input = Framing.start;
    }
    else s

-- What happens to the server, with what its code finds then.
pub data ReadEvent : Type 0 where
  starts : Bool → Sight → ReadEvent
  polls : (clients now : ℕ) → Sight → Sight → ReadEvent
  answers : (byte tag clients : ℕ) → Sight → ReadEvent
  stops : ReadEvent

unfoldable pub step : (limit interval : ℕ) → ReadEvent → ReadState → List ReadEffect × ReadState
unfolding start poll_connections callback stop
step limit interval (starts is_bound e) s = start is_bound e s
step limit interval (polls clients now e e') s = poll_connections interval clients now e e' s
step limit interval (answers byte tag clients e) s = callback limit byte tag clients e s
step limit interval stops s = ([], stop s)

unfoldable pub run : (limit interval : ℕ) → List ReadEvent → ReadState → ReadState
unfolding step
run limit interval [] s = s
run limit interval (e ∷ es) s = run limit interval es (step limit interval e s).1
