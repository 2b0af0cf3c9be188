-- ===== src/EventsClient.antt =====
-- `EventsClient` of python-client/src/hammerspoon_macapi/namespaces/events.py: the bounded queue of
-- events with its iterator, the callbacks, and the remembered subscriptions (`Subscribing`). A
-- handler is known by a number. The pieces are cut at the `await`s, as those of the connection are.
mod Subscribing
pub mod Queue
pub mod Dropping
pub mod Closing
pub mod Cache
pub mod Handlers
unfoldable pub use Subscribing.*
use macpony.Prelude.{
  ℕ, suc, ◌+◌, ◌≡◌, Bool, true, false, ◌&&◌, not, Option, none, some, List, [], ◌∷◌, ◌++◌, map,
  length, leb, ltb, ◌==◌, if◌then◌else◌,
}
use macpony.Events.{MacEvent}

-- What the queue holds: an event, or the marker `_EVENTS_CLOSED`.
pub data Item : Type 0 where
  item : MacEvent → Item
  events_closed : Item

-- A task that runs a handler on an event. Tasks are numbered in the order of their creation.
pub record HandlerTask : Type 0 where
  pub number : ℕ
  pub handler : ℕ
  pub event : MacEvent

-- `maxsize` is that of the `asyncio.Queue`; 0 stands for no bound. The source's set of handlers is
-- listed in the order in which they were added.
pub record EventsClient : Type 0 where
  pub maxsize : ℕ
  pub queue : List Item
  pub handlers : List ℕ
  pub handler_tasks : List HandlerTask
  pub created_tasks : ℕ
  pub dropped_events : ℕ
  pub is_closed : Bool

-- `__init__`
abbrev pub initial : ℕ → EventsClient
initial queue_size = record {
  maxsize = queue_size;
  queue = [];
  handlers = [];
  handler_tasks = [];
  created_tasks = 0;
  dropped_events = 0;
  is_closed = false;
}

-- `asyncio.Queue.full`
abbrev pub is_full : ℕ → List Item → Bool
is_full maxsize queue = ltb 0 maxsize && leb maxsize (length queue)

-- `if self._queue.full(): get_nowait(); dropped_events += 1`
unfoldable pub make_room : EventsClient → EventsClient
make_room c = elim c.queue [
  | [] ↦ c
  | x ∷ rest ↦
      if is_full c.maxsize c.queue
      then record c { queue = rest; dropped_events = c.dropped_events + 1 }
      else c
]

-- `make_room`, then `put_nowait`
unfoldable pub put_item : Item → EventsClient → EventsClient
unfolding make_room
put_item x c = let c' = make_room c in record c' { queue = c'.queue ++ x ∷ [] }

-- One task for each handler, numbered from `n` on.
unfoldable pub tasks_from : ℕ → MacEvent → List ℕ → List HandlerTask
tasks_from n e [] = []
tasks_from n e (h ∷ hs) = record { number = n; handler = h; event = e } ∷ tasks_from (n + 1) e hs

unfoldable pub on_event : MacEvent → EventsClient → EventsClient
unfolding put_item
on_event e c =
    if c.is_closed
    then c
    else (let c' = put_item (item e) c in
        record c' {
          handler_tasks = c.handler_tasks ++ tasks_from c.created_tasks e c.handlers;
          created_tasks = c.created_tasks + length c.handlers;
        })

-- How the call of a handler goes, and how its task ends.
pub data HandlerRun : Type 0 where
  completes raises_exception is_cancelled : HandlerRun

pub data TaskEnd : Type 0 where
  finished was_cancelled : TaskEnd

-- `_run_handler`: what the handler raises is logged, and only a cancellation goes on.
unfoldable pub run_handler : HandlerRun → TaskEnd
run_handler completes = finished
run_handler raises_exception = finished
run_handler is_cancelled = was_cancelled

-- `self._handler_tasks.discard(task)`
unfoldable pub discard_task : ℕ → List HandlerTask → List HandlerTask
discard_task n [] = []
discard_task n (t ∷ ts) = if t.number == n then ts else t ∷ discard_task n ts

-- The callback of a task that is done, however it ended.
unfoldable pub task_done : ℕ → TaskEnd → EventsClient → EventsClient
unfolding discard_task
task_done n how c = record c { handler_tasks = discard_task n c.handler_tasks }

-- What `__anext__` comes to: it waits while the queue is empty.
pub data Next : Type 0 where
  yields : MacEvent → Next
  waits_for_item stops : Next

-- The marker is put back for other consumers.
unfoldable pub anext : EventsClient → Next × EventsClient
anext c = elim c.queue [
  | [] ↦ (waits_for_item, c)
  | x ∷ rest ↦ elim x [
    | item e ↦ (yields e, record c { queue = rest })
    | events_closed ↦ (stops, record c { queue = rest ++ events_closed ∷ [] })
  ]
]

-- `handler in self._handlers`
abbrev pub has_handler : ℕ → List ℕ → Bool
has_handler h [] = false
has_handler h (g ∷ hs) = if g == h then true else has_handler h hs

unfoldable pub add_handler : ℕ → EventsClient → EventsClient
add_handler h c =
    if has_handler h c.handlers then c else record c { handlers = c.handlers ++ h ∷ [] }

without : ℕ → List ℕ → List ℕ
without h [] = []
without h (g ∷ hs) = if g == h then hs else g ∷ without h hs

unfoldable pub remove_handler : ℕ → EventsClient → EventsClient
unfolding without
remove_handler h c = record c { handlers = without h c.handlers }

-- `close` up to its first `await`: whether it goes on, and the tasks that it cancels.
unfoldable pub begin_close : EventsClient → Bool × List HandlerTask × EventsClient
begin_close c =
    if c.is_closed then (false, [], c) else (true, c.handler_tasks, record c { is_closed = true })

-- The rest of `close`: the tasks are forgotten, and `_wake_iterator`.
unfoldable pub end_close : EventsClient → EventsClient
unfolding put_item
end_close c = put_item events_closed (record c { handler_tasks = [] })

-- `close` when nothing else runs at its `await`s.
unfoldable pub close : EventsClient → EventsClient
unfolding begin_close end_close
close c = let (goes_on, tasks, c') = begin_close c in if goes_on then end_close c' else c'
