-- ===== src/EventsClient/Handlers.antt =====
-- The registered callbacks as a set, and the tasks that run them.
use mathlib.Core.Path.{subst}
use macpony.Prelude.{
  ℕ, ◌+◌, ◌≡◌, refl, sym, ap, ◌∙◌, inl, inr, Bool, Bool-cases, true, false, List, [], ◌∷◌, ◌++◌,
  arith, ◌==◌, if◌then◌else◌,
}
use macpony.Events.{MacEvent}
use macpony.EventsClient.{
  HandlerTask, EventsClient, initial, tasks_from, on_event, has_handler, add_handler, without,
  remove_handler, task_done, HandlerRun, run_handler, put_item, make_room,
}

-- What the application and the running tasks do.
pub data Act : Type 0 where
  adds removes : ℕ → Act
  receives : MacEvent → Act
  ends_task : ℕ → HandlerRun → Act

unfoldable pub act : Act → EventsClient → EventsClient
act (adds h) c = add_handler h c
act (removes h) c = remove_handler h c
act (receives e) c = on_event e c
act (ends_task n how) c = task_done n (run_handler how) c

unfoldable pub act_all : List Act → EventsClient → EventsClient
unfolding act
act_all [] c = c
act_all (a ∷ acts) c = act_all acts (act a c)

-- The set of handlers as a function, after the same history.
abbrev pub note : Act → (ℕ → Bool) → ℕ → Bool
note (adds h) f g = if h == g then true else f g
note (removes h) f g = if h == g then false else f g
note _ f g = f g

abbrev pub replay : List Act → (ℕ → Bool) → ℕ → Bool
replay [] f = f
replay (a ∷ acts) f = replay acts (note a f)

-- How many of the tasks run this handler on this kind of call.
abbrev pub count_for : ℕ → List HandlerTask → ℕ
count_for h [] = 0
count_for h (t ∷ ts) = (if t.handler == h then 1 else 0) + count_for h ts

abbrev IsNodup : List ℕ → Type 0
IsNodup [] = Unit {0}
IsNodup (h ∷ hs) = (has_handler h hs ≡ false) × IsNodup hs

has-append :
    (h g : ℕ) (hs : List ℕ)
    → has_handler g (hs ++ h ∷ []) ≡ (if h == g then true else has_handler g hs)
has-append h g [] = ground arith
has-append h g (k ∷ hs) = ground (arith, has-append h g hs)

append-IsNodup :
    (h : ℕ) (hs : List ℕ) → IsNodup hs → has_handler h hs ≡ false → IsNodup (hs ++ h ∷ [])
append-IsNodup h [] n k = (refl, tt)
append-IsNodup h (g ∷ hs) n k = ground (arith, has-append h g hs, append-IsNodup h hs n.1)

has-without :
    (h g : ℕ) (hs : List ℕ)
    → IsNodup hs
    → has_handler g (without h hs) ≡ (if h == g then false else has_handler g hs)
unfolding without
has-without h g [] n = ground arith
has-without h g (k ∷ hs) n = ground (arith, has-without h g hs n.1)

without-IsNodup : (h : ℕ) (hs : List ℕ) → IsNodup hs → IsNodup (without h hs)
unfolding without
without-IsNodup h [] n = tt
without-IsNodup h (k ∷ hs) n = ground (arith, without-IsNodup h hs n.1, has-without h k hs n.1)

-- The list of handlers stands for the set, and the client is open.
record Represents (f : ℕ → Bool) (c : EventsClient) : Type 0 where
  nodup : IsNodup c.handlers
  member : (h : ℕ) → has_handler h c.handlers ≡ f h
  is_open : c.is_closed ≡ false

count_for-tasks_from :
    (h n : ℕ) (e : MacEvent) (hs : List ℕ)
    → IsNodup hs
    → count_for h (tasks_from n e hs) ≡ (if has_handler h hs then 1 else 0)
unfolding tasks_from
count_for-tasks_from h n e [] k = refl
count_for-tasks_from h n e (g ∷ hs) k = ground (arith, count_for-tasks_from h (n + 1) e hs k.1)

-- An event leaves the handlers alone, and gives each of them one task.
receives_lem :
    (e : MacEvent) (c : EventsClient)
    → c.is_closed ≡ false
    → ((on_event e c).handlers ≡ c.handlers)
      × ((on_event e c).is_closed ≡ false)
      × ((on_event e c).handler_tasks ≡ c.handler_tasks ++ tasks_from c.created_tasks e c.handlers)
unfolding on_event put_item make_room
receives_lem e c op = ground arith

known_lem :
    (h : ℕ) (c : EventsClient)
    → has_handler h c.handlers ≡ true
    → (add_handler h c).handlers ≡ c.handlers
unfolding add_handler
known_lem h c known = ground (arith, known)

stays :
    (h g : ℕ) (f : ℕ → Bool) (hs : List ℕ)
    → has_handler h hs ≡ true
    → ((k : ℕ) → has_handler k hs ≡ f k)
    → has_handler g hs ≡ (if h == g then true else f g)
stays h g f hs known same = ground (arith, known, same g, same h)

adds_lem :
    (h : ℕ) (f : ℕ → Bool) (c : EventsClient)
    → Represents f c
    → Represents (note (adds h) f) (add_handler h c)
unfolding add_handler
adds_lem h f c r = elim (Bool-cases (has_handler h c.handlers)) [
  | inl known ↦ record {
    nodup = ground (arith, r.nodup, known);
    member = λ g. ap (has_handler g) (known_lem h c known) ∙ stays h g f c.handlers known r.member;
    is_open = ground (arith, r.is_open, known);
  }
  | inr fresh ↦ record {
    nodup = ground (arith, append-IsNodup h c.handlers r.nodup fresh, fresh);
    member = λ g. ground (arith, r.member g, fresh, has-append h g c.handlers);
    is_open = ground (arith, r.is_open, fresh);
  }
]

act-Represents :
    (a : Act) (f : ℕ → Bool) (c : EventsClient) → Represents f c → Represents (note a f) (act a c)
unfolding act remove_handler task_done
act-Represents (adds h) f c r = adds_lem h f c r
act-Represents (removes h) f c r = record {
  nodup = without-IsNodup h c.handlers r.nodup;
  member =
      λ g. has-without h g c.handlers r.nodup ∙ ap (λ b. if h == g then false else b) (r.member g);
  is_open = r.is_open;
}
act-Represents (receives e) f c r =
    let (same, op, _) = receives_lem e c r.is_open in
    record {
      nodup = subst IsNodup (sym same) r.nodup;
      member = λ g. ap (has_handler g) same ∙ r.member g;
      is_open = op;
    }
act-Represents (ends_task n how) f c r = record {
  nodup = r.nodup;
  member = r.member;
  is_open = r.is_open;
}

act_all-Represents :
    (acts : List Act) (f : ℕ → Bool) (c : EventsClient)
    → Represents f c
    → Represents (replay acts f) (act_all acts c)
unfolding act_all
act_all-Represents [] f c r = r
act_all-Represents (a ∷ acts) f c r =
    act_all-Represents acts (note a f) (act a c) (act-Represents a f c r)

count_for-append :
    (h : ℕ) (ts us : List HandlerTask) → count_for h (ts ++ us) ≡ count_for h ts + count_for h us
count_for-append h [] us = ground arith
count_for-append h (t ∷ ts) us = ground (arith, count_for-append h ts us)

-- Whatever handlers are added and removed, in whatever order, whatever events arrive and whichever
-- tasks end between them, however their handlers end, the handlers registered are those whose last
-- addition stands after their last removal; and an event that arrives then starts exactly one task
-- for each of them, and none for any other handler.
pub act_all-handlers :
    (m : ℕ) (acts : List Act) (h : ℕ) (e : MacEvent)
    → let c = act_all acts (initial m) in
      let registered = replay acts (λ _. false) h in
      (has_handler h c.handlers ≡ registered)
      × (count_for h (on_event e c).handler_tasks
          ≡ count_for h c.handler_tasks + (if registered then 1 else 0))
act_all-handlers m acts h e =
    let c = act_all acts (initial m) in
    let r =
      act_all-Represents acts (λ _. false) (initial m)
        (record { nodup = tt; member = λ _. refl; is_open = refl }) in
    let (_, _, tasks) = receives_lem e c r.is_open in
    (
      r.member h,
      ap (count_for h) tasks
          ∙ count_for-append h c.handler_tasks (tasks_from c.created_tasks e c.handlers)
          ∙ ap (λ n. count_for h c.handler_tasks + n)
              (count_for-tasks_from h c.created_tasks e c.handlers r.nodup)
          ∙ ap (λ b. count_for h c.handler_tasks + (if b then 1 else 0)) (r.member h),
    )
