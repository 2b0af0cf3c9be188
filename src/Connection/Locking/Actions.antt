-- ===== src/Connection/Locking/Actions.antt =====
-- What the lock allows is among the interleavings of `Connection.Steps`.
use macpony.Prelude.{
  ℕ, Option, ◌≡◌, refl, sym, ap, ◌∙◌, inl, inr, Bool, false, Bool-cases, some, List, [], ◌∷◌, ◌++◌,
  All, All-append,
}
use macpony.Errors.{Exception, builtin, cancelled_error}
use macpony.Pydantic.{Validator}
use macpony.Connection.{SocketConnection, initial, handle_disconnect, begin_close}
use macpony.Connection.Steps.{
  Action, calls, starts_connect, attaches, refuses_connect, finishes_connect, starts_disconnect,
  ends_disconnect, opens_reconnect, finishes_reconnect, starts_close, ends_close, step, run,
  IsProper,
}
use macpony.Connection.Pieces.{IsValid}
use macpony.Connection.Invariant.{run-IsValid}
use macpony.Connection.Locking.{
  Lock, free, opening, shaking, first, again, World, cancel_round, IsWork, Move, works, loses,
  enters, opens, refuses, finishes, retries, gives_up, reopens, misses, refinishes, closes, Reach,
  start, later,
}

run-append :
    (validate : Validator) (xs ys : List Action) (s : SocketConnection)
    → run validate (xs ++ ys) s ≡ run validate ys (run validate xs s)
unfolding run
run-append validate [] ys s = refl
run-append validate (x ∷ xs) ys s = run-append validate xs ys (step validate x s)

-- A sequence of pieces that does what a move does.
record IsSequence (validate : Validator) (s t : SocketConnection) : Type 0 where
  actions : List Action
  proper : All IsProper actions
  result : t ≡ run validate actions s

one :
    (validate : Validator) (a : Action) (s : SocketConnection)
    → IsProper a
    → IsSequence validate s (step validate a s)
unfolding run
one validate a s h = record { actions = a ∷ []; proper = (h, tt); result = refl }

nothing : (validate : Validator) (s : SocketConnection) → IsSequence validate s s
unfolding run
nothing validate s = record { actions = []; proper = tt; result = refl }

IsSequence-trans :
    (validate : Validator) (s t u : SocketConnection)
    → IsSequence validate s t
    → IsSequence validate t u
    → IsSequence validate s u
IsSequence-trans validate s t u p q = record {
  actions = p.actions ++ q.actions;
  proper = All-append IsProper p.actions q.actions p.proper q.proper;
  result =
      q.result
      ∙ ap (run validate q.actions) p.result
      ∙ sym (run-append validate p.actions q.actions s);
}

IsWork-IsProper : (a : Action) → IsWork a → IsProper a
IsWork-IsProper (calls random method params) h = h
IsWork-IsProper _ h = tt

loss-IsSequence :
    (validate : Validator) (current : Option ℕ) (e : Exception) (s : SocketConnection)
    → IsSequence validate s (handle_disconnect current e s)
unfolding handle_disconnect run step
loss-IsSequence validate current e s = elim (Bool-cases s.is_closing) [
  | inl h ↦ record {
    actions = starts_disconnect current e ∷ [];
    proper = (tt, tt);
    result = rw h refl;
  }
  | inr h ↦ record {
    actions = starts_disconnect current e ∷ ends_disconnect ∷ [];
    proper = (tt, (tt, tt));
    result = rw h refl;
  }
]

cancel-IsSequence :
    (validate : Validator) (lock : Lock) (s : SocketConnection)
    → IsSequence validate s (cancel_round lock s)
unfolding step
cancel-IsSequence validate free s = nothing validate s
cancel-IsSequence validate (opening by) s = nothing validate s
cancel-IsSequence validate (shaking first) s = nothing validate s
cancel-IsSequence validate (shaking again) s =
    one validate (finishes_reconnect (some (builtin cancelled_error))) s tt

Move-IsSequence :
    {validate : Validator} {w w' : World}
    → Move validate w w'
    → IsSequence validate w.connection w'.connection
unfolding step
Move-IsSequence {validate} {w} (works a h) = one validate a w.connection (IsWork-IsProper a h)
Move-IsSequence {validate} {w} (loses current e l) = loss-IsSequence validate current e w.connection
Move-IsSequence {validate} {w} (enters f n b) = one validate starts_connect w.connection tt
Move-IsSequence {validate} {w} (opens f) = one validate attaches w.connection tt
Move-IsSequence {validate} {w} (refuses f) = one validate refuses_connect w.connection tt
Move-IsSequence {validate} {w} (finishes e f) = one validate (finishes_connect e) w.connection tt
Move-IsSequence {validate} {w} (retries f r n) = nothing validate w.connection
Move-IsSequence {validate} {w} (gives_up f r n) =
    one validate (opens_reconnect false) w.connection tt
Move-IsSequence {validate} {w} (reopens f) = one validate attaches w.connection tt
Move-IsSequence {validate} {w} (misses f) = nothing validate w.connection
Move-IsSequence {validate} {w} (refinishes e f) =
    one validate (finishes_reconnect e) w.connection tt
Move-IsSequence {validate} {w} closes =
    let s = begin_close w.connection in
    let t = cancel_round w.lock s in
    IsSequence-trans validate _ _ _ (one validate starts_close w.connection tt) (
      IsSequence-trans validate _ _ _ (cancel-IsSequence validate w.lock s)
        (one validate ends_close t tt))

Reach-IsSequence :
    {validate : Validator} {auto : Bool} {w : World}
    → Reach validate auto w
    → IsSequence validate (initial auto) w.connection
Reach-IsSequence {validate} {auto} start = nothing validate (initial auto)
Reach-IsSequence {validate} (later r m) =
    IsSequence-trans validate _ _ _ (Reach-IsSequence r) (Move-IsSequence m)

-- Every state that the moves under the lock reach is one that a sequence of pieces leads to from
-- the start, and so its register of calls is in order and its reader, its writer and its reader
-- task belong to one stream.
Reach-run :
    (validate : Validator) (auto_reconnect : Bool) (w : World)
    → Reach validate auto_reconnect w
    → ((actions : List Action) × (w.connection ≡ run validate actions (initial auto_reconnect)))
      × IsValid w.connection
Reach-run validate auto_reconnect w r =
    let p = Reach-IsSequence r in
    ((p.actions, p.result), rw p.result (run-IsValid validate auto_reconnect p.actions p.proper))
