-- ===== src/Server/Polling/Stale.antt =====
-- Late callbacks: a tag that is spent, or was given out to clients that are gone, is ignored.
use macpony.Prelude.{
  ℕ, ◌+◌, ◌≤◌, ◌≡◌, refl, ◌≢◌, inl, inr, Bool, true, false, Bool-cases, some, List, [], ◌∷◌, ◌++◌,
  arith, All,
}
use macpony.Server.Framing as Framing
use macpony.Server.Polling.{
  Sight, ReadState, without_tag, is_pending, read_next, spend, callback, reset, poll_connections,
  stop, ReadEvent, starts, polls, answers, stops, step, run,
}
use macpony.Server.Polling.Tags.{IsValid}

-- The tag was given out and is not waited for.
pub record IsGone (tag : ℕ) (s : ReadState) : Type 0 where
  pub old : tag ≤ s.next_tag
  pub absent : is_pending tag s.pending ≡ false

-- An event by which a read is over, in a state: the number of clients changed, the read is
-- answered, a recovery is answered, or the server stops.
pub data Retires (tag : ℕ) (s : ReadState) : ReadEvent → Type 0 where
  changed :
      {clients now : ℕ} {e e' : Sight}
      → s.is_listening ≡ true
      → clients ≢ s.connection_count
      → Retires tag s (polls clients now e e')
  answered : {byte clients : ℕ} {e : Sight} → Retires tag s (answers byte tag clients e)
  recovered :
      {byte r clients : ℕ} {e : Sight}
      → s.recovery ≡ some r
      → Retires tag s (answers byte r clients e)
  stopped : Retires tag s stops

-- The listener is not made anew: `M.start` counts the tags from 0 again.
abbrev pub IsKept : ReadEvent → Type 0
IsKept (starts is_bound e) = ⊥
IsKept _ = Unit {0}

is_pending-append :
    (tag new : ℕ) (tags : List ℕ)
    → tag ≢ new
    → is_pending tag tags ≡ false
    → is_pending tag (tags ++ new ∷ []) ≡ false
is_pending-append tag new [] h k = ground arith
is_pending-append tag new (t ∷ tags) h k = ground (arith, is_pending-append tag new tags h)

is_pending-without_tag :
    (tag other : ℕ) (tags : List ℕ)
    → is_pending tag tags ≡ false
    → is_pending tag (without_tag other tags) ≡ false
is_pending-without_tag tag other [] k = refl
is_pending-without_tag tag other (t ∷ tags) k =
    ground (arith, is_pending-without_tag tag other tags)

module _ (tag : ℕ) where
  read_next-IsGone :
      (b : Bool) (e : Sight) (s : ReadState) → IsGone tag s → IsGone tag (read_next b e s).1
  unfolding read_next
  read_next-IsGone b e s g =
      let added = is_pending-append tag (s.next_tag + 1) s.pending in
      ground (
        arith,
        added,
        is_pending-without_tag tag (s.next_tag + 1) (s.pending ++ (s.next_tag + 1) ∷ []),
      )

  spend-IsGone : (other : ℕ) (s : ReadState) → IsGone tag s → IsGone tag (spend other s)
  unfolding spend
  spend-IsGone other s g = ground (arith, is_pending-without_tag tag other s.pending)

  pub reset-IsGone : (clients : ℕ) (s : ReadState) → tag ≤ s.next_tag → IsGone tag (reset clients s)
  unfolding reset
  reset-IsGone clients s h = record { old = h; absent = refl }

  callback-IsGone :
      (limit byte other clients : ℕ) (e : Sight) (s : ReadState)
      → IsGone tag s
      → IsGone tag (callback limit byte other clients e s).1
  unfolding callback
  callback-IsGone limit byte other clients e s g =
      let spent = spend-IsGone other s g in
      let input = (Framing.callback limit byte s.input).1 in
      let filled : IsGone tag (record (spend other s) { input = input }) = record {
        old = spent.old;
        absent = spent.absent;
      } in
      ground
        (arith, spent, read_next-IsGone false e (record (spend other s) { input = input }) filled)

  pub poll-IsGone :
      (interval clients now : ℕ) (e e' : Sight) (s : ReadState)
      → IsGone tag s
      → IsGone tag (poll_connections interval clients now e e' s).1
  unfolding poll_connections
  poll-IsGone interval clients now e e' s g =
      let first = read_next-IsGone false e s g in
      let cleared = reset-IsGone clients s g.old in
      ground (
        arith,
        first,
        read_next-IsGone true e' (read_next false e s).1 first,
        cleared,
        read_next-IsGone false e (reset clients s) cleared,
      )

  step-IsGone :
      (limit interval : ℕ) (event : ReadEvent) (s : ReadState)
      → IsKept event
      → IsGone tag s
      → IsGone tag (step limit interval event s).1
  unfolding step stop
  step-IsGone limit interval (starts is_bound e) s k g = absurd k
  step-IsGone limit interval (polls clients now e e') s k g =
      poll-IsGone interval clients now e e' s g
  step-IsGone limit interval (answers byte other clients e) s k g =
      callback-IsGone limit byte other clients e s g
  step-IsGone limit interval stops s k g = ground arith

  run-IsGone :
      (limit interval : ℕ) (events : List ReadEvent) (s : ReadState)
      → All IsKept events
      → IsGone tag s
      → IsGone tag (run limit interval events s)
  unfolding run
  run-IsGone limit interval [] s k g = g
  run-IsGone limit interval (e ∷ es) s k g =
      run-IsGone limit interval es (step limit interval e s).1 k.1
        (step-IsGone limit interval e s k.0 g)

  module _ {limit : ℕ} (s : ReadState) (v : IsValid limit s) (old : tag ≤ s.next_tag) where
    spend_self-IsGone : IsGone tag (spend tag s)
    unfolding spend
    spend_self-IsGone = ground (arith, v.shape)

    spend_recovery-IsGone : (r : ℕ) → s.recovery ≡ some r → IsGone tag (spend r s)
    unfolding spend
    spend_recovery-IsGone r h = ground (arith, v.shape)

    recovery-pending : (r : ℕ) → s.recovery ≡ some r → is_pending r s.pending ≡ true
    recovery-pending r h = ground (arith, v.shape)

    -- What `callback` does behind a tag that it spends.
    callback_spends :
        (limit' byte other clients : ℕ) (e : Sight)
        → IsGone tag (spend other s)
        → is_pending other s.pending ≡ true
        → IsGone tag (callback limit' byte other clients e s).1
    unfolding callback
    callback_spends limit' byte other clients e g h =
        let input = (Framing.callback limit' byte s.input).1 in
        let filled : IsGone tag (record (spend other s) { input = input }) = record {
          old = g.old;
          absent = g.absent;
        } in
        ground (arith, read_next-IsGone false e (record (spend other s) { input = input }) filled)

    callback_self :
        (limit' byte clients : ℕ) (e : Sight) → IsGone tag (callback limit' byte tag clients e s).1
    callback_self limit' byte clients e = elim (Bool-cases (is_pending tag s.pending)) [
      | inl h ↦ callback_spends limit' byte tag clients e spend_self-IsGone h
      | inr h ↦ callback-IsGone limit' byte tag clients e s (record { old = old; absent = h })
    ]

    poll_change :
        (interval clients now : ℕ) (e e' : Sight)
        → s.is_listening ≡ true
        → clients ≢ s.connection_count
        → IsGone tag (poll_connections interval clients now e e' s).1
    unfolding poll_connections
    poll_change interval clients now e e' h k =
        let cleared = reset-IsGone clients s old in
        ground (arith, cleared, read_next-IsGone false e (reset clients s) cleared)

    retired :
        (interval : ℕ) (event : ReadEvent)
        → Retires tag s event
        → IsGone tag (step limit interval event s).1
    unfolding step stop
    retired interval _ (changed {clients} {now} {e} {e'} h k) =
        poll_change interval clients now e e' h k
    retired interval _ (answered {byte} {clients} {e}) = callback_self limit byte clients e
    retired interval _ (recovered {byte} {r} {clients} {e} h) =
        callback_spends limit byte r clients e (spend_recovery-IsGone r h) (recovery-pending r h)
    retired interval _ stopped = ground (arith, v.shape, v.clock)

-- If, from a state that meets the invariant, a tag was given out and its read is over, by an answer,
-- a change of the number of clients, an answered recovery or a stop, then until `M.start` makes a
-- new listener no callback with that tag does anything: no byte enters the buffer, nothing is
-- decoded or asked, and no variable changes. A change of the number of clients ends every open read,
-- also that of a client that stays: the byte that answers it is ignored.
pub callback-retired :
    (limit interval tag : ℕ) (s : ReadState) (event : ReadEvent) (events : List ReadEvent)
    → IsValid limit s
    → tag ≤ s.next_tag
    → Retires tag s event
    → All IsKept events
    → (byte clients : ℕ) (e : Sight)
    → let s' = run limit interval (event ∷ events) s in
      callback limit byte tag clients e s' ≡ ([], s')
unfolding callback run
callback-retired limit interval tag s event events v old r k byte clients e =
    let gone =
      run-IsGone tag limit interval events (step limit interval event s).1 k
        (retired tag s v old interval event r) in
    rw gone.absent refl
