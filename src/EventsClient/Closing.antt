-- ===== src/EventsClient/Closing.antt =====
-- After `close` the iterator yields what the queue still holds and then stops, for every consumer.
use macpony.Prelude.{
  ◌≡◌, refl, ap, ◌∙◌, inl, inr, Bool, Bool-cases, true, false, List, [], ◌∷◌, ◌++◌, map, arith,
}
use macpony.Events.{MacEvent}
use macpony.EventsClient.{
  item, events_closed, EventsClient, is_full, on_event, Next, yields, stops, anext, close,
}
use macpony.EventsClient.Queue.{Use, receives, takes}

-- What the iterator comes to at each of its uses, while events may still arrive.
unfoldable pub next_all : List Use → EventsClient → List Next × EventsClient
next_all [] c = ([], c)
next_all (receives e ∷ us) c = next_all us (on_event e c)
next_all (takes ∷ us) c = let (n, c') = anext c in let (ns, c'') = next_all us c' in (n ∷ ns, c'')

-- The events that are left, one by one, and then the end, again and again.
unfoldable pub ending : List Use → List MacEvent → List Next
ending [] q = []
ending (receives e ∷ us) q = ending us q
ending (takes ∷ us) [] = stops ∷ ending us []
ending (takes ∷ us) (x ∷ q) = yields x ∷ ending us q

-- The client is closed, and the marker stands behind the events that are left.
record IsEnding (q : List MacEvent) (c : EventsClient) : Type 0 where
  is_done : c.is_closed ≡ true
  held : c.queue ≡ map item q ++ events_closed ∷ []

next_all-IsEnding :
    (us : List Use) (q : List MacEvent) (c : EventsClient)
    → IsEnding q c
    → (next_all us c).0 ≡ ending us q
unfolding next_all ending on_event anext
next_all-IsEnding [] q c h = refl
next_all-IsEnding (receives e ∷ us) q c h =
    let same : on_event e c ≡ c = ground (arith, h.is_done) in
    ap (λ (d : EventsClient). (next_all us d).0) same ∙ next_all-IsEnding us q c h
next_all-IsEnding (takes ∷ us) [] c h =
    let next : anext c ≡ (stops, c) = ground (arith, h.held) in
    ap (λ (r : Next × EventsClient). r.0 ∷ (next_all us r.1).0) next
    ∙ ap (λ (l : List Next). stops ∷ l) (next_all-IsEnding us [] c h)
next_all-IsEnding (takes ∷ us) (x ∷ q) c h =
    let c' = record c { queue = map item q ++ events_closed ∷ [] } in
    let next : anext c ≡ (yields x, c') = ground (arith, h.held) in
    ap (λ (r : Next × EventsClient). r.0 ∷ (next_all us r.1).0) next
    ∙ ap (λ (l : List Next). yields x ∷ l)
        (next_all-IsEnding us q c' (record { is_done = h.is_done; held = refl }))

-- The marker takes a place in the queue: if that is full, the oldest event is dropped for it.
abbrev pub after_marker : Bool → List MacEvent → List MacEvent
after_marker true (x ∷ q) = q
after_marker _ q = q

close-IsEnding :
    (q : List MacEvent) (c : EventsClient)
    → c.is_closed ≡ false
    → c.queue ≡ map item q
    → IsEnding (after_marker (is_full c.maxsize c.queue) q) (close c)
unfolding close
close-IsEnding [] c h k = record { is_done = ground arith; held = ground arith }
close-IsEnding (x ∷ q) c h k = elim (Bool-cases (is_full c.maxsize c.queue)) [
  | inl full ↦ record { is_done = ground arith; held = ground arith }
  | inr room ↦ record { is_done = ground arith; held = ground arith }
]

-- After the `close` of an open client every use of the iterator yields the next of the events that
-- are left in the queue, and once those are gone it stops, however often it is used and whatever
-- still arrives. If the queue was full, the oldest event was dropped for the marker.
pub close-ends_iterator :
    (us : List Use) (q : List MacEvent) (c : EventsClient)
    → c.is_closed ≡ false
    → c.queue ≡ map item q
    → (next_all us (close c)).0 ≡ ending us (after_marker (is_full c.maxsize c.queue) q)
close-ends_iterator us q c h k =
    next_all-IsEnding us (after_marker (is_full c.maxsize c.queue) q) (close c)
      (close-IsEnding q c h k)
