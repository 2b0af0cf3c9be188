-- ===== src/EventsClient/Dropping.antt =====
-- The event queue that nobody reads.
use mathlib.Core.Path.{subst}
use macpony.Prelude.{
  ℕ, zero, suc, ◌-◌, ◌≤◌, ◌<◌, ◌≡◌, refl, sym, ap, ◌∙◌, true, false, List, [], ◌∷◌, ◌++◌, map,
  append_assoc, append-nil, arith, length, length-append, length-drop, drop,
}
use native.Mathlib.Decide.{dec_lt}
use macpony.Events.{MacEvent}
use macpony.EventsClient.{item, EventsClient, initial, is_full, on_event}
use macpony.EventsClient.Queue.{length-map, map-append_item}

drop-append :
    {A : Type 0} (k : ℕ) (xs ys : List A) → k ≤ length xs → drop k (xs ++ ys) ≡ drop k xs ++ ys
drop-append zero xs ys h = refl
drop-append (suc k) [] ys h = absurd (omega arith)
drop-append (suc k) (x ∷ xs) ys h = drop-append k xs ys (omega arith)

drop-cons :
    {A : Type 0} (k : ℕ) (xs : List A) → k < length xs → (x : A) × (drop k xs ≡ x ∷ drop (suc k) xs)
drop-cons k [] h = absurd (omega arith)
drop-cons zero (x ∷ xs) h = (x, refl)
drop-cons (suc k) (x ∷ xs) h = drop-cons k xs (omega arith)

-- All events of the list arrive, one after the other.
unfoldable pub receive_all : List MacEvent → EventsClient → EventsClient
receive_all [] c = c
receive_all (e ∷ es) c = receive_all es (on_event e c)

-- The queue holds the last `m` of what arrived.
record HoldsLast (m : ℕ) (arrived : List MacEvent) (c : EventsClient) : Type 0 where
  is_open : c.is_closed ≡ false
  size : c.maxsize ≡ m
  held : c.queue ≡ map item (drop (length arrived - m) arrived)
  dropped : c.dropped_events ≡ length arrived - m

on_event-HoldsLast :
    (m : ℕ) (arrived : List MacEvent) (c : EventsClient) (e : MacEvent)
    → 0 < m
    → HoldsLast m arrived c
    → HoldsLast m (arrived ++ e ∷ []) (on_event e c)
unfolding on_event
on_event-HoldsLast m arrived c e p h = elim (dec_lt (length arrived) m) [
  | yes few ↦
      let none_over : length arrived - m ≡ 0 = omega arith in
      let none_over' : length (arrived ++ e ∷ []) - m ≡ 0 =
        omega (arith, length-append arrived (e ∷ [])) in
      let all : c.queue ≡ map item arrived =
        h.held ∙ ap (λ (k : ℕ). map item (drop k arrived)) none_over in
      let room : is_full c.maxsize c.queue ≡ false =
        ground (arith, ap length all, length-map arrived, h.size) in
      let now : (on_event e c).queue ≡ map item (arrived ++ e ∷ []) =
        ground (arith, h.is_open, all, room, map-append_item arrived e) in
      record {
        is_open = ground (arith, h.is_open);
        size = ground (arith, h.is_open, h.size);
        held = now ∙ ap (λ (k : ℕ). map item (drop k (arrived ++ e ∷ []))) (sym none_over');
        dropped = ground (arith, h.is_open, room, h.dropped, none_over, none_over');
      }
  | no many ↦
      let k = length arrived - m in
      let (x, first) = drop-cons k arrived (omega arith) in
      let rest = drop (suc k) arrived in
      let over : length (arrived ++ e ∷ []) - m ≡ suc k =
        omega (arith, length-append arrived (e ∷ [])) in
      let front : c.queue ≡ item x ∷ map item rest = h.held ∙ ap (map item) first in
      let full : is_full c.maxsize c.queue ≡ true =
        ground (arith, p, ap length front, length-map rest, length-drop (suc k) arrived, h.size) in
      let now : (on_event e c).queue ≡ map item (rest ++ e ∷ []) =
        ground (arith, h.is_open, front, full, map-append_item rest e) in
      record {
        is_open = ground (arith, h.is_open);
        size = ground (arith, h.is_open, h.size);
        held =
            now
            ∙ ap (map item) (sym (drop-append (suc k) arrived (e ∷ []) (omega arith)))
            ∙ ap (λ (n : ℕ). map item (drop n (arrived ++ e ∷ []))) (sym over);
        dropped = ground (arith, h.is_open, front, full, h.dropped, over);
      }
]

receive_all-HoldsLast :
    (m : ℕ) (es arrived : List MacEvent) (c : EventsClient)
    → 0 < m
    → HoldsLast m arrived c
    → HoldsLast m (arrived ++ es) (receive_all es c)
unfolding receive_all
receive_all-HoldsLast m [] arrived c p h = subst (λ l. HoldsLast m l c) (sym (append-nil arrived)) h
receive_all-HoldsLast m (e ∷ es) arrived c p h =
    subst (λ l. HoldsLast m l (receive_all es (on_event e c))) (append_assoc arrived (e ∷ []) es)
      (receive_all-HoldsLast m es (arrived ++ e ∷ []) (on_event e c) p
        (on_event-HoldsLast m arrived c e p h))

-- If no one uses the iterator, the queue holds the last `m` events that arrived, for a positive
-- `maxsize` m, and all earlier ones were dropped and counted.
pub receive_all-last :
    (m : ℕ) (es : List MacEvent)
    → 0 < m
    → ((receive_all es (initial m)).queue ≡ map item (drop (length es - m) es))
      × ((receive_all es (initial m)).dropped_events ≡ length es - m)
receive_all-last m es p =
    let h = receive_all-HoldsLast m es [] (initial m) p (record {
      is_open = refl;
      size = refl;
      held = ap (λ k. map item (drop k [])) (let z : 0 ≡ 0 - m = omega arith in z);
      dropped = omega arith;
    }) in
    (h.held, h.dropped)
