-- ===== src/EventsClient/Queue.antt =====
-- The event queue drops its oldest events, counts them, and keeps the order of the others.
use mathlib.Core.Path.{subst, subst₂}
use macpony.Prelude.{
  ℕ, suc, ◌+◌, ◌≤◌, ◌<◌, ◌≡◌, refl, sym, ap, inl, inr, Bool-cases, false, List, [], ◌∷◌, ◌++◌, map,
  append_assoc, append-nil, arith, length, length-append,
}
use native.Mathlib.Decide.{dec_lt}
use mathlib.Core.Logic.{◌⊎◌}
use macpony.Events.{MacEvent}
use macpony.EventsClient.{Item, item, EventsClient, initial, is_full, on_event, yields, anext}

-- What the outside does before the client is closed.
pub data Use : Type 0 where
  receives : MacEvent → Use
  takes : Use

-- The client after a history, and the events that the iterator has yielded.
unfoldable pub use_step : Use → List MacEvent × EventsClient → List MacEvent × EventsClient
use_step (receives e) (out, c) = (out, on_event e c)
use_step takes (out, c) =
    let (n, c') = anext c in elim n [ yields e ↦ (out ++ e ∷ [], c') | _ ↦ (out, c') ]

unfoldable pub use_all : List Use → List MacEvent × EventsClient → List MacEvent × EventsClient
unfolding use_step
use_all [] s = s
use_all (u ∷ us) s = use_all us (use_step u s)

-- The events that were received, in order.
unfoldable pub arrivals : List Use → List MacEvent
arrivals [] = []
arrivals (receives e ∷ us) = e ∷ arrivals us
arrivals (takes ∷ us) = arrivals us

-- The second list is the first with so many elements left out.
pub data Omits {ℓ} {A : Type ℓ} : List A → List A → ℕ → Type ℓ where
  nil : Omits [] [] 0
  keep : {x : A} {xs ys : List A} {n : ℕ} → Omits xs ys n → Omits (x ∷ xs) (x ∷ ys) n
  omit : {x : A} {xs ys : List A} {n m : ℕ} → Omits xs ys n → m ≡ suc n → Omits (x ∷ xs) ys m

module _ {ℓ} {A : Type ℓ} where
  Omits-append :
      (z : A) {xs ys : List A} {n : ℕ} → Omits xs ys n → Omits (xs ++ z ∷ []) (ys ++ z ∷ []) n
  Omits-append z nil = keep nil
  Omits-append z (keep h) = keep (Omits-append z h)
  Omits-append z (omit h e) = omit (Omits-append z h) e

  -- One more element of the second list is left out.
  Omits-delete :
      (us vs : List A) (y : A) {xs ys : List A} {n : ℕ}
      → Omits xs ys n
      → ys ≡ us ++ y ∷ vs
      → Omits xs (us ++ vs) (suc n)
  Omits-delete [] vs y nil e = cc
  Omits-delete (u ∷ us) vs y nil e = cc
  Omits-delete [] vs y (keep {xs = xs} {ys = ys} {n = n} h) e =
      omit (subst (λ l. Omits xs l n) (let t : ys ≡ vs = cc in t) h) refl
  Omits-delete (u ∷ us) vs y (keep {x = x} {xs = xs} {ys = ys} {n = n} h) e =
      subst (λ z. Omits (x ∷ xs) (z ∷ us ++ vs) (suc n)) (let t : x ≡ u = cc in t)
        (keep (Omits-delete us vs y h (let t : ys ≡ us ++ y ∷ vs = cc in t)))
  Omits-delete us vs y (omit h k) e = omit (Omits-delete us vs y h e) (ap suc k)

  Omits-length : {xs ys : List A} {n : ℕ} → Omits xs ys n → length xs ≡ length ys + n
  Omits-length nil = omega arith
  Omits-length (keep h) = omega (arith, Omits-length h)
  Omits-length (omit h e) = omega (arith, Omits-length h, e)

-- The client is open; its queue holds `q`, within the bound; and `out` followed by `q` is what
-- arrived, less the dropped events.
record IsQueue (m : ℕ) (arrived out q : List MacEvent) (c : EventsClient) : Type 0 where
  is_open : c.is_closed ≡ false
  size : c.maxsize ≡ m
  held : c.queue ≡ map item q
  bounded : 0 < m → length q ≤ m
  kept : Omits arrived (out ++ q) c.dropped_events

pub length-map : (q : List MacEvent) → length (map item q) ≡ length q
length-map [] = refl
length-map (x ∷ q) = ap suc (length-map q)

pub map-append_item :
    (q : List MacEvent) (e : MacEvent) → map item q ++ item e ∷ [] ≡ map item (q ++ e ∷ [])
map-append_item [] e = refl
map-append_item (x ∷ q) e = ap (λ (l : List Item). item x ∷ l) (map-append_item q e)

receives-IsQueue :
    (m : ℕ) (arrived out q : List MacEvent) (c : EventsClient) (e : MacEvent)
    → IsQueue m arrived out q c
    → (q' : List MacEvent) × IsQueue m (arrived ++ e ∷ []) out q' (on_event e c)
unfolding on_event
receives-IsQueue m arrived out [] c e h = (
  e ∷ [],
  record {
    is_open = ground (arith, h.is_open);
    size = ground (arith, h.is_open, h.size, h.held);
    held = ground (arith, h.is_open, h.held);
    bounded = λ p. p;
    kept =
        subst₂ (Omits (arrived ++ e ∷ [])) (append_assoc out [] (e ∷ []))
          (ground (arith, h.is_open, h.held)) (Omits-append e h.kept);
  },
)
receives-IsQueue m arrived out (x ∷ r) c e h = elim (Bool-cases (is_full c.maxsize c.queue)) [
  | inl full ↦ (
    r ++ e ∷ [],
    record {
      is_open = ground (arith, h.is_open);
      size = ground (arith, h.is_open, h.size);
      held = ground (arith, h.is_open, h.held, full, map-append_item r e);
      bounded = λ p. omega (arith, h.bounded p, length-append r (e ∷ []));
      kept =
          subst₂ (Omits (arrived ++ e ∷ [])) (append_assoc out r (e ∷ []))
            (ground (arith, h.is_open, h.held, full))
            (Omits-append e (Omits-delete out r x h.kept refl));
    },
  )
  | inr room ↦ (
    x ∷ (r ++ e ∷ []),
    record {
      is_open = ground (arith, h.is_open);
      size = ground (arith, h.is_open, h.size);
      held = ground (arith, h.is_open, h.held, room, map-append_item (x ∷ r) e);
      bounded = λ p.
          ground (arith, h.bounded p, h.held, h.size, room, length-map r, length-append r (e ∷ []));
      kept =
          subst₂ (Omits (arrived ++ e ∷ [])) (append_assoc out (x ∷ r) (e ∷ []))
            (ground (arith, h.is_open, h.held, room)) (Omits-append e h.kept);
    },
  )
]

takes-nil :
    (out : List MacEvent) (c : EventsClient) → c.queue ≡ [] → use_step takes (out, c) ≡ (out, c)
unfolding use_step anext
takes-nil out c h = ground arith

takes-cons :
    (out : List MacEvent) (c : EventsClient) (x : MacEvent) (rest : List Item)
    → c.queue ≡ item x ∷ rest
    → use_step takes (out, c) ≡ (out ++ x ∷ [], record c { queue = rest })
unfolding use_step anext
takes-cons out c x rest h = ground arith

abbrev IsState : ℕ → List MacEvent → List MacEvent × EventsClient → Type 0
IsState m arrived s = (q : List MacEvent) × IsQueue m arrived s.0 q s.1

takes-IsState :
    (m : ℕ) (arrived out q : List MacEvent) (c : EventsClient)
    → IsQueue m arrived out q c
    → IsState m arrived (use_step takes (out, c))
takes-IsState m arrived out [] c h =
    subst (IsState m arrived) (sym (takes-nil out c h.held)) ([], h)
takes-IsState m arrived out (x ∷ r) c h =
    subst (IsState m arrived) (sym (takes-cons out c x (map item r) h.held)) (
      r,
      record {
        is_open = h.is_open;
        size = h.size;
        held = refl;
        bounded = λ p. omega (arith, h.bounded p);
        kept =
            subst (λ l. Omits arrived l c.dropped_events) (sym (append_assoc out (x ∷ []) r))
              h.kept;
      },
    )

use_all-IsState :
    (m : ℕ) (us : List Use) (arrived : List MacEvent) (s : List MacEvent × EventsClient)
    → IsState m arrived s
    → IsState m (arrived ++ arrivals us) (use_all us s)
unfolding use_all arrivals
use_all-IsState m [] arrived s h = subst (λ l. IsState m l s) (sym (append-nil arrived)) h
use_all-IsState m (receives e ∷ us) arrived (out, c) (q, h) =
    subst (λ l. IsState m l (use_all us (out, on_event e c)))
      (append_assoc arrived (e ∷ []) (arrivals us))
      (use_all-IsState m us (arrived ++ e ∷ []) (out, on_event e c)
        (receives-IsQueue m arrived out q c e h))
use_all-IsState m (takes ∷ us) arrived (out, c) (q, h) =
    use_all-IsState m us arrived (use_step takes (out, c)) (takes-IsState m arrived out q c h)

-- Whatever arrives and however the iterator is used, until the client is closed the events that
-- were yielded, followed by those in the queue, are the events that arrived, in their order, less
-- as many as `dropped_events` counts; and the queue stays within a positive `maxsize`.
pub use_all-Omits :
    (m : ℕ) (us : List Use)
    → let (out, c) = use_all us ([], initial m) in
      (q : List MacEvent) × (c.queue ≡ map item q)
      × Omits (arrivals us) (out ++ q) c.dropped_events
      × (length (arrivals us) ≡ length out + length q + c.dropped_events)
      × ((m ≡ 0) ⊎ (length c.queue ≤ m))
use_all-Omits m us =
    let (q, h) =
      use_all-IsState m us [] ([], initial m)
        (
          [],
          record {
            is_open = refl;
            size = refl;
            held = refl;
            bounded = λ p. omega arith;
            kept = nil;
          },
        ) in
    let out = (use_all us ([], initial m)).0 in
    (
      q,
      h.held,
      h.kept,
      omega (arith, Omits-length h.kept, length-append out q),
      elim (dec_lt 0 m) [
        | yes p ↦ inr (omega (arith, h.bounded p, ap length h.held, length-map q))
        | no p ↦ inl (omega arith)
      ],
    )
