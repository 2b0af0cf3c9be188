-- ===== src/Server/EventBus/Ascending.antt =====
-- Messages with ascending numbers, and the queue that keeps them so.
use macpony.Prelude.{
  inl, inr, leb, length-append, Bool-cases, ℕ, ◌≤◌, ◌<◌, Bool, List, [], ◌∷◌, ◌++◌, length, arith,
}
use macpony.Server.EventBus.{without_first, Message, enqueue, flush, max_queue_size}

-- The numbers ascend, above the first bound and up to the second one.
abbrev pub IsAscending : ℕ → List Message → ℕ → Type 0
IsAscending low [] high = low ≤ high
IsAscending low (m ∷ ms) high = (low < m.seq) × IsAscending m.seq ms high

IsAscending-low :
    (low low' : ℕ) (ms : List Message) (high : ℕ)
    → low' ≤ low
    → IsAscending low ms high
    → IsAscending low' ms high
IsAscending-low low low' [] high h k = omega (arith, h, k)
IsAscending-low low low' (m ∷ ms) high h k = (omega (arith, h, k.0), k.1)

without_first-IsAscending :
    (low : ℕ) (ms : List Message) (high : ℕ)
    → IsAscending low ms high
    → IsAscending low (without_first ms) high
without_first-IsAscending low [] high h = h
without_first-IsAscending low (m ∷ ms) high h =
    IsAscending-low m.seq low ms high (omega (arith, h.0)) h.1

append-IsAscending :
    (low : ℕ) (ms : List Message) (m : Message) (high : ℕ)
    → IsAscending low ms high
    → high < m.seq
    → IsAscending low (ms ++ m ∷ []) m.seq
append-IsAscending low [] m high h k = (omega (arith, h, k), omega arith)
append-IsAscending low (x ∷ ms) m high h k = (h.0, append-IsAscending x.seq ms m high h.1 k)

pub enqueue-IsAscending :
    (low : ℕ) (q : List Message) (m : Message) (high : ℕ)
    → IsAscending low q high
    → high < m.seq
    → IsAscending low (enqueue m q) m.seq
unfolding enqueue
enqueue-IsAscending low q m high h k = elim (Bool-cases (leb max_queue_size (length q))) [
  | inl e ↦
      rw e
        (append-IsAscending low (without_first q) m high (without_first-IsAscending low q high h) k)
  | inr e ↦ rw e (append-IsAscending low q m high h k)
]

pub enqueue-length :
    (q : List Message) (m : Message)
    → length q ≤ max_queue_size
    → length (enqueue m q) ≤ max_queue_size
unfolding enqueue
enqueue-length [] m h = ground arith
enqueue-length (x ∷ q) m h =
    ground (arith, length-append q (m ∷ []), length-append (x ∷ q) (m ∷ []))

-- What is sent ends at a number at which what is left begins.
pub flush-IsAscending :
    (sends : Message → Bool) (low : ℕ) (q : List Message) (high : ℕ)
    → IsAscending low q high
    → let (sent, left) = flush sends q in
      (mid : ℕ) × IsAscending low sent mid × IsAscending mid left high × (length left ≤ length q)
unfolding flush
flush-IsAscending sends low [] high h = (low, omega arith, h, omega arith)
flush-IsAscending sends low (m ∷ q) high h = elim (Bool-cases (sends m)) [
  | inl e ↦
      let (mid, first, rest, shorter) = flush-IsAscending sends m.seq q high h.1 in
      rw e (mid, (h.0, first), rest, omega (arith, shorter))
  | inr e ↦ rw e (low, omega arith, h, omega arith)
]

pub join-IsAscending :
    (low : ℕ) (ms : List Message) (mid : ℕ) (more : List Message) (high : ℕ)
    → IsAscending low ms mid
    → IsAscending mid more high
    → IsAscending low (ms ++ more) high
join-IsAscending low [] mid more high h k = IsAscending-low mid low more high h k
join-IsAscending low (m ∷ ms) mid more high h k =
    (h.0, join-IsAscending m.seq ms mid more high h.1 k)

pub IsAscending-le : (low : ℕ) (ms : List Message) (high : ℕ) → IsAscending low ms high → low ≤ high
IsAscending-le low [] high h = h
IsAscending-le low (m ∷ ms) high h = omega (arith, h.0, IsAscending-le m.seq ms high h.1)
