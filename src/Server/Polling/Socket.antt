-- ===== src/Server/Polling/Socket.antt =====
-- The reads of one client. `hs.socket` queues the reads and answers them in their order, a byte
-- each, which is the queue of the model. A read stays in it when the server forgets its tag.
use macpony.Prelude.{ℕ, true, List, [], ◌∷◌, ◌++◌}
use macpony.Server.Polling.{Sight, ReadState, ReadEffect, asks, decodes, callback, poll_connections}

-- The tags of the reads that the socket holds, the oldest first.
pub record Session : Type 0 where
  pub queue : List ℕ
  pub state : ReadState

-- The timer fires, at a time and with two readings of the clock in `read_next`, or a byte of the
-- client arrives.
pub data SessionEvent : Type 0 where
  fires : (now now' now'' : ℕ) → SessionEvent
  arrives : (byte now : ℕ) → SessionEvent

-- One client, and a socket that takes the read.
abbrev pub sole : ℕ → Sight
sole now = record { clients = 1; now = now; accepts = true }

abbrev pub asked : List ReadEffect → List ℕ
asked [] = []
asked (asks tag ∷ fx) = tag ∷ asked fx
asked (_ ∷ fx) = asked fx

abbrev pub lines_of : List ReadEffect → List (List ℕ)
lines_of [] = []
lines_of (decodes line ∷ fx) = line ∷ lines_of fx
lines_of (_ ∷ fx) = lines_of fx

-- A byte that finds no read would be lost.
unfoldable pub advance : (limit interval : ℕ) → SessionEvent → Session → List ReadEffect × Session
unfolding poll_connections callback
advance limit interval (fires now now' now'') c =
    let (fx, s) = poll_connections interval 1 now (sole now') (sole now'') c.state in
    (fx, record { queue = c.queue ++ asked fx; state = s })
advance limit interval (arrives byte now) c = elim c.queue [
  | [] ↦ ([], c)
  | tag ∷ rest ↦
      let (fx, s) = callback limit byte tag 1 (sole now) c.state in
      (fx, record { queue = rest ++ asked fx; state = s })
]

-- The lines that are decoded on the way.
unfoldable pub session_lines : (limit interval : ℕ) → List SessionEvent → Session → List (List ℕ)
unfolding advance
session_lines limit interval [] c = []
session_lines limit interval (e ∷ es) c =
    let (fx, c') = advance limit interval e c in lines_of fx ++ session_lines limit interval es c'

-- The timer that finds the client alone, with the reads that its socket holds already: none for a
-- new client, and those that it has not answered for one that stays when another leaves.
unfoldable pub admit : (interval now now' : ℕ) → List ℕ → ReadState → Session
unfolding poll_connections
admit interval now now' held s =
    let (fx, s') = poll_connections interval 1 now (sole now') (sole now') s in
    record { queue = held ++ asked fx; state = s' }

-- The bytes that the client sends.
abbrev pub sent_bytes : List SessionEvent → List ℕ
sent_bytes [] = []
sent_bytes (fires now now' now'' ∷ es) = sent_bytes es
sent_bytes (arrives byte now ∷ es) = byte ∷ sent_bytes es
