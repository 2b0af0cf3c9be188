-- ===== src/Server/Polling/Session.antt =====
-- What the server of hammerspoon/macapi/server.lua decodes of the bytes of one client: the reads of
-- `Socket`, through `callback` and `poll_connections`.
use macpony.Prelude.{
  ℕ, ◌+◌, ◌≤◌, ◌≡◌, refl, ◌∙◌, ◌≢◌, ◌⊎◌, true, Option, none, some, List, [], ◌∷◌, ◌++◌, arith, All,
  keep_if, drop, length, All-map, append_assoc, append-nil,
}
use macpony.Lines.Split.{records, fits}
use macpony.Server.Framing as Framing
use macpony.Server.Framing.{read_bytes}
use macpony.Server.Framing.Records.{IsOff, read_bytes-records}
use macpony.Server.Polling.Stale.{IsGone, poll-IsGone}
use macpony.Server.Polling.{ReadState, asks, read_next, spend, callback, reset, poll_connections}
use macpony.Server.Polling.Socket.{
  Session, SessionEvent, fires, arrives, sole, asked, lines_of, advance, session_lines, admit,
  sent_bytes,
}

-- The open reads of a client that is served: one, or one with a recovery behind it.
abbrev AreOpen : List ℕ → Option ℕ → Type 0
AreOpen [] recovery = ⊥
AreOpen (t ∷ []) none = Unit {0}
AreOpen (t ∷ []) (some r) = t ≡ r
AreOpen (t ∷ u ∷ []) none = ⊥
AreOpen (t ∷ u ∷ []) (some r) = (u ≡ r) × (t ≢ u)
AreOpen (t ∷ u ∷ v ∷ ts) recovery = ⊥

-- The read of a client that left, before the recovery.
abbrev IsLost : List ℕ → List ℕ → Type 0
IsLost queue [] = ⊥
IsLost queue (t ∷ []) = ⊥
IsLost queue (t ∷ u ∷ ts) = queue ≡ u ∷ ts

-- The socket holds just the reads that the server waits for, up to one of a client that left.
record IsServed (c : Session) : Type 0 where
  is_open : AreOpen c.state.pending c.state.recovery
  same : (c.queue ≡ c.state.pending) ⊎ IsLost c.queue c.state.pending
  below : All (λ t. t ≤ c.state.next_tag) c.state.pending
  listens : c.state.is_listening ≡ true
  counted : c.state.connection_count ≡ 1

advance_byte :
    (limit interval byte now : ℕ) (c : Session)
    → IsServed c
    → let (fx, c') = advance limit interval (arrives byte now) c in
      let (line, input) = Framing.callback limit byte c.state.input in
      IsServed c'
      × (c'.state.input ≡ input)
      × (lines_of fx ≡ (elim line [ none ↦ [] | some l ↦ l ∷ [] ]))
unfolding advance callback spend read_next
advance_byte limit interval byte now c v = ground arith

advance_timer :
    (limit interval now now' now'' : ℕ) (c : Session)
    → IsServed c
    → let (fx, c') = advance limit interval (fires now now' now'') c in
      IsServed c' × (c'.state.input ≡ c.state.input) × (lines_of fx ≡ [])
unfolding advance poll_connections read_next
advance_timer limit interval now now' now'' c v = ground arith

session_lines-read_bytes :
    (limit interval : ℕ) (events : List SessionEvent) (c : Session)
    → IsServed c
    → session_lines limit interval events c ≡ (read_bytes limit (sent_bytes events) c.state.input).0
unfolding session_lines read_bytes
session_lines-read_bytes limit interval [] c v = refl
session_lines-read_bytes limit interval (fires now now' now'' ∷ es) c v =
    let (served, same, none_read) = advance_timer limit interval now now' now'' c v in
    let c' = (advance limit interval (fires now now' now'') c).1 in
    rw (none_read, session_lines-read_bytes limit interval es c' served, same) refl
session_lines-read_bytes limit interval (arrives byte now ∷ es) c v =
    let (served, same, read) = advance_byte limit interval byte now c v in
    let c' = (advance limit interval (arrives byte now) c).1 in
    rw (read, session_lines-read_bytes limit interval es c' served, same) (ground arith)

-- Behind reads whose tags the server has forgotten, one byte is lost for each.
session_lines-held :
    (limit interval : ℕ) (events : List SessionEvent) (held queue : List ℕ) (s : ReadState)
    → IsServed (record { queue = queue; state = s })
    → All (λ t. IsGone t s) held
    → session_lines limit interval events (record { queue = held ++ queue; state = s })
      ≡ (read_bytes limit (drop (length held) (sent_bytes events)) s.input).0
unfolding session_lines read_bytes
session_lines-held limit interval events [] queue s v g =
    session_lines-read_bytes limit interval events (record { queue = queue; state = s }) v
session_lines-held limit interval [] (t ∷ held) queue s v g = refl
session_lines-held limit interval (fires now now' now'' ∷ es) (t ∷ held) queue s v g =
    let (served, same, none_read) =
      advance_timer limit interval now now' now'' (record { queue = queue; state = s }) v in
    let (fx, s') = poll_connections interval 1 now (sole now') (sole now'') s in
    let still =
      All-map (λ u. IsGone u s) (λ u. IsGone u s')
        (λ u. poll-IsGone u interval 1 now (sole now') (sole now'') s) (t ∷ held) g in
    rw
      (
        none_read,
        append_assoc held queue (asked fx),
        session_lines-held limit interval es (t ∷ held) (queue ++ asked fx) s' served still,
        same,
      )
      refl
session_lines-held limit interval (arrives byte now ∷ es) (t ∷ held) queue s v g =
    rw
      (
        g.0.absent,
        append-nil (held ++ queue),
        session_lines-held limit interval es held queue s v g.1,
      )
      refl

admit-IsServed :
    (interval now now' : ℕ) (s : ReadState)
    → s.is_listening ≡ true
    → s.connection_count ≢ 1
    → let c = admit interval now now' [] s in IsServed c × (c.state.input ≡ Framing.start)
unfolding admit poll_connections read_next reset
admit-IsServed interval now now' s h k = ground arith

admit-IsGone :
    (interval now now' t : ℕ) (s : ReadState)
    → s.is_listening ≡ true
    → s.connection_count ≢ 1
    → t ≤ s.next_tag
    → IsGone t (admit interval now now' [] s).state
unfolding admit poll_connections read_next reset
admit-IsGone interval now now' t s h k old = ground arith

pub session_lines-admit :
    (limit interval now now' : ℕ) (held : List ℕ) (s : ReadState) (events : List SessionEvent)
    → s.is_listening ≡ true
    → s.connection_count ≢ 1
    → All (λ t. t ≤ s.next_tag) held
    → session_lines limit interval events (admit interval now now' held s)
      ≡ (read_bytes limit (drop (length held) (sent_bytes events)) Framing.start).0
unfolding admit
session_lines-admit limit interval now now' held s events h k old =
    let (served, fresh) = admit-IsServed interval now now' s h k in
    let c = admit interval now now' [] s in
    let gone =
      All-map (λ t. t ≤ s.next_tag) (λ t. IsGone t c.state)
        (λ t. admit-IsGone interval now now' t s h k) held old in
    session_lines-held limit interval events held c.queue c.state served gone ∙ rw fresh refl

-- If the timer of a listening server finds a client alone, where another number of clients was
-- known, and no record of what is read is one byte longer than the bound, then in every interleaving
-- of the client's bytes with the timer, recoveries included, one byte is lost for each read that the
-- socket of the client holds already, under tags that were given out, and each further byte finds a
-- read: the server decodes the lines that its splitter cuts from those, and they are the records
-- within the bound, in their order.
pub session-decodes :
    (limit interval now now' : ℕ) (held : List ℕ) (s : ReadState) (events : List SessionEvent)
    → s.is_listening ≡ true
    → s.connection_count ≢ 1
    → All (λ t. t ≤ s.next_tag) held
    → All (IsOff limit) (records [] (drop (length held) (sent_bytes events)))
    → let bytes = drop (length held) (sent_bytes events) in
      let lines = session_lines limit interval events (admit interval now now' held s) in
      (lines ≡ (read_bytes limit bytes Framing.start).0)
      × (lines ≡ keep_if (fits limit) (records [] bytes))
session-decodes limit interval now now' held s events h k old off =
    let bytes = drop (length held) (sent_bytes events) in
    let cut = session_lines-admit limit interval now now' held s events h k old in
    (cut, cut ∙ read_bytes-records limit bytes off)

-- If a listening server with one client has one read open, no recovery, and no answer to it for the
-- recovery interval, as when its client was replaced by another between two polls, the timer asks once more, and in every
-- interleaving of the new client's bytes with the timer each byte finds that read or a later one.
-- They go on behind what the client that left had sent of a record, since the buffer is kept.
pub recovery-keeps_buffer :
    (limit interval now now' t started : ℕ) (s : ReadState) (events : List SessionEvent)
    → s.is_listening ≡ true
    → s.connection_count ≡ 1
    → s.pending ≡ t ∷ []
    → s.recovery ≡ none
    → s.started_at ≡ some started
    → t ≤ s.next_tag
    → started + interval ≤ now
    → let (fx, s') = poll_connections interval 1 now (sole now') (sole now') s in
      (fx ≡ asks (s.next_tag + 1) ∷ [])
      × (session_lines limit interval events (record { queue = asked fx; state = s' })
          ≡ (read_bytes limit (sent_bytes events) s.input).0)
unfolding poll_connections read_next
recovery-keeps_buffer limit interval now now' t started s events h k one none_open clock old over =
    let (fx, s') = poll_connections interval 1 now (sole now') (sole now') s in
    let c : Session = record { queue = asked fx; state = s' } in
    let (effects, served, same) = recovered in
    (effects, session_lines-read_bytes limit interval events c served ∙ rw same refl)
  where
    recovered :
        let (fx, s') = poll_connections interval 1 now (sole now') (sole now') s in
        (fx ≡ asks (s.next_tag + 1) ∷ [])
        × IsServed (record { queue = asked fx; state = s' })
        × (s'.input ≡ s.input)
    recovered = ground arith
