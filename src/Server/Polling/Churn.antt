-- ===== src/Server/Polling/Churn.antt =====
-- A client that stays while others come and leave: what `poll_connections` of
-- hammerspoon/macapi/server.lua does to the reads that its socket holds.
use macpony.Prelude.{
  ℕ, ◌+◌, ◌≤◌, ◌≡◌, ◌∙◌, ap, true, List, [], ◌∷◌, ◌++◌, length, length-append, drop, arith, All,
  All-map, All-append, some, refl,
}
use macpony.Server.Framing as Framing
use macpony.Server.Framing.{read_bytes}
use macpony.Server.Polling.{Sight, ReadState, poll_connections, read_next, reset}
use macpony.Server.Polling.Socket.{Session, SessionEvent, sent_bytes, admit, session_lines}
use macpony.Server.Polling.Session.{session_lines-admit}

-- Two clients.
abbrev crowd : ℕ → Sight
crowd now = record { clients = 2; now = now; accepts = true }

-- The timer finds a second client, and then that it has left. No byte arrives in between.
unfoldable pub visit : (interval now : ℕ) → Session → Session
unfolding admit poll_connections
visit interval now c =
    let s = (poll_connections interval 2 now (crowd now) (crowd now) c.state).1 in
    admit interval now now c.queue s

-- One such visit at each of the times, the last first.
unfoldable pub visits : ℕ → List ℕ → Session → Session
unfolding visit
visits interval [] c = c
visits interval (now ∷ times) c = visit interval now (visits interval times c)

-- One client, and a socket that holds only tags that were given out.
pub record IsAlone (c : Session) : Type 0 where
  pub listens : c.state.is_listening ≡ true
  pub counted : c.state.connection_count ≡ 1
  pub below : All (λ t. t ≤ c.state.next_tag) c.queue

-- The poll of two clients forgets the reads and asks for none.
seen_two :
    (interval now : ℕ) (s : ReadState)
    → s.is_listening ≡ true
    → s.connection_count ≡ 1
    → (poll_connections interval 2 now (crowd now) (crowd now) s).1 ≡ reset 2 s
unfolding poll_connections
seen_two interval now s h k = ground arith

-- A visit adds a read to the socket, and the server remembers that one only.
visit_lem :
    (interval now : ℕ) (c : Session)
    → IsAlone c
    → visit interval now c ≡ record {
      queue = c.queue ++ (c.state.next_tag + 1) ∷ [];
      state = record (reset 1 c.state) {
        pending = (c.state.next_tag + 1) ∷ [];
        started_at = some now;
        next_tag = c.state.next_tag + 1;
      };
    }
unfolding visit admit poll_connections read_next reset
visit_lem interval now c v = rw (seen_two interval now c.state v.listens v.counted) (ground arith)

visit-IsAlone :
    (interval now : ℕ) (c : Session)
    → IsAlone c
    → let c' = visit interval now c in
      IsAlone c'
      × (length c'.queue ≡ length c.queue + 1)
      × (c'.state.pending ≡ (c.state.next_tag + 1) ∷ [])
unfolding reset
visit-IsAlone interval now c v = rw (visit_lem interval now c v) (
  record {
    listens = v.listens;
    counted = refl;
    below =
        All-append (λ t. t ≤ c.state.next_tag + 1) c.queue ((c.state.next_tag + 1) ∷ [])
          (All-map (λ t. t ≤ c.state.next_tag) (λ t. t ≤ c.state.next_tag + 1)
            (λ t h. omega (arith, h)) c.queue v.below)
          (omega arith, tt);
  },
  length-append c.queue ((c.state.next_tag + 1) ∷ []),
  refl,
)

-- The client's bytes go first to the reads that its socket held before the visit.
visit-session_lines :
    (limit interval now : ℕ) (c : Session) (events : List SessionEvent)
    → IsAlone c
    → session_lines limit interval events (visit interval now c)
      ≡ (read_bytes limit (drop (length c.queue) (sent_bytes events)) Framing.start).0
unfolding visit reset
visit-session_lines limit interval now c events v =
    rw (seen_two interval now c.state v.listens v.counted) (
      session_lines-admit limit interval now now c.queue (reset 2 c.state) events v.listens
        (λ e. omega (arith, e)) v.below)

visits-IsAlone :
    (interval : ℕ) (times : List ℕ) (c : Session)
    → IsAlone c
    → let c' = visits interval times c in
      IsAlone c' × (length c'.queue ≡ length c.queue + length times)
unfolding visits
visits-IsAlone interval [] c v = (v, omega arith)
visits-IsAlone interval (now ∷ times) c v =
    let (still, long) = visits-IsAlone interval times c v in
    let (alone, one_more, _) = visit-IsAlone interval now (visits interval times c) still in
    (alone, omega (arith, long, one_more))

-- If, at a listening server that knows one client and whose socket holds only reads under tags that
-- were given out, the client stays while another comes and leaves between the polls of the server's timer, n times
-- for n above 0, and no byte of it arrives meanwhile, each time adds a read to its socket, although
-- the server remembers one alone. After that, in every interleaving of its bytes with the timer, the
-- server loses the first of them, as many as the socket held reads at the start and n - 1 more, and
-- decodes the lines that its splitter cuts from the others.
pub visits-pile_up :
    (limit interval now : ℕ) (times : List ℕ) (c : Session) (events : List SessionEvent)
    → IsAlone c
    → let c' = visits interval (now ∷ times) c in
      let lost = length c.queue + length times in
      (length c'.queue ≡ lost + 1)
      × (length c'.state.pending ≡ 1)
      × (session_lines limit interval events c'
          ≡ (read_bytes limit (drop lost (sent_bytes events)) Framing.start).0)
unfolding visits
visits-pile_up limit interval now times c events v =
    let c' = visits interval times c in
    let (still, long) = visits-IsAlone interval times c v in
    let (_, one_more, one) = visit-IsAlone interval now c' still in
    (
      omega (arith, long, one_more),
      ap length one,
      visit-session_lines limit interval now c' events still
          ∙ ap (λ n. (read_bytes limit (drop n (sent_bytes events)) Framing.start).0) long,
    )
