-- ===== src/Tests/Locking.antt =====
-- A life of a connection under its lock: it connects, is lost, comes back, and is closed.
use macpony.Prelude.{◌≡◌, refl, inl, true, none, some, [], ◌∷◌, ◌++◌}
use macpony.Errors.{returned, connection_lost, peer_closed}
use macpony.Connection.{
  SocketConnection, connected, started_reader, initial, drop_transport, begin_connect, attach,
  connect_finish, handle_disconnect, end_disconnect, reconnect_finish, wait_until_connected,
}
use macpony.Connection.Steps.{
  ends_disconnect, starts_connect, attaches, finishes_connect, opens_reconnect, run,
}
use macpony.Connection.Races.{connect_beside_reconnect}
use macpony.Connection.Locking.{
  World, free, loses, enters, opens, finishes, retries, reopens, refinishes, Reach, start, later,
}
use macpony.Connection.Locking.Open.{open_streams}
use macpony.Connection.Locking.Streams.{Reach-open_streams}
use macpony.Connection.Locking.Waiting.{Reach-wait_until_connected}
use macpony.Tests.Reference.{reference}

-- Connected over stream 0, lost, and connected again over stream 1.
abbrev back : SocketConnection
back = reconnect_finish none (
    attach (
      handle_disconnect (some 0) (connection_lost peer_closed)
        (connect_finish none (attach (begin_connect (initial true)).1)).1))

abbrev back_again : World
back_again = record { connection = back; lock = free }

back_again-Reach : Reach reference true back_again
unfolding begin_connect attach connect_finish handle_disconnect drop_transport reconnect_finish
back_again-Reach =
    later
      (later
        (later
          (later
            (later (later (later start (enters refl refl refl)) (opens refl)) (finishes none refl))
            (loses (some 0) (connection_lost peer_closed) (inl (λ e. cc))))
          (retries refl refl refl))
        (reopens refl))
      (refinishes none refl)

Reach-open_streams_example : open_streams back.effects [] ≡ 1 ∷ []
unfolding begin_connect attach connect_finish handle_disconnect drop_transport reconnect_finish
Reach-open_streams_example = Reach-open_streams reference true back_again back_again-Reach

Reach-wait_until_connected_example : back.state ≡ connected
unfolding begin_connect attach connect_finish handle_disconnect drop_transport reconnect_finish
    wait_until_connected
Reach-wait_until_connected_example =
    Reach-wait_until_connected reference true back_again back_again-Reach refl

connect_beside_reconnect_example :
    let actions = ends_disconnect ∷ starts_connect ∷ attaches ∷ finishes_connect none ∷ [] in
    let t = run reference actions (initial true) in
    let u = run reference (opens_reconnect true ∷ []) t in
    ((begin_connect (end_disconnect (initial true))).0 ≡ returned true)
    × (t.state ≡ connected)
    × (t.writer ≡ some 0)
    × (u.writer ≡ some 1)
    × (u.reader_task ≡ some 1)
    × (u.effects ≡ t.effects ++ started_reader 1 ∷ [])
connect_beside_reconnect_example = connect_beside_reconnect reference (initial true) refl refl
