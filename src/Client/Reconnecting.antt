-- ===== src/Client/Reconnecting.antt =====
-- `_reconnect_loop` of the connection with the handshake `_on_connected` of the client.
pub mod Trying
pub mod Liveness
use macpony.Prelude.{ℕ, ◌*◌, Bool, true, false, Option, some, List, [], ◌∷◌, if◌then◌else◌, ◌≡◌}
use macpony.Errors.{Exception, Outcome}
use macpony.EventsClient.{EventSubscription}
use macpony.Connection.{running, reconnect_open, reconnect_finish, task_after}
use macpony.Connection.Reconnect.{min}
use macpony.Client.{Capabilities, MacApi, on_connected}

-- How one round of the loop goes: the socket is refused, or it opens and the two calls of the
-- handshake have these outcomes.
pub data Round : Type 0 where
  refused : Round
  answered : Outcome Capabilities → Outcome (List EventSubscription) → Round

-- The handshake on a new stream, and the end of its round.
unfoldable pub shake_hands :
    Outcome Capabilities → Outcome (List EventSubscription) → MacApi → MacApi
unfolding on_connected reconnect_finish
shake_hands result restored api =
    let (error, api') = on_connected result restored api in
    record api' { connection = reconnect_finish error api'.connection }

unfoldable pub round : Round → MacApi → MacApi
unfolding shake_hands reconnect_open
round refused api = record api { connection = reconnect_open false api.connection }
round (answered result restored) api =
    let opened : MacApi = record api { connection = reconnect_open true api.connection } in
    if api.connection.is_closing then opened else shake_hands result restored opened

-- The loop over its rounds from the variable `delay`: the delays that it sleeps while the task goes
-- on, and the client at the end.
unfoldable pub reconnect_rounds : ℕ → ℕ → List Round → MacApi → List ℕ × MacApi
unfolding round
reconnect_rounds max_delay delay [] api = ([], api)
reconnect_rounds max_delay delay (r ∷ rounds) api =
    let api' = round r api in
    let (sleeps, end) = reconnect_rounds max_delay (min (delay * 2) max_delay) rounds api' in
    elim api'.connection.reconnect_task [ running ↦ (delay ∷ sleeps, end) | _ ↦ ([], api') ]

-- The round fails with an exception that the loop catches.
abbrev pub IsFailing : MacApi → Round → Type 0
IsFailing api refused = Unit {0}
IsFailing api (answered result restored) =
    (e : Exception) × ((on_connected result restored api).0 ≡ some e)
    × (task_after e running ≡ running)
