-- ===== src/Client/Reconnecting/Liveness.antt =====
-- A lost connection comes back.
use mathlib.Core.Path.{subst}
use macpony.Prelude.{
  ℕ, suc, ◌*◌, ◌≤◌, ◌≡◌, refl, sym, ap, ◌∙◌, ◌⊎◌, inl, inr, true, false, Option, none, some, List,
  [], ◌∷◌, ◌++◌, length, arith, All,
}
use macpony.Prelude.Int.{pos}
use macpony.Errors.{Exception, Outcome, returned, raised}
use macpony.EventsClient.{EventSubscription}
use macpony.Connection.{SocketConnection, attach, running, finished, connected, reconnect_finish}
use macpony.Connection.Reconnect.{min, delay_of, delay_of-suc, delays_from}
use macpony.Client.{Capabilities, MacApi, restore_subscriptions, on_connected}
use macpony.Client.Handshake.{IsAccepted, accepts}
use macpony.Client.Offline.{lose_connection, moved}
use macpony.Client.Reconnecting.{Round, answered, shake_hands, round, reconnect_rounds, IsFailing}
use macpony.Client.Reconnecting.Trying.{
  IsTrying, lose_connection-IsTrying, round-IsTrying, round_answered, attach-IsTrying,
}

-- The client is connected, no call of the lost connection is left, the events client is as it was
-- at the start, the server was asked again, and so were the subscriptions, if there were any.
pub record IsReconnected (start : MacApi) (result : Outcome Capabilities)
    (restored : Outcome (List EventSubscription)) (api : MacApi) : Type 0 where
  state : api.connection.state ≡ connected
  event : api.connection.connected_event ≡ true
  task : api.connection.reconnect_task ≡ finished
  pending : api.connection.pending ≡ []
  events : api.events ≡ start.events
  capabilities : (caps : Capabilities) × (result ≡ returned caps) × (api.capabilities ≡ some caps)
  remembered : (api.remembered ≡ start.remembered) ⊎ (restored ≡ returned api.remembered)

subscriptions-cases :
    (l : List EventSubscription)
    → (l ≡ []) ⊎ ((x : EventSubscription) × (r : List EventSubscription) × (l ≡ x ∷ r))
subscriptions-cases [] = inl refl
subscriptions-cases (x ∷ r) = inr (x, r, refl)

restore_subscriptions-remembered :
    (restored : Outcome (List EventSubscription)) (api : MacApi)
    → let after = (restore_subscriptions restored api).1.remembered in
      (after ≡ api.remembered) ⊎ (restored ≡ returned after)
unfolding restore_subscriptions
restore_subscriptions-remembered (returned l) api = elim (subscriptions-cases api.remembered) [
  | inl e ↦ inl (ground arith)
  | inr (x, r, e) ↦ inr (ground arith)
]
restore_subscriptions-remembered (raised x) api = inl (ground arith)

on_connected-restores :
    (caps : Capabilities) (restored : Outcome (List EventSubscription)) (api : MacApi)
    → caps.version ≡ pos 1
    → caps.single_client ≡ true
    → on_connected (returned caps) restored api
      ≡ restore_subscriptions restored (record api { capabilities = some caps })
unfolding on_connected
on_connected-restores caps restored api v s = ground (arith, v, s)

on_connected-accepts :
    (result : Outcome Capabilities) (restored : Outcome (List EventSubscription)) (api : MacApi)
    → IsAccepted result restored api
    → let api' = (on_connected result restored api).1 in
      (api'.connection ≡ api.connection)
      × (api'.events ≡ api.events)
      × ((caps : Capabilities) × (result ≡ returned caps) × (api'.capabilities ≡ some caps))
      × ((api'.remembered ≡ api.remembered) ⊎ (restored ≡ returned api'.remembered))
unfolding on_connected
on_connected-accepts (raised e) restored api a = absurd (let e = a.answered in cc)
on_connected-accepts (returned caps) restored api a =
    let same : caps ≡ a.caps = let e = a.answered in cc in
    let version : caps.version ≡ pos 1 =
      ap (λ (c : Capabilities). c.version) same ∙ a.same_version in
    let single : caps.single_client ≡ true =
      ap (λ (c : Capabilities). c.single_client) same ∙ a.exclusive in
    (
      ground (arith, version, single),
      ground (arith, version, single),
      (caps, refl, ground (arith, version, single)),
      subst (λ (l : List EventSubscription). (l ≡ api.remembered) ⊎ (restored ≡ returned l))
          (ap (λ (r : Option Exception × MacApi). r.1.remembered)
            (sym (on_connected-restores caps restored api version single)))
          (restore_subscriptions-remembered restored (record api { capabilities = some caps })),
    )

reconnect_finish-returns :
    (o : Option Exception) (s : SocketConnection)
    → o ≡ none
    → let s' = reconnect_finish o s in
      (s'.state ≡ connected)
      × (s'.connected_event ≡ true)
      × (s'.reconnect_task ≡ finished)
      × (s'.pending ≡ s.pending)
unfolding reconnect_finish
reconnect_finish-returns none s h = (refl, refl, refl, refl)
reconnect_finish-returns (some e) s h = absurd (cc)

shake_hands-IsReconnected :
    (result : Outcome Capabilities) (restored : Outcome (List EventSubscription))
    (start api : MacApi)
    → IsAccepted result restored start
    → IsTrying start api
    → IsReconnected start result restored (shake_hands result restored api)
unfolding shake_hands
shake_hands-IsReconnected result restored start api a h =
    let now = moved result restored start api h.remembered a in
    let (error, api') = on_connected result restored api in
    let (same, events, caps, remembered) = on_connected-accepts result restored api now in
    let (st, ev, task, left) =
      reconnect_finish-returns error api'.connection (accepts result restored api now) in
    record {
      state = st;
      event = ev;
      task = task;
      pending = left ∙ ap (λ (s : SocketConnection). s.pending) same ∙ h.pending;
      events = events ∙ h.events;
      capabilities = caps;
      remembered = elim remembered [ inl e ↦ inl (e ∙ h.remembered) | inr e ↦ inr e ];
    }

rounds_goes_on :
    (m d : ℕ) (r : Round) (rounds : List Round) (api : MacApi)
    → (round r api).connection.reconnect_task ≡ running
    → let (sleeps, end) = reconnect_rounds m (min (d * 2) m) rounds (round r api) in
      reconnect_rounds m d (r ∷ rounds) api ≡ (d ∷ sleeps, end)
unfolding reconnect_rounds
rounds_goes_on m d r rounds api h = ground (arith, h)

rounds_ends :
    (m d : ℕ) (r : Round) (rounds : List Round) (api : MacApi)
    → (round r api).connection.reconnect_task ≡ finished
    → reconnect_rounds m d (r ∷ rounds) api ≡ ([], round r api)
unfolding reconnect_rounds
rounds_ends m d r rounds api h = ground (arith, h)

accepted_lem :
    (result : Outcome Capabilities) (restored : Outcome (List EventSubscription)) (m d : ℕ)
    (more : List Round) (start api : MacApi)
    → IsAccepted result restored start
    → IsTrying start api
    → let (sleeps, end) = reconnect_rounds m d (answered result restored ∷ more) api in
      (sleeps ≡ []) × IsReconnected start result restored end
accepted_lem result restored m d more start api a h =
    let api' = round (answered result restored) api in
    let attached : MacApi = record api { connection = attach api.connection } in
    let done =
      subst (IsReconnected start result restored) (sym (round_answered result restored start api h))
        (shake_hands-IsReconnected result restored start attached a
          (attach-IsTrying start api h)) in
    let way = rounds_ends m d (answered result restored) more api done.task in
    (
      ap (λ (r : List ℕ × MacApi). r.0) way,
      subst (λ (r : List ℕ × MacApi). IsReconnected start result restored r.1) (sym way) done,
    )

rounds_lem :
    (result : Outcome Capabilities) (restored : Outcome (List EventSubscription))
    (min_delay max_delay k : ℕ) (failing more : List Round) (start api : MacApi)
    → All (IsFailing start) failing
    → IsAccepted result restored start
    → IsTrying start api
    → let (sleeps, end) =
        reconnect_rounds max_delay
          (delay_of min_delay max_delay k)
          (failing ++ answered result restored ∷ more)
          api in
      (sleeps ≡ delays_from min_delay max_delay k (length failing))
      × IsReconnected start result restored end
unfolding delays_from
rounds_lem result restored d m k [] more start api f a h =
    accepted_lem result restored m (delay_of d m k) more start api a h
rounds_lem result restored d m k (r ∷ failing) more start api f a h =
    let rest = failing ++ answered result restored ∷ more in
    let h' = round-IsTrying r start api h f.0 in
    let way =
      rounds_goes_on m (delay_of d m k) r rest api h'.goes_on
      ∙ ap
          (λ (x : ℕ).
            let (sleeps, end) = reconnect_rounds m x rest (round r api) in
            let all : List ℕ × MacApi = (delay_of d m k ∷ sleeps, end) in all)
          (delay_of-suc d m k) in
    let (sleeps, end) =
      rounds_lem result restored d m (suc k) failing more start (round r api) f.1 a h' in
    (
      ap (λ (p : List ℕ × MacApi). p.0) way ∙ ap (λ (l : List ℕ). delay_of d m k ∷ l) sleeps,
      subst (λ (p : List ℕ × MacApi). IsReconnected start result restored p.1) (sym way) end,
    )

-- A client with `auto_reconnect` that is not being closed and whose connection is lost: if some
-- rounds of the reconnect loop fail, with the socket refused or with an exception of the handshake
-- that the loop catches, and in the next one the server is accepted, then the loop sleeps once
-- after each failed round, for delays that double from the least to the greatest one, and the
-- client is connected again: waiters for the connection go on, the calls of the lost connection
-- are gone, the capabilities are those of the new answer, the subscriptions are as before or those
-- that the server returned, and the queue and the handlers are untouched.
pub lose_connection-reconnects :
    (current : Option ℕ) (error : Exception) (min_delay max_delay : ℕ) (failing more : List Round)
    (result : Outcome Capabilities) (restored : Outcome (List EventSubscription)) (api : MacApi)
    → api.connection.auto_reconnect ≡ true
    → api.connection.is_closing ≡ false
    → min_delay ≤ max_delay
    → All (IsFailing api) failing
    → IsAccepted result restored api
    → let (sleeps, end) =
        reconnect_rounds max_delay min_delay
          (failing ++ answered result restored ∷ more)
          (lose_connection current error api) in
      (sleeps ≡ delays_from min_delay max_delay 0 (length failing))
      × IsReconnected api result restored end
lose_connection-reconnects current error d m failing more result restored api a c le f ok =
    let first : delay_of d m 0 ≡ d = ground arith in
    subst
      (λ (x : ℕ).
        let (sleeps, end) =
          reconnect_rounds m x (failing ++ answered result restored ∷ more)
            (lose_connection current error api) in
        (sleeps ≡ delays_from d m 0 (length failing)) × IsReconnected api result restored end)
      first
      (rounds_lem result restored d m 0 failing more api (lose_connection current error api) f ok
        (lose_connection-IsTrying current error api a c))
