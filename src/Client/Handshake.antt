-- ===== src/Client/Handshake.antt =====
-- A connection is only ever used with a server that speaks version 1 and has a single client.
use macpony.Prelude.{
  ◌≡◌, refl, ◌⊎◌, inl, inr, ◌↔◌, Bool-cases, true, Option, none, some, List, [], arith,
}
use macpony.Prelude.Int.{ℤ, pos, negsuc, eq_nat}
use macpony.Errors.{Exception, Outcome, returned, raised}
use macpony.EventsClient.{EventSubscription}
use macpony.Connection.{SocketConnection, connected, disconnected, connect_finish}
use macpony.Client.{Capabilities, MacApi, on_connected, finish_connect}

-- The server is accepted, and the remembered subscriptions, if there are any, are restored.
pub record IsAccepted (result : Outcome Capabilities) (restored : Outcome (List EventSubscription))
    (api : MacApi) : Type 0 where
  pub caps : Capabilities
  pub answered : result ≡ returned caps
  pub same_version : caps.version ≡ pos 1
  pub exclusive : caps.single_client ≡ true
  pub replayed : (api.remembered ≡ []) ⊎ ((l : List EventSubscription) × (restored ≡ returned l))

eq_nat-pos : (i : ℤ) → eq_nat i 1 ≡ true → i ≡ pos 1
eq_nat-pos (pos n) h = ground arith
eq_nat-pos (negsuc n) h = cc

pub accepts :
    (result : Outcome Capabilities) (restored : Outcome (List EventSubscription)) (api : MacApi)
    → IsAccepted result restored api
    → (on_connected result restored api).0 ≡ none
unfolding on_connected
accepts result restored api h = ground (arith, h.answered, h.same_version, h.exclusive, h.replayed)

accepted :
    (result : Outcome Capabilities) (restored : Outcome (List EventSubscription)) (api : MacApi)
    → (on_connected result restored api).0 ≡ none
    → IsAccepted result restored api
unfolding on_connected
accepted (raised e) restored api h = absurd (cc)
accepted (returned caps) restored api h = elim (Bool-cases (eq_nat caps.version 1)) [
  | inr e ↦ absurd (ground arith)
  | inl e ↦ elim (Bool-cases caps.single_client) [
    | inr k ↦ absurd (ground arith)
    | inl k ↦ record {
      caps = caps;
      answered = refl;
      same_version = eq_nat-pos caps.version e;
      exclusive = k;
      replayed = ground arith;
    }
  ]
]

connect_finish-connected :
    (o : Option Exception) (s : SocketConnection)
    → (connect_finish o s).1.state ≡ connected
    → o ≡ none
unfolding connect_finish
connect_finish-connected none s h = refl
connect_finish-connected (some e) s h = cc

connected-connect_finish :
    (o : Option Exception) (s : SocketConnection)
    → o ≡ none
    → (connect_finish o s).1.state ≡ connected
unfolding connect_finish
connected-connect_finish none s h = refl
connected-connect_finish (some e) s h = cc

connect_finish-raises :
    (o : Option Exception) (s : SocketConnection)
    → let (outcome, s') = connect_finish o s in
      (outcome ≡ returned true)
      ⊎ ((e : Exception) × (outcome ≡ raised e) × (s'.state ≡ disconnected) × (s'.writer ≡ none))
unfolding connect_finish
connect_finish-raises none s = inl refl
connect_finish-raises (some e) s = inr (e, refl, refl, refl)

-- The handshake of a `connect` leaves the client connected exactly if the server reports version 1
-- and a single client and the remembered subscriptions, if any, are restored. Otherwise `connect`
-- raises, and the client is disconnected and has no transport.
pub finish_connect-IsAccepted :
    (result : Outcome Capabilities) (restored : Outcome (List EventSubscription)) (api : MacApi)
    → let (outcome, api') = finish_connect result restored api in
      ((api'.connection.state ≡ connected) ↔ IsAccepted result restored api)
      × ((outcome ≡ returned true)
          ⊎ ((e : Exception) × (outcome ≡ raised e)
              × (api'.connection.state ≡ disconnected)
              × (api'.connection.writer ≡ none)))
unfolding finish_connect
finish_connect-IsAccepted result restored api =
    let (error, api') = on_connected result restored api in
    (
      (
        λ h. accepted result restored api (connect_finish-connected error api'.connection h),
        λ h. connected-connect_finish error api'.connection (accepts result restored api h),
      ),
      connect_finish-raises error api'.connection,
    )
