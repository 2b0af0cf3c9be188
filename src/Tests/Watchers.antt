-- ===== src/Tests/Watchers.antt =====
-- A day of a computer with one screen: another screen comes and the first one goes.
use macpony.Prelude.{String, ◌≡◌, refl, true, false, none, some, List, [], ◌∷◌, All, inl}
use macpony.Prelude.Dict.{is_member, lookup, insert}
use macpony.Errors.{returned}
use macpony.Json.{null, obj}
use macpony.Models.{instance_of, capabilities}
use macpony.Client.{Capabilities, finish_connect}
use macpony.Connection.{connected}
use macpony.Events.Catalog.{server_events, IsTyped}
use macpony.Server.Dispatch.{returns}
use macpony.Server.Answers.{expected}
use macpony.Server.Capabilities.{system_capabilities, capabilities_outcome}
use macpony.Server.Capabilities.Handshake.{KeepsCollections, finish_connect-system_capabilities}
use macpony.Server.Watchers.{
  Emission, ScreenData, Watched, started, Observation, screens, power, battery, screens_did_lock,
  observe_all, screen_table,
}
use macpony.Server.Watchers.Screens.{present_after, present_after-observe_all}
use macpony.Server.Watchers.Names.{observe_all-IsTyped}
use macpony.Tests.Reference.{reference, reference-IsPydantic, reference-texts}
use macpony.Tests.Composed.{listening}

abbrev plain : ScreenData
plain = record { uuid = none; name = "Display" }

abbrev day : List Observation
day =
    screens (("1", plain) ∷ ("2", plain) ∷ []) null
    ∷ power screens_did_lock
    ∷ battery "AC Power" null
    ∷ screens (("2", plain) ∷ []) null
    ∷ []

abbrev morning : Watched
morning = started (("1", plain) ∷ []) "Battery Power"

present_after-observe_all_example : present_after "1" (observe_all day morning).0 true ≡ false
unfolding observe_all screen_table lookup insert
present_after-observe_all_example = present_after-observe_all "1" day morning

observe_all-IsTyped_example :
    All
      (λ (e : Emission). (is_member e.name server_events ≡ true) × IsTyped e.name)
      (observe_all day morning).0
observe_all-IsTyped_example = observe_all-IsTyped day morning

reference-KeepsCollections : KeepsCollections reference
unfolding reference
reference-KeepsCollections = record { lists = reference-texts; flags = λ b. refl }

finish_connect-system_capabilities_example :
    let answer = returns (obj (system_capabilities false ("apps.list" ∷ []))) in
    let outcome =
      expected reference (instance_of capabilities) "system.capabilities" (some answer) in
    let (done, api') = finish_connect (capabilities_outcome outcome) (returned []) listening in
    (done ≡ returned true)
    × (api'.connection.state ≡ connected)
    × ((caps : Capabilities) × (api'.capabilities ≡ some caps)
        × ((name : String) → is_member name caps.methods ≡ is_member name ("apps.list" ∷ []))
        × (caps.events ≡ server_events))
finish_connect-system_capabilities_example =
    finish_connect-system_capabilities reference reference-IsPydantic reference-KeepsCollections
      false ("apps.list" ∷ []) (returned []) listening (inl refl)
