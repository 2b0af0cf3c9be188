-- ===== src/Server/Capabilities/Handshake.antt =====
-- The server's own answer to `system.capabilities` passes the client's handshake.
use macpony.Prelude.{String, ◌≡◌, refl, ap, ◌∙◌, Bool, true, some, List, [], ◌∷◌, arith, ◌⊎◌}
use macpony.Prelude.Dict.{is_member}
use macpony.Prelude.Int.{pos}
use macpony.Errors.{Outcome, returned}
use macpony.Json.{arr, obj, get, is_empty_list}
use macpony.Pydantic.{
  Validator, IsPydantic, collect, wrap, decode_empty_object, one_of, list_of, dict_of, str_type,
  bool_type,
}
use macpony.Models.{instance_of, capabilities}
use macpony.Protocol.{parse_result}
use macpony.Events.Catalog.{server_events}
use macpony.EventsClient.{EventSubscription, restore_finish}
use macpony.Connection.{connected}
use macpony.Client.{Capabilities, MacApi, finish_connect}
use macpony.Server.Dispatch.{returns}
use macpony.Server.Answers.{expected}
use macpony.Server.Capabilities.{
  sorted_names, texts, features, system_capabilities, capabilities_outcome,
}
use macpony.Server.Capabilities.Names.{sorted_names-is_member, texts_of-texts}

-- Lists of texts and dicts of Boolean values have the types of their fields, and are kept.
pub record KeepsCollections (validate : Validator) : Type 0 where
  pub lists :
      (ss : List String) → validate (list_of str_type) (arr (texts ss)) ≡ some (arr (texts ss))
  pub flags : (b : Bool) → validate (dict_of bool_type) (obj (features b)) ≡ some (obj (features b))

module _ (validate : Validator) (p : IsPydantic validate) (q : KeepsCollections validate)
    (dangerous : Bool) (names : List String) where
  collect-system_capabilities :
      collect validate capabilities (system_capabilities dangerous names)
      ≡ some (system_capabilities dangerous names)
  unfolding collect system_capabilities get one_of
  collect-system_capabilities =
      rw
        (
          p.int_int (pos 1),
          p.str_text "0.1.0",
          p.literal_text ("unix-domain-socket" ∷ []) "unix-domain-socket",
          p.literal_text ("ndjson" ∷ []) "ndjson",
          p.literal_text ("none" ∷ []) "none",
          p.literal_text ("filesystem-permissions" ∷ []) "filesystem-permissions",
          p.bool_bool true,
          q.lists (sorted_names names),
          q.lists server_events,
          q.flags dangerous,
        )
        refl

  parse_result-system_capabilities :
      let answer = obj (system_capabilities dangerous names) in
      parse_result validate answer (instance_of capabilities) ≡ returned answer
  unfolding parse_result decode_empty_object is_empty_list
  parse_result-system_capabilities =
      let fs = system_capabilities dangerous names in
      let validated : validate (instance_of capabilities) (obj fs) ≡ some (obj fs) =
        p.model_before capabilities (obj fs)
        ∙ p.model_dict capabilities fs
        ∙ ap wrap collect-system_capabilities in
      rw (validated, parse_result) refl

  -- The instance of `Capabilities` that the client keeps.
  kept : Capabilities
  kept = record {
    version = pos 1;
    server_version = "0.1.0";
    single_client = true;
    methods = sorted_names names;
    events = server_events;
    features =
        ("screenshots", true)
        ∷ ("input", dangerous)
        ∷ ("clipboard", true)
        ∷ ("dangerous_actions", dangerous)
        ∷ [];
  }

  capabilities_outcome-kept :
      capabilities_outcome (returned (obj (system_capabilities dangerous names))) ≡ returned kept
  unfolding capabilities_outcome system_capabilities get kept
  capabilities_outcome-kept = rw (texts_of-texts (sorted_names names), capabilities_outcome) refl

  finish_connect-kept :
      (restored : Outcome (List EventSubscription)) (api : MacApi)
      → (api.remembered ≡ []) ⊎ ((l : List EventSubscription) × (restored ≡ returned l))
      → let (done, api') = finish_connect (returned kept) restored api in
        (done ≡ returned true)
        × (api'.connection.state ≡ connected)
        × (api'.capabilities ≡ some kept)
  unfolding finish_connect kept restore_finish
  finish_connect-kept restored api h = ground (arith, h)

  -- The client's handshake succeeds with what the server's handler of `system.capabilities` returns,
  -- whatever its methods and its configuration are, if the remembered subscriptions, if any, are
  -- restored: the client is connected, and its catalog has exactly the methods that the server has
  -- registered and the events that it lists.
  pub finish_connect-system_capabilities :
      (restored : Outcome (List EventSubscription)) (api : MacApi)
      → (api.remembered ≡ []) ⊎ ((l : List EventSubscription) × (restored ≡ returned l))
      → let answer = returns (obj (system_capabilities dangerous names)) in
        let outcome =
          expected validate (instance_of capabilities) "system.capabilities" (some answer) in
        let (done, api') = finish_connect (capabilities_outcome outcome) restored api in
        (done ≡ returned true)
        × (api'.connection.state ≡ connected)
        × ((caps : Capabilities) × (api'.capabilities ≡ some caps)
            × ((name : String) → is_member name caps.methods ≡ is_member name names)
            × (caps.events ≡ server_events))
  unfolding kept
  finish_connect-system_capabilities restored api h =
      let answer = obj (system_capabilities dangerous names) in
      let (done, state, caps) = finish_connect-kept restored api h in
      rw (parse_result-system_capabilities, capabilities_outcome-kept)
        (done, state, (kept, caps, λ name. sorted_names-is_member name names, refl))
