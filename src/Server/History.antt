-- ===== src/Server/History.antt =====
-- The calls on subscriptions, with the registry of the server and the list of the client.
use macpony.Prelude.{Bool, Option, none, some, List, [], ◌∷◌}
use macpony.Prelude.Dict.{Dict}
use macpony.Errors.{Outcome, returned, raised, protocol, invalid_result, rpc_exception}
use macpony.Json.{Json, obj}
use macpony.EventsClient.{
  EventSubscription, Requested, subscribe_call, subscribe_finish, unsubscribe_call,
  unsubscribe_finish, unsubscribe_all_finish, restore_call, restore_finish,
}
use macpony.Server.Dispatch.{Handled, raises, returns, fails, or_else}
use macpony.Server.Subscriptions.{subscribe, unsubscribe, unsubscribe_all, get_subscriptions}

-- The server's registry and the client's remembered list.
pub record Both : Type 0 where
  pub registry : Dict Bool
  pub remembered : List EventSubscription

abbrev pub at_start : Both
at_start = record { registry = []; remembered = [] }

-- What the application does with the subscriptions. With `reconnects` the server drops those of the
-- client that left, and the client restores them.
pub data Change : Type 0 where
  subscribes unsubscribes : List Requested → Change
  unsubscribes_all refreshes reconnects : Change

-- The outcome of a call, from what the handler did; `parse` is what pydantic makes of the result.
abbrev pub list_outcome :
    (Json → Option (List EventSubscription)) → Handled → Outcome (List EventSubscription)
list_outcome parse (returns j) = elim (parse j) [
  | none ↦ raised (protocol invalid_result)
  | some l ↦ returned l
]
list_outcome parse (raises m) = raised (rpc_exception "INTERNAL_ERROR" m)
list_outcome parse (fails code m) =
    raised (rpc_exception (or_else code "INVALID_PARAMS") (or_else m "request failed"))

abbrev pub unit_outcome : Handled → Outcome (Unit {0})
unit_outcome (returns j) = returned tt
unit_outcome (raises m) = raised (rpc_exception "INTERNAL_ERROR" m)
unit_outcome (fails code m) =
    raised (rpc_exception (or_else code "INVALID_PARAMS") (or_else m "request failed"))

-- A change whose call is answered: the server's handler and the rest of the client's method.
unfoldable pub change : (Json → Option (List EventSubscription)) → Change → Both → Both
change parse (subscribes requested) b =
    let (handled, registry) = subscribe (obj (subscribe_call requested).params) b.registry in
    record {
      registry = registry;
      remembered = (subscribe_finish (list_outcome parse handled) b.remembered).1;
    }
change parse (unsubscribes requested) b =
    let (handled, registry) = unsubscribe (obj (unsubscribe_call requested).params) b.registry in
    record {
      registry = registry;
      remembered = (unsubscribe_finish requested (unit_outcome handled) b.remembered).1;
    }
change parse unsubscribes_all b =
    let (handled, registry) = unsubscribe_all b.registry in
    record {
      registry = registry;
      remembered = (unsubscribe_all_finish (unit_outcome handled) b.remembered).1;
    }
change parse refreshes b =
    let (handled, registry) = get_subscriptions b.registry in
    record {
      registry = registry;
      remembered = (subscribe_finish (list_outcome parse handled) b.remembered).1;
    }
change parse reconnects b = elim (restore_call b.remembered) [
  | none ↦ record b { registry = [] }
  | some sent ↦
      let (handled, registry) = subscribe (obj sent.params) [] in
      record {
        registry = registry;
        remembered = (restore_finish (list_outcome parse handled) b.remembered).1;
      }
]

unfoldable pub changes : (Json → Option (List EventSubscription)) → List Change → Both → Both
unfolding change
changes parse [] b = b
changes parse (c ∷ cs) b = changes parse cs (change parse c b)
