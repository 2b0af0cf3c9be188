-- ===== src/EventsClient/Subscribing.antt =====
-- The subscription methods of `EventsClient`. `call` enters as its outcome: the list of
-- subscriptions that the server returned, or the exception.
use macpony.Prelude.{
  String, Bool, true, false, not, Option, none, some, List, [], ◌∷◌, map, keep_if, if◌then◌else◌,
  str_eq,
}
use macpony.Errors.{Outcome, returned, raised}
use macpony.Json.{bool, str, arr, obj, Items, nil, cons, Fields, empty, field}
use macpony.Pydantic.{
  Annotation, str_type, bool_type, list_of, none_type, model, done, required, default,
}

pub record EventSubscription : Type 0 where
  pub event : String
  pub include_data : Bool

-- `extra="forbid"`
abbrev pub event_subscription : Annotation
event_subscription =
    model false true (required "event" str_type (default "include_data" bool_type (bool true) done))

-- `str | EventSubscription`
pub data Requested : Type 0 where
  named : String → Requested
  given : EventSubscription → Requested

unfoldable pub normalize : Requested → EventSubscription
normalize (named event) = record { event = event; include_data = true }
normalize (given subscription) = subscription

-- `[item.model_dump() for item in normalized]`
unfoldable pub dump_subscriptions : List EventSubscription → Items
dump_subscriptions [] = nil
dump_subscriptions (s ∷ ss) =
    cons (obj (field "event" (str s.event) (field "include_data" (bool s.include_data) empty)))
      (dump_subscriptions ss)

-- The parameters of a call with subscriptions.
unfoldable pub subscription_params : List EventSubscription → Fields
unfolding dump_subscriptions
subscription_params ss = field "subscriptions" (arr (dump_subscriptions ss)) empty

-- What one method sends: the RPC method, its parameters and its result type.
pub record Sent : Type 0 where
  pub method : String
  pub params : Fields
  pub result_type : Annotation

unfoldable pub subscribe_call : List Requested → Sent
unfolding normalize subscription_params
subscribe_call requested = record {
  method = "events.subscribe";
  params = subscription_params (map normalize requested);
  result_type = list_of event_subscription;
}

-- The rest of `subscribe`: the result, and the remembered list after it.
unfoldable pub subscribe_finish :
    Outcome (List EventSubscription)
    → List EventSubscription
    → Outcome (List EventSubscription) × List EventSubscription
subscribe_finish (returned result) remembered = (returned result, result)
subscribe_finish (raised e) remembered = (raised e, remembered)

unfoldable pub unsubscribe_call : List Requested → Sent
unfolding normalize subscription_params
unsubscribe_call requested = record {
  method = "events.unsubscribe";
  params = subscription_params (map normalize requested);
  result_type = none_type;
}

-- `item.event in remove`
unfoldable pub is_named : List EventSubscription → EventSubscription → Bool
is_named [] s = false
is_named (r ∷ rs) s = if str_eq r.event s.event then true else is_named rs s

unfoldable pub unsubscribe_finish :
    List Requested
    → Outcome (Unit {0})
    → List EventSubscription
    → Outcome (Unit {0}) × List EventSubscription
unfolding normalize is_named
unsubscribe_finish requested (returned _) remembered =
    (returned tt, keep_if (λ s. not (is_named (map normalize requested) s)) remembered)
unsubscribe_finish requested (raised e) remembered = (raised e, remembered)

unfoldable pub unsubscribe_all_call : Sent
unsubscribe_all_call = record {
  method = "events.unsubscribeAll";
  params = empty;
  result_type = none_type;
}

unfoldable pub unsubscribe_all_finish :
    Outcome (Unit {0}) → List EventSubscription → Outcome (Unit {0}) × List EventSubscription
unsubscribe_all_finish (returned _) remembered = (returned tt, [])
unsubscribe_all_finish (raised e) remembered = (raised e, remembered)

-- The rest of `get_subscriptions` is that of `subscribe`.
unfoldable pub get_subscriptions_call : Sent
get_subscriptions_call = record {
  method = "events.getSubscriptions";
  params = empty;
  result_type = list_of event_subscription;
}

-- `restore_subscriptions` sends nothing if nothing is remembered.
unfoldable pub restore_call : List EventSubscription → Option Sent
unfolding subscription_params
restore_call [] = none
restore_call (s ∷ ss) = some (record {
  method = "events.subscribe";
  params = subscription_params (s ∷ ss);
  result_type = list_of event_subscription;
})

-- The rest of `restore_subscriptions`.
unfoldable pub restore_finish :
    Outcome (List EventSubscription)
    → List EventSubscription
    → Outcome (Unit {0}) × List EventSubscription
restore_finish (returned result) remembered = (returned tt, result)
restore_finish (raised e) remembered = (raised e, remembered)
