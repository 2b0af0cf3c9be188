-- ===== src/Server/Mirror.antt =====
-- The subscriptions that the client remembers against those that the server holds.
use macpony.Prelude.{
  String, ◌≡◌, refl, sym, ap, ◌∙◌, Bool, not, Option, some, List, [], ◌∷◌, map, keep_if, arith,
}
use mathlib.Core.Path.{subst}
use macpony.Prelude.Dict.{Dict, lookup, IsDict}
use macpony.Errors.{returned}
use macpony.Json.{Json, null, arr, obj, get}
use macpony.EventsClient.{
  EventSubscription, Requested, normalize, is_named, dump_subscriptions, subscription_params,
  subscribe_call, subscribe_finish, unsubscribe_call, unsubscribe_finish, unsubscribe_all_finish,
  restore_call, restore_finish,
}
use macpony.Server.Dispatch.{returns}
use macpony.Server.Subscriptions.{
  matches, add_items, remove_items, sorted, entry_items, subscribe, unsubscribe, unsubscribe_all,
  get_subscriptions,
}
use macpony.Server.Registry.{
  entries, to_subscriptions, entries-to_subscriptions, dump-to_subscriptions, sorted_lem,
  add_items-dump, lookup-add_items, remove_items-dump, lookup-remove_items, lookup-keep,
  keep-IsDict,
}
use macpony.Server.Matching.{matches-lookup}
use macpony.Server.History.{
  Both, at_start, Change, subscribes, unsubscribes, unsubscribes_all, refreshes, reconnects,
  list_outcome, change, changes,
}

-- Both sides hold the same subscriptions, each name once.
record IsMirror (b : Both) : Type 0 where
  server : IsDict b.registry
  client : IsDict (entries b.remembered)
  same : (k : String) → lookup k (entries b.remembered) ≡ lookup k b.registry

module _ (parse : Json → Option (List EventSubscription))
    (parses : (ss : List EventSubscription) → parse (arr (dump_subscriptions ss)) ≡ some ss) where
  -- The result of the server, as the client takes it.
  parse-sorted :
      (d : Dict Bool) → parse (arr (entry_items (sorted d))) ≡ some (to_subscriptions (sorted d))
  parse-sorted d =
      ap (λ items. parse (arr items)) (sym (dump-to_subscriptions (sorted d)))
      ∙ parses (to_subscriptions (sorted d))

  sorted-IsMirror :
      (d : Dict Bool)
      → IsDict d
      → IsMirror (record { registry = d; remembered = to_subscriptions (sorted d) })
  sorted-IsMirror d h =
      let (dict, same) = sorted_lem d h in
      record {
        server = h;
        client = rw (entries-to_subscriptions (sorted d)) dict;
        same = λ k. ap (lookup k) (entries-to_subscriptions (sorted d)) ∙ same k;
      }

  -- `subscribe` with a client's list succeeds, and gives the client the sorted registry.
  subscribe-dump :
      (ss : List EventSubscription) (d : Dict Bool)
      → IsDict d
      → let d' = (add_items (dump_subscriptions ss) d).1 in
        (list_outcome parse (subscribe (obj (subscription_params ss)) d).0
          ≡ returned (to_subscriptions (sorted d')))
        × ((subscribe (obj (subscription_params ss)) d).1 ≡ d')
  unfolding subscribe subscription_params get
  subscribe-dump ss d h =
      ground (arith, add_items-dump ss d h, parse-sorted (add_items (dump_subscriptions ss) d).1)

  -- Both sides after the server's answer to a list of the client.
  abbrev synced : Dict Bool → Both
  synced d = record { registry = d; remembered = to_subscriptions (sorted d) }

  subscribes-IsMirror :
      (requested : List Requested) (b : Both)
      → IsMirror b
      → IsMirror (change parse (subscribes requested) b)
  unfolding change subscribe_call subscribe_finish
  subscribes-IsMirror requested b h =
      let ss = map normalize requested in
      let d = (add_items (dump_subscriptions ss) b.registry).1 in
      let e = subscribe-dump ss b.registry h.server in
      let after : change parse (subscribes requested) b ≡ synced d = ground (arith, e) in
      subst IsMirror (sym after) (sorted-IsMirror d (add_items-dump ss b.registry h.server).1)

  unsubscribe-dump :
      (ss : List EventSubscription) (d : Dict Bool)
      → IsDict d
      → unsubscribe (obj (subscription_params ss)) d
        ≡ (returns null, (remove_items (dump_subscriptions ss) d).1)
  unfolding unsubscribe subscription_params get
  unsubscribe-dump ss d h = ground (arith, remove_items-dump ss d h)

  unsubscribes-IsMirror :
      (requested : List Requested) (b : Both)
      → IsMirror b
      → IsMirror (change parse (unsubscribes requested) b)
  unfolding change unsubscribe_call unsubscribe_finish
  unsubscribes-IsMirror requested b h =
      let rs = map normalize requested in
      let d = (remove_items (dump_subscriptions rs) b.registry).1 in
      let left = keep_if (λ s. not (is_named rs s)) b.remembered in
      let after : change parse (unsubscribes requested) b
          ≡ record { registry = d; remembered = left } =
        ground (arith, unsubscribe-dump rs b.registry h.server) in
      subst IsMirror (sym after) (record {
        server = (remove_items-dump rs b.registry h.server).1;
        client = keep-IsDict rs b.remembered h.client;
        same = λ k. ground (
          arith,
          lookup-keep rs b.remembered k,
          lookup-remove_items rs b.registry k h.server,
          h.same k,
        );
      })

  refreshes-IsMirror : (b : Both) → IsMirror b → IsMirror (change parse refreshes b)
  unfolding change get_subscriptions subscribe_finish
  refreshes-IsMirror b h =
      let after : change parse refreshes b ≡ synced b.registry =
        ground (arith, parse-sorted b.registry) in
      subst IsMirror (sym after) (sorted-IsMirror b.registry h.server)

  -- What the server holds after the client has restored its list.
  restored : List EventSubscription → Dict Bool
  restored ss = (add_items (dump_subscriptions ss) []).1

  reconnects-synced :
      (d : Dict Bool) (ss : List EventSubscription)
      → change parse reconnects (record { registry = d; remembered = ss }) ≡ synced (restored ss)
  unfolding change restore_call restore_finish restored
  reconnects-synced d [] = unfold add_items dump_subscriptions sorted in refl
  reconnects-synced d (s ∷ ss) = ground (arith, subscribe-dump (s ∷ ss) [] tt)

  restored-IsDict : (ss : List EventSubscription) → IsDict (restored ss)
  unfolding restored
  restored-IsDict ss = (add_items-dump ss [] tt).1

  lookup-restored :
      (b : Both)
      → IsMirror b
      → (k : String) → lookup k (restored b.remembered) ≡ lookup k b.registry
  unfolding restored lookup
  lookup-restored b h k = ground (arith, lookup-add_items b.remembered [] k h.client, h.same k)

  change-IsMirror : (c : Change) (b : Both) → IsMirror b → IsMirror (change parse c b)
  change-IsMirror (subscribes requested) b h = subscribes-IsMirror requested b h
  change-IsMirror (unsubscribes requested) b h = unsubscribes-IsMirror requested b h
  change-IsMirror unsubscribes_all b h =
      unfold change unsubscribe_all unsubscribe_all_finish in
      record { server = tt; client = tt; same = λ k. refl }
  change-IsMirror refreshes b h = refreshes-IsMirror b h
  change-IsMirror reconnects b h =
      subst IsMirror (sym (reconnects-synced b.registry b.remembered))
        (sorted-IsMirror (restored b.remembered) (restored-IsDict b.remembered))

  changes-IsMirror : (cs : List Change) (b : Both) → IsMirror b → IsMirror (changes parse cs b)
  unfolding changes
  changes-IsMirror [] b h = h
  changes-IsMirror (c ∷ cs) b h = changes-IsMirror cs (change parse c b) (change-IsMirror c b h)

  -- After any history of answered calls to subscribe, unsubscribe and refresh and of reconnections,
  -- the client remembers exactly the subscriptions that the server holds, each with its
  -- `include_data`; and one more reconnection, at which the server forgets them all and the client
  -- sends what it remembers, gives the server every one of them back and no other, so that it
  -- matches the same events as before. The condition is that pydantic reads a list of
  -- subscriptions from its dump.
  pub changes_mirror :
      (cs : List Change) (event : String)
      → let b = changes parse cs at_start in
        (lookup event (entries b.remembered) ≡ lookup event b.registry)
        × (lookup event (change parse reconnects b).registry ≡ lookup event b.registry)
        × (matches event (change parse reconnects b).registry ≡ matches event b.registry)
  changes_mirror cs event =
      let b = changes parse cs at_start in
      let h =
        changes-IsMirror cs at_start (record { server = tt; client = tt; same = λ k. refl }) in
      let same : (k : String)
          → lookup k (change parse reconnects b).registry ≡ lookup k b.registry =
        λ k.
          ap (λ (c : Both). lookup k c.registry) (reconnects-synced b.registry b.remembered)
          ∙ lookup-restored b h k in
      (
        h.same event,
        same event,
        matches-lookup event (change parse reconnects b).registry b.registry same,
      )
