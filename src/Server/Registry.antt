-- ===== src/Server/Registry.antt =====
-- Lookups in the server's registry: sorting keeps them, and the loops change the named keys only.
use macpony.Prelude.{
  String, ◌≡◌, refl, ap, ◌∙◌, inl, inr, Bool, Bool-cases, true, not, none, some, List, [], ◌∷◌,
  keep_if, arith, str_eq, eq_iff, if◌then◌else◌,
}
use macpony.Prelude.Dict.{
  Dict, lookup, insert, erase, IsDict, lookup-insert, lookup-erase_ne, lookup-erase_self,
  insert-IsDict, erase-IsDict,
}
use macpony.Json.{get}
use macpony.EventsClient.{EventSubscription, dump_subscriptions, is_named}
use macpony.EventsClient.Cache.{is_remembered, is_named-event}
use macpony.Server.Subscriptions.{
  add_items, remove_items, completed, is_before, insert_sorted, sorted, entry_items,
}

-- The list as a dict, and back.
abbrev pub entries : List EventSubscription → Dict Bool
entries [] = []
entries (s ∷ ss) = (s.event, s.include_data) ∷ entries ss

abbrev pub to_subscriptions : Dict Bool → List EventSubscription
to_subscriptions [] = []
to_subscriptions ((event, include_data) ∷ d) =
    record { event = event; include_data = include_data } ∷ to_subscriptions d

pub entries-to_subscriptions : (d : Dict Bool) → entries (to_subscriptions d) ≡ d
entries-to_subscriptions [] = refl
entries-to_subscriptions ((event, include_data) ∷ d) =
    ap (λ (l : Dict Bool). (event, include_data) ∷ l) (entries-to_subscriptions d)

pub dump-to_subscriptions :
    (d : Dict Bool) → dump_subscriptions (to_subscriptions d) ≡ entry_items d
unfolding dump_subscriptions entry_items
dump-to_subscriptions [] = refl
dump-to_subscriptions ((event, include_data) ∷ d) = ground (arith, dump-to_subscriptions d)

lookup-insert_sorted :
    (j k : String) (v : Bool) (d : Dict Bool)
    → lookup j d ≡ none
    → lookup k (insert_sorted j v d) ≡ (if str_eq j k then some v else lookup k d)
unfolding lookup insert_sorted
lookup-insert_sorted j k v [] h = refl
lookup-insert_sorted j k v ((i, w) ∷ d) h = elim (Bool-cases (is_before j i)) [
  | inl e ↦ rw e refl
  | inr e ↦ rw e (ground (arith, eq_iff i j, eq_iff i k, eq_iff j k, lookup-insert_sorted j k v d))
]

insert_sorted-IsDict :
    (j : String) (v : Bool) (d : Dict Bool)
    → lookup j d ≡ none
    → IsDict d
    → IsDict (insert_sorted j v d)
unfolding insert_sorted
insert_sorted-IsDict j v [] h k = (unfold lookup in refl, tt)
insert_sorted-IsDict j v ((i, w) ∷ d) h k = elim (Bool-cases (is_before j i)) [
  | inl e ↦ rw e (h, k)
  | inr e ↦ rw e (
    unfold lookup in ground (arith, eq_iff i j, eq_iff j i, k.0, lookup-insert_sorted j i v d),
    insert_sorted-IsDict j v d (unfold lookup in ground (arith, eq_iff i j)) k.1,
  )
]

pub sorted_lem :
    (d : Dict Bool)
    → IsDict d
    → IsDict (sorted d) × ((k : String) → lookup k (sorted d) ≡ lookup k d)
unfolding sorted lookup
sorted_lem [] h = (tt, λ k. refl)
sorted_lem ((j, v) ∷ d) h =
    let (dict, same) = sorted_lem d h.1 in
    let new = same j ∙ h.0 in
    (
      insert_sorted-IsDict j v (sorted d) new dict,
      λ k. lookup-insert_sorted j k v (sorted d) new ∙ ground (arith, same k),
    )

-- The registry after the loop of `subscribe` over a client's list.
pub add_items-dump :
    (ss : List EventSubscription) (d : Dict Bool)
    → IsDict d
    → let (is_valid, d') = add_items (dump_subscriptions ss) d in (is_valid ≡ true) × IsDict d'
unfolding add_items dump_subscriptions get
add_items-dump [] d h = (refl, h)
add_items-dump (s ∷ ss) d h = ground (
  arith,
  add_items-dump ss (insert s.event s.include_data d),
  insert-IsDict s.event s.include_data d h,
)

-- Under distinct names, what the loop of `subscribe` adds is what it finds afterwards.
pub lookup-add_items :
    (ss : List EventSubscription) (d : Dict Bool) (k : String)
    → IsDict (entries ss)
    → lookup k (add_items (dump_subscriptions ss) d).1
      ≡ (elim (lookup k (entries ss)) [ none ↦ lookup k d | some v ↦ some v ])
unfolding add_items dump_subscriptions get lookup
lookup-add_items [] d k h = refl
lookup-add_items (s ∷ ss) d k h = ground (
  arith,
  lookup-add_items ss (insert s.event s.include_data d) k h.1,
  lookup-insert s.event k s.include_data d,
  eq_iff s.event k,
)

pub remove_items-dump :
    (ss : List EventSubscription) (d : Dict Bool)
    → IsDict d
    → let (removal, d') = remove_items (dump_subscriptions ss) d in
      (removal ≡ completed) × IsDict d'
unfolding remove_items dump_subscriptions get
remove_items-dump [] d h = (refl, h)
remove_items-dump (s ∷ ss) d h =
    ground (arith, remove_items-dump ss (erase s.event d), erase-IsDict s.event d h)

pub lookup-remove_items :
    (ss : List EventSubscription) (d : Dict Bool) (k : String)
    → IsDict d
    → lookup k (remove_items (dump_subscriptions ss) d).1
      ≡ (if is_remembered k ss then none else lookup k d)
unfolding remove_items dump_subscriptions get is_remembered
lookup-remove_items [] d k h = refl
lookup-remove_items (s ∷ ss) d k h = ground (
  arith,
  lookup-remove_items ss (erase s.event d) k,
  erase-IsDict s.event d h,
  eq_iff s.event k,
  lookup-erase_ne s.event k d,
  lookup-erase_self s.event d h,
)

-- The client's filter, seen as a dict.
pub lookup-keep :
    (rs ss : List EventSubscription) (k : String)
    → lookup k (entries (keep_if (λ s. not (is_named rs s)) ss))
      ≡ (if is_remembered k rs then none else lookup k (entries ss))
unfolding lookup
lookup-keep rs [] k = ground arith
lookup-keep rs (s ∷ ss) k =
    ground (arith, is_named-event rs s, eq_iff s.event k, lookup-keep rs ss k)

pub keep-IsDict :
    (rs ss : List EventSubscription)
    → IsDict (entries ss)
    → IsDict (entries (keep_if (λ s. not (is_named rs s)) ss))
keep-IsDict rs [] h = tt
keep-IsDict rs (s ∷ ss) h = ground (arith, keep-IsDict rs ss h.1, lookup-keep rs ss s.event)
