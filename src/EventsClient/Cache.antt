-- ===== src/EventsClient/Cache.antt =====
-- The subscriptions that `EventsClient` remembers for the next connection.
use macpony.Prelude.{
  String, ◌≡◌, refl, Bool, true, false, ◌&&◌, not, List, [], ◌∷◌, map, keep_if, arith, str_eq,
  eq_iff, if◌then◌else◌,
}
use macpony.Errors.{returned}
use macpony.EventsClient.{EventSubscription, Requested, normalize, is_named, unsubscribe_finish}

-- Is an event of this name remembered?
unfoldable pub is_remembered : String → List EventSubscription → Bool
is_remembered event [] = false
is_remembered event (s ∷ ss) = if str_eq s.event event then true else is_remembered event ss

pub is_named-event :
    (rs : List EventSubscription) (s : EventSubscription) → is_named rs s ≡ is_remembered s.event rs
unfolding is_named is_remembered
is_named-event [] s = refl
is_named-event (r ∷ rs) s = ground (arith, is_named-event rs s)

keep-is_remembered :
    (rs ss : List EventSubscription) (event : String)
    → is_remembered event (keep_if (λ s. not (is_named rs s)) ss)
      ≡ (is_remembered event ss && not (is_remembered event rs))
unfolding is_remembered
keep-is_remembered rs [] event = refl
keep-is_remembered rs (s ∷ ss) event =
    ground (arith, is_named-event rs s, eq_iff s.event event, keep-is_remembered rs ss event)

-- After a successful `unsubscribe` exactly those event names are remembered that were before and
-- that the call did not name, as a text or as an `EventSubscription`.
unsubscribe_finish-is_remembered :
    (requested : List Requested) (remembered : List EventSubscription) (event : String)
    → is_remembered event (unsubscribe_finish requested (returned tt) remembered).1
      ≡ (is_remembered event remembered && not (is_remembered event (map normalize requested)))
unfolding unsubscribe_finish
unsubscribe_finish-is_remembered requested remembered event =
    keep-is_remembered (map normalize requested) remembered event
