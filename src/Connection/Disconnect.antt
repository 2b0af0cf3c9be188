-- ===== src/Connection/Disconnect.antt =====
-- Losing the transport fails every call that waits, and only those.
use macpony.Prelude.{
  ℕ, String, ◌≡◌, refl, ap, ◌∙◌, Bool, true, false, Option, none, some, List, [], ◌∷◌, arith, All,
  get_elem?, ◌==◌, if◌then◌else◌,
}
use macpony.Prelude.Dict.{Dict, lookup, erase}
use macpony.Errors.{Exception, raised}
use macpony.Pydantic.{Annotation, Validator}
use macpony.Connection.{
  SocketConnection, Future, waiting, failed, settle, fail_pending, drop_transport, Call, settled,
  finish_call, handle_disconnect,
}
use macpony.Connection.Registry.{
  IsFresh, IsDistinct, get_elem?-settle_ne, get_elem?-settle_self, settle-waits,
}
use macpony.Connection.Pieces.{IsValid, fail_pending-empty}
use macpony.Connection.Correlation.{IsWaiting}

-- Is this future registered under any id?
abbrev pub is_registered : Dict ℕ → ℕ → Bool
is_registered [] g = false
is_registered ((id, f) ∷ d) g = if f == g then true else is_registered d g

fresh-registered : (d : Dict ℕ) (g : ℕ) → IsFresh g d → is_registered d g ≡ false
fresh-registered [] g h = refl
fresh-registered ((id, f) ∷ d) g h = ground (arith, fresh-registered d g h.1)

fail_pending-futures :
    (e : Exception) (d p : Dict ℕ) (fs : List Future)
    → IsDistinct d
    → All (λ x. get_elem? fs x.1 ≡ some waiting) d
    → (g : ℕ)
    → get_elem? (fail_pending e d p fs).1 g
      ≡ (if is_registered d g then some (failed e) else get_elem? fs g)
unfolding fail_pending
fail_pending-futures e [] p fs k h g = refl
fail_pending-futures e ((id, f) ∷ d) p fs k h g =
    let rest =
      fail_pending-futures e d (erase id p) (settle f (failed e) fs) k.1
        (settle-waits f (failed e) fs d k.0 h.1) g in
    ground (
      arith,
      rest,
      fresh-registered d f k.0,
      get_elem?-settle_self f (failed e) fs h.0,
      get_elem?-settle_ne f g (failed e) fs,
    )

-- Losing the transport leaves no writer, no reader, no reader task and no registered call, and
-- clears the connected event. Exactly the futures that were registered fail, with the error given;
-- every other future is as before.
pub drop_transport-fails_pending :
    (current : Option ℕ) (e : Exception) (s : SocketConnection)
    → IsValid s
    → (g : ℕ)
    → let s' = drop_transport current e s in
      (s'.pending ≡ [])
      × (s'.writer ≡ none)
      × (s'.reader ≡ none)
      × (s'.reader_task ≡ none)
      × (s'.connected_event ≡ false)
      × (get_elem? s'.futures g
          ≡ (if is_registered s.pending g then some (failed e) else get_elem? s.futures g))
unfolding drop_transport
drop_transport-fails_pending current e s v g = (
  fail_pending-empty e s.pending s.futures,
  refl,
  refl,
  refl,
  refl,
  fail_pending-futures e s.pending s.pending s.futures v.calls_register.distinct
      v.calls_register.waits g,
)

lookup-registered :
    (id : String) (f : ℕ) (d : Dict ℕ) → lookup id d ≡ some f → is_registered d f ≡ true
unfolding lookup
lookup-registered id f [] h = cc
lookup-registered id f ((j, g) ∷ d) h = ground (arith, lookup-registered id f d)

handle_disconnect-futures :
    (current : Option ℕ) (e : Exception) (s : SocketConnection)
    → (handle_disconnect current e s).futures ≡ (drop_transport current e s).futures
unfolding handle_disconnect
handle_disconnect-futures current e s = ground arith

-- A call that waits when the transport is lost ends with the error of the loss, not with a timeout.
pub finish_call-lost :
    (validate : Validator) (a : Annotation) (current : Option ℕ) (e : Exception) (c : Call)
    (s : SocketConnection)
    → IsValid s
    → IsWaiting c.request.id c.future s
    → (finish_call validate a settled c (handle_disconnect current e s)).0 ≡ some (raised e)
unfolding finish_call
finish_call-lost validate a current e c s v w =
    let failed_future =
      ap (λ (l : List Future). get_elem? l c.future) (handle_disconnect-futures current e s)
      ∙ (drop_transport-fails_pending current e s v c.future).5 in
    ground (arith, failed_future, lookup-registered c.request.id c.future s.pending w.entry)
