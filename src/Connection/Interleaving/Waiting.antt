-- ===== src/Connection/Interleaving/Waiting.antt =====
-- What the pieces leave of a call that waits.
use Prim.Native.String.{count}
use macpony.Prelude.{
  ℕ, ◌+◌, String, ◌≡◌, sym, ap, ◌∙◌, ◌≢◌, inl, inr, Option, none, some, List, [], ◌∷◌, arith,
  length, Option-cases, Option-rule, if-rule, get_elem?, get_elem?-append, eq_iff,
}
use macpony.Prelude.Dict.{lookup, erase, lookup-insert, lookup-erase_ne}
use macpony.Errors.{Outcome}
use macpony.Json.{Fields}
use macpony.Events.{parse_event}
use macpony.Pydantic.{Validator}
use macpony.Protocol.{WireMessage, response, event, protocol_error}
use macpony.Connection.{
  SocketConnection, Future, waiting, Call, Writing, drained, may_call, register, begin_call,
  write_request, begin_write, end_write, pop_and_settle, handle_message,
}
use macpony.Connection.Ids.{request_id}
use macpony.Connection.Registry.{lookup-fresh, IsDistinct-lookup}
use macpony.Connection.Pieces.{IsValid}
use macpony.Connection.Correlation.{IsWaiting, pop_and_settle_lem}
use macpony.Connection.Steps.{
  Action, calls, writes, begins_write, ends_write, waits, reads, refuses_connect, finishes_connect,
  starts_disconnect, finishes_reconnect, ends_close, IsProper,
}

-- The action is not about this id, but for the end of its write, and does not take the transport
-- down.
abbrev pub IsQuiet : String → Action → Type 0
IsQuiet id (calls random method params) = count random ≡ 8
IsQuiet id (writes w c) = c.request.id ≢ id
IsQuiet id (begins_write c) = c.request.id ≢ id
IsQuiet id (ends_write drained c) = Unit {0}
IsQuiet id (ends_write w c) = c.request.id ≢ id
IsQuiet id (waits a w c) = c.request.id ≢ id
IsQuiet id (reads (response m)) = m.id ≢ id
IsQuiet id (reads (event e)) = Unit {0}
IsQuiet id (reads (protocol_error m)) = m.id ≢ some id
IsQuiet id refuses_connect = ⊥
IsQuiet id (finishes_connect none) = Unit {0}
IsQuiet id (finishes_connect (some e)) = ⊥
IsQuiet id (starts_disconnect current e) = ⊥
IsQuiet id (finishes_reconnect none) = Unit {0}
IsQuiet id (finishes_reconnect (some e)) = ⊥
IsQuiet id ends_close = ⊥
IsQuiet id _ = Unit {0}

pub IsQuiet-IsProper : (id : String) (a : Action) → IsQuiet id a → IsProper a
IsQuiet-IsProper id (calls random method params) h = h
IsQuiet-IsProper id _ h = tt

module _ (id : String) (f : ℕ) where
  pub register-keeps :
      (w : ℕ) (random method : String) (p : Fields) (s : SocketConnection)
      → count random ≡ 8
      → IsValid s
      → IsWaiting id f s
      → IsWaiting id f (register w random method p s).1
  unfolding register
  register-keeps w random method p s k v h =
      let new = lookup-fresh s.request_counter random s.pending k v.calls_register.ids in
      let id' = request_id (s.request_counter + 1) random in
      record {
        entry =
            ground (
              arith,
              h.entry,
              new,
              lookup-insert id' id (length s.futures) s.pending,
              eq_iff id' id,
            );
        future = get_elem?-append s.futures (waiting ∷ []) f waiting h.future;
      }

  pub begin_call-keeps :
      (random method : String) (params : Option Fields) (s : SocketConnection)
      → count random ≡ 8
      → IsValid s
      → IsWaiting id f s
      → IsWaiting id f (begin_call random method params s).1
  unfolding begin_call
  begin_call-keeps random method params s k v h =
      Option-rule (λ (r : Outcome Call × SocketConnection). IsWaiting id f r.1) s.writer _ _
        (λ _. h)
        λ w e.
          if-rule (λ (r : Outcome Call × SocketConnection). IsWaiting id f r.1) (may_call s.state) _
            _
            (λ q.
              Option-rule (λ (r : Outcome Call × SocketConnection). IsWaiting id f r.1) params _ _
                (λ _. register-keeps w random method Fields.empty s k v h)
                (λ p _. register-keeps w random method p s k v h))
            (λ _. h)

  pub erase-keeps :
      (j : String) (s : SocketConnection)
      → j ≢ id
      → lookup id s.pending ≡ some f
      → lookup id (erase j s.pending) ≡ some f
  erase-keeps j s ne h = lookup-erase_ne j id s.pending (λ e. ne (sym e)) ∙ h

  pub write_request-keeps :
      (w : Writing) (c : Call) (s : SocketConnection)
      → c.request.id ≢ id
      → IsWaiting id f s
      → IsWaiting id f (write_request w c s).1
  unfolding write_request
  write_request-keeps w c s ne h = record {
    entry = ground (arith, erase-keeps c.request.id s ne h.entry);
    future = ground arith;
  }

  pub begin_write-keeps :
      (c : Call) (s : SocketConnection)
      → c.request.id ≢ id
      → IsWaiting id f s
      → IsWaiting id f (begin_write c s).1
  unfolding begin_write
  begin_write-keeps c s ne h = record {
    entry = ground (arith, erase-keeps c.request.id s ne h.entry);
    future = ground arith;
  }

  pub end_write-keeps :
      (w : Writing) (c : Call) (s : SocketConnection)
      → c.request.id ≢ id
      → IsWaiting id f s
      → IsWaiting id f (end_write w c s).1
  unfolding end_write
  end_write-keeps w c s ne h = record {
    entry = ground (arith, erase-keeps c.request.id s ne h.entry);
    future = ground arith;
  }

  pop_and_settle-keeps :
      (j : String) (u : Future) (s : SocketConnection)
      → IsValid s
      → j ≢ id
      → IsWaiting id f s
      → IsWaiting id f (pop_and_settle j u s)
  pop_and_settle-keeps j u s v ne h =
      let k = pop_and_settle_lem j u s v id f in
      record {
        entry = ground (arith, k.0, eq_iff j id, h.entry);
        future = elim (Option-cases (lookup j s.pending)) [
          | inl e ↦ ground (arith, k.1, h.future)
          | inr (g, e) ↦ ground (
            arith,
            k.1,
            h.future,
            IsDistinct-lookup id j f g s.pending v.calls_register.distinct (λ q. ne (sym q)) h.entry
                e,
          )
        ];
      }

  pub handle_message-keeps :
      (validate : Validator) (m : WireMessage) (s : SocketConnection)
      → IsValid s
      → IsQuiet id (reads m)
      → IsWaiting id f s
      → IsWaiting id f (handle_message validate m s)
  unfolding handle_message
  handle_message-keeps validate (response m) s v q h = pop_and_settle-keeps m.id _ s v q h
  handle_message-keeps validate (event raw) s v q h =
      Option-rule (IsWaiting id f) (parse_event validate raw) _ _ (λ _. h)
        λ e _. record { entry = h.entry; future = h.future }
  handle_message-keeps validate (protocol_error m) s v q h =
      Option-rule (IsWaiting id f) m.id _ _ (λ _. h)
        λ j e. pop_and_settle-keeps j _ s v (λ r. q (e ∙ ap some r)) h

  pub same_calls :
      (s t : SocketConnection)
      → t.pending ≡ s.pending
      → t.futures ≡ s.futures
      → IsWaiting id f s
      → IsWaiting id f t
  same_calls s t p q h = record {
    entry = ap (lookup id) p ∙ h.entry;
    future = ap (λ (l : List Future). get_elem? l f) q ∙ h.future;
  }
