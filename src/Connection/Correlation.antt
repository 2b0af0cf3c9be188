-- ===== src/Connection/Correlation.antt =====
-- Each response reaches the call that waits for it, and no other.
use text.Mathlib.TextPositions.{eq_refl}
use macpony.Prelude.{
  if◌then◌else◌, ◌==◌, ℕ, ◌+◌, String, ◌≡◌, inl, inr, Bool, true, false, none, some, arith, length,
  Option-cases, get_elem?, get_elem?-append_end, str_eq, eq_iff,
}
use macpony.Prelude.Dict.{
  Dict, lookup, lookup-insert, lookup-erase_ne, lookup-erase_self, lookup-All,
}
use macpony.Errors.{returned}
use macpony.Json.{Fields}
use macpony.Pydantic.{Annotation, Validator}
use macpony.Protocol.{ResponseEnvelope, response}
use macpony.Connection.{
  SocketConnection, Future, waiting, resolved, Call, settled, may_call, register, begin_call,
  finish_response, finish_call, pop_and_settle, handle_message,
}
use macpony.Connection.Ids.{request_id}
use macpony.Connection.Registry.{get_elem?-settle_ne, get_elem?-settle_self}
use macpony.Connection.Pieces.{IsValid}

-- The call's id leads to its future, and that future is not done.
pub record IsWaiting (id : String) (f : ℕ) (s : SocketConnection) : Type 0 where
  pub entry : lookup id s.pending ≡ some f
  pub future : get_elem? s.futures f ≡ some waiting

-- In a valid state an entry of the register waits.
entry-IsWaiting :
    (id : String) (f : ℕ) (s : SocketConnection)
    → IsValid s
    → lookup id s.pending ≡ some f
    → IsWaiting id f s
entry-IsWaiting id f s v e = record {
  entry = e;
  future =
      lookup-All (λ i g. get_elem? s.futures g ≡ some waiting) id f s.pending v.calls_register.waits
        e;
}

-- A call that is admitted is registered: it waits for a response, under a new id.
begin_call-IsWaiting :
    (random method : String) (p : Fields) (w : ℕ) (s : SocketConnection)
    → s.writer ≡ some w
    → may_call s.state ≡ true
    → (c : Call) × ((begin_call random method (some p) s).0 ≡ returned c)
      × (c.request
          ≡ record { id = request_id (s.request_counter + 1) random; method = method; params = p })
      × IsWaiting c.request.id c.future (begin_call random method (some p) s).1
unfolding begin_call
begin_call-IsWaiting random method p w s e q =
    let id = request_id (s.request_counter + 1) random in
    (
      (register w random method p s).0,
      ground arith,
      ground arith,
      record {
        entry = ground (arith, lookup-insert id id (length s.futures) s.pending, eq_refl id);
        future = ground (arith, get_elem?-append_end s.futures waiting);
      },
    )

-- Is this future registered under this id?
abbrev pub is_owner : Dict ℕ → String → ℕ → Bool
is_owner pending id g = elim (lookup id pending) [ none ↦ false | some f ↦ f == g ]

pub pop_and_settle_lem :
    (id : String) (v : Future) (s : SocketConnection)
    → IsValid s
    → (j : String) (g : ℕ)
    → (lookup j (pop_and_settle id v s).pending
        ≡ (if str_eq id j then none else lookup j s.pending))
      × (get_elem? (pop_and_settle id v s).futures g
          ≡ (if is_owner s.pending id g then some v else get_elem? s.futures g))
unfolding pop_and_settle
pop_and_settle_lem id v s valid j g = elim (Option-cases (lookup id s.pending)) [
  | inl e ↦ (ground (arith, eq_iff id j), ground arith)
  | inr (f, e) ↦
      let w = entry-IsWaiting id f s valid e in
      (
        ground (
          arith,
          eq_iff id j,
          lookup-erase_self id s.pending valid.calls_register.keys,
          lookup-erase_ne id j s.pending,
        ),
        ground (
          arith,
          w.future,
          get_elem?-settle_self f v s.futures,
          get_elem?-settle_ne f g v s.futures,
        ),
      )
]

-- A response settles the future that is registered under its id, and takes the id out of the
-- register. Every other id and every other future is as before, also if the id is unknown.
handle_response :
    (validate : Validator) (m : ResponseEnvelope) (s : SocketConnection)
    → IsValid s
    → (j : String) (g : ℕ)
    → let s' = handle_message validate (response m) s in
      (lookup j s'.pending ≡ (if str_eq m.id j then none else lookup j s.pending))
      × (get_elem? s'.futures g
          ≡ (if is_owner s.pending m.id g then some (resolved m) else get_elem? s.futures g))
unfolding handle_message
handle_response validate m s valid j g = pop_and_settle_lem m.id (resolved m) s valid j g

-- A call is answered by the response with its id: the wait ends with what `call` makes of that
-- response, and the call is registered no more.
pub finish_call-response :
    (validate : Validator) (a : Annotation) (m : ResponseEnvelope) (c : Call) (s : SocketConnection)
    → IsValid s
    → IsWaiting c.request.id c.future s
    → m.id ≡ c.request.id
    → let s' = handle_message validate (response m) s in
      ((finish_call validate a settled c s').0
        ≡ some (finish_response validate c.request.method a m))
      × (lookup c.request.id s'.pending ≡ none)
unfolding finish_call
finish_call-response validate a m c s valid w e =
    let h = handle_response validate m s valid c.request.id c.future in
    ground (arith, h.0, h.1, w.entry, eq_iff m.id c.request.id)
