-- ===== src/Events/Parse.antt =====
-- `parse_event` never fails on an event that the protocol layer accepted.
use macpony.Prelude.{String, ◌≡◌, refl, ◌⊎◌, inl, inr, some, [], ◌∷◌, arith, Option-cases}
use macpony.Prelude.Dict.{lookup}
use macpony.Prelude.Int.{pos}
use macpony.Json.{Json, int, float, str, obj, Fields, get, is_empty_list}
use macpony.Pydantic.{Validator, collect, Decls, extend, IsPydantic, decode_empty_object, one_of}
use macpony.Protocol.{RawEvent}
use macpony.Events.Table.{name_of, event_name-literal}
use macpony.Events.{
  EventClass, event_name, event_data, event_base, unknown_event, event_types, class_decls, MacEvent,
  dump_event, validate_class, parse_event,
}

-- A text that passes as the name of an event class is kept.
event_name-keeps :
    (validate : Validator)
    → IsPydantic validate
    → (c : EventClass) (t : String) (j : Json) → validate (event_name c) (str t) ≡ some j
    → j ≡ str t
event_name-keeps validate p c t j h = elim (event_name-literal c) [
  | inl (e, _) ↦ ground (arith, p.literal_text (name_of c ∷ []) t)
  | inr e ↦ ground (arith, p.str_text t)
]

module _ (validate : Validator) (p : IsPydantic validate) (raw : RawEvent) where
  -- The wire event as an `UnknownEvent`.
  validate_unknown :
      validate_class validate unknown_event (dump_event raw)
      ≡ some (record { event_class = unknown_event; fields = dump_event raw })
  unfolding validate_class dump_event collect get one_of decode_empty_object is_empty_list
  validate_unknown = ground (
    arith,
    p.model_before (class_decls unknown_event) (obj (dump_event raw)),
    p.model_dict (class_decls unknown_event) (dump_event raw),
    p.literal_int_int 1 (pos 1),
    p.literal_text ("event" ∷ []) "event",
    p.int_int raw.seq,
    p.str_text raw.event,
    p.float_float raw.timestamp,
    p.json_dict raw.payload,
  )

  -- The fields that the base class declares come back as they stand on the wire.
  abbrev Keeps : Fields → Type 0
  Keeps fs =
      (get "seq" fs ≡ some (int raw.seq))
      × (get "event" fs ≡ some (str raw.event))
      × (get "timestamp" fs ≡ some (float raw.timestamp))

  collect-Keeps :
      (c : EventClass) (ds : Decls) (fs : Fields)
      → collect validate (extend (event_base (event_name c)) ds) (dump_event raw) ≡ some fs
      → Keeps fs
  unfolding collect dump_event extend get one_of
  collect-Keeps c ds fs h = elim (Option-cases (validate (event_name c) (str raw.event))) [
    | inl e ↦ absurd (
        ground (
          arith,
          p.literal_int_int 1 (pos 1),
          p.literal_text ("event" ∷ []) "event",
          p.int_int raw.seq,
        ))
    | inr (j, e) ↦ ground (
      arith,
      event_name-keeps validate p c raw.event j e,
      p.literal_int_int 1 (pos 1),
      p.literal_text ("event" ∷ []) "event",
      p.int_int raw.seq,
      p.float_float raw.timestamp,
    )
  ]

  validate_class-Keeps :
      (c : EventClass) (e : MacEvent)
      → validate_class validate c (dump_event raw) ≡ some e
      → (e.event_class ≡ c) × Keeps e.fields
  unfolding validate_class class_decls decode_empty_object is_empty_list
  validate_class-Keeps c e h =
      elim (Option-cases (collect validate (class_decls c) (dump_event raw))) [
        | inl q ↦ absurd (
            ground (
              arith,
              p.model_before (class_decls c) (obj (dump_event raw)),
              p.model_dict (class_decls c) (dump_event raw),
            ))
        | inr (fs, q) ↦ ground (
          arith,
          collect-Keeps c (event_data c) fs q,
          p.model_before (class_decls c) (obj (dump_event raw)),
          p.model_dict (class_decls c) (dump_event raw),
        )
      ]

  abbrev as_unknown : MacEvent
  as_unknown = record { event_class = unknown_event; fields = dump_event raw }

  unknown-Keeps : Keeps (dump_event raw)
  unfolding dump_event get
  unknown-Keeps = (refl, refl, refl)

  -- Every event that the protocol layer accepts is parsed: `parse_event` raises nothing. The
  -- result has the sequence number, the name and the time of the wire event; it is an instance of
  -- the class that the table has for the name, or an `UnknownEvent` with all of the wire data.
  pub parse_event_total :
      (e : MacEvent) × (parse_event validate raw ≡ some e)
      × Keeps e.fields
      × ((lookup raw.event event_types ≡ some e.event_class)
          ⊎ ((e.event_class ≡ unknown_event) × (e.fields ≡ dump_event raw)))
  unfolding parse_event
  parse_event_total = elim (Option-cases (lookup raw.event event_types)) [
    | inl q ↦ (as_unknown, ground (arith, validate_unknown), unknown-Keeps, inr (refl, refl))
    | inr (c, q) ↦ elim (Option-cases (validate_class validate c (dump_event raw))) [
      | inl r ↦ (as_unknown, ground (arith, validate_unknown), unknown-Keeps, inr (refl, refl))
      | inr (e, r) ↦
          let (k, keeps) = validate_class-Keeps c e r in
          (e, ground arith, keeps, inl (ground arith))
    ]
  ]
