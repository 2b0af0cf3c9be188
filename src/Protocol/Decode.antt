-- ===== src/Protocol/Decode.antt =====
-- What `decode_message` accepts.
use macpony.Prelude.{
  Option, ℕ, ◌≤◌, String, ◌≡◌, refl, ◌≢◌, ◌⊎◌, Bool, false, none, some, List, [], ◌∷◌, arith,
  length, Option-cases, eq_iff, str_eq,
}
use macpony.Prelude.Int.{ℤ, pos}
use macpony.Constants.{max_line_bytes}
use macpony.Errors.{returned}
use macpony.Json.{
  Float, Json, null, bool, int, float, str, arr, obj, nil, Fields, empty, field, get, put, is_text,
  is_empty_list, is_null,
}
use macpony.Pydantic.{model, Validator, collect, IsPydantic, one_of}
use macpony.Protocol.{
  error_info, response_envelope, raw_event, response, event, Loads, loaded, as_error, validated,
  normalize_data, decode_message, or_null,
}

get-put_ne : (k j : String) (v : Json) (fs : Fields) → k ≢ j → get j (put k v fs) ≡ get j fs
unfolding get put
get-put_ne k j v empty h = ground (arith, eq_iff k j)
get-put_ne k j v (field i w fs) h = ground (arith, eq_iff i k, eq_iff i j, get-put_ne k j v fs h)

get-put_self : (k : String) (v : Json) (fs : Fields) → get k (put k v fs) ≡ some v
unfolding get put
get-put_self k v empty = ground (arith, eq_iff k k)
get-put_self k v (field i w fs) = ground (arith, eq_iff i k, get-put_self k v fs)

-- Only the "data" field changes, and `[]` there becomes `{}`.
get-normalize_data : (j : String) (fs : Fields) → "data" ≢ j → get j (normalize_data fs) ≡ get j fs
unfolding normalize_data
get-normalize_data j fs h =
    ground (arith, get-put_ne "data" j (obj empty) fs h, Option-cases (get "data" fs))

normalize_data-data :
    (fs d : Fields) (j : Json)
    → get "data" fs ≡ some j
    → (j ≡ obj d) ⊎ ((j ≡ arr nil) × (d ≡ empty))
    → get "data" (normalize_data fs) ≡ some (obj d)
unfolding normalize_data is_empty_list
normalize_data-data fs d j e h = ground (arith, get-put_self "data" (obj empty) fs)

differ : (k : String) → str_eq "data" k ≡ false → "data" ≢ k
differ k h e = ground (arith, eq_iff "data" k)

module _ (validate : Validator) (p : IsPydantic validate) (loads : List ℕ → Loads) (line : List ℕ)
    (fs : Fields) (short : length line ≤ max_line_bytes) (text : loads line ≡ loaded (obj fs))
    (version : get "v" fs ≡ some (int (pos 1))) where
  -- A record within the size limit that is a version-1 response with a text id, a boolean `ok` and no
  -- error decodes to that response, with a missing result as null, whatever other fields it has.
  pub decode_message-response :
      (i : String) (b : Bool) (o : Option Json)
      → get "type" fs ≡ some (str "response")
      → get "id" fs ≡ some (str i)
      → get "ok" fs ≡ some (bool b)
      → get "result" fs ≡ o
      → get "error" fs ≡ none
      → decode_message loads validate line
        ≡ returned (response (record { id = i; ok = b; result = or_null o; error = none }))
  unfolding decode_message validated collect one_of is_text as_error get
  decode_message-response i b none t ei eb er ee = ground (
    arith,
    p.model_dict response_envelope fs,
    p.literal_int_int 1 (pos 1),
    p.str_text i,
    p.literal_text ("response" ∷ []) "response",
    p.bool_bool b,
  )
  decode_message-response i b (some r) t ei eb er ee = ground (
    arith,
    p.model_dict response_envelope fs,
    p.literal_int_int 1 (pos 1),
    p.str_text i,
    p.literal_text ("response" ∷ []) "response",
    p.bool_bool b,
    p.any_any r,
  )

  -- A version-1 response with an error and no result decodes to the code and the message of the
  -- error.
  pub decode_message-error_response :
      (i : String) (b : Bool) (e : Fields) (c m : String)
      → get "type" fs ≡ some (str "response")
      → get "id" fs ≡ some (str i)
      → get "ok" fs ≡ some (bool b)
      → get "result" fs ≡ none
      → get "error" fs ≡ some (obj e)
      → get "code" e ≡ some (str c)
      → get "message" e ≡ some (str m)
      → decode_message loads validate line
        ≡ returned (
            response (record {
              id = i;
              ok = b;
              result = null;
              error = some (record { code = c; message = m });
            }))
  unfolding decode_message validated collect one_of is_text as_error get
  decode_message-error_response i b e c m t ei eb er ee ec em = ground (
    arith,
    p.model_dict response_envelope fs,
    p.literal_int_int 1 (pos 1),
    p.str_text i,
    p.literal_text ("response" ∷ []) "response",
    p.bool_bool b,
    p.optional_other (model false false error_info) (obj e) (unfold is_null in refl),
    p.model_dict error_info e,
    p.str_text c,
    p.str_text m,
  )

  -- A version-1 event decodes to its sequence number, name, time and data, and a list `[]` in
  -- place of the data stands for the empty object.
  pub decode_message-event :
      (n : ℤ) (name : String) (x : Float) (j : Json) (d : Fields)
      → get "type" fs ≡ some (str "event")
      → get "seq" fs ≡ some (int n)
      → get "event" fs ≡ some (str name)
      → get "timestamp" fs ≡ some (float x)
      → get "data" fs ≡ some j
      → (j ≡ obj d) ⊎ ((j ≡ arr nil) × (d ≡ empty))
      → decode_message loads validate line
        ≡ returned (event (record { seq = n; event = name; timestamp = x; payload = d }))
  unfolding decode_message validated collect one_of is_text get
  decode_message-event n name x j d t en ee ex ej h = ground (
    arith,
    p.model_dict raw_event (normalize_data fs),
    get-normalize_data "v" fs (differ "v" refl),
    get-normalize_data "type" fs (differ "type" refl),
    get-normalize_data "seq" fs (differ "seq" refl),
    get-normalize_data "event" fs (differ "event" refl),
    get-normalize_data "timestamp" fs (differ "timestamp" refl),
    normalize_data-data fs d j ej h,
    p.literal_int_int 1 (pos 1),
    p.literal_text ("event" ∷ []) "event",
    p.int_int n,
    p.str_text name,
    p.float_float x,
    p.json_dict d,
  )
