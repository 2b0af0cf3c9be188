-- ===== src/Tests/Delivery.antt =====
-- A stream with one event in two chunks, and the theorem on delivery applied to it.
use macpony.Prelude.{ℕ, List, [], ◌∷◌, All, keep_if}
use macpony.Prelude.Int.{pos}
use macpony.Json.{finite, int, float, str, obj, Fields, empty, field}
use macpony.Lines.Split.{records, received, fits}
use macpony.Protocol.{Loads, loaded}
use macpony.Connection.Delivery.{IsTame}

abbrev woke_fields : Fields
woke_fields = field "v" (int (pos 1)) (
    field "type" (str "event") (
      field "seq" (int (pos 7)) (
        field "event" (str "system.didWake")
          (field "timestamp" (float (finite (pos 5) 1)) (field "data" (obj empty) empty)))))

-- `json.loads` makes this dict of every line.
abbrev pub loads_event : List ℕ → Loads
loads_event line = loaded (obj woke_fields)

abbrev pub two_chunks : List (List ℕ)
two_chunks = (123 ∷ 125 ∷ []) ∷ (10 ∷ []) ∷ []

pub loads_event-IsTame :
    All (λ line. IsTame (loads_event line)) (keep_if (fits 100) (records [] (received two_chunks)))
unfolding records received
loads_event-IsTame = ((λ e. cc, λ e. cc), tt)
