-- ===== src/Tests/Lines.antt =====
-- Streams and records at which the theorems on the wire are applied.
use macpony.Prelude.{ℕ, ◌≤◌, ◌≡◌, refl, List, [], ◌∷◌, arith, length, map, concat}
use macpony.Json.{Json, empty}
use macpony.Lines.{start, iter_lines}
use macpony.Lines.Split.{records, received, iter_lines-records}
use macpony.Lines.Memory.{iter_lines-IsBounded}
use macpony.Protocol.{RequestEnvelope, encode_line}
use macpony.Protocol.Framing.{NoNewline, records-encode_line}

-- Three records in three chunks; the second is too long for a bound of 4.
abbrev chunks : List (List ℕ)
chunks = (65 ∷ []) ∷ (66 ∷ 10 ∷ 67 ∷ 68 ∷ 69 ∷ 70 ∷ 10 ∷ []) ∷ (71 ∷ 10 ∷ []) ∷ []

iter_lines-records_example :
    (iter_lines 4 chunks start).0 ≡ (65 ∷ 66 ∷ 10 ∷ []) ∷ (71 ∷ 10 ∷ []) ∷ []
unfolding records received
iter_lines-records_example = iter_lines-records 4 chunks

iter_lines-IsBounded_example : length (iter_lines 4 chunks start).1.buffer ≤ 4
unfolding iter_lines
iter_lines-IsBounded_example = iter_lines-IsBounded 4 chunks start (λ e. omega arith) refl

-- Every value is written as an empty object.
abbrev braces : Json → List ℕ
braces j = 123 ∷ 125 ∷ []

braces-NoNewline : (j : Json) → NoNewline (braces j)
braces-NoNewline j = (λ e. ground arith, (λ e. ground arith, tt))

abbrev requests : List RequestEnvelope
requests =
    record { id = "req-00000001-0a1b2c3d"; method = "apps.list"; params = empty }
    ∷ record { id = "req-00000002-ffffffff"; method = "windows.list"; params = empty }
    ∷ []

records-encode_line_example :
    records [] (concat (map (encode_line braces) requests)) ≡ map (encode_line braces) requests
records-encode_line_example = records-encode_line braces braces-NoNewline requests
