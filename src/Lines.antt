-- ===== src/Lines.antt =====
-- The record splitter of `SocketConnection._iter_lines` in
-- python-client/src/hammerspoon_macapi/connection.py. Bytes are numbers, a chunk is what one
-- `reader.read(4096)` returned, and an empty chunk is the end of the stream. The bound is an
-- argument; the source's is `max_line_bytes` of constants.py.
pub mod Split
pub mod Memory
use macpony.Constants.{newline_byte}
use macpony.Prelude.{
  ℕ, zero, suc, ◌*◌, ◌<◌, Bool, true, false, ◌&&◌, not, Option, none, some, List, [], ◌∷◌, ◌++◌,
  length, take, drop, ltb, ◌==◌, if◌then◌else◌,
}

-- The two variables of the generator.
pub record Reader : Type 0 where
  pub buffer : List ℕ
  pub dropping : Bool

abbrev pub start : Reader
start = record { buffer = []; dropping = false }

-- `buffer.find(b"\n")`, with `none` for -1
unfoldable pub find : List ℕ → Option ℕ
find [] = none
find (b ∷ bs) =
    if b == newline_byte then some 0 else (elim (find bs) [ none ↦ none | some n ↦ some (suc n) ])

-- No newline in the buffer: the inner loop breaks, and an oversized partial record is dropped.
unfoldable pub no_newline : ℕ → Reader → Reader
no_newline limit s =
    if not s.dropping && ltb limit (length s.buffer)
    then record { buffer = []; dropping = true }
    else s

-- One complete record was cut off: it is yielded unless it is the rest of a dropped record or is
-- itself too long.
unfoldable pub emit : ℕ → Bool → List ℕ → List (List ℕ) → List (List ℕ)
emit limit dropping line rest =
    if dropping then rest else if ltb limit (length line) then rest else line ∷ rest

-- The inner `while True`, on fuel: it returns the records yielded and the variables at the `break`.
unfoldable pub drain : ℕ → ℕ → Reader → List (List ℕ) × Reader
unfolding find no_newline emit
drain zero limit s = ([], s)
drain (suc fuel) limit s = elim (find s.buffer) [
  | none ↦ ([], no_newline limit s)
  | some n ↦
      let (lines, s') =
        drain fuel limit (record { buffer = drop (suc n) s.buffer; dropping = false }) in
      (emit limit s.dropping (take (suc n) s.buffer) lines, s')
]

-- One chunk: `buffer.extend(chunk)` and the inner loop. Each round removes a byte, so a fuel above
-- the length of the buffer is enough.
unfoldable pub feed : ℕ → Reader → List ℕ → List (List ℕ) × Reader
unfolding drain
feed limit s chunk =
    let buffer = s.buffer ++ chunk in
    drain (suc (length buffer)) limit (record { buffer = buffer; dropping = s.dropping })

-- How the generator stands after the chunks read so far.
pub data Ending : Type 0 where
  awaiting : Ending
  peer_closed : Ending

-- The outer loop over the chunks: an empty one raises `ConnectionLostError`.
unfoldable pub iter_lines : ℕ → List (List ℕ) → Reader → List (List ℕ) × Reader × Ending
unfolding feed
iter_lines limit [] s = ([], s, awaiting)
iter_lines limit ([] ∷ chunks) s = ([], s, peer_closed)
iter_lines limit ((b ∷ bs) ∷ chunks) s =
    let (lines, s') = feed limit s (b ∷ bs) in
    let (more, s'', ending) = iter_lines limit chunks s' in (lines ++ more, s'', ending)
