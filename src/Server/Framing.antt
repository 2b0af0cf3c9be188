-- ===== src/Server/Framing.antt =====
-- The record splitter of hammerspoon/macapi/server.lua: `callback` reads one byte at a time. Its
-- guards on the tags of reads and on the number of connections, which `Polling` has, have passed.
pub mod Records
use macpony.Prelude.{
  ℕ, Bool, true, false, Option, none, some, List, [], ◌∷◌, ◌++◌, length, ltb, ◌==◌, if◌then◌else◌,
}
use macpony.Constants.{newline_byte}

-- `input_buffer` and `dropping_oversized_line`
pub record Input : Type 0 where
  pub buffer : List ℕ
  pub dropping : Bool

abbrev pub start : Input
start = record { buffer = []; dropping = false }

-- One byte: the line that goes to `protocol.decode`, if there is one, and the variables.
unfoldable pub callback : ℕ → ℕ → Input → Option (List ℕ) × Input
callback limit byte s =
    if s.dropping
    then (if byte == newline_byte then (none, start) else (none, s))
    else (let buffer = s.buffer ++ byte ∷ [] in
        if ltb limit (length buffer)
        then (none, record { buffer = []; dropping = true })
        else if byte == newline_byte
        then (some buffer, start)
        else (none, record { buffer = buffer; dropping = false }))

abbrev with_line : Option (List ℕ) → List (List ℕ) → List (List ℕ)
with_line none lines = lines
with_line (some line) lines = line ∷ lines

-- The lines that are decoded while the bytes arrive.
unfoldable pub read_bytes : ℕ → List ℕ → Input → List (List ℕ) × Input
unfolding callback
read_bytes limit [] s = ([], s)
read_bytes limit (b ∷ bs) s =
    let (line, s') = callback limit b s in
    let (lines, s'') = read_bytes limit bs s' in (with_line line lines, s'')
