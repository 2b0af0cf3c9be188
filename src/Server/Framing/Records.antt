-- ===== src/Server/Framing/Records.antt =====
-- The server's splitter against the records of the stream, and where it loses one.
use macpony.Prelude.{
  ℕ, ◌+◌, ◌≤◌, ◌<◌, ◌≡◌, refl, ◌∙◌, ◌≢◌, true, false, List, [], ◌∷◌, ◌++◌, append-nil, append_assoc,
  arith, length, length-append, keep_if, All,
}
use macpony.Constants.{newline_byte}
use macpony.Lines.Split.{records, fits}
use macpony.Server.Framing.{Input, start, read_bytes}

-- The record is not one byte longer than the bound.
abbrev pub IsOff : ℕ → List ℕ → Type 0
IsOff limit line = length line ≢ limit + 1

dropping : Input
dropping = record { buffer = []; dropping = true }

mutual
  unfolding read_bytes records dropping

  read_bytes-keeping :
      (limit : ℕ) (bs acc : List ℕ)
      → length acc ≤ limit
      → All (IsOff limit) (records acc bs)
      → (read_bytes limit bs (record { buffer = acc; dropping = false })).0
        ≡ keep_if (fits limit) (records acc bs)
  read_bytes-keeping limit [] acc h k = refl
  read_bytes-keeping limit (b ∷ bs) acc h k = ground (
    arith,
    length-append acc (b ∷ []),
    read_bytes-keeping limit bs [],
    read_bytes-keeping limit bs (acc ++ b ∷ []),
    read_bytes-dropping limit bs (acc ++ b ∷ []),
  )

  read_bytes-dropping :
      (limit : ℕ) (bs acc : List ℕ)
      → limit < length acc
      → All (IsOff limit) (records acc bs)
      → (read_bytes limit bs dropping).0 ≡ keep_if (fits limit) (records acc bs)
  read_bytes-dropping limit [] acc h k = refl
  read_bytes-dropping limit (b ∷ bs) acc h k = ground (
    arith,
    length-append acc (b ∷ []),
    read_bytes-keeping limit bs [],
    read_bytes-dropping limit bs (acc ++ b ∷ []),
  )

-- If no record of the stream is exactly one byte longer than the bound, the server decodes exactly
-- the records within the bound, in their order.
pub read_bytes-records :
    (limit : ℕ) (bs : List ℕ)
    → All (IsOff limit) (records [] bs)
    → (read_bytes limit bs start).0 ≡ keep_if (fits limit) (records [] bs)
read_bytes-records limit bs h = read_bytes-keeping limit bs [] (omega arith) h

read_bytes-fill :
    (limit : ℕ) (line acc rest : List ℕ)
    → All (λ b. b ≢ newline_byte) line
    → length acc + length line ≤ limit
    → read_bytes limit (line ++ rest) (record { buffer = acc; dropping = false })
      ≡ read_bytes limit rest (record { buffer = acc ++ line; dropping = false })
unfolding read_bytes
read_bytes-fill limit [] acc rest h k = rw append-nil
read_bytes-fill limit (b ∷ line) acc rest h k = ground (
  arith,
  length-append acc (b ∷ []),
  append_assoc acc (b ∷ []) line,
  read_bytes-fill limit line (acc ++ b ∷ []) rest h.1,
)

read_bytes-skip :
    (limit : ℕ) (line rest : List ℕ)
    → All (λ b. b ≢ newline_byte) line
    → read_bytes limit (line ++ newline_byte ∷ rest) dropping ≡ read_bytes limit rest start
unfolding read_bytes dropping
read_bytes-skip limit [] rest h = ground arith
read_bytes-skip limit (b ∷ line) rest h = ground (arith, read_bytes-skip limit line rest h.1)

-- A newline behind a full buffer.
read_bytes-overflow :
    (limit : ℕ) (line rest : List ℕ)
    → limit ≤ length line
    → read_bytes limit (newline_byte ∷ rest) (record { buffer = line; dropping = false })
      ≡ read_bytes limit rest dropping
unfolding read_bytes dropping
read_bytes-overflow limit line rest h = ground (arith, length-append line (newline_byte ∷ []))

-- If a record is as long as the bound and its newline is one byte more, that newline starts the
-- dropping in place of ending it: the server drops the whole next record too, whatever it is, and
-- goes on behind it as at the start of a stream.
pub read_bytes-swallows :
    (limit : ℕ) (line next rest : List ℕ)
    → All (λ b. b ≢ newline_byte) line
    → All (λ b. b ≢ newline_byte) next
    → length line ≡ limit
    → read_bytes limit (line ++ newline_byte ∷ (next ++ newline_byte ∷ rest)) start
      ≡ read_bytes limit rest start
read_bytes-swallows limit line next rest h k e =
    read_bytes-fill limit line [] (newline_byte ∷ (next ++ newline_byte ∷ rest)) h (omega arith)
    ∙ read_bytes-overflow limit line (next ++ newline_byte ∷ rest) (omega arith)
    ∙ read_bytes-skip limit next rest k
