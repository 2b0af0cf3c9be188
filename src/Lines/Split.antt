-- ===== src/Lines/Split.antt =====
-- What `_iter_lines` yields does not depend on how the stream was cut into chunks.
use macpony.Prelude.{
  ℕ, zero, suc, ◌<◌, ◌≡◌, refl, sym, ap, ◌∙◌, inl, inr, Bool, true, false, none, some, List, [],
  ◌∷◌, ◌++◌, append-nil, append_assoc, arith, length, take, drop, keep_if, length-append,
  length-drop, leb, ◌==◌, if◌then◌else◌, Option-cases,
}
use macpony.Constants.{newline_byte}
use macpony.Lines.{Reader, start, find, no_newline, emit, drain, feed, iter_lines}

-- The complete records of a stream, each with its newline; `acc` is the record begun so far.
unfoldable pub records : List ℕ → List ℕ → List (List ℕ)
records acc [] = []
records acc (b ∷ bs) =
    if b == newline_byte then (acc ++ b ∷ []) ∷ records [] bs else records (acc ++ b ∷ []) bs

-- The same with a skipped first record, and without the records above the bound.
scan : ℕ → Bool → List ℕ → List ℕ → List (List ℕ)
scan limit d acc [] = []
scan limit d acc (b ∷ bs) =
    if b == newline_byte
    then emit limit d (acc ++ b ∷ []) (scan limit false [] bs)
    else scan limit d (acc ++ b ∷ []) bs

scan-skip : (limit : ℕ) (acc acc' bs : List ℕ) → scan limit true acc bs ≡ scan limit true acc' bs
unfolding scan emit
scan-skip limit acc acc' [] = refl
scan-skip limit acc acc' (b ∷ bs) =
    ground (arith, scan-skip limit (acc ++ b ∷ []) (acc' ++ b ∷ []) bs)

scan-long :
    (limit : ℕ) (acc bs : List ℕ)
    → limit < length acc
    → scan limit false acc bs ≡ scan limit true acc bs
unfolding scan emit
scan-long limit acc [] h = refl
scan-long limit acc (b ∷ bs) h =
    ground (arith, scan-long limit (acc ++ b ∷ []) bs, length-append acc (b ∷ []))

scan-none :
    (limit : ℕ) (d : Bool) (acc xs rest : List ℕ)
    → find xs ≡ none
    → scan limit d acc (xs ++ rest) ≡ scan limit d (acc ++ xs) rest
unfolding scan find
scan-none limit d acc [] rest h = rw append-nil
scan-none limit d acc (b ∷ bs) rest h =
    ground (arith, scan-none limit d (acc ++ b ∷ []) bs rest, append_assoc acc (b ∷ []) bs)

scan-some :
    (limit n : ℕ) (d : Bool) (acc xs rest : List ℕ)
    → find xs ≡ some n
    → scan limit d acc (xs ++ rest)
      ≡ emit limit d (acc ++ take (suc n) xs) (scan limit false [] (drop (suc n) xs ++ rest))
unfolding scan find
scan-some limit n d acc [] rest h = cc
scan-some limit n d acc (b ∷ bs) rest h = elim (Option-cases (find bs)) [
  | inl e ↦ ground arith
  | inr (m, e) ↦ ground (
    arith,
    scan-some limit m d (acc ++ b ∷ []) bs rest e,
    append_assoc acc (b ∷ []) (take (suc m) bs),
  )
]

-- What is still to be yielded, from the variables of the generator and the rest of the stream.
abbrev ahead : ℕ → Reader → List ℕ → List (List ℕ)
ahead limit s rest = scan limit s.dropping [] (s.buffer ++ rest)

ahead-no_newline :
    (limit : ℕ) (s : Reader) (rest : List ℕ)
    → find s.buffer ≡ none
    → ahead limit (no_newline limit s) rest ≡ ahead limit s rest
unfolding no_newline
ahead-no_newline limit s rest h = ground (
  arith,
  scan-skip limit [] s.buffer rest,
  scan-long limit s.buffer rest,
  scan-none limit s.dropping [] s.buffer rest h,
)

emit-append :
    (limit : ℕ) (d : Bool) (line : List ℕ) (xs ys : List (List ℕ))
    → emit limit d line (xs ++ ys) ≡ emit limit d line xs ++ ys
unfolding emit
emit-append limit d line xs ys = ground arith

pub find-lt-length : (n : ℕ) (xs : List ℕ) → find xs ≡ some n → n < length xs
unfolding find
find-lt-length n [] h = cc
find-lt-length n (b ∷ bs) h = elim (Option-cases (find bs)) [
  | inl e ↦ ground arith
  | inr (m, e) ↦ ground (arith, find-lt-length m bs e)
]

-- Draining moves records from what is ahead to what is yielded.
drain-ahead :
    (fuel limit : ℕ) (s : Reader) (rest : List ℕ)
    → length s.buffer < fuel
    → ahead limit s rest ≡ (drain fuel limit s).0 ++ ahead limit (drain fuel limit s).1 rest
unfolding drain
drain-ahead zero limit s rest h = elim h [ ]
drain-ahead (suc fuel) limit s rest h = elim (Option-cases (find s.buffer)) [
  | inl e ↦ ground (arith, ahead-no_newline limit s rest e)
  | inr (n, e) ↦
      let s' : Reader = record { buffer = drop (suc n) s.buffer; dropping = false } in
      ground (
        arith,
        scan-some limit n s.dropping [] s.buffer rest e,
        emit-append limit s.dropping (take (suc n) s.buffer) (drain fuel limit s').0
            (ahead limit (drain fuel limit s').1 rest),
        length-drop (suc n) s.buffer,
        find-lt-length n s.buffer e,
        drain-ahead fuel limit s' rest,
      )
]

drain-find :
    (fuel limit : ℕ) (s : Reader)
    → length s.buffer < fuel
    → find (drain fuel limit s).1.buffer ≡ none
unfolding drain no_newline
drain-find zero limit s h = elim h [ ]
drain-find (suc fuel) limit s h = elim (Option-cases (find s.buffer)) [
  | inl e ↦ unfold find in ground arith
  | inr (n, e) ↦
      let s' : Reader = record { buffer = drop (suc n) s.buffer; dropping = false } in
      ground
        (arith, length-drop (suc n) s.buffer, find-lt-length n s.buffer e, drain-find fuel limit s')
]

-- The bytes that arrive before the end of the stream.
unfoldable pub received : List (List ℕ) → List ℕ
received [] = []
received ([] ∷ chunks) = []
received ((b ∷ bs) ∷ chunks) = (b ∷ bs) ++ received chunks

feed-ahead :
    (limit : ℕ) (s : Reader) (chunk rest : List ℕ)
    → ahead limit s (chunk ++ rest)
      ≡ (feed limit s chunk).0 ++ ahead limit (feed limit s chunk).1 rest
unfolding feed
feed-ahead limit s chunk rest =
    ap (scan limit s.dropping []) (sym (append_assoc s.buffer chunk rest))
    ∙ drain-ahead (suc (length (s.buffer ++ chunk))) limit
        (record { buffer = s.buffer ++ chunk; dropping = s.dropping }) rest (omega arith)

feed-find : (limit : ℕ) (s : Reader) (chunk : List ℕ) → find (feed limit s chunk).1.buffer ≡ none
unfolding feed
feed-find limit s chunk =
    drain-find (suc (length (s.buffer ++ chunk))) limit
      (record { buffer = s.buffer ++ chunk; dropping = s.dropping }) (omega arith)

ahead-nil : (limit : ℕ) (s : Reader) → find s.buffer ≡ none → ahead limit s [] ≡ []
unfolding scan
ahead-nil limit s h = scan-none limit s.dropping [] s.buffer [] h

iter_lines-ahead :
    (limit : ℕ) (chunks : List (List ℕ)) (s : Reader)
    → find s.buffer ≡ none
    → (iter_lines limit chunks s).0 ≡ ahead limit s (received chunks)
unfolding iter_lines received
iter_lines-ahead limit [] s h = sym (ahead-nil limit s h)
iter_lines-ahead limit ([] ∷ chunks) s h = sym (ahead-nil limit s h)
iter_lines-ahead limit ((b ∷ bs) ∷ chunks) s h =
    let s' = (feed limit s (b ∷ bs)).1 in
    ap (λ (l : List (List ℕ)). (feed limit s (b ∷ bs)).0 ++ l)
      (iter_lines-ahead limit chunks s' (feed-find limit s (b ∷ bs)))
    ∙ sym (feed-ahead limit s (b ∷ bs) (received chunks))

abbrev pub fits : ℕ → List ℕ → Bool
fits limit line = leb (length line) limit

scan-records :
    (limit : ℕ) (acc bs : List ℕ) → scan limit false acc bs ≡ keep_if (fits limit) (records acc bs)
unfolding scan records emit
scan-records limit acc [] = refl
scan-records limit acc (b ∷ bs) =
    ground (arith, scan-records limit (acc ++ b ∷ []) bs, scan-records limit [] bs)

-- However the stream is cut into chunks, the reader yields exactly the newline-terminated records
-- that arrive before the end of the stream and are at most `limit` bytes long, in their order.
pub iter_lines-records :
    (limit : ℕ) (chunks : List (List ℕ))
    → (iter_lines limit chunks start).0 ≡ keep_if (fits limit) (records [] (received chunks))
unfolding find
iter_lines-records limit chunks =
    iter_lines-ahead limit chunks start refl ∙ scan-records limit [] (received chunks)
