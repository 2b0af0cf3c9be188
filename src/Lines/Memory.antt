-- ===== src/Lines/Memory.antt =====
-- How much `_iter_lines` keeps in its buffer.
use macpony.Prelude.{
  ℕ, zero, suc, ◌≤◌, ◌<◌, ◌≡◌, refl, ◌≢◌, inl, inr, true, false, none, List, [], ◌∷◌, ◌++◌,
  append-nil, append_assoc, arith, length, drop, concat, length-drop, All, Option-cases,
}
use macpony.Lines.{Reader, find, no_newline, drain, feed, iter_lines, awaiting}
use macpony.Lines.Split.{find-lt-length}

-- Between two chunks the buffer is within the bound, or an oversized record is being skipped.
abbrev pub IsBounded : ℕ → Reader → Type 0
IsBounded limit s = s.dropping ≡ false → length s.buffer ≤ limit

no_newline-IsBounded : (limit : ℕ) (s : Reader) → IsBounded limit (no_newline limit s)
unfolding no_newline
no_newline-IsBounded limit s = ground arith

drain-IsBounded :
    (fuel limit : ℕ) (s : Reader) → length s.buffer < fuel → IsBounded limit (drain fuel limit s).1
unfolding drain
drain-IsBounded zero limit s h = elim h [ ]
drain-IsBounded (suc fuel) limit s h = elim (Option-cases (find s.buffer)) [
  | inl e ↦ ground (arith, no_newline-IsBounded limit s)
  | inr (n, e) ↦
      let s' : Reader = record { buffer = drop (suc n) s.buffer; dropping = false } in
      ground (
        arith,
        length-drop (suc n) s.buffer,
        find-lt-length n s.buffer e,
        drain-IsBounded fuel limit s',
      )
]

feed-IsBounded : (limit : ℕ) (s : Reader) (chunk : List ℕ) → IsBounded limit (feed limit s chunk).1
unfolding feed
feed-IsBounded limit s chunk =
    drain-IsBounded (suc (length (s.buffer ++ chunk))) limit
      (record { buffer = s.buffer ++ chunk; dropping = s.dropping }) (omega arith)

-- Whatever the chunks, between two reads the buffer holds at most `limit` bytes unless an
-- oversized record is being skipped.
pub iter_lines-IsBounded :
    (limit : ℕ) (chunks : List (List ℕ)) (s : Reader)
    → IsBounded limit s
    → (iter_lines limit chunks s).1.dropping ≡ false
    → length (iter_lines limit chunks s).1.buffer ≤ limit
unfolding iter_lines
iter_lines-IsBounded limit [] s h e = h e
iter_lines-IsBounded limit ([] ∷ chunks) s h e = h e
iter_lines-IsBounded limit ((b ∷ bs) ∷ chunks) s h e =
    iter_lines-IsBounded limit chunks (feed limit s (b ∷ bs)).1 (feed-IsBounded limit s (b ∷ bs)) e

find-append : (xs ys : List ℕ) → find xs ≡ none → find ys ≡ none → find (xs ++ ys) ≡ none
unfolding find
find-append [] ys h k = k
find-append (x ∷ xs) ys h k = ground (arith, find-append xs ys, Option-cases (find xs))

-- A chunk that has arrived and holds no newline.
abbrev pub IsPartial : List ℕ → Type 0
IsPartial chunk = (chunk ≢ []) × (find chunk ≡ none)

feed-dropping :
    (limit : ℕ) (s : Reader) (chunk : List ℕ)
    → s.dropping ≡ true
    → find s.buffer ≡ none
    → find chunk ≡ none
    → feed limit s chunk ≡ ([], record { buffer = s.buffer ++ chunk; dropping = true })
unfolding feed drain no_newline
feed-dropping limit s chunk d h k = ground (arith, find-append s.buffer chunk h k)

-- While an oversized record is skipped, every chunk of it without a newline stays in the buffer:
-- nothing is yielded, and the buffer grows by all the bytes that arrive, whatever the bound.
iter_lines-dropping :
    (limit : ℕ) (chunks : List (List ℕ)) (s : Reader)
    → s.dropping ≡ true
    → find s.buffer ≡ none
    → All IsPartial chunks
    → iter_lines limit chunks s
      ≡ ([], record { buffer = s.buffer ++ concat chunks; dropping = true }, awaiting)
unfolding iter_lines
iter_lines-dropping limit [] s d h p = rw append-nil (ground arith)
iter_lines-dropping limit ([] ∷ chunks) s d h p = absurd (p.0.0 refl)
iter_lines-dropping limit ((b ∷ bs) ∷ chunks) s d h p =
    let s' : Reader = record { buffer = s.buffer ++ b ∷ bs; dropping = true } in
    ground (
      arith,
      feed-dropping limit s (b ∷ bs) d h p.0.1,
      iter_lines-dropping limit chunks s' refl (find-append s.buffer (b ∷ bs) h p.0.1) p.1,
      append_assoc s.buffer (b ∷ bs) (concat chunks),
    )
