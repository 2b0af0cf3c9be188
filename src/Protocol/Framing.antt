-- ===== src/Protocol/Framing.antt =====
-- `encode_line` frames requests so that the peer can cut them apart again.
use macpony.Prelude.{
  ℕ, ◌≡◌, refl, ap, ◌∙◌, ◌≢◌, List, [], ◌∷◌, ◌++◌, map, append_assoc, arith, All, concat,
}
use macpony.Constants.{newline_byte}
use macpony.Json.{Json, obj}
use macpony.Lines.Split.{records}
use macpony.Protocol.{RequestEnvelope, dump_request, encode_line}

-- The text holds no newline, as `json.dumps` without indentation promises: it escapes those in
-- strings.
abbrev pub NoNewline : List ℕ → Type 0
NoNewline = All (λ b. b ≢ newline_byte)

pub records-NoNewline :
    (acc xs rest : List ℕ)
    → NoNewline xs
    → records acc (xs ++ newline_byte ∷ rest) ≡ (acc ++ (xs ++ newline_byte ∷ [])) ∷ records [] rest
unfolding records
records-NoNewline acc [] rest h = refl
records-NoNewline acc (x ∷ xs) rest h = ground (
  arith,
  records-NoNewline (acc ++ x ∷ []) xs rest h.1,
  append_assoc acc (x ∷ []) (xs ++ newline_byte ∷ []),
)

-- The requests written one after the other are cut apart, at the newlines, into exactly the
-- encoded requests, if the texts of `json.dumps` hold no newline.
pub records-encode_line :
    (dumps : Json → List ℕ)
    → ((j : Json) → NoNewline (dumps j))
    → (messages : List RequestEnvelope)
    → records [] (concat (map (encode_line dumps) messages)) ≡ map (encode_line dumps) messages
unfolding encode_line
records-encode_line dumps h [] = unfold records in refl
records-encode_line dumps h (m ∷ ms) =
    let text = dumps (obj (dump_request m)) in
    let rest = concat (map (encode_line dumps) ms) in
    ap (records []) (append_assoc text (newline_byte ∷ []) rest)
    ∙ records-NoNewline [] text rest (h (obj (dump_request m)))
    ∙ ap (λ (l : List (List ℕ)). (text ++ newline_byte ∷ []) ∷ l) (records-encode_line dumps h ms)
