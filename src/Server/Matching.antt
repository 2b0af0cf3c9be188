-- ===== src/Server/Matching.antt =====
-- Which events the registry matches depends only on the entries, not on their order.
use macpony.Prelude.{
  String, ◌≡◌, sym, ap, ◌∙◌, inl, inr, Bool, Bool-cases, true, some, [], ◌∷◌, arith, str_eq, eq_iff,
}
use macpony.Prelude.Dict.{Dict, lookup}
use macpony.Server.Patterns.{is_match}
use macpony.Server.Subscriptions.{matches}

-- A pattern of the registry matches the event.
abbrev IsMatched : String → Dict Bool → Type 0
IsMatched event d =
    (pattern : String) × (v : Bool) × (lookup pattern d ≡ some v) × (is_match pattern event ≡ true)

IsMatched-cons :
    (event j : String) (w : Bool) (d : Dict Bool) → IsMatched event d → IsMatched event ((j, w) ∷ d)
unfolding lookup
IsMatched-cons event j w d (pattern, v, found, h) = elim (Bool-cases (str_eq j pattern)) [
  | inl e ↦ (pattern, w, ground (arith, e), h)
  | inr e ↦ (pattern, v, ground (arith, e, found), h)
]

matches-IsMatched : (event : String) (d : Dict Bool) → matches event d ≡ true → IsMatched event d
unfolding matches lookup
matches-IsMatched event [] h = absurd (cc)
matches-IsMatched event ((j, w) ∷ d) h = elim (Bool-cases (is_match j event)) [
  | inl e ↦ (j, w, ground (arith, eq_iff j j), e)
  | inr e ↦ IsMatched-cons event j w d (matches-IsMatched event d (ground (arith, e, h)))
]

IsMatched-matches : (event : String) (d : Dict Bool) → IsMatched event d → matches event d ≡ true
unfolding matches lookup
IsMatched-matches event [] (pattern, v, found, h) = absurd (cc)
IsMatched-matches event ((j, w) ∷ d) (pattern, v, found, h) = elim (Bool-cases (str_eq j pattern)) [
  | inl e ↦
      let same = (eq_iff j pattern).0 e in
      let hit : is_match j event ≡ true = ap (λ q. is_match q event) same ∙ h in ground (arith, hit)
  | inr e ↦
      let rest = IsMatched-matches event d (pattern, v, ground (arith, e, found), h) in
      ground (arith, rest)
]

matches_kept :
    (event : String) (d d' : Dict Bool)
    → ((k : String) → lookup k d ≡ lookup k d')
    → matches event d ≡ true
    → matches event d' ≡ true
matches_kept event d d' h m =
    let (pattern, v, found, hit) = matches-IsMatched event d m in
    IsMatched-matches event d' (pattern, v, sym (h pattern) ∙ found, hit)

pub matches-lookup :
    (event : String) (d d' : Dict Bool)
    → ((k : String) → lookup k d ≡ lookup k d')
    → matches event d ≡ matches event d'
matches-lookup event d d' h =
    let there = matches_kept event d d' h in
    let back = matches_kept event d' d (λ k. sym (h k)) in ground (arith, there, back)
