-- ===== src/Connection/Ids.antt =====
-- Request ids: `_next_request_id` of connection.py, `f"req-{counter:08d}-{uuid4().hex[:8]}"`. The
-- eight characters of the random part are an argument.
use Prim.Native.Nat.{◌-◌}
use Prim.Native.Char.{code}
use Prim.Native.String.{String, [], ◌∷◌, ◌++◌, count}
use text.Mathlib.TextLemmas.{nil-append, cons-append, append_cancel_left, append_inj, length-append}
use macpony.Prelude.{
  ℕ, zero, suc, ◌+◌, ◌*◌, ◌/◌, ◌%◌, ◌<◌, ◌≡◌, refl, sym, ap, ◌∙◌, arith, ltb, if◌then◌else◌, inl,
  inr, Bool-cases, ltb→lt, ltb→ge,
}

digit : ℕ → String
digit zero = "0"
digit (suc zero) = "1"
digit (suc (suc zero)) = "2"
digit (suc (suc (suc zero))) = "3"
digit (suc (suc (suc (suc zero)))) = "4"
digit (suc (suc (suc (suc (suc zero))))) = "5"
digit (suc (suc (suc (suc (suc (suc zero)))))) = "6"
digit (suc (suc (suc (suc (suc (suc (suc zero))))))) = "7"
digit (suc (suc (suc (suc (suc (suc (suc (suc zero)))))))) = "8"
digit (suc (suc (suc (suc (suc (suc (suc (suc (suc n))))))))) = "9"

-- `str(n)`, on fuel: each round takes a digit off, so `n + 1` rounds are enough.
decimal_from : ℕ → ℕ → String
unfolding digit
decimal_from zero n = ""
decimal_from (suc fuel) n =
    let high = decimal_from fuel (n / 10) in if ltb n 10 then digit n else high ++ digit (n % 10)

zeros : ℕ → String
zeros zero = ""
zeros (suc n) = "0" ++ zeros n

-- `f"{n:08d}"`
padded : ℕ → String
unfolding decimal_from zeros
padded n = let s = decimal_from (suc n) n in zeros (8 - count s) ++ s

unfoldable pub request_id : ℕ → String → String
unfolding padded
request_id counter random = "req-" ++ (padded counter ++ ("-" ++ random))

-- The number that a text of digits stands for, after the digits read so far.
value : ℕ → String → ℕ
value acc [] = acc
value acc (c ∷ s) = value (acc * 10 + (code c - 48)) s

value-append : (acc : ℕ) (s t : String) → value acc (s ++ t) ≡ value (value acc s) t
unfolding value
value-append acc [] t = rw nil-append
value-append acc (c ∷ s) t = rw cons-append (value-append (acc * 10 + (code c - 48)) s t)

value-digit : (acc d : ℕ) → d < 10 → value acc (digit d) ≡ acc * 10 + d
unfolding value digit
value-digit acc zero h = omega arith
value-digit acc (suc zero) h = omega arith
value-digit acc (suc (suc zero)) h = omega arith
value-digit acc (suc (suc (suc zero))) h = omega arith
value-digit acc (suc (suc (suc (suc zero)))) h = omega arith
value-digit acc (suc (suc (suc (suc (suc zero))))) h = omega arith
value-digit acc (suc (suc (suc (suc (suc (suc zero)))))) h = omega arith
value-digit acc (suc (suc (suc (suc (suc (suc (suc zero))))))) h = omega arith
value-digit acc (suc (suc (suc (suc (suc (suc (suc (suc zero)))))))) h = omega arith
value-digit acc (suc (suc (suc (suc (suc (suc (suc (suc (suc n))))))))) h = omega arith

value-decimal_from : (fuel n : ℕ) → n < fuel → value 0 (decimal_from fuel n) ≡ n
unfolding decimal_from
value-decimal_from zero n h = elim h [ ]
value-decimal_from (suc fuel) n h = elim (Bool-cases (ltb n 10)) [
  | inl e ↦ rw e (value-digit 0 n (ltb→lt n 10 e) ∙ omega arith)
  | inr e ↦ rw e (
      value-append 0 (decimal_from fuel (n / 10)) (digit (n % 10))
      ∙ value-digit (value 0 (decimal_from fuel (n / 10))) (n % 10) (omega arith)
      ∙ omega (arith, value-decimal_from fuel (n / 10) (omega (arith, ltb→ge n 10 e))))
]

value-zeros : (n : ℕ) → value 0 (zeros n) ≡ 0
unfolding value zeros
value-zeros zero = refl
value-zeros (suc n) = value-append 0 "0" (zeros n) ∙ value-zeros n

value-padded : (n : ℕ) → value 0 (padded n) ≡ n
unfolding padded
value-padded n =
    let s = decimal_from (suc n) n in
    value-append 0 (zeros (8 - count s)) s
    ∙ ap (λ (k : ℕ). value k s) (value-zeros (8 - count s))
    ∙ value-decimal_from (suc n) n (omega arith)

-- Ids made from different counters differ, whatever the random parts, if those are equally long.
pub request_id_inj :
    (m n : ℕ) (r q : String) → count r ≡ count q → request_id m r ≡ request_id n q → m ≡ n
unfolding request_id
request_id_inj m n r q e h =
    let tails = append_cancel_left "req-" (padded m ++ ("-" ++ r)) (padded n ++ ("-" ++ q)) h in
    let counts =
      sym (length-append (padded m) ("-" ++ r))
      ∙ ap count tails
      ∙ length-append (padded n) ("-" ++ q) in
    let same =
      append_inj tails (omega (arith, counts, length-append "-" r, length-append "-" q, e)) in
    sym (value-padded m) ∙ ap (value 0) same.0 ∙ value-padded n

request_id_runs : request_id 42 "0a1b2c3d" ≡ "req-00000042-0a1b2c3d"
unfolding request_id
request_id_runs = refl
