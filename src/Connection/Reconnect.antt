-- ===== src/Connection/Reconnect.antt =====
-- `_reconnect_loop` over its attempts, and its delays. A delay is a natural number of a unit of
-- time that divides both bounds: floats are multiples of a power of two, and doubling and `min`
-- stay within the multiples of the unit.
use native.Mathlib.Nat.{pow-suc}
use macpony.Prelude.{
  ℕ, zero, suc, ◌+◌, ◌*◌, ◌^◌, ◌≤◌, ◌≡◌, refl, sym, ap, ◌∙◌, append-nil, List, [], ◌∷◌, ◌++◌, leb,
  if◌then◌else◌, arith,
}

-- How one round goes: the loop sees that the client is closing; the connection is there; one of the
-- exceptions that are caught was raised; or the task was cancelled.
pub data Attempt : Type 0 where
  stopped succeeded failed cancelled : Attempt

-- How the loop ends; `trying` while no round has ended it.
pub data LoopEnd : Type 0 where
  trying gave_up reconnected was_cancelled : LoopEnd

-- `min(a, b)`
abbrev pub min : ℕ → ℕ → ℕ
min a b = if leb a b then a else b

-- The delays that are slept, and the end, from the variable `delay` and the rounds.
unfoldable pub reconnect_loop : ℕ → ℕ → List Attempt → List ℕ × LoopEnd
reconnect_loop max_delay delay [] = ([], trying)
reconnect_loop max_delay delay (stopped ∷ more) = ([], gave_up)
reconnect_loop max_delay delay (succeeded ∷ more) = ([], reconnected)
reconnect_loop max_delay delay (cancelled ∷ more) = ([], was_cancelled)
reconnect_loop max_delay delay (failed ∷ more) =
    let (sleeps, end) = reconnect_loop max_delay (min (delay * 2) max_delay) more in
    (delay ∷ sleeps, end)

-- So many rounds fail.
unfoldable pub failures : ℕ → List Attempt
failures zero = []
failures (suc n) = failed ∷ failures n

-- The delay of a round by its number, in closed form.
abbrev pub delay_of : ℕ → ℕ → ℕ → ℕ
delay_of min_delay max_delay k = min (min_delay * 2 ^ k) max_delay

-- The delays of `n` rounds from round `k` on.
unfoldable pub delays_from : ℕ → ℕ → ℕ → ℕ → List ℕ
delays_from min_delay max_delay k zero = []
delays_from min_delay max_delay k (suc n) =
    delay_of min_delay max_delay k ∷ delays_from min_delay max_delay (suc k) n

power-suc : (d k : ℕ) → d * 2 ^ suc k ≡ d * 2 ^ k * 2
power-suc d k = ap (λ (p : ℕ). d * p) (pow-suc 2 k) ∙ grind arith

pub delay_of-suc : (d m k : ℕ) → min (delay_of d m k * 2) m ≡ delay_of d m (suc k)
delay_of-suc d m k = ground (arith, power-suc d k)

loop-delays :
    (d m k n : ℕ) (rest : List Attempt)
    → reconnect_loop m (delay_of d m k) (failures n ++ rest) ≡ (
        let (sleeps, end) = reconnect_loop m (delay_of d m (k + n)) rest in
        (delays_from d m k n ++ sleeps, end))
unfolding reconnect_loop failures delays_from
loop-delays d m k zero rest = rw (let e : k + 0 ≡ k = omega arith in e) refl
loop-delays d m k (suc n) rest =
    let shift : suc k + n ≡ k + suc n = omega arith in
    ap
      (λ (x : ℕ).
        let (sleeps, end) = reconnect_loop m x (failures n ++ rest) in
        (delay_of d m k ∷ sleeps, end))
      (delay_of-suc d m k)
    ∙ ap (λ (r : List ℕ × LoopEnd). (delay_of d m k ∷ r.0, r.1)) (loop-delays d m (suc k) n rest)
    ∙ ap
        (λ (j : ℕ).
          let (sleeps, end) = reconnect_loop m (delay_of d m j) rest in
          (delay_of d m k ∷ (delays_from d m (suc k) n ++ sleeps), end))
        shift

loop-succeeds :
    (sleeps : List ℕ) (m delay : ℕ) (rest : List Attempt)
    → let (more, end) = reconnect_loop m delay (succeeded ∷ rest) in
      let all : List ℕ × LoopEnd = (sleeps ++ more, end) in all ≡ (sleeps, reconnected)
unfolding reconnect_loop
loop-succeeds sleeps m delay rest = ap (λ (l : List ℕ). (l, reconnected)) (append-nil sleeps)

-- If the least delay is within the greatest one and `n` rounds fail before one succeeds, then the
-- loop sleeps `n` times and ends connected, and the sleep after round k, counted from 0, is the
-- smaller one of 2 ^ k least delays and the greatest delay.
reconnect_loop-delays :
    (min_delay max_delay n : ℕ) (rest : List Attempt)
    → min_delay ≤ max_delay
    → reconnect_loop max_delay min_delay (failures n ++ succeeded ∷ rest)
      ≡ (delays_from min_delay max_delay 0 n, reconnected)
reconnect_loop-delays d m n rest h =
    let first : delay_of d m 0 ≡ d = ground arith in
    ap (λ (x : ℕ). reconnect_loop m x (failures n ++ succeeded ∷ rest)) (sym first)
    ∙ loop-delays d m 0 n (succeeded ∷ rest)
    ∙ loop-succeeds (delays_from d m 0 n) m (delay_of d m (0 + n)) rest
