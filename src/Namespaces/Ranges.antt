-- ===== src/Namespaces/Ranges.antt =====
-- The range checks before `audio.setVolume` and `screens.setBrightness`.
use macpony.Prelude.{
  ℕ, ◌*◌, ◌^◌, ◌≤◌, String, ◌≡◌, refl, ◌↔◌, inl, inr, if◌then◌else◌, true, ◌&&◌, Bool-cases, arith,
}
use macpony.Prelude.Int.{pos, negsuc}
use macpony.Errors.{Outcome, returned, raised, builtin, value_error}
use macpony.Json.{
  Float, finite, infinity, neg_infinity, not_a_number, is_nonneg, is_at_most, float, str, empty,
  field,
}
use macpony.Namespaces.{Rpc, command}
use macpony.Namespaces.Audio.{set_volume}
use macpony.Namespaces.Screens.{set_brightness}

-- A number m / 2 ^ k with 0 ≤ m ≤ n * 2 ^ k: no infinity and not NaN.
pub data IsWithin (n : ℕ) : Float → Type 0 where
  within : (m k : ℕ) → m ≤ n * 2 ^ k → IsWithin n (finite (pos m) k)

-- The chained comparison `0 <= x <= n`.
checked-IsWithin : (x : Float) (n : ℕ) → (is_nonneg x && is_at_most x n) ≡ true → IsWithin n x
unfolding is_nonneg is_at_most
checked-IsWithin (finite (pos m) k) n h = within m k (ground arith)
checked-IsWithin (finite (negsuc m) k) n h = cc
checked-IsWithin infinity n h = cc
checked-IsWithin neg_infinity n h = cc
checked-IsWithin not_a_number n h = cc

IsWithin-checked : (x : Float) (n : ℕ) → IsWithin n x → (is_nonneg x && is_at_most x n) ≡ true
unfolding is_nonneg is_at_most
IsWithin-checked _ n (within m k h) = ground arith

-- What a call guarded by the comparison comes to.
guarded :
    (x : Float) (n : ℕ) (r : Rpc)
    → let o : Outcome Rpc =
        if is_nonneg x && is_at_most x n then returned r else raised (builtin value_error) in
      ((o ≡ returned r) ↔ IsWithin n x) × ((o ≡ raised (builtin value_error)) ↔ (¬ IsWithin n x))
guarded x n r = elim (Bool-cases (is_nonneg x && is_at_most x n)) [
  | inl e ↦
      let w = checked-IsWithin x n e in
      rw e ((λ h. w, λ h. refl), (λ h. absurd (cc), λ h. absurd (h w)))
  | inr e ↦
      let out : ¬ IsWithin n x = λ w. absurd (let c = IsWithin-checked x n w in cc) in
      rw e ((λ h. absurd (cc), λ w. absurd (out w)), (λ h. out, λ h. refl))
]

-- `set_volume` sends its request exactly for the numbers from 0 to 100, both included, and raises a
-- `ValueError` exactly for everything else: the negative and larger numbers, the infinities and NaN.
set_volume-IsWithin :
    (x : Float)
    → ((set_volume x ≡ returned (command "audio.setVolume" (field "volume" (float x) empty)))
        ↔ IsWithin 100 x)
      × ((set_volume x ≡ raised (builtin value_error)) ↔ (¬ IsWithin 100 x))
unfolding set_volume
set_volume-IsWithin x = guarded x 100 (command "audio.setVolume" (field "volume" (float x) empty))

-- `set_brightness` sends its request exactly for the numbers from 0 to 1, both included, and raises
-- a `ValueError` exactly for everything else.
set_brightness-IsWithin :
    (screen_id : String) (x : Float)
    → let request =
        command "screens.setBrightness"
          (field "screen_id" (str screen_id) (field "brightness" (float x) empty)) in
      ((set_brightness screen_id x ≡ returned request) ↔ IsWithin 1 x)
      × ((set_brightness screen_id x ≡ raised (builtin value_error)) ↔ (¬ IsWithin 1 x))
unfolding set_brightness
set_brightness-IsWithin screen_id x = guarded x 1 (
    command "screens.setBrightness"
      (field "screen_id" (str screen_id) (field "brightness" (float x) empty)))
