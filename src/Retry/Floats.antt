-- ===== src/Retry/Floats.antt =====
-- Go's float64, of which retry/retry.go uses conversion from and to time.Duration, `*` and `+`.
-- Durations are numbers of nanoseconds.
use extension_sdk_go.Prelude.{ℕ, ◌≤◌, ◌<◌, ◌^◌, ◌/◌, ◌≡◌}

-- The arithmetic of the machine. `to_duration` is the conversion `time.Duration(f)` of values in
-- the range of int64; outside of it Go leaves the result to the implementation.
pub record Floats : Type 1 where
  pub Float : Type 0
  pub of_duration : ℕ → Float
  pub to_duration : Float → ℕ
  pub mul : Float → Float → Float
  pub add : Float → Float → Float
  pub zero_f : Float
  pub half : Float
  pub one : Float

-- What IEEE 754 and the language say of it, for values that are not negative: rounding is monotone,
-- 0, 1/2 and 1 behave, a duration below 2^53 ns (104 days) is a float64 exactly, and halving it is
-- exact too.
module _ (f : Floats) where
  open f use {Float, of_duration, to_duration, mul, add, zero_f, half, one}

  pub record IsRounded : Type 1 where
    pub Le : Float → Float → Type 0
    pub Le-refl : (a : Float) → Le a a
    pub mul_mono : (a a' b b' : Float) → Le a a' → Le b b' → Le (mul a b) (mul a' b')
    pub add_mono : (a b b' : Float) → Le b b' → Le (add a b) (add a b')
    pub to_duration_mono : (a b : Float) → Le a b → to_duration a ≤ to_duration b
    pub zero-mul : (a : Float) → mul zero_f a ≡ zero_f
    pub one-mul : (a : Float) → mul one a ≡ a
    pub mul-one : (a : Float) → mul a one ≡ a
    pub add-zero : (a : Float) → add a zero_f ≡ a
    pub half-half : add half half ≡ one
    pub exact : (d : ℕ) → d < 2 ^ 53 → to_duration (of_duration d) ≡ d
    pub exact_half : (d : ℕ) → d < 2 ^ 53 → to_duration (mul (of_duration d) half) ≡ d / 2
