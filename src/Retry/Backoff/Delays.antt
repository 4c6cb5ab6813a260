-- ===== src/Retry/Backoff/Delays.antt =====
-- How long `Do` waits between attempts.
use native.Mathlib.Nat.{}
use extension_sdk_go.Prelude.{
  ℕ, zero, suc, max, ap, subst, inl, inr, Option, none, List, [], arith, Bool-cases, length, All,
  ◌+◌, ◌-◌, ◌*◌, ◌/◌, ◌^◌, ◌≤◌, ◌<◌, ◌∷◌,
}
use extension_sdk_go.Errors.{Error}
use extension_sdk_go.Retry.Floats.{Floats, IsRounded}
use extension_sdk_go.Retry.Backoff.{Backoff, Env, sleep_duration, next_delay, do_from, do_retry}
use extension_sdk_go.Retry.Backoff.Attempts.{do_retry_bounds}

abbrev pub sum : List ℕ → ℕ
sum [] = 0
sum (x ∷ xs) = x + sum xs

sum-le : (n : ℕ) (xs : List ℕ) → All (λ x. x ≤ n) xs → sum xs ≤ length xs * n
sum-le n [] h = omega arith
sum-le n (x ∷ xs) h = omega (arith, sum-le n xs h.1)

module _ (f : Floats) (b : Backoff f) (env : Env f) where
  module _ (laws : IsRounded f) where
    open f use {Float, of_duration, to_duration, mul, add, zero_f, half, one}
    open laws use {
      Le, Le-refl, mul_mono, add_mono, to_duration_mono, zero-mul, one-mul, mul-one, add-zero,
      half-half, exact, exact_half,
    }

    -- rand.Float64() lies between 0 and 1.
    abbrev pub DrawsInUnit : Type 0
    DrawsInUnit = (i : ℕ) → Le zero_f (env.rand i) × Le (env.rand i) one

    factor_upper : (r : Float) → Le r one → Le (add half (mul r half)) one
    factor_upper r h =
        subst (λ x. Le (add half (mul r half)) x) half-half
          (add_mono half (mul r half) half (
            subst (λ x. Le (mul r half) x) (one-mul half)
              (mul_mono r one half half h (Le-refl half))))

    factor_lower : (r : Float) → Le zero_f r → Le half (add half (mul r half))
    factor_lower r h =
        subst (λ x. Le x (add half (mul r half))) (add-zero half)
          (add_mono half zero_f (mul r half) (
            subst (λ x. Le x (mul r half)) (zero-mul half)
              (mul_mono zero_f r half half h (Le-refl half))))

    sleep_duration_bounds :
        (delay : ℕ) (r : Float)
        → delay < 2 ^ 53
        → Le zero_f r × Le r one
        → (sleep_duration f b delay r ≤ delay) × (delay / 2 ≤ sleep_duration f b delay r)
    unfolding sleep_duration
    sleep_duration_bounds delay r small (low, high) =
        let d = of_duration delay in
        let x = add half (mul r half) in
        let up =
          to_duration_mono (mul d x) (mul d one)
            (mul_mono d d x one (Le-refl d) (factor_upper r high)) in
        let down =
          to_duration_mono (mul d half) (mul d x)
            (mul_mono d d half x (Le-refl d) (factor_lower r low)) in
        let unit = ap to_duration (mul-one d) in
        let same = exact delay small in
        let halved = exact_half delay small in
        elim (Bool-cases b.jitter) [
          | inl on ↦ rw on (omega arith, omega arith)
          | inr off ↦ rw off (omega arith, omega arith)
        ]

    -- Every later delay stays below `max`.
    next_delay-le-max : (delay : ℕ) → next_delay f b delay ≤ b.max
    unfolding next_delay
    next_delay-le-max delay = omega arith

    module _ (draws : DrawsInUnit) (max_small : b.max < 2 ^ 53) where
      do_from-sleeps_bounded :
          (attempts left i delay bound : ℕ) (last : Option Error)
          → delay < 2 ^ 53
          → delay ≤ bound
          → b.max ≤ bound
          → All (λ s. s ≤ bound) (do_from f b env attempts left i delay last).sleeps
      unfolding do_from
      do_from-sleeps_bounded attempts zero i delay bound last small le max_le = tt
      do_from-sleeps_bounded attempts (suc left) i delay bound last small le max_le =
          let here = sleep_duration_bounds delay (env.rand i) small (draws i) in
          let le' = next_delay-le-max delay in
          let rest =
            do_from-sleeps_bounded attempts left (i + 1) (next_delay f b delay) bound (env.fn i)
              (omega arith) (omega arith) max_le in
          ground arith

      waits_bounded :
          (attempts : ℕ)
          → b.initial < 2 ^ 53
          → All (λ s. s ≤ max b.initial b.max) (do_retry f attempts b env).sleeps
      unfolding do_retry
      waits_bounded attempts small =
          do_from-sleeps_bounded attempts attempts 0 b.initial (max b.initial b.max) none small
            (omega arith) (omega arith)

      -- The waits of a call add up to at most `attempts - 1` times the larger of `initial` and
      -- `max`, if both are below 2^53 ns, the float64 arithmetic rounds as IEEE 754 says, and the
      -- numbers drawn are between 0 and 1.
      pub do_retry_total_wait :
          (attempts : ℕ)
          → b.initial < 2 ^ 53
          → sum (do_retry f attempts b env).sleeps ≤ (attempts - 1) * max b.initial b.max
      do_retry_total_wait attempts small =
          let t = do_retry f attempts b env in
          let each = sum-le (max b.initial b.max) t.sleeps (waits_bounded attempts small) in
          let few = (do_retry_bounds f b env attempts).1 in grind arith
