-- ===== src/Retry/Breaker/Counting.antt =====
-- The breaker against its specification, a count of failures.
use extension_sdk_go.Prelude.{
  ℕ, refl, none, some, List, [], arith, ◌+◌, ◌<◌, ◌≡◌, ◌∙◌, ◌≢◌, ◌↔◌, ◌∷◌,
}
use extension_sdk_go.Retry.Breaker.{
  BreakerState, Breaker, closed, open_state, half_open, new_breaker, current_state, state, admit,
  settle, reset,
}
use extension_sdk_go.Retry.Breaker.Invariant.{
  Event, look, begin, finish, reset_now, step, run, run-new_breaker-IsConsistent,
}

-- The failures since the last success or reset, `n` being those before the list.
pub consecutive : ℕ → List Event → ℕ
consecutive n [] = n
consecutive n (look _ ∷ es) = consecutive n es
consecutive n (begin _ ∷ es) = consecutive n es
consecutive n (finish _ (some _) ∷ es) = consecutive (n + 1) es
consecutive n (finish _ none ∷ es) = consecutive 0 es
consecutive n (reset_now ∷ es) = consecutive 0 es

step-failures :
    (e : Event) (es : List Event) (b : Breaker)
    → consecutive (step e b).failures es ≡ consecutive b.failures (e ∷ es)
unfolding consecutive step state current_state admit settle reset
step-failures (look now) es b = ground arith
step-failures (begin now) es b = ground arith
step-failures (finish now none) es b = refl
step-failures (finish now (some e)) es b = ground arith
step-failures reset_now es b = refl

step-threshold : (e : Event) (b : Breaker) → (step e b).threshold ≡ b.threshold
unfolding step state current_state admit settle reset
step-threshold (look now) b = ground arith
step-threshold (begin now) b = ground arith
step-threshold (finish now none) b = refl
step-threshold (finish now (some e)) b = ground arith
step-threshold reset_now b = refl

run-failures : (es : List Event) (b : Breaker) → (run es b).failures ≡ consecutive b.failures es
unfolding run consecutive
run-failures [] b = refl
run-failures (e ∷ es) b = run-failures es (step e b) ∙ step-failures e es b

run-threshold : (es : List Event) (b : Breaker) → (run es b).threshold ≡ b.threshold
unfolding run
run-threshold [] b = refl
run-threshold (e ∷ es) b = run-threshold es (step e b) ∙ step-threshold e b

closed_of_not : (s : BreakerState) → ¬ (s ≢ closed) → s ≡ closed
closed_of_not closed h = refl
closed_of_not open_state h = absurd (h (cc))
closed_of_not half_open h = absurd (h (cc))

-- For every interleaving of critical sections, and a threshold that is not 0, the breaker is closed
-- exactly when fewer than `threshold` failures have been recorded since the last success or reset.
pub run-closed_iff :
    (threshold cooldown : ℕ) (es : List Event)
    → 0 < threshold
    → ((run es (new_breaker threshold cooldown)).state ≡ closed) ↔ (consecutive 0 es < threshold)
unfolding new_breaker
run-closed_iff threshold cooldown es some_threshold =
    let b = new_breaker threshold cooldown in
    let c = run-new_breaker-IsConsistent threshold cooldown es in
    let n = run-failures es b in
    let t = run-threshold es b in
    (λ e. ground (arith, c.calm e), λ lt. closed_of_not _ (λ other. omega (arith, c.tripped other)))
