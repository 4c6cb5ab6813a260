-- ===== src/Retry/Breaker/Invariant.antt =====
-- What holds of a breaker under every interleaving of its critical sections.
use extension_sdk_go.Prelude.{ℕ, Option, none, some, List, [], arith, ◌≤◌, ◌<◌, ◌≡◌, ◌≢◌, ◌⊎◌, ◌∷◌}
use extension_sdk_go.Errors.{Error}
use extension_sdk_go.Retry.Breaker.{
  Breaker, closed, new_breaker, current_state, state, admit, settle, reset,
}

-- One critical section, entered by any goroutine at any time of the clock.
pub data Event : Type 0 where
  look : (now : ℕ) → Event
  begin : (now : ℕ) → Event
  finish : (now : ℕ) → Option Error → Event
  reset_now : Event

unfoldable pub step : Event → Breaker → Breaker
step (look now) b = (state now b).1
step (begin now) b = (admit now b).1
step (finish now e) b = (settle now e b).1
step reset_now b = reset b

unfoldable pub run : List Event → Breaker → Breaker
run [] b = b
run (e ∷ es) b = run es (step e b)

-- A breaker that is not closed has reached its threshold, a closed one has not (or has no failure
-- to count, where the threshold is 0).
pub record IsConsistent (b : Breaker) : Type 0 where
  pub tripped : b.state ≢ closed → b.threshold ≤ b.failures
  pub calm : b.state ≡ closed → (b.failures < b.threshold) ⊎ (b.failures ≡ 0)

step-IsConsistent : (e : Event) (b : Breaker) → IsConsistent b → IsConsistent (step e b)
unfolding step state current_state admit settle reset
step-IsConsistent (look now) b c = ground arith
step-IsConsistent (begin now) b c = ground arith
step-IsConsistent (finish now none) b c = ground arith
step-IsConsistent (finish now (some e)) b c = ground arith
step-IsConsistent reset_now b c = ground arith

run-IsConsistent : (es : List Event) (b : Breaker) → IsConsistent b → IsConsistent (run es b)
unfolding run
run-IsConsistent [] b c = c
run-IsConsistent (e ∷ es) b c = run-IsConsistent es (step e b) (step-IsConsistent e b c)

-- Whatever is interleaved, a breaker made by `NewBreaker` has reached its threshold of failures when
-- it is not closed, and has not reached it when it is closed (or has none, for a threshold of 0).
pub run-new_breaker-IsConsistent :
    (threshold cooldown : ℕ) (es : List Event)
    → IsConsistent (run es (new_breaker threshold cooldown))
unfolding new_breaker
run-new_breaker-IsConsistent threshold cooldown es =
    run-IsConsistent es (new_breaker threshold cooldown) (ground arith)
