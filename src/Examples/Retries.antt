-- ===== src/Examples/Retries.antt =====
-- The retry package at concrete inputs.
use extension_sdk_go.Prelude.{
  refl, inl, true, false, none, some, List, [], arith, length, ◌+◌, ◌-◌, ◌*◌, ◌≤◌, ◌<◌, ◌≡◌, ◌↔◌,
  ◌∷◌, ◌==◌, if◌then◌else◌,
}
use extension_sdk_go.Errors.{sentinel, canceled, op, wrap}
use extension_sdk_go.Retry.Backoff.{Env, do_from, do_retry}
use extension_sdk_go.Retry.Backoff.Attempts.{
  FailsUpTo, do_retry_exhausted, do_retry_first_success, do_retry_nil_only_after_success,
  do_retry_interrupted,
}
use extension_sdk_go.Retry.Backoff.Delays.{sum, DrawsInUnit, do_retry_total_wait}
use extension_sdk_go.Retry.Backoff.WithResult.{do_with_result, value_for, do_with_result_lem}
use extension_sdk_go.Retry.Transient.{is_transient, here, in_wrap, in_op, is_transient-context}
use extension_sdk_go.Retry.Breaker.{Breaker, closed, open_state, new_breaker, do_call}
use extension_sdk_go.Retry.Breaker.Invariant.{
  Event, begin, finish, run, IsConsistent, run-new_breaker-IsConsistent,
}
use extension_sdk_go.Retry.Breaker.Counting.{consecutive, run-closed_iff}
use extension_sdk_go.Retry.Breaker.Calls.{do_call_probe_failure, admitted, admitted_after_cooldown}
use extension_sdk_go.Examples.Fixtures.{quarters, quarters-IsRounded, doubling, broken, failing}

-- Two failures open the breaker, at the time 5.
abbrev two_failures : List Event
two_failures = begin 1 ∷ finish 2 (some broken) ∷ begin 3 ∷ finish 5 (some broken) ∷ []

abbrev tripped : Breaker
tripped = record { state = open_state; failures = 2; threshold = 2; cooldown = 10; opened_at = 5 }

tripped-IsConsistent : IsConsistent tripped
tripped-IsConsistent = record { tripped = λ h. omega arith; calm = λ h. cc }

run-new_breaker-IsConsistent_example : IsConsistent (run two_failures (new_breaker 2 10))
run-new_breaker-IsConsistent_example = run-new_breaker-IsConsistent 2 10 two_failures

run-closed_iff_example :
    ((run two_failures (new_breaker 2 10)).state ≡ closed) ↔ (consecutive 0 two_failures < 2)
run-closed_iff_example = run-closed_iff 2 10 two_failures (omega arith)

do_call_probe_failure_example :
    let (returned, called, b') = do_call 15 16 (some broken) tripped in
    (returned ≡ some broken) × (called ≡ true) × (b'.state ≡ open_state) × (b'.opened_at ≡ 16)
do_call_probe_failure_example =
    do_call_probe_failure 15 16 broken tripped tripped-IsConsistent refl (omega arith)

admitted_after_cooldown_example : admitted (15 ∷ 15 ∷ 16 ∷ []) tripped ≡ 3
admitted_after_cooldown_example =
    admitted_after_cooldown 15 (15 ∷ 16 ∷ []) tripped refl (omega arith)

-- The first failures of an environment in which `fn` fails five times.
fail_three : FailsUpTo quarters (doubling true) (failing 5) 0 3
fail_three j low high = (refl, ground arith, refl)

do_retry_exhausted_example :
    let t = do_retry quarters 4 (doubling true) (failing 5) in
    (t.returned ≡ some broken) × (t.calls ≡ 4) × (length t.sleeps ≡ 3)
do_retry_exhausted_example =
    do_retry_exhausted quarters (doubling true) (failing 5) 3 fail_three refl (cc)

-- It succeeds at the fourth attempt.
fail_then_succeed : FailsUpTo quarters (doubling true) (failing 3) 0 3
fail_then_succeed j low high = (refl, ground arith, refl)

do_retry_first_success_example :
    let t = do_retry quarters 5 (doubling true) (failing 3) in
    (t.returned ≡ none) × (t.calls ≡ 4) × (length t.sleeps ≡ 3)
do_retry_first_success_example =
    do_retry_first_success quarters (doubling true) (failing 3) 5 3 (omega arith) fail_then_succeed
      refl refl

succeeds : (do_retry quarters 5 (doubling true) (failing 3)).returned ≡ none
unfolding do_retry do_from
succeeds = refl

do_retry_nil_only_after_success_example :
    let t = do_retry quarters 5 (doubling true) (failing 3) in
    (0 < t.calls) × ((failing 3).fn (t.calls - 1) ≡ none)
do_retry_nil_only_after_success_example =
    do_retry_nil_only_after_success quarters (doubling true) (failing 3) 5 (omega arith) succeeds

-- The context is cancelled during the wait after the second attempt.
abbrev cancelled_wait : Env quarters
cancelled_wait = record (failing 5) {
  interrupt = λ i. if i == 1 then some (sentinel canceled) else none;
}

fail_one : FailsUpTo quarters (doubling true) cancelled_wait 0 1
fail_one j low high = (refl, ground arith, ground arith)

do_retry_interrupted_example :
    let t = do_retry quarters 5 (doubling true) cancelled_wait in
    (t.returned ≡ some (sentinel canceled)) × (t.calls ≡ 2)
do_retry_interrupted_example =
    do_retry_interrupted quarters (doubling true) cancelled_wait 5 1 (omega arith) fail_one refl
      (cc) refl

half_draws : DrawsInUnit quarters (doubling true) (failing 5) quarters-IsRounded
unfolding quarters-IsRounded
half_draws i = (omega arith, omega arith)

do_retry_total_wait_example : sum (do_retry quarters 4 (doubling true) (failing 5)).sleeps ≤ 3 * 30
do_retry_total_wait_example =
    do_retry_total_wait quarters (doubling true) (failing 5) quarters-IsRounded half_draws
      (omega arith) 4 (omega arith)

do_with_result_lem_example :
    let t = do_with_result quarters 0 (λ i. 100 + i) 5 (doubling true) (failing 3) in
    (t.trace ≡ do_retry quarters 5 (doubling true) (failing 3))
    × (t.value
        ≡ value_for quarters 0
            (λ i. 100 + i)
            (doubling true)
            (failing 3)
            t.trace.calls
            t.trace.returned)
do_with_result_lem_example =
    do_with_result_lem quarters 0 (λ i. 100 + i) (doubling true) (failing 3) 5 (omega arith)

is_transient-context_example :
    is_transient (some (op "dial" (wrap "tcp" (sentinel canceled)))) ≡ false
is_transient-context_example = is_transient-context (inl (in_op (in_wrap here)))
