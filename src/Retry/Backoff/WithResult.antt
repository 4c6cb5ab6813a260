-- ===== src/Retry/Backoff/WithResult.antt =====
-- retry/retry.go: `DoWithResult`, against `Do`.
use extension_sdk_go.Prelude.{
  ℕ, zero, suc, refl, ap, subst, inl, inr, true, false, Option, none, some, arith, Bool-cases,
  Option-cases, ◌+◌, ◌-◌, ◌<◌, ◌≡◌, ◌≢◌, ◌⊎◌, ◌==◌,
}
use native.Mathlib.Nat.{zero-add}
use extension_sdk_go.Errors.{Error}
use extension_sdk_go.Retry.Floats.{Floats}
use extension_sdk_go.Retry.Backoff.{
  Backoff, Env, Trace, return, call, sleep, sleep_duration, next_delay, do_from, do_retry,
}

-- The value and the trace of a call.
pub record Valued (T : Type 0) : Type 0 where
  pub value : T
  pub trace : Trace

module _ {T : Type 0} where
  abbrev pub give : T → Option Error → Valued T
  give v e = record { value = v; trace = return e }

  abbrev pub called : Valued T → Valued T
  called t = record t { trace = call t.trace }

  abbrev pub slept : ℕ → Valued T → Valued T
  slept d t = record t { trace = sleep d t.trace }

-- `zero_value` is Go's zero value of T, and attempt i gives `value i` with the error `env.fn i`.
module _ (f : Floats) {T : Type 0} (zero_value : T) (value : ℕ → T) where
  unfoldable pub do_with_result_from :
      Backoff f → Env f → (attempts left i delay : ℕ) → Option Error → Valued T
  do_with_result_from b env attempts zero i delay last_err = give zero_value last_err
  do_with_result_from b env attempts (suc left) i delay last_err = elim (env.ctx_err i) [
    | some e ↦ give zero_value (some e)
    | none ↦ elim (env.fn i) [
      | none ↦ called (give (value i) none)
      | some e ↦ elim (i + 1 == attempts) [
        | true ↦ called (give zero_value (some e))
        | false ↦ called (
            slept (sleep_duration f b delay (env.rand i)) (elim (env.interrupt i) [
              | some c ↦ give zero_value (some c)
              | none ↦
                  do_with_result_from b env attempts left (i + 1) (next_delay f b delay) (some e)
            ]))
      ]
    ]
  ]

  unfoldable pub do_with_result : (attempts : ℕ) → Backoff f → Env f → Valued T
  unfolding do_with_result_from
  do_with_result attempts b env = do_with_result_from b env attempts attempts 0 b.initial none

  module _ (b : Backoff f) (env : Env f) where
    same_trace :
        (attempts left i delay : ℕ) (last : Option Error)
        → (do_with_result_from b env attempts left i delay last).trace
          ≡ do_from f b env attempts left i delay last
    unfolding do_with_result_from do_from
    same_trace attempts zero i delay last = refl
    same_trace attempts (suc left) i delay last =
        let ih = λ (e : Error). same_trace attempts left (i + 1) (next_delay f b delay) (some e) in
        elim (Option-cases (env.ctx_err i)) [
          | inr (c, h) ↦ rw (h, do_with_result_from, do_from) refl
          | inl h ↦
              rw (h, do_with_result_from, do_from)
                (elim (Option-cases (env.fn i)) [
                  | inl g ↦ rw (g, do_with_result_from, do_from) refl
                  | inr (e, g) ↦
                      rw (g, do_with_result_from, do_from)
                        (elim (Bool-cases (i + 1 == attempts)) [
                          | inl l ↦ rw (l, do_with_result_from, do_from) refl
                          | inr l ↦
                              rw (l, do_with_result_from, do_from)
                                (elim (Option-cases (env.interrupt i)) [
                                  | inr (c, k) ↦ rw (k, do_with_result_from, do_from) refl
                                  | inl k ↦
                                      rw (k, do_with_result_from, do_from)
                                        (ap
                                          (λ t.
                                            call (sleep (sleep_duration f b delay (env.rand i)) t))
                                          (ih e))
                                ])
                        ])
                ])
        ]

    -- What the value is, by the error and the number of calls.
    abbrev pub value_for : ℕ → Option Error → T
    value_for calls none = value (calls - 1)
    value_for calls (some _) = zero_value

    right_value :
        (attempts left i delay : ℕ) (last : Option Error)
        → i + left ≡ attempts
        → (last ≢ none) ⊎ (0 < left)
        → let t = do_with_result_from b env attempts left i delay last in
          t.value ≡ value_for (i + t.trace.calls) t.trace.returned
    unfolding do_with_result_from
    right_value attempts zero i delay last h l = ground arith
    right_value attempts (suc left) i delay last h l =
        let ih = λ (e : Error).
          right_value attempts left (i + 1) (next_delay f b delay) (some e) (omega arith)
            (inl (cc)) in
        elim (Option-cases (env.ctx_err i)) [
          | inr (c, p) ↦ rw (p, do_with_result_from) refl
          | inl p ↦
              rw (p, do_with_result_from)
                (elim (Option-cases (env.fn i)) [
                  | inl g ↦ rw (g, do_with_result_from) (ap value (omega arith))
                  | inr (e, g) ↦
                      rw (g, do_with_result_from)
                        (elim (Bool-cases (i + 1 == attempts)) [
                          | inl m ↦ rw (m, do_with_result_from) refl
                          | inr m ↦
                              rw (m, do_with_result_from)
                                (elim (Option-cases (env.interrupt i)) [
                                  | inr (c, k) ↦ rw (k, do_with_result_from) refl
                                  | inl k ↦
                                      rw (k, do_with_result_from)
                                        (let t =
                                            do_with_result_from b env attempts left (i + 1)
                                              (next_delay f b delay) (some e) in
                                          subst (λ n. t.value ≡ value_for n t.trace.returned)
                                            (omega arith) (ih e))
                                ])
                        ])
                ])
        ]

    -- `DoWithResult` calls, waits and fails exactly as `Do`. With at least one attempt, its value is
    -- that of the last call where the error is nil, and the zero value otherwise.
    pub do_with_result_lem :
        (attempts : ℕ)
        → 0 < attempts
        → let t = do_with_result attempts b env in
          (t.trace ≡ do_retry f attempts b env)
          × (t.value ≡ value_for t.trace.calls t.trace.returned)
    unfolding do_with_result do_retry
    do_with_result_lem attempts some_attempts =
        let right =
          right_value attempts attempts 0 b.initial none (omega arith) (inr some_attempts) in
        (same_trace attempts attempts 0 b.initial none, rw (zero-add) at right)
