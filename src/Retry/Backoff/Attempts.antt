-- ===== src/Retry/Backoff/Attempts.antt =====
-- How often `Do` calls its function, and what it returns.
use extension_sdk_go.Prelude.{
  ℕ, zero, suc, ap, inr, Option, none, some, arith, length, ◌+◌, ◌-◌, ◌≤◌, ◌<◌, ◌≡◌, ◌≢◌, ◌⊎◌,
}
use native.Mathlib.Nat.{zero-add}
use extension_sdk_go.Errors.{Error}
use extension_sdk_go.Retry.Floats.{Floats}
use extension_sdk_go.Retry.Backoff.{
  Backoff, Env, call, sleep, sleep_duration, next_delay, do_from, do_retry,
}

module _ (f : Floats) (b : Backoff f) (env : Env f) where
  open env use {ctx_err, fn, interrupt}

  -- Attempts from the first number up to the second, not counting it, are made, fail, and are
  -- followed by a whole wait.
  abbrev pub FailsUpTo : ℕ → ℕ → Type 0
  FailsUpTo i n =
      (j : ℕ) → i ≤ j → j < n → (ctx_err j ≡ none) × (fn j ≢ none) × (interrupt j ≡ none)

  calls_bounds :
      (attempts left i delay : ℕ) (last : Option Error)
      → i + left ≡ attempts
      → let t = do_from f b env attempts left i delay last in
        (t.calls ≤ left) × (length t.sleeps ≤ left - 1) × (length t.sleeps ≤ t.calls)
  unfolding do_from
  calls_bounds attempts zero i delay last h = ground arith
  calls_bounds attempts (suc left) i delay last h =
      ground (arith, calls_bounds attempts left (i + 1) (next_delay f b delay) (fn i))

  -- `Do` calls `fn` at most `attempts` times and waits at most `attempts - 1` times, and at most once
  -- for each call.
  pub do_retry_bounds :
      (attempts : ℕ)
      → let t = do_retry f attempts b env in
        (t.calls ≤ attempts) × (length t.sleeps ≤ attempts - 1) × (length t.sleeps ≤ t.calls)
  unfolding do_retry
  do_retry_bounds attempts = calls_bounds attempts attempts 0 b.initial none (omega arith)

  -- A failed attempt that is not the last, and the whole wait after it.
  do_from-suc :
      (attempts left i delay : ℕ) (last : Option Error)
      → (ctx_err i ≡ none) × (fn i ≢ none) × (interrupt i ≡ none)
      → i + 1 < attempts
      → do_from f b env attempts (suc left) i delay last
        ≡ call (
            sleep
              (sleep_duration f b delay (env.rand i))
              (do_from f b env attempts left (i + 1) (next_delay f b delay) (fn i)))
  unfolding do_from
  do_from-suc attempts left i delay last h lt = ground arith

  exhaust :
      (attempts n left i delay : ℕ) (last : Option Error)
      → i + left ≡ n
      → n + 1 ≡ attempts
      → FailsUpTo i n
      → ctx_err n ≡ none
      → fn n ≢ none
      → let t = do_from f b env attempts (suc left) i delay last in
        (t.returned ≡ fn n) × (t.calls ≡ suc left) × (length t.sleeps ≡ left)
  unfolding do_from
  exhaust attempts n zero i delay last h e fails alive bad =
      let at : i ≡ n = omega arith in rw at (ground arith)
  exhaust attempts n (suc left) i delay last h e fails alive bad =
      let rest =
        exhaust attempts n left (i + 1) (next_delay f b delay) (fn i) (omega arith) e
          (λ j p q. fails j (omega arith) q) alive bad in
      rw
        (do_from-suc attempts (suc left) i delay last (fails i (omega arith) (omega arith))
          (omega arith))
        (rest.0, ap suc rest.1, ap suc rest.2)

  succeed :
      (attempts n k left i delay : ℕ) (last : Option Error)
      → i + k ≡ n
      → i + left ≡ attempts
      → k < left
      → FailsUpTo i n
      → ctx_err n ≡ none
      → fn n ≡ none
      → let t = do_from f b env attempts left i delay last in
        (t.returned ≡ none) × (t.calls ≡ suc k) × (length t.sleeps ≡ k)
  unfolding do_from
  succeed attempts n k zero i delay last e h lt fails alive good = elim lt [ ]
  succeed attempts n zero (suc left) i delay last e h lt fails alive good =
      let at : i ≡ n = omega arith in rw at (ground arith)
  succeed attempts n (suc k) (suc left) i delay last e h lt fails alive good =
      let (alive', bad', whole) = fails i (omega arith) (omega arith) in
      ground (
        arith,
        succeed attempts n k left (i + 1) (next_delay f b delay) (fn i) (omega arith) (omega arith)
            (omega arith) (λ j p q. fails j (omega arith) q) alive good,
      )

  returned_none :
      (attempts left i delay : ℕ) (last : Option Error)
      → i + left ≡ attempts
      → let t = do_from f b env attempts left i delay last in
        (last ≢ none) ⊎ (0 < left)
        → t.returned ≡ none
        → (0 < t.calls) × (fn (i + t.calls - 1) ≡ none)
  unfolding do_from
  returned_none attempts zero i delay last h l r = ground arith
  returned_none attempts (suc left) i delay last h l r =
      ground (arith, returned_none attempts left (i + 1) (next_delay f b delay) (fn i))

  -- If every attempt fails and neither the context nor a wait is cut short, `Do` makes all its
  -- `attempts` attempts, waits once between two of them, and returns the error of the last one.
  pub do_retry_exhausted :
      (attempts : ℕ)
      → FailsUpTo 0 attempts
      → ctx_err attempts ≡ none
      → fn attempts ≢ none
      → let t = do_retry f (suc attempts) b env in
        (t.returned ≡ fn attempts) × (t.calls ≡ suc attempts) × (length t.sleeps ≡ attempts)
  unfolding do_retry
  do_retry_exhausted attempts fails alive bad =
      exhaust (suc attempts) attempts attempts 0 b.initial none (omega arith) (omega arith) fails
        alive bad

  -- If attempt k is the first that succeeds, and nothing is cut short before it, `Do` returns nil
  -- after k + 1 calls and k waits.
  pub do_retry_first_success :
      (attempts k : ℕ)
      → k < attempts
      → FailsUpTo 0 k
      → ctx_err k ≡ none
      → fn k ≡ none
      → let t = do_retry f attempts b env in
        (t.returned ≡ none) × (t.calls ≡ suc k) × (length t.sleeps ≡ k)
  unfolding do_retry
  do_retry_first_success attempts k lt fails alive good =
      succeed attempts k k attempts 0 b.initial none (omega arith) (omega arith) lt fails alive good

  -- With at least one attempt, nil is returned only if the last call of `fn` succeeded.
  pub do_retry_nil_only_after_success :
      (attempts : ℕ)
      → 0 < attempts
      → (do_retry f attempts b env).returned ≡ none
      → let t = do_retry f attempts b env in (0 < t.calls) × (fn (t.calls - 1) ≡ none)
  unfolding do_retry
  do_retry_nil_only_after_success attempts pos_attempts r =
      let (some_calls, good) =
        returned_none attempts attempts 0 b.initial none (omega arith) (inr pos_attempts) r in
      (some_calls, rw (zero-add) at good)

  cut :
      (attempts n k left i delay : ℕ) (last : Option Error) {c : Error}
      → i + k ≡ n
      → i + left ≡ attempts
      → k + 1 < left
      → FailsUpTo i n
      → ctx_err n ≡ none
      → fn n ≢ none
      → interrupt n ≡ some c
      → let t = do_from f b env attempts left i delay last in
        (t.returned ≡ some c) × (t.calls ≡ suc k)
  unfolding do_from
  cut attempts n k zero i delay last e h lt fails alive bad c = elim lt [ ]
  cut attempts n zero (suc left) i delay last e h lt fails alive bad c =
      let at : i ≡ n = omega arith in rw at (ground arith)
  cut attempts n (suc k) (suc left) i delay last e h lt fails alive bad c =
      let rest =
        cut attempts n k left (i + 1) (next_delay f b delay) (fn i) (omega arith) (omega arith)
          (omega arith) (λ j p q. fails j (omega arith) q) alive bad c in
      rw
        (do_from-suc attempts left i delay last (fails i (omega arith) (omega arith)) (omega arith))
        (rest.0, ap suc rest.1)

  -- If attempts up to the k-th fail, and the wait after that one, which is not the last, is ended by
  -- the context, `Do` returns the context's error and makes no further attempt.
  pub do_retry_interrupted :
      (attempts k : ℕ) {c : Error}
      → k + 1 < attempts
      → FailsUpTo 0 k
      → ctx_err k ≡ none
      → fn k ≢ none
      → interrupt k ≡ some c
      → let t = do_retry f attempts b env in (t.returned ≡ some c) × (t.calls ≡ suc k)
  unfolding do_retry
  do_retry_interrupted attempts k lt fails alive bad c =
      cut attempts k k attempts 0 b.initial none (omega arith) (omega arith) lt fails alive bad c
