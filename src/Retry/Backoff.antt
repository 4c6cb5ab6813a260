-- ===== src/Retry/Backoff.antt =====
-- retry/retry.go: `Backoff`, its presets, `Do` and `DoWithResult`.
-- The callback, the context, the timer and the random source are outside: an `Env` says what the
-- i-th use of each gives, so every behaviour of them is some `Env`.
pub mod Attempts
pub mod Delays
pub mod WithResult
use extension_sdk_go.Prelude.{
  ℕ, zero, suc, min, Bool, true, false, Option, none, some, List, [], ◌+◌, ◌*◌, ◌∷◌, ◌==◌,
  if◌then◌else◌,
}
use extension_sdk_go.Errors.{Error}
use extension_sdk_go.Retry.Floats.{Floats}

abbrev pub millisecond : ℕ
millisecond = 1_000_000

abbrev pub second : ℕ
second = 1_000_000_000

-- What a call shows: the error that it returns, how often it called `fn`, and the timers set.
pub record Trace : Type 0 where
  pub returned : Option Error
  pub calls : ℕ
  pub sleeps : List ℕ

abbrev pub return : Option Error → Trace
return e = record { returned = e; calls = 0; sleeps = [] }

abbrev pub call : Trace → Trace
call t = record t { calls = suc t.calls }

abbrev pub sleep : ℕ → Trace → Trace
sleep d t = record t { sleeps = d ∷ t.sleeps }

module _ (f : Floats) where
  open f use {Float, of_duration, to_duration, mul, add, half}

  pub record Backoff : Type 0 where
    pub initial : ℕ
    pub max : ℕ
    pub multiplier : Float
    pub jitter : Bool

  -- `two` and `three_halves` are the float64 constants 2 and 1.5.
  abbrev pub fast : (two : Float) → Backoff
  fast two = record { initial = 100 * millisecond; max = second; multiplier = two; jitter = true }

  abbrev pub moderate : (two : Float) → Backoff
  moderate two = record {
    initial = 500 * millisecond;
    max = 30 * second;
    multiplier = two;
    jitter = true;
  }

  abbrev pub slow : (three_halves : Float) → Backoff
  slow three_halves = record {
    initial = second;
    max = 120 * second;
    multiplier = three_halves;
    jitter = true;
  }

  -- `ctx_err i` is ctx.Err() before attempt i, `fn i` the error of attempt i, `interrupt i` the error
  -- of the context if the wait after attempt i ends by ctx.Done(), and `rand i` the number drawn
  -- for that wait.
  pub record Env : Type 0 where
    pub ctx_err : ℕ → Option Error
    pub fn : ℕ → Option Error
    pub interrupt : ℕ → Option Error
    pub rand : ℕ → Float

  -- The jittered sleep.
  pub sleep_duration : Backoff → ℕ → Float → ℕ
  sleep_duration b delay r =
      if b.jitter then to_duration (mul (of_duration delay) (add half (mul r half))) else delay

  -- The delay after a wait.
  pub next_delay : Backoff → ℕ → ℕ
  next_delay b delay = min (to_duration (mul (of_duration delay) b.multiplier)) b.max

  -- The body of the loop from attempt i on, with `left` attempts left of `attempts`.
  unfoldable pub do_from : Backoff → Env → (attempts left i delay : ℕ) → Option Error → Trace
  do_from b env attempts zero i delay last_err = return last_err
  do_from b env attempts (suc left) i delay last_err = elim (env.ctx_err i) [
    | some e ↦ return (some e)
    | none ↦ elim (env.fn i) [
      | none ↦ call (return none)
      | some e ↦ elim (i + 1 == attempts) [
        | true ↦ call (return (some e))
        | false ↦ call (
            sleep (sleep_duration b delay (env.rand i)) (elim (env.interrupt i) [
              | some c ↦ return (some c)
              | none ↦ do_from b env attempts left (i + 1) (next_delay b delay) (some e)
            ]))
      ]
    ]
  ]

  -- `range attempts` makes no round for an int that is not positive, which is 0 here.
  unfoldable pub do_retry : (attempts : ℕ) → Backoff → Env → Trace
  unfolding do_from
  do_retry attempts b env = do_from b env attempts attempts 0 b.initial none
