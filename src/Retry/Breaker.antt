-- ===== src/Retry/Breaker.antt =====
-- retry/breaker.go: the circuit breaker. Each critical section is one function; the lock makes it
-- one step. The clock is an argument, and `threshold` an int that is not negative.
pub mod Invariant
pub mod Counting
pub mod Calls
use extension_sdk_go.Prelude.{
  ℕ, Bool, true, false, Option, none, some, leb, ◌+◌, ◌-◌, ◌&&◌, if◌then◌else◌,
}
use extension_sdk_go.Errors.{Error, sentinel, circuit_open}

pub data BreakerState : Type 0 where
  closed open_state half_open : BreakerState

pub record Breaker : Type 0 where
  pub state : BreakerState
  pub failures : ℕ
  pub threshold : ℕ
  pub cooldown : ℕ
  pub opened_at : ℕ

unfoldable pub new_breaker : (threshold cooldown : ℕ) → Breaker
new_breaker threshold cooldown = record {
  state = closed;
  failures = 0;
  threshold = threshold;
  cooldown = cooldown;
  opened_at = 0;
}

abbrev pub is_open : BreakerState → Bool
is_open open_state = true
is_open _ = false

-- `currentState`: the stored state is updated too. `now - opened_at` is time.Since on a clock that
-- does not go back.
unfoldable pub current_state : (now : ℕ) → Breaker → BreakerState × Breaker
current_state now b =
    let b' =
      if is_open b.state && leb b.cooldown (now - b.opened_at)
      then record b { state = half_open }
      else b in
    (b'.state, b')

unfoldable pub state : (now : ℕ) → Breaker → BreakerState × Breaker
unfolding current_state
state now b = current_state now b

-- The first critical section of `Do`: the error that `Do` returns at once, if any.
unfoldable pub admit : (now : ℕ) → Breaker → Option Error × Breaker
unfolding current_state
admit now b =
    let (s, b') = current_state now b in
    (if is_open s then some (sentinel circuit_open) else none, b')

-- The second critical section of `Do`, with the error of `fn`.
unfoldable pub settle : (now : ℕ) → Option Error → Breaker → Option Error × Breaker
settle now (some e) b =
    let failed = record b { failures = b.failures + 1 } in
    (
      some e,
      if leb failed.threshold failed.failures
          then record failed { state = open_state; opened_at = now }
          else failed,
    )
settle now none b = (none, record b { failures = 0; state = closed })

unfoldable pub reset : Breaker → Breaker
reset b = record b { failures = 0; state = closed }

-- `Do` with nobody in between: `fn` ends at the time `done` with `outcome`. The flag says whether
-- `fn` was called.
unfoldable pub do_call :
    (now done : ℕ) → (outcome : Option Error) → Breaker → Option Error × Bool × Breaker
unfolding admit settle
do_call now done outcome b =
    let (refused, b') = admit now b in
    elim refused [
      | some e ↦ (some e, false, b')
      | none ↦ let (e, b'') = settle done outcome b' in (e, true, b'')
    ]
