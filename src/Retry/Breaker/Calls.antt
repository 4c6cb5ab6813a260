-- ===== src/Retry/Breaker/Calls.antt =====
-- `Do` from its caller's side: what a probe does.
use extension_sdk_go.Prelude.{
  ℕ, suc, refl, true, none, some, List, [], arith, length, ◌-◌, ◌≤◌, ◌≡◌, ◌∷◌,
}
use extension_sdk_go.Errors.{Error}
use extension_sdk_go.Retry.Breaker.{Breaker, open_state, half_open, current_state, admit, do_call}
use extension_sdk_go.Retry.Breaker.Invariant.{IsConsistent}

-- A probe that fails opens a consistent breaker again, from the time at which it ended: its failures
-- are still counted, so one is enough.
pub do_call_probe_failure :
    (now done : ℕ) (e : Error) (b : Breaker)
    → IsConsistent b
    → b.state ≡ open_state
    → b.cooldown ≤ now - b.opened_at
    → let (returned, called, b') = do_call now done (some e) b in
      (returned ≡ some e) × (called ≡ true) × (b'.state ≡ open_state) × (b'.opened_at ≡ done)
unfolding do_call current_state
do_call_probe_failure now done e b c o late = ground (arith, c.tripped)

-- How many of the calls that begin at the given times, before any of them ends, are admitted.
pub admitted : List ℕ → Breaker → ℕ
admitted [] b = 0
admitted (now ∷ times) b =
    let (refused, b') = admit now b in
    elim refused [ none ↦ suc (admitted times b') | some _ ↦ admitted times b' ]

admitted_half_open :
    (times : List ℕ) (b : Breaker) → b.state ≡ half_open → admitted times b ≡ length times
unfolding admitted admit
admitted_half_open [] b h = refl
admitted_half_open (now ∷ times) b h = ground (arith, admitted_half_open times b h)

-- Once the cooldown of an open breaker has elapsed, every call that begins before the first probe ends
-- is let through, however many there are.
pub admitted_after_cooldown :
    (now : ℕ) (times : List ℕ) (b : Breaker)
    → b.state ≡ open_state
    → b.cooldown ≤ now - b.opened_at
    → admitted (now ∷ times) b ≡ suc (length times)
unfolding admitted admit
admitted_after_cooldown now times b o late =
    ground (arith, admitted_half_open times (record b { state = half_open }) refl)
