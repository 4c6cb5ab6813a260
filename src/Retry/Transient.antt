-- ===== src/Retry/Transient.antt =====
-- retry/retry.go: `HTTPError` and `IsTransient`.
use extension_sdk_go.Prelude.{
  String, refl, inl, inr, Bool, true, false, Option, none, some, arith, ℤ, pos, eq_ℤ, ◌≡◌, ◌⊎◌,
  ◌||◌, if◌then◌else◌,
}
use extension_sdk_go.Errors.{
  Sentinel, canceled, deadline_exceeded, Error, sentinel, wrap, op, net_wrap, matching, join,
  same_sentinel, is, as_http, as_op, as_net,
}

abbrev pub transient_status : ℤ → Bool
transient_status c =
    eq_ℤ c (pos 429) || eq_ℤ c (pos 502) || eq_ℤ c (pos 503) || eq_ℤ c (pos 504) || eq_ℤ c (pos 529)

abbrev either_flag : Option (Bool × Bool) → Bool
either_flag none = false
either_flag (some (timeout, temporary)) = timeout || temporary

abbrev by_network : Error → Bool
by_network e = if as_op e then true else either_flag (as_net e)

abbrev by_status : Option ℤ → Bool → Bool
by_status (some c) rest = transient_status c
by_status none rest = rest

abbrev some_transient : Error → Bool
some_transient e =
    if is e canceled || is e deadline_exceeded then false else by_status (as_http e) (by_network e)

unfoldable pub is_transient : Option Error → Bool
is_transient none = false
is_transient (some e) = some_transient e

-- `Occurs x e`: the error `x` is `e` or is found by unwrapping it.
pub data Occurs (x : Error) : Error → Type 0 where
  here : Occurs x x
  in_wrap : {p : String} {e : Error} → Occurs x e → Occurs x (wrap p e)
  in_op : {p : String} {e : Error} → Occurs x e → Occurs x (op p e)
  in_net : {t u : Bool} {p : String} {e : Error} → Occurs x e → Occurs x (net_wrap t u p e)
  in_matching : {s : Sentinel} {e : Error} → Occurs x e → Occurs x (matching s e)
  in_left : {a b : Error} → Occurs x a → Occurs x (join a b)
  in_right : {a b : Error} → Occurs x b → Occurs x (join a b)

is-Occurs :
    {s : Sentinel} {e : Error} → same_sentinel s s ≡ true → Occurs (sentinel s) e → is e s ≡ true
unfolding is
is-Occurs h here = h
is-Occurs h (in_wrap o) = is-Occurs h o
is-Occurs h (in_op o) = is-Occurs h o
is-Occurs h (in_net o) = is-Occurs h o
is-Occurs h (in_matching o) = let i = is-Occurs h o in ground arith
is-Occurs h (in_left o) = let i = is-Occurs h o in ground arith
is-Occurs h (in_right o) = let i = is-Occurs h o in ground arith

-- An error in which context.Canceled or context.DeadlineExceeded occurs, however deep, is never
-- transient, whatever network error or status wraps it.
pub is_transient-context :
    {e : Error}
    → Occurs (sentinel canceled) e ⊎ Occurs (sentinel deadline_exceeded) e
    → is_transient (some e) ≡ false
unfolding is_transient
is_transient-context {e} (inl o) = let i = is-Occurs refl o in ground arith
is_transient-context {e} (inr o) = let i = is-Occurs refl o in ground arith

-- A wrapper that fmt.Errorf builds around an error does not change whether it is transient.
pub is_transient-wrap :
    (p : String) (e : Error) → is_transient (some (wrap p e)) ≡ is_transient (some e)
unfolding is_transient is as_http as_op as_net
is_transient-wrap p e = refl

as_op-Occurs : {p : String} {x e : Error} → Occurs (op p x) e → as_op e ≡ true
unfolding as_op
as_op-Occurs here = refl
as_op-Occurs (in_wrap o) = as_op-Occurs o
as_op-Occurs (in_op o) = refl
as_op-Occurs (in_net o) = as_op-Occurs o
as_op-Occurs (in_matching o) = as_op-Occurs o
as_op-Occurs (in_left o) = let i = as_op-Occurs o in ground arith
as_op-Occurs (in_right o) = let i = as_op-Occurs o in ground arith

-- An error without a context error and without a status is transient if a *net.OpError occurs in it,
-- however deep.
pub is_transient-op :
    {p : String} {x e : Error}
    → Occurs (op p x) e
    → is e canceled ≡ false
    → is e deadline_exceeded ≡ false
    → as_http e ≡ none
    → is_transient (some e) ≡ true
unfolding is_transient
is_transient-op o a b c = let i = as_op-Occurs o in ground arith
