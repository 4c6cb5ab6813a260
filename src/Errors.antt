-- ===== src/Errors.antt =====
-- The Go error values that the SDK inspects, as trees of wrapped errors.
use Prim.Native.String
use extension_sdk_go.Prelude.{
  ℕ, zero, suc, String, Bool, true, false, Option, none, some, ltb, ℤ, pos, negsuc, ◌+◌, ◌/◌, ◌%◌,
  ◌||◌, ◌+++◌,
}

-- The leaves are the sentinels of context, io, bufio and retry, `*retry.HTTPError`, errors that
-- implement net.Error (its Timeout() and Temporary() are the two flags), and any other error by its
-- text. `wrap p e` is fmt.Errorf("p: %w", e), `op p e` a *net.OpError that unwraps to `e`, `net_wrap`
-- a net.Error that unwraps, `matching t e` an error with an Is method that accepts the target `t`
-- only, and `join` is errors.Join of two errors.
pub data Sentinel : Type 0 where
  canceled deadline_exceeded eof too_long circuit_open : Sentinel

pub data Error : Type 0 where
  sentinel : Sentinel → Error
  http_error : ℤ → Error
  net_error : Bool → Bool → String → Error
  text : String → Error
  wrap : String → Error → Error
  op : String → Error → Error
  net_wrap : Bool → Bool → String → Error → Error
  matching : Sentinel → Error → Error
  join : Error → Error → Error

abbrev pub same_sentinel : Sentinel → Sentinel → Bool
same_sentinel canceled canceled = true
same_sentinel deadline_exceeded deadline_exceeded = true
same_sentinel eof eof = true
same_sentinel too_long too_long = true
same_sentinel circuit_open circuit_open = true
same_sentinel _ _ = false

-- errors.Is against a sentinel: the tree is walked in preorder.
unfoldable pub is : Error → Sentinel → Bool
is (sentinel s) t = same_sentinel s t
is (http_error _) t = false
is (net_error _ _ _) t = false
is (text _) t = false
is (wrap _ e) t = is e t
is (op _ e) t = is e t
is (net_wrap _ _ _ e) t = is e t
is (matching s e) t = same_sentinel s t || is e t
is (join a b) t = is a t || is b t

abbrev pub first {ℓ} : {A : Type ℓ} → Option A → Option A → Option A
first (some a) _ = some a
first none o = o

-- errors.As for *retry.HTTPError: the status of the first one in preorder.
unfoldable pub as_http : Error → Option ℤ
as_http (http_error c) = some c
as_http (sentinel _) = none
as_http (net_error _ _ _) = none
as_http (text _) = none
as_http (wrap _ e) = as_http e
as_http (op _ e) = as_http e
as_http (net_wrap _ _ _ e) = as_http e
as_http (matching _ e) = as_http e
as_http (join a b) = first (as_http a) (as_http b)

-- errors.As for *net.OpError.
unfoldable pub as_op : Error → Bool
as_op (op _ _) = true
as_op (sentinel _) = false
as_op (http_error _) = false
as_op (net_error _ _ _) = false
as_op (text _) = false
as_op (wrap _ e) = as_op e
as_op (net_wrap _ _ _ e) = as_op e
as_op (matching _ e) = as_op e
as_op (join a b) = as_op a || as_op b

-- errors.As for net.Error where no *net.OpError is in the tree: Timeout() and Temporary().
-- context.DeadlineExceeded is a net.Error too.
unfoldable pub as_net : Error → Option (Bool × Bool)
as_net (net_error timeout temporary _) = some (timeout, temporary)
as_net (net_wrap timeout temporary _ _) = some (timeout, temporary)
as_net (sentinel deadline_exceeded) = some (true, true)
as_net (sentinel _) = none
as_net (http_error _) = none
as_net (text _) = none
as_net (wrap _ e) = as_net e
as_net (op _ e) = as_net e
as_net (matching _ e) = as_net e
as_net (join a b) = first (as_net a) (as_net b)

-- strconv.Itoa: decimal digits, of which a number has at most as many as its value plus one.
digits_from : ℕ → ℕ → String → String
digits_from zero n acc = acc
digits_from (suc fuel) n acc =
    let acc' : String = String.slice "0123456789" (n % 10) (n % 10 + 1) +++ acc in
    elim (ltb n 10) [ true ↦ acc' | false ↦ digits_from fuel (n / 10) acc' ]

unfoldable pub itoa : ℤ → String
unfolding digits_from
itoa (pos n) = digits_from (suc n) n ""
itoa (negsuc n) = "-" +++ digits_from (suc (suc n)) (suc n) ""

sentinel_message : Sentinel → String
sentinel_message canceled = "context canceled"
sentinel_message deadline_exceeded = "context deadline exceeded"
sentinel_message eof = "EOF"
sentinel_message too_long = "bufio.Scanner: token too long"
sentinel_message circuit_open = "circuit breaker is open"

-- err.Error().
unfoldable pub message : Error → String
unfolding sentinel_message
message (sentinel s) = sentinel_message s
message (http_error c) = "HTTP " +++ itoa c
message (net_error _ _ m) = m
message (text m) = m
message (wrap p e) = p +++ ": " +++ message e
message (op p e) = p +++ ": " +++ message e
message (net_wrap _ _ p e) = p +++ ": " +++ message e
message (matching _ e) = message e
message (join a b) = message a +++ "\n" +++ message b
