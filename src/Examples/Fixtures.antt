-- ===== src/Examples/Fixtures.antt =====
-- A concrete world: floats in quarters, an encoding of three requests, and a tool extension.
use native.Mathlib.Nat.{mul-le-mul}
use extension_sdk_go.Prelude.{
  ℕ, String, refl, Bool, false, Option, none, some, List, [], arith, ltb, ℤ, pos, negsuc, ok, err,
  ◌+◌, ◌*◌, ◌/◌, ◌≤◌, ◌∷◌, ◌==◌, if◌then◌else◌,
}
use extension_sdk_go.Errors.{Error, text}
use extension_sdk_go.Json.{Json, obj, end}
use extension_sdk_go.Json.Encoding.{Encoding}
use extension_sdk_go.Protocol.Types.{Request, request_kind}
use extension_sdk_go.Protocol.Initialize.{zero_registrations}
use extension_sdk_go.Jsonrpc.Writer.{Writer}
use extension_sdk_go.Jsonrpc.Transport.{Transport}
use extension_sdk_go.Retry.Floats.{Floats, IsRounded}
use extension_sdk_go.Retry.Backoff.{Backoff, Env}
use extension_sdk_go.Extension.Handler.{done, emit, Host}
use extension_sdk_go.Extension.Emitter.{log_call}
use extension_sdk_go.Extension.Tool.{ToolExtension}

-- Numbers of quarters, rounded down.
abbrev pub quarters : Floats
quarters = record {
  Float = ℕ;
  of_duration = λ d. 4 * d;
  to_duration = λ x. x / 4;
  mul = λ a b. a * b / 4;
  add = λ a b. a + b;
  zero_f = 0;
  half = 2;
  one = 4;
}

unfoldable pub quarters-IsRounded : IsRounded quarters
quarters-IsRounded = record {
  Le = λ a b. a ≤ b;
  Le-refl = λ a. omega arith;
  mul_mono = λ a a' b b' h k. omega (arith, mul-le-mul h k);
  add_mono = λ a b b' h. omega arith;
  to_duration_mono = λ a b h. omega arith;
  zero-mul = λ a. omega arith;
  one-mul = λ a. omega arith;
  mul-one = λ a. omega arith;
  add-zero = λ a. omega arith;
  half-half = refl;
  exact = λ d h. omega arith;
  exact_half = λ d h. omega arith;
}

-- Ten nanoseconds, doubled up to thirty.
abbrev pub doubling : Bool → Backoff quarters
doubling jitter = record { initial = 10; max = 30; multiplier = 8; jitter = jitter }

abbrev pub broken : Error
broken = text "broken"

abbrev pub fails_before : ℕ → ℕ → Option Error
fails_before n i = if ltb i n then some broken else none

-- `fn` fails `n` times; nothing is interrupted, and each draw is a half.
abbrev pub failing : ℕ → Env quarters
failing n = record {
  ctx_err = λ i. none;
  fn = fails_before n;
  interrupt = λ i. none;
  rand = λ i. 2;
}

-- A request for the method with the identifier.
abbrev pub request : String → ℤ → Request
request method id = record { jsonrpc = "2.0"; method = method; params = none; id = id }

-- The requests with the texts "1", "2" and "3".
abbrev pub initialize_1 : Request
initialize_1 = request "initialize" (pos 1)

abbrev pub tool_call_2 : Request
tool_call_2 = record (request "tool_call" (pos 2)) { params = some (obj end) }

abbrev pub shutdown_3 : Request
shutdown_3 = request "shutdown" (pos 3)

abbrev read_text : List ℕ → Option Json
read_text (c ∷ []) =
    if c == b'1'
    then some (request_kind.marshal initialize_1)
    else if c == b'2'
    then some (request_kind.marshal tool_call_2)
    else if c == b'3'
    then some (request_kind.marshal shutdown_3)
    else none
read_text _ = none

abbrev digit_of : ℤ → ℕ
digit_of (pos n) = 48 + n
digit_of (negsuc n) = b'-'

-- A message is printed as the digit of its identifier, which is 0 if it has none.
abbrev text_of : Option Request → List ℕ
text_of none = b'?' ∷ []
text_of (some req) = digit_of req.id ∷ []

instance abbrev pub digits : Encoding
digits = record {
  print = λ j. text_of (request_kind.unmarshal j request_kind.zero_value);
  parse = read_text;
  syntax_message = λ bytes. "syntax";
  type_message = λ j. "type";
  base64 = λ bytes. "";
  unbase64 = λ s. none;
  float64 = λ m e. some (m, e);
}

-- A tool that logs and counts its calls, and fails from the third on.
abbrev pub counting_tool : ToolExtension ℕ
counting_tool = record {
  initialize = λ config root n. done (ok (some (record zero_registrations { tools = [] })), n);
  handle_tool_call = λ params n.
      emit (log_call "info" "called") (λ e. done (if ltb n 2 then ok none else err broken, n + 1));
  shutdown = λ n. done (ok tt, n);
}

-- One that does not initialize.
abbrev pub broken_tool : ToolExtension ℕ
broken_tool = record counting_tool { initialize = λ config root n. done (err broken, n + 10) }

abbrev pub sound_writer : Writer
sound_writer = record { written = []; script = [] }

-- A transport that reads the bytes and ends with io.EOF.
abbrev pub transport_of : List ℕ → Transport
transport_of input = record {
  scanner = record { input = input; read_err = none; limit = 65536; failed = none };
  writer = sound_writer;
}

abbrev pub host_of : List ℕ → Host ℕ
host_of input = record { transport = transport_of input; world = 0 }

-- The three requests, and a line that is none.
abbrev pub session : List ℕ
session = b'1' ∷ b'\n' ∷ b'2' ∷ b'\n' ∷ b'3' ∷ b'\n' ∷ b'2' ∷ b'\n' ∷ []

abbrev pub garbage : List ℕ
garbage = b'2' ∷ b'\n' ∷ b'x' ∷ b'\n' ∷ b'2' ∷ b'\n' ∷ []

abbrev pub never : ℕ → Bool
never i = false
