-- ===== src/Extension/Handler.antt =====
-- What the runner knows of an extension's methods: each changes the extension's own state, may
-- call the emitter any number of times and sees its errors, and returns a result or an error.
use extension_sdk_go.Prelude.{Option, none, some, ℤ, Result, ok, err, ◌+++◌}
use extension_sdk_go.Errors.{Error, message}
use extension_sdk_go.Json.{Json, obj, end}
use extension_sdk_go.Json.Marshal.{encode}
use extension_sdk_go.Json.Encoding.{Encoding}
use extension_sdk_go.Json.Kind.{Kind, pointer_kind}
use extension_sdk_go.Protocol.Constants.{err_code_invalid_params, err_code_method_not_found}
use extension_sdk_go.Protocol.Types.{Request}
use extension_sdk_go.Jsonrpc.Transport.{Transport, unmarshal_raw, send_response, send_error}
use extension_sdk_go.Extension.Emitter.{Emission, emit_by}

pub data Program (A : Type 0) : Type 0 where
  done : A → Program A
  emit : Emission → (Option Error → Program A) → Program A

unfoldable pub run_program : ⦃enc : Encoding⦄ → {A : Type 0} → Program A → Transport → A × Transport
run_program (done a) t = (a, t)
run_program (emit e k) t = let (r, t') = emit_by e t in run_program (k r) t'

-- The runner's state: the transport, and the state of the extension's objects.
pub record Host (W : Type 0) : Type 0 where
  pub transport : Transport
  pub world : W

abbrev pub Action : Type 0 → Type 0 → Type 0
Action W A = Host W → A × Host W

-- A method with the result type R.
abbrev pub Method : Type 0 → Type 0 → Type 0
Method W R = W → Program (Result Error R × W)

module _ ⦃enc : Encoding⦄ {W : Type 0} where
  unfoldable pub call_method : {R : Type 0} → Method W R → Action W (Result Error R)
  call_method m h =
      let ((r, w), t) = run_program (m h.world) h.transport in
      (r, record { transport = t; world = w })

  -- A call of the transport.
  abbrev pub transmit : (Transport → Option Error × Transport) → Action W (Option Error)
  transmit f h = let (e, t) = f h.transport in (e, record h { transport = t })

  -- What each case of a dispatch function does with the error of json.Unmarshal.
  unfoldable pub invalid_params : Request → Error → Action W (Option Error)
  invalid_params req e =
      transmit (send_error req.id err_code_invalid_params ("invalid params: " +++ message e))

  -- The `default` case.
  unfoldable pub unknown_method : Request → Action W (Option Error)
  unknown_method req =
      transmit (send_error req.id err_code_method_not_found ("unknown method: " +++ req.method))

  -- The end of a case: an error of the method goes out with `code`, a result as a response.
  unfoldable pub reply :
      {R : Type 0} → Request → (code : ℤ) → (R → Json) → Result Error R → Action W (Option Error)
  reply req code to_json (ok r) = transmit (send_response req.id (encode (to_json r)))
  reply req code to_json (err e) = transmit (send_error req.id code (message e))

  -- A case that parses its params, calls the method and replies.
  unfoldable pub serve :
      {P R : Type 0}
      → Request
      → Kind P
      → (code : ℤ) → (R → Json)
      → (P → Method W R)
      → Action W (Option Error)
  serve req params code to_json m h = elim (unmarshal_raw params req.params) [
    | ok p ↦ let (r, h') = call_method (m p) h in reply req code to_json r h'
    | err e ↦ invalid_params req e h
  ]

  -- The same where missing params stand for the zero value.
  unfoldable pub serve_optional :
      {P R : Type 0}
      → Request
      → Kind P
      → (code : ℤ) → (R → Json)
      → (P → Method W R)
      → Action W (Option Error)
  serve_optional req params code to_json m h = elim req.params [
    | some _ ↦ serve req params code to_json m h
    | none ↦ let (r, h') = call_method (m params.zero_value) h in reply req code to_json r h'
  ]

  -- A case without params.
  unfoldable pub serve_bare :
      {R : Type 0} → Request → (code : ℤ) → (R → Json) → Method W R → Action W (Option Error)
  serve_bare req code to_json m h = let (r, h') = call_method m h in reply req code to_json r h'

-- The result `struct{}{}`, and a pointer to a result struct.
abbrev pub empty_object : Unit {0} → Json
empty_object _ = obj end

unfoldable pub pointer_json : {R : Type 0} → Kind R → Option R → Json
pointer_json k = (pointer_kind k).marshal
