-- ===== src/Extension/Dispatcher.antt =====
-- extension/extension.go: `dispatcher`, the request loop that all runners share.
use extension_sdk_go.Prelude.{
  ℕ, zero, suc, Bool, true, false, Option, none, some, text_eq, length, pos, Result, ok, err, ◌+◌,
  ◌+++◌,
}
use extension_sdk_go.Errors.{Error, message, is, eof}
use extension_sdk_go.Json.Marshal.{encode}
use extension_sdk_go.Json.Encoding.{Encoding}
use extension_sdk_go.Json.{Json}
use extension_sdk_go.Protocol.Constants.{
  method_initialize, method_shutdown, err_code_parse_error, err_code_invalid_params,
  err_code_internal, err_code_not_ready,
}
use extension_sdk_go.Protocol.Types.{Request}
use extension_sdk_go.Protocol.Initialize.{
  InitializeParams, zero_initialize_params, initialize_params_kind, initialize_result_kind,
  Registrations,
}
use extension_sdk_go.Jsonrpc.Transport.{read_request, send_response, send_error, unmarshal_raw}
use extension_sdk_go.Extension.Handler.{Action, transmit, empty_object}

-- The callbacks. A nil `on_shutdown` is `none`.
pub record Dispatcher (W : Type 0) : Type 0 where
  pub on_initialize : InitializeParams → Action W (Result Error (Option Registrations))
  pub on_method : Request → Action W (Option Error)
  pub on_shutdown : Option (Action W (Option Error))

-- How a run ends: `run` returns, a nil pointer is dereferenced, or the model's fuel is used up, which
-- does not happen (`Correctness`).
pub data Ending : Type 0 where
  finished : Option Error → Ending
  panicked : Ending
  out_of_fuel : Ending

module _ ⦃enc : Encoding⦄ where
  -- The params of a request of which missing ones are allowed.
  unfoldable pub initialize_params : Request → Result Error InitializeParams
  initialize_params req = elim req.params [
    | some _ ↦ unmarshal_raw initialize_params_kind req.params
    | none ↦ ok zero_initialize_params
  ]

  abbrev pub registered : Registrations → Json
  registered regs =
      initialize_result_kind.marshal (record { protocol_version = ""; registrations = regs })

module _ ⦃enc : Encoding⦄ {W : Type 0} where
  -- `false` if the registrations are dereferenced at nil. The errors of sending are dropped.
  unfoldable pub handle_initialize : Dispatcher W → Request → Action W Bool
  handle_initialize d req h = elim (initialize_params req) [
    | err e ↦
        let (_, h') =
          transmit (send_error req.id err_code_invalid_params ("invalid params: " +++ message e))
            h in
        (true, h')
    | ok params ↦
        let (r, h') = d.on_initialize params h in
        elim r [
          | err e ↦
              let (_, h'') = transmit (send_error req.id err_code_not_ready (message e)) h' in
              (true, h'')
          | ok none ↦ (false, h')
          | ok (some regs) ↦
              let (_, h'') = transmit (send_response req.id (encode (registered regs))) h' in
              (true, h'')
        ]
  ]

  abbrev shutdown_action : Option (Action W (Option Error)) → Action W (Option Error)
  shutdown_action (some f) h = f h
  shutdown_action none h = (none, h)

  unfoldable pub handle_shutdown : Dispatcher W → Request → Action W (Unit {0})
  handle_shutdown d req h =
      let (e, h') = shutdown_action d.on_shutdown h in
      elim e [
        | some e' ↦
            let (_, h'') = transmit (send_error req.id err_code_internal (message e')) h' in
            (tt, h'')
        | none ↦
            let (_, h'') = transmit (send_response req.id (encode (empty_object tt))) h' in
            (tt, h'')
      ]

  -- The `default` case of the loop.
  unfoldable pub handle_method : Dispatcher W → Request → Action W (Unit {0})
  handle_method d req h =
      let (e, h') = d.on_method req h in
      elim e [
        | none ↦ (tt, h')
        | some e' ↦
            let (_, h'') = transmit (send_error req.id err_code_internal (message e')) h' in
            (tt, h'')
      ]

  -- The loop. `cancelled i` says whether the context is done when request i has been read. Each round
  -- reads at least one byte.
  unfoldable pub loop :
      (fuel : ℕ) → (cancelled : ℕ → Bool) → Dispatcher W → (i : ℕ) → Action W Ending
  loop zero cancelled d i h = (out_of_fuel, h)
  loop (suc fuel) cancelled d i h =
      let (r, t) = read_request h.transport in
      let h' = record h { transport = t } in
      elim r [
        | err e ↦ elim (is e eof) [
          | true ↦ (finished none, h')
          | false ↦
              let (_, h'') =
                transmit
                  (send_error (pos 0) err_code_parse_error ("invalid request: " +++ message e))
                  h' in
              (finished (some e), h'')
        ]
        | ok req ↦ elim (cancelled i) [
          | true ↦ (finished none, h')
          | false ↦ elim (text_eq req.method method_initialize) [
            | true ↦
                let (returned, h'') = handle_initialize d req h' in
                elim returned [ true ↦ loop fuel cancelled d (i + 1) h'' | false ↦ (panicked, h'') ]
            | false ↦ elim (text_eq req.method method_shutdown) [
              | true ↦ let (_, h'') = handle_shutdown d req h' in (finished none, h'')
              | false ↦ let (_, h'') = handle_method d req h' in loop fuel cancelled d (i + 1) h''
            ]
          ]
        ]
      ]

  unfoldable pub run : (cancelled : ℕ → Bool) → Dispatcher W → Action W Ending
  run cancelled d h = loop (suc (length h.transport.scanner.input)) cancelled d 0 h
