-- ===== src/Examples/Initializations.antt =====
-- `Initialize` of the host, with an extension that has one tool handler.
use extension_sdk_go.Json.Marshal.{encode, rejected, rejected_members, rejected_items}
use extension_sdk_go.Json.Numbers.{as_any_members, members_any}
use extension_sdk_go.Prelude.{ℕ, refl, ap, true, none, some, [], arith, All, ok, ◌≡◌, ◌∷◌, ◌++◌}
use extension_sdk_go.Json.Kind.{
  string_kind, raw_kind, int_kind, any_map_kind, list_kind, pointer_kind, write_items, fits_all,
}
use extension_sdk_go.Json.Struct.{read_members, find_field, struct_kind, write_fields, fits_fields}
use extension_sdk_go.Protocol.Types.{
  Request, request_kind, request_fields, response_kind, response_fields,
}
use extension_sdk_go.Protocol.Initialize.{
  Registrations, zero_registrations, zero_tool_def, tool_def_kind, tool_def_fields,
  registrations_fields, registrations_kind, initialize_params_kind, initialize_params_fields,
  initialize_result_kind, initialize_result_fields,
}
use extension_sdk_go.Jsonrpc.Scanner.{new_scanner, scan}
use extension_sdk_go.Jsonrpc.Transport.{read_request, unmarshal_raw, unmarshal_value}
use extension_sdk_go.Jsonrpc.Transport.Inputs.{IsReadable}
use extension_sdk_go.Jsonrpc.Transport.Writing.{Outgoing, reply, lines}
use extension_sdk_go.Extension.Handler.{done, Host, call_method, run_program}
use extension_sdk_go.Extension.Dispatcher.{initialize_params, handle_initialize, registered}
use extension_sdk_go.Harness.Inboxes.{store_all}
use extension_sdk_go.Protocol.Constants.{method_initialize}
use extension_sdk_go.Extension.Run.{composite_dispatcher, with_tool, empty_config}
use extension_sdk_go.Extension.Composite.{
  CompositeConfig, composite_initialize, lifecycles, initialize_all, merge_registrations,
}
use extension_sdk_go.Extension.Answers.{Notified}
use extension_sdk_go.Harness.{FakeKova, new_fake_kova, store_notification}
use extension_sdk_go.Harness.Calls.{result_of, call_internal, call, initialize}
use extension_sdk_go.Harness.Reading.{IsCarried}
use extension_sdk_go.Harness.Exchange.{has_read, call_with-lines}
use extension_sdk_go.Harness.Initialization.{
  params_for, initialize_request, registered_response, initialize-call, handle_initialize-Sent,
  initialize-composite_initialize,
}
use extension_sdk_go.Examples.Characters.{chars}
use extension_sdk_go.Examples.Codec.{codec, print_json}
use extension_sdk_go.Examples.Fixtures.{counting_tool, host_of}
use extension_sdk_go.Examples.Exchanges.{before, carries, reads}

abbrev question : Request
question = initialize_request none "/tmp" before

abbrev extension : Host ℕ
extension = host_of (print_json (request_kind.marshal question) ++ (b'\n' ∷ []))

-- The handler registers one tool.
abbrev one_tool : Registrations
one_tool = record zero_registrations { tools = record zero_tool_def { name = "count" } ∷ [] }

abbrev tools : CompositeConfig ℕ
tools =
    with_tool (record counting_tool { initialize = λ config root n. done (ok (some one_tool), n) })
      empty_config

abbrev response : Outgoing
response = reply (registered_response one_tool before)

abbrev host : FakeKova
host = record before { scanner = record before.scanner { input = lines (response ∷ []) } }

fine :
    (composite_initialize tools (params_for none "/tmp") (has_read extension)).0
    ≡ ok (some one_tool)
unfolding composite_initialize initialize_all lifecycles call_method run_program merge_registrations
fine = refl

silent :
    Notified
      (has_read extension).transport
      (composite_initialize tools (params_for none "/tmp") (has_read extension)).1.transport
unfolding composite_initialize lines call_method run_program read_request initialize_all scan
    lifecycles
silent = record { notes = []; sent = record { unread = refl; sound = refl; written = refl } }

params_fit : initialize_params_kind.fits (params_for none "/tmp") ≡ true
unfolding initialize_params_kind initialize_params_fields struct_kind fits_fields string_kind
    any_map_kind members_any
params_fit = refl

result_fits :
    initialize_result_kind.fits (record { protocol_version = ""; registrations = one_tool }) ≡ true
unfolding initialize_result_kind initialize_result_fields registrations_kind registrations_fields
    struct_kind fits_fields string_kind list_kind fits_all tool_def_kind tool_def_fields
    any_map_kind members_any
result_fits = refl

carried : All (IsCarried 1_048_576) (response ∷ [])
unfolding print_json response_kind response_fields struct_kind write_fields fits_fields string_kind
    raw_kind int_kind pointer_kind chars initialize_result_kind initialize_result_fields
    registrations_kind registrations_fields list_kind tool_def_kind tool_def_fields write_items
    new_fake_kova any_map_kind
carried = (carries _ response refl (omega arith), tt)

readable : IsReadable 65536 question
unfolding print_json request_kind request_fields struct_kind write_fields fits_fields string_kind
    raw_kind int_kind any_map_kind chars initialize_params_kind initialize_params_fields
    new_fake_kova
readable = reads _ question refl (omega arith)

params_sent :
    encode (initialize_params_kind.marshal (params_for none "/tmp"))
    ≡ ok (initialize_params_kind.marshal (params_for none "/tmp"))
unfolding initialize_params_kind initialize_params_fields struct_kind write_fields string_kind
    any_map_kind encode rejected rejected_members
params_sent = refl

result_sent : encode (registered one_tool) ≡ ok (registered one_tool)
unfolding encode rejected rejected_members rejected_items initialize_result_kind
    initialize_result_fields registrations_kind registrations_fields struct_kind write_fields
    string_kind list_kind tool_def_kind tool_def_fields write_items any_map_kind
result_sent = refl

asked :
    (initialize none "/tmp" host).1.to_ext.written
    ≡ host.to_ext.written ++ extension.transport.scanner.input
unfolding call call_internal new_fake_kova new_scanner store_all store_notification
asked =
    let params = initialize_params_kind.marshal (params_for none "/tmp") in
    ap (λ x. x.1.to_ext.written)
      (initialize-call none "/tmp" host _ one_tool result_fits params_sent (
        call_with-lines result_of method_initialize (some (ok params)) (some params) host []
          (registered_response one_tool before) refl refl refl carried))

understood : initialize_params question ≡ ok (params_for none "/tmp")
unfolding initialize_params unmarshal_raw unmarshal_value initialize_params_kind
    initialize_params_fields struct_kind write_fields read_members find_field string_kind
    any_map_kind as_any_members
understood = refl

answered :
    (handle_initialize
      (composite_dispatcher tools)
      question
      (has_read extension)).1.transport.writer.written
    ≡ extension.transport.writer.written ++ host.scanner.input
unfolding read_request new_fake_kova silent
answered =
    (handle_initialize-Sent tools question (params_for none "/tmp") one_tool (has_read extension)
      understood fine result_sent silent).written

initialize-composite_initialize_example :
    ((read_request extension.transport).0 ≡ ok question)
    × ((initialize none "/tmp" host).0 ≡ ok one_tool)
unfolding new_fake_kova new_scanner silent
initialize-composite_initialize_example =
    initialize-composite_initialize tools none "/tmp" host extension one_tool silent fine params_fit
      result_fits params_sent result_sent refl readable asked answered carried
