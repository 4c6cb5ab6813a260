-- ===== src/Examples/Runs.antt =====
-- Runs of a composite extension at concrete inputs.
use extension_sdk_go.Json.Marshal.{encode, rejected, rejected_members, rejected_items}
use extension_sdk_go.Json.Kind.{string_kind, list_kind, write_items}
use extension_sdk_go.Json.Struct.{struct_kind, write_fields}
use extension_sdk_go.Prelude.{
  ℕ, refl, subst, Option, none, some, List, [], Result, ok, err, ◌+◌, ◌≡◌, ◌↔◌, ◌∷◌, ◌++◌,
}
use extension_sdk_go.Errors.{Error, wrap}
use extension_sdk_go.Protocol.Initialize.{
  InitializeParams, initialize_result_kind, initialize_result_fields, registrations_kind,
  registrations_fields, zero_initialize_params, zero_registrations, zero_tool_def, Registrations,
}
use extension_sdk_go.Jsonrpc.Transport.Inputs.{inputs}
use extension_sdk_go.Extension.Handler.{Host, done, call_method, run_program}
use extension_sdk_go.Extension.Dispatcher
use extension_sdk_go.Extension.Dispatcher.{Ending, finished, registered}
use extension_sdk_go.Extension.Provider.{ProviderExtension}
use extension_sdk_go.Extension.Composite.{
  CompositeConfig, initialize_all, merge_registrations, Lifecycle, lifecycles, composite_dispatch,
  composite_initialize, composite_shutdown,
}
use extension_sdk_go.Extension.Run.{with_http, with_tool, empty_config, composite_dispatcher}
use extension_sdk_go.Extension.Correctness.Conversation.{Conversation}
use extension_sdk_go.Extension.Correctness.Loop.{due, outcome, run-Conversation}
use extension_sdk_go.Extension.Correctness.Registration.{
  Initialized, none_left, next, Gathers, composite_initialize_all, composite_initialize_first_error,
}
use extension_sdk_go.Extension.Http.{HttpExtension}
use extension_sdk_go.Extension.Correctness.Handlers.{registered_handlers, lifecycle_for}
use extension_sdk_go.Extension.Correctness.Routing.{
  tool, config_of, dispatch_of, composite_dispatch-alone,
}
use extension_sdk_go.Extension.Correctness.Shutdown.{Stopped, composite_shutdown_all}
use extension_sdk_go.Examples.Fixtures.{
  digits, tool_call_2, host_of, session, broken, counting_tool, broken_tool, never, sound_writer,
}

ok_some-injective :
    (x y : Registrations)
    → ◌≡◌ {A = Result Error (Option Registrations)} (ok (some x)) (ok (some y))
    → x ≡ y
ok_some-injective x y e = (cc)

abbrev pub counting : CompositeConfig ℕ
counting = with_tool counting_tool empty_config

-- The tool registers nothing, whatever the params.
pub counting-marshals :
    (params : InitializeParams) (g : Host ℕ) (regs : Registrations)
    → (composite_initialize counting params g).0 ≡ ok (some regs)
    → encode (registered regs) ≡ ok (registered regs)
unfolding composite_initialize initialize_all lifecycles call_method run_program merge_registrations
    encode rejected rejected_members rejected_items initialize_result_kind initialize_result_fields
    registrations_kind registrations_fields struct_kind write_fields string_kind list_kind
    write_items
counting-marshals params g regs same =
    let regs_same : zero_registrations ≡ regs = ok_some-injective zero_registrations regs same in
    subst (λ r. encode (registered r) ≡ ok (registered r)) regs_same refl

run-Conversation_example :
    let (ending, h') = Dispatcher.run never (composite_dispatcher counting) (host_of session) in
    let rs = inputs (host_of session).transport.scanner in
    (ending ≡ finished (outcome never 0 rs))
    × Conversation (due never 0 rs) sound_writer h'.transport.writer
run-Conversation_example = run-Conversation never counting (host_of session) counting-marshals refl

composite_dispatch-alone_example :
    composite_dispatch (config_of (tool counting_tool)) tool_call_2
    ≡ dispatch_of (tool counting_tool) tool_call_2
composite_dispatch-alone_example = composite_dispatch-alone (tool counting_tool) tool_call_2

-- A tool and an HTTP handler that register something each.
abbrev one_tool : Registrations
one_tool = record zero_registrations { tools = record zero_tool_def { name = "count" } ∷ [] }

abbrev one_command : Registrations
one_command = record zero_registrations { tools = record zero_tool_def { name = "fetch" } ∷ [] }

abbrev silent_http : HttpExtension ℕ
silent_http = record {
  initialize = λ config root n. done (ok (some one_command), n + 1);
  handle_http_request = λ params n. done (err broken, n);
  shutdown = λ n. done (err broken, n);
}

abbrev both : CompositeConfig ℕ
both = with_http silent_http (
    with_tool (record counting_tool { initialize = λ config root n. done (ok (some one_tool), n) })
      empty_config)

both-Initialized :
    Initialized zero_initialize_params
      (registered_handlers both)
      (host_of session)
      (some one_tool ∷ some one_command ∷ [])
      (record (host_of session) { world = 1 })
unfolding registered_handlers lifecycle_for call_method run_program
both-Initialized = next refl (next refl none_left)

composite_initialize_all_example :
    (regs : Registrations) × (composite_initialize both zero_initialize_params (host_of session)
      ≡ (ok (some regs), record (host_of session) { world = 1 }))
    × Gathers (some one_tool ∷ some one_command ∷ []) regs
composite_initialize_all_example = composite_initialize_all both both-Initialized

-- A tool that does not initialize.
abbrev failing_config : CompositeConfig ℕ
failing_config = with_tool broken_tool empty_config

abbrev failing_tool : Lifecycle ℕ
failing_tool = record {
  name = "tool";
  initialize = λ params. broken_tool.initialize params.config params.extension_root;
  shutdown = broken_tool.shutdown;
}

failing_order : registered_handlers failing_config ≡ [] ++ (failing_tool ∷ [])
unfolding registered_handlers lifecycle_for
failing_order = refl

failing_call :
    call_method (failing_tool.initialize zero_initialize_params) (host_of session)
    ≡ (err broken, record (host_of session) { world = 10 })
unfolding call_method run_program
failing_call = refl

composite_initialize_first_error_example :
    composite_initialize failing_config zero_initialize_params (host_of session)
    ≡ (err (wrap "tool init" broken), record (host_of session) { world = 10 })
composite_initialize_first_error_example =
    composite_initialize_first_error failing_config [] [] failing_tool failing_order none_left
      failing_call

composite_shutdown_all_example :
    let (e, h') = composite_shutdown both (host_of session) in
    (errs : List Error) × Stopped (registered_handlers both) (host_of session) errs h'
    × ((e ≡ none) ↔ (errs ≡ []))
composite_shutdown_all_example = composite_shutdown_all both (host_of session)

abbrev silent_provider : ProviderExtension ℕ
silent_provider = record {
  initialize = λ config root n. done (ok none, n);
  handle_create_message = λ params n. done (err broken, n);
  handle_stream_message = λ params n. done (err broken, n);
  handle_capabilities = λ params n. done (ok none, n);
  shutdown = λ n. done (ok tt, n);
}
