-- ===== src/Extension/Provider.antt =====
-- extension/provider.go: the interface `ProviderExtension` and its dispatch function.
use extension_sdk_go.Prelude.{String, Option, text_eq, if◌then◌else◌}
use extension_sdk_go.Errors.{Error}
use extension_sdk_go.Json.{Members}
use extension_sdk_go.Json.Encoding.{Encoding}
use extension_sdk_go.Protocol.Constants.{
  method_provider_create_message, method_provider_stream_message, method_provider_capabilities,
  err_code_provider_failed, err_code_stream_failed,
}
use extension_sdk_go.Protocol.Types.{Request}
use extension_sdk_go.Protocol.Initialize.{Registrations}
use extension_sdk_go.Protocol.Provider.{
  ProviderCreateMessageParams, provider_create_message_params_kind, ProviderCreateMessageResult,
  provider_create_message_result_kind, ProviderCapabilitiesParams,
  provider_capabilities_params_kind, ProviderCapabilitiesResult, provider_capabilities_result_kind,
}
use extension_sdk_go.Extension.Handler.{
  Action, Method, unknown_method, serve, serve_optional, pointer_json,
}

pub record ProviderExtension (W : Type 0) : Type 0 where
  pub initialize :
      (config : Option Members) (extension_root : String) → Method W (Option Registrations)
  pub handle_create_message :
      ProviderCreateMessageParams → Method W (Option ProviderCreateMessageResult)
  pub handle_stream_message :
      ProviderCreateMessageParams → Method W (Option ProviderCreateMessageResult)
  pub handle_capabilities :
      ProviderCapabilitiesParams → Method W (Option ProviderCapabilitiesResult)
  pub shutdown : Method W (Unit {0})

unfoldable pub dispatch_provider :
    ⦃enc : Encoding⦄ → {W : Type 0} → ProviderExtension W → Request → Action W (Option Error)
dispatch_provider ext req =
    if text_eq req.method method_provider_create_message
    then serve req provider_create_message_params_kind err_code_provider_failed
        (pointer_json provider_create_message_result_kind) ext.handle_create_message
    else if text_eq req.method method_provider_stream_message
    then serve req provider_create_message_params_kind err_code_stream_failed
        (pointer_json provider_create_message_result_kind) ext.handle_stream_message
    else if text_eq req.method method_provider_capabilities
    then serve_optional req provider_capabilities_params_kind err_code_provider_failed
        (pointer_json provider_capabilities_result_kind) ext.handle_capabilities
    else unknown_method req
