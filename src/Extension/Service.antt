-- ===== src/Extension/Service.antt =====
-- extension/service.go: the interface `ServiceExtension` and its dispatch function.
use extension_sdk_go.Prelude.{String, Option, text_eq, if◌then◌else◌}
use extension_sdk_go.Errors.{Error}
use extension_sdk_go.Json.{Members}
use extension_sdk_go.Json.Encoding.{Encoding}
use extension_sdk_go.Protocol.Constants.{
  method_service_start, method_service_health, method_service_stop, err_code_service_failed,
}
use extension_sdk_go.Protocol.Types.{Request}
use extension_sdk_go.Protocol.Initialize.{Registrations}
use extension_sdk_go.Protocol.Services.{
  ServiceStartParams, service_start_params_kind, ServiceStartResult, service_start_result_kind,
  ServiceHealthParams, service_health_params_kind, ServiceHealthResult, service_health_result_kind,
  ServiceStopParams, service_stop_params_kind, ServiceStopResult, service_stop_result_kind,
}
use extension_sdk_go.Extension.Handler.{Action, Method, unknown_method, serve, pointer_json}

pub record ServiceExtension (W : Type 0) : Type 0 where
  pub initialize :
      (config : Option Members) (extension_root : String) → Method W (Option Registrations)
  pub handle_service_start : ServiceStartParams → Method W (Option ServiceStartResult)
  pub handle_service_health : ServiceHealthParams → Method W (Option ServiceHealthResult)
  pub handle_service_stop : ServiceStopParams → Method W (Option ServiceStopResult)
  pub shutdown : Method W (Unit {0})

unfoldable pub dispatch_service :
    ⦃enc : Encoding⦄ → {W : Type 0} → ServiceExtension W → Request → Action W (Option Error)
dispatch_service ext req =
    if text_eq req.method method_service_start
    then serve req service_start_params_kind err_code_service_failed
        (pointer_json service_start_result_kind) ext.handle_service_start
    else if text_eq req.method method_service_health
    then serve req service_health_params_kind err_code_service_failed
        (pointer_json service_health_result_kind) ext.handle_service_health
    else if text_eq req.method method_service_stop
    then serve req service_stop_params_kind err_code_service_failed
        (pointer_json service_stop_result_kind) ext.handle_service_stop
    else unknown_method req
