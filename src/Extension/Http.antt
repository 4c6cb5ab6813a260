-- ===== src/Extension/Http.antt =====
-- extension/http.go: the interface `HTTPExtension` and its dispatch function.
use extension_sdk_go.Prelude.{String, Option, text_eq, if◌then◌else◌}
use extension_sdk_go.Errors.{Error}
use extension_sdk_go.Json.{Members}
use extension_sdk_go.Json.Encoding.{Encoding}
use extension_sdk_go.Protocol.Constants.{method_http_request, err_code_http_failed}
use extension_sdk_go.Protocol.Types.{Request}
use extension_sdk_go.Protocol.Initialize.{Registrations}
use extension_sdk_go.Protocol.Http.{
  HttpRequestParams, http_request_params_kind, HttpResponseResult, http_response_result_kind,
}
use extension_sdk_go.Extension.Handler.{Action, Method, unknown_method, serve, pointer_json}

pub record HttpExtension (W : Type 0) : Type 0 where
  pub initialize :
      (config : Option Members) (extension_root : String) → Method W (Option Registrations)
  pub handle_http_request : HttpRequestParams → Method W (Option HttpResponseResult)
  pub shutdown : Method W (Unit {0})

unfoldable pub dispatch_http :
    ⦃enc : Encoding⦄ → {W : Type 0} → HttpExtension W → Request → Action W (Option Error)
dispatch_http ext req =
    if text_eq req.method method_http_request
    then serve req http_request_params_kind err_code_http_failed
        (pointer_json http_response_result_kind) ext.handle_http_request
    else unknown_method req
