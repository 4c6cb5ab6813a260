-- ===== src/Extension/Tool.antt =====
-- extension/tool.go: the interface `ToolExtension` and its dispatch function.
use extension_sdk_go.Prelude.{String, Option, text_eq, if◌then◌else◌}
use extension_sdk_go.Errors.{Error}
use extension_sdk_go.Json.{Members}
use extension_sdk_go.Json.Encoding.{Encoding}
use extension_sdk_go.Protocol.Constants.{method_tool_call, err_code_tool_failed}
use extension_sdk_go.Protocol.Types.{Request}
use extension_sdk_go.Protocol.Initialize.{Registrations}
use extension_sdk_go.Protocol.Tools.{
  ToolCallParams, tool_call_params_kind, ToolCallResult, tool_call_result_kind,
}
use extension_sdk_go.Extension.Handler.{Action, Method, unknown_method, serve, pointer_json}

pub record ToolExtension (W : Type 0) : Type 0 where
  pub initialize :
      (config : Option Members) (extension_root : String) → Method W (Option Registrations)
  pub handle_tool_call : ToolCallParams → Method W (Option ToolCallResult)
  pub shutdown : Method W (Unit {0})

unfoldable pub dispatch_tool :
    ⦃enc : Encoding⦄ → {W : Type 0} → ToolExtension W → Request → Action W (Option Error)
dispatch_tool ext req =
    if text_eq req.method method_tool_call
    then serve req tool_call_params_kind err_code_tool_failed (pointer_json tool_call_result_kind)
        ext.handle_tool_call
    else unknown_method req
