-- ===== src/Extension/Hook.antt =====
-- extension/hook.go: the interface `HookExtension` and its dispatch function.
use extension_sdk_go.Prelude.{String, Option, text_eq, if◌then◌else◌}
use extension_sdk_go.Errors.{Error}
use extension_sdk_go.Json.{Members}
use extension_sdk_go.Json.Encoding.{Encoding}
use extension_sdk_go.Protocol.Constants.{method_hook_event, err_code_hook_failed}
use extension_sdk_go.Protocol.Types.{Request}
use extension_sdk_go.Protocol.Initialize.{Registrations}
use extension_sdk_go.Protocol.Hooks.{
  HookEventParams, hook_event_params_kind, HookEventResult, hook_event_result_kind,
}
use extension_sdk_go.Extension.Handler.{Action, Method, unknown_method, serve, pointer_json}

pub record HookExtension (W : Type 0) : Type 0 where
  pub initialize :
      (config : Option Members) (extension_root : String) → Method W (Option Registrations)
  pub handle_hook_event : HookEventParams → Method W (Option HookEventResult)
  pub shutdown : Method W (Unit {0})

unfoldable pub dispatch_hook :
    ⦃enc : Encoding⦄ → {W : Type 0} → HookExtension W → Request → Action W (Option Error)
dispatch_hook ext req =
    if text_eq req.method method_hook_event
    then serve req hook_event_params_kind err_code_hook_failed (pointer_json hook_event_result_kind)
        ext.handle_hook_event
    else unknown_method req
