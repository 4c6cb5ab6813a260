-- ===== src/Extension/Tts.antt =====
-- extension/tts.go: the interface `TTSExtension` and its dispatch function.
use extension_sdk_go.Prelude.{String, Option, text_eq, if◌then◌else◌}
use extension_sdk_go.Errors.{Error}
use extension_sdk_go.Json.{Members}
use extension_sdk_go.Json.Encoding.{Encoding}
use extension_sdk_go.Protocol.Constants.{
  method_tts_synthesize, method_tts_voices, err_code_tts_failed,
}
use extension_sdk_go.Protocol.Types.{Request}
use extension_sdk_go.Protocol.Initialize.{Registrations}
use extension_sdk_go.Protocol.Tts.{
  TtsSynthesizeParams, tts_synthesize_params_kind, TtsSynthesizeResult, tts_synthesize_result_kind,
  TtsVoicesResult, tts_voices_result_kind,
}
use extension_sdk_go.Extension.Handler.{
  Action, Method, unknown_method, serve, serve_bare, pointer_json,
}

pub record TtsExtension (W : Type 0) : Type 0 where
  pub initialize :
      (config : Option Members) (extension_root : String) → Method W (Option Registrations)
  pub handle_synthesize : TtsSynthesizeParams → Method W (Option TtsSynthesizeResult)
  pub handle_voices : Method W (Option TtsVoicesResult)
  pub shutdown : Method W (Unit {0})

unfoldable pub dispatch_tts :
    ⦃enc : Encoding⦄ → {W : Type 0} → TtsExtension W → Request → Action W (Option Error)
dispatch_tts ext req =
    if text_eq req.method method_tts_synthesize
    then serve req tts_synthesize_params_kind err_code_tts_failed
        (pointer_json tts_synthesize_result_kind) ext.handle_synthesize
    else if text_eq req.method method_tts_voices
    then serve_bare req err_code_tts_failed (pointer_json tts_voices_result_kind) ext.handle_voices
    else unknown_method req
