-- ===== src/Extension/Stt.antt =====
-- extension/stt.go: the interface `STTExtension` and its dispatch function.
use extension_sdk_go.Prelude.{String, Option, text_eq, if◌then◌else◌}
use extension_sdk_go.Errors.{Error}
use extension_sdk_go.Json.{Members}
use extension_sdk_go.Json.Encoding.{Encoding}
use extension_sdk_go.Protocol.Constants.{
  method_stt_transcribe, method_stt_models, err_code_stt_failed,
}
use extension_sdk_go.Protocol.Types.{Request}
use extension_sdk_go.Protocol.Initialize.{Registrations}
use extension_sdk_go.Protocol.Stt.{
  SttTranscribeParams, stt_transcribe_params_kind, SttTranscribeResult, stt_transcribe_result_kind,
  SttModelsResult, stt_models_result_kind,
}
use extension_sdk_go.Extension.Handler.{
  Action, Method, unknown_method, serve, serve_bare, pointer_json,
}

pub record SttExtension (W : Type 0) : Type 0 where
  pub initialize :
      (config : Option Members) (extension_root : String) → Method W (Option Registrations)
  pub handle_transcribe : SttTranscribeParams → Method W (Option SttTranscribeResult)
  pub handle_models : Method W (Option SttModelsResult)
  pub shutdown : Method W (Unit {0})

unfoldable pub dispatch_stt :
    ⦃enc : Encoding⦄ → {W : Type 0} → SttExtension W → Request → Action W (Option Error)
dispatch_stt ext req =
    if text_eq req.method method_stt_transcribe
    then serve req stt_transcribe_params_kind err_code_stt_failed
        (pointer_json stt_transcribe_result_kind) ext.handle_transcribe
    else if text_eq req.method method_stt_models
    then serve_bare req err_code_stt_failed (pointer_json stt_models_result_kind) ext.handle_models
    else unknown_method req
