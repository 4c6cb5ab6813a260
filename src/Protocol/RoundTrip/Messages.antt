-- ===== src/Protocol/RoundTrip/Messages.antt =====
-- The protocol's messages: round trips of what is sent in each direction.
use extension_sdk_go.Json.Encoding.{Encoding}
use extension_sdk_go.Json.Kind.{Kind}
use extension_sdk_go.Prelude.{true, some, ◌≡◌}
use extension_sdk_go.Protocol.Channel.{
  channel_typing_params_kind, channel_reaction_add_params_kind, channel_reaction_remove_params_kind,
  prompt_user_params_kind, channel_capabilities_params_kind, prompt_user_result_kind,
  channel_capabilities_result_kind,
}
use extension_sdk_go.Protocol.Hooks.{hook_event_params_kind, hook_event_result_kind}
use extension_sdk_go.Protocol.Initialize.{initialize_params_kind, initialize_result_kind}
use extension_sdk_go.Protocol.Provider.{
  provider_create_message_params_kind, provider_capabilities_params_kind,
  provider_create_message_result_kind, provider_capabilities_result_kind,
}
use extension_sdk_go.Protocol.Services.{
  service_start_params_kind, service_health_params_kind, service_stop_params_kind,
  service_start_result_kind, service_health_result_kind, service_stop_result_kind,
}
use extension_sdk_go.Protocol.Stt.{
  stt_transcribe_params_kind, stt_transcribe_result_kind, stt_models_result_kind,
}
use extension_sdk_go.Protocol.Tools.{tool_call_params_kind, tool_call_result_kind}
use extension_sdk_go.Protocol.Tts.{
  tts_synthesize_params_kind, tts_synthesize_result_kind, tts_voices_result_kind,
}
use extension_sdk_go.Protocol.Voice.{
  voice_join_params_kind, voice_leave_params_kind, voice_join_result_kind, voice_leave_result_kind,
}

-- A value that fits comes back when it is marshalled and then unmarshalled into a zero value.
pub record IsReversible {T : Type 0} (k : Kind T) : Type 0 where
  pub back : (v : T) → k.fits v ≡ true → k.unmarshal (k.marshal v) k.zero_value ≡ some v

-- Each kind of params and results of `initialize` and of the methods that carries no bytes.
abbrev pub PayloadsReversible : ⦃e : Encoding⦄ → Type 0
PayloadsReversible =
    IsReversible initialize_params_kind
    × IsReversible tool_call_params_kind
    × IsReversible channel_typing_params_kind
    × IsReversible channel_reaction_add_params_kind
    × IsReversible channel_reaction_remove_params_kind
    × IsReversible prompt_user_params_kind
    × IsReversible channel_capabilities_params_kind
    × IsReversible hook_event_params_kind
    × IsReversible service_start_params_kind
    × IsReversible service_health_params_kind
    × IsReversible service_stop_params_kind
    × IsReversible provider_create_message_params_kind
    × IsReversible provider_capabilities_params_kind
    × IsReversible tts_synthesize_params_kind
    × IsReversible stt_transcribe_params_kind
    × IsReversible voice_join_params_kind
    × IsReversible voice_leave_params_kind
    × IsReversible initialize_result_kind
    × IsReversible tool_call_result_kind
    × IsReversible prompt_user_result_kind
    × IsReversible channel_capabilities_result_kind
    × IsReversible hook_event_result_kind
    × IsReversible service_start_result_kind
    × IsReversible service_health_result_kind
    × IsReversible service_stop_result_kind
    × IsReversible provider_create_message_result_kind
    × IsReversible provider_capabilities_result_kind
    × IsReversible tts_synthesize_result_kind
    × IsReversible tts_voices_result_kind
    × IsReversible stt_transcribe_result_kind
    × IsReversible stt_models_result_kind
    × IsReversible voice_join_result_kind
    × IsReversible voice_leave_result_kind
