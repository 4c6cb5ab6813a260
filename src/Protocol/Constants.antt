-- ===== src/Protocol/Constants.antt =====
-- protocol/constants.go: method names and error codes.
use extension_sdk_go.Prelude.{String, ℤ, neg}

abbrev pub method_initialize : String
method_initialize = "initialize"

abbrev pub method_shutdown : String
method_shutdown = "shutdown"

abbrev pub method_tool_call : String
method_tool_call = "tool_call"

abbrev pub method_http_request : String
method_http_request = "http_request"

abbrev pub method_hook_event : String
method_hook_event = "hook_event"

abbrev pub method_service_start : String
method_service_start = "service_start"

abbrev pub method_service_health : String
method_service_health = "service_health"

abbrev pub method_service_stop : String
method_service_stop = "service_stop"

abbrev pub method_channel_send : String
method_channel_send = "channel_send"

abbrev pub method_channel_typing : String
method_channel_typing = "channel_typing"

abbrev pub method_channel_reaction_add : String
method_channel_reaction_add = "channel_reaction_add"

abbrev pub method_channel_reaction_remove : String
method_channel_reaction_remove = "channel_reaction_remove"

abbrev pub method_prompt_user : String
method_prompt_user = "prompt_user"

abbrev pub method_channel_capabilities : String
method_channel_capabilities = "channel_capabilities"

abbrev pub method_provider_create_message : String
method_provider_create_message = "provider_create_message"

abbrev pub method_provider_stream_message : String
method_provider_stream_message = "provider_stream_message"

abbrev pub method_provider_capabilities : String
method_provider_capabilities = "provider_capabilities"

abbrev pub method_tts_synthesize : String
method_tts_synthesize = "tts_synthesize"

abbrev pub method_tts_voices : String
method_tts_voices = "tts_voices"

abbrev pub method_stt_transcribe : String
method_stt_transcribe = "stt_transcribe"

abbrev pub method_stt_models : String
method_stt_models = "stt_models"

abbrev pub method_voice_join : String
method_voice_join = "voice_join"

abbrev pub method_voice_leave : String
method_voice_leave = "voice_leave"

abbrev pub method_voice_stream : String
method_voice_stream = "voice_stream"

abbrev pub notification_log : String
notification_log = "log"

abbrev pub notification_channel_message : String
notification_channel_message = "channel_message"

abbrev pub notification_stream_chunk : String
notification_stream_chunk = "stream_chunk"

abbrev pub notification_stream_end : String
notification_stream_end = "stream_end"

abbrev pub notification_stream_error : String
notification_stream_error = "stream_error"

abbrev pub err_code_parse_error : ℤ
err_code_parse_error = neg 32700

abbrev pub err_code_invalid_request : ℤ
err_code_invalid_request = neg 32600

abbrev pub err_code_method_not_found : ℤ
err_code_method_not_found = neg 32601

abbrev pub err_code_invalid_params : ℤ
err_code_invalid_params = neg 32602

abbrev pub err_code_internal : ℤ
err_code_internal = neg 32603

abbrev pub err_code_tool_not_found : ℤ
err_code_tool_not_found = neg 32000

abbrev pub err_code_tool_failed : ℤ
err_code_tool_failed = neg 32001

abbrev pub err_code_not_ready : ℤ
err_code_not_ready = neg 32002

abbrev pub err_code_provider_failed : ℤ
err_code_provider_failed = neg 32010

abbrev pub err_code_stream_failed : ℤ
err_code_stream_failed = neg 32011

abbrev pub err_code_model_not_found : ℤ
err_code_model_not_found = neg 32012

abbrev pub err_code_tts_failed : ℤ
err_code_tts_failed = neg 32013

abbrev pub err_code_voice_not_found : ℤ
err_code_voice_not_found = neg 32014

abbrev pub err_code_stt_failed : ℤ
err_code_stt_failed = neg 32015

abbrev pub err_code_hook_failed : ℤ
err_code_hook_failed = neg 32020

abbrev pub err_code_http_failed : ℤ
err_code_http_failed = neg 32021

abbrev pub err_code_service_failed : ℤ
err_code_service_failed = neg 32022

abbrev pub err_code_voice_failed : ℤ
err_code_voice_failed = neg 32030
