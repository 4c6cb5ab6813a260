-- ===== src/Protocol/Voice.antt =====
-- protocol/voice.go: voice channels. A table lists the fields of a struct with their tags.
use extension_sdk_go.Prelude.{ℕ, String, Bool, false, Option, none, List, [], ℤ, pos, ◌∷◌}
use extension_sdk_go.Json.{Members}
use extension_sdk_go.Json.Encoding.{Encoding}
use extension_sdk_go.Json.Kind.{
  string_kind, bool_kind, int_kind, any_map_kind, slice_kind, bytes_kind, Kind,
}
use extension_sdk_go.Json.Struct.{Field, field, omitempty, struct_kind}

pub record VoiceJoinParams : Type 0 where
  pub channel_id : String
  pub options : Option Members

abbrev pub zero_voice_join_params : VoiceJoinParams
zero_voice_join_params = record { channel_id = ""; options = none }

unfoldable pub voice_join_params_fields : ⦃e : Encoding⦄ → List (Field VoiceJoinParams)
voice_join_params_fields =
    field "channel_id" string_kind (λ r. r.channel_id) (λ v r. record r { channel_id = v })
    ∷ omitempty "options" any_map_kind (λ r. r.options) (λ v r. record r { options = v })
    ∷ []

unfoldable pub voice_join_params_kind : ⦃e : Encoding⦄ → Kind VoiceJoinParams
voice_join_params_kind = struct_kind zero_voice_join_params voice_join_params_fields

pub record VoiceJoinResult : Type 0 where
  pub success : Bool
  pub error : String

abbrev pub zero_voice_join_result : VoiceJoinResult
zero_voice_join_result = record { success = false; error = "" }

unfoldable pub voice_join_result_fields : List (Field VoiceJoinResult)
voice_join_result_fields =
    field "success" bool_kind (λ r. r.success) (λ v r. record r { success = v })
    ∷ omitempty "error" string_kind (λ r. r.error) (λ v r. record r { error = v })
    ∷ []

unfoldable pub voice_join_result_kind : Kind VoiceJoinResult
voice_join_result_kind = struct_kind zero_voice_join_result voice_join_result_fields

pub record VoiceLeaveParams : Type 0 where
  pub channel_id : String

abbrev pub zero_voice_leave_params : VoiceLeaveParams
zero_voice_leave_params = record { channel_id = "" }

unfoldable pub voice_leave_params_fields : List (Field VoiceLeaveParams)
voice_leave_params_fields =
    field "channel_id" string_kind (λ r. r.channel_id) (λ v r. record r { channel_id = v }) ∷ []

unfoldable pub voice_leave_params_kind : Kind VoiceLeaveParams
voice_leave_params_kind = struct_kind zero_voice_leave_params voice_leave_params_fields

pub record VoiceLeaveResult : Type 0 where
  pub success : Bool
  pub error : String

abbrev pub zero_voice_leave_result : VoiceLeaveResult
zero_voice_leave_result = record { success = false; error = "" }

unfoldable pub voice_leave_result_fields : List (Field VoiceLeaveResult)
voice_leave_result_fields =
    field "success" bool_kind (λ r. r.success) (λ v r. record r { success = v })
    ∷ omitempty "error" string_kind (λ r. r.error) (λ v r. record r { error = v })
    ∷ []

unfoldable pub voice_leave_result_kind : Kind VoiceLeaveResult
voice_leave_result_kind = struct_kind zero_voice_leave_result voice_leave_result_fields

pub record VoiceStreamParams : Type 0 where
  pub channel_id : String
  pub audio_data : Option (List (Option (List ℕ)))
  pub format : String
  pub sample_rate : ℤ
  pub channels : ℤ

abbrev pub zero_voice_stream_params : VoiceStreamParams
zero_voice_stream_params = record {
  channel_id = "";
  audio_data = none;
  format = "";
  sample_rate = pos 0;
  channels = pos 0;
}

unfoldable pub voice_stream_params_fields : ⦃e : Encoding⦄ → List (Field VoiceStreamParams)
voice_stream_params_fields =
    field "channel_id" string_kind (λ r. r.channel_id) (λ v r. record r { channel_id = v })
    ∷ field "audio_data" (slice_kind bytes_kind) (λ r. r.audio_data)
        (λ v r. record r { audio_data = v })
    ∷ omitempty "format" string_kind (λ r. r.format) (λ v r. record r { format = v })
    ∷ omitempty "sample_rate" int_kind (λ r. r.sample_rate) (λ v r. record r { sample_rate = v })
    ∷ omitempty "channels" int_kind (λ r. r.channels) (λ v r. record r { channels = v })
    ∷ []

unfoldable pub voice_stream_params_kind : ⦃e : Encoding⦄ → Kind VoiceStreamParams
voice_stream_params_kind = struct_kind zero_voice_stream_params voice_stream_params_fields

pub record VoiceStreamResult : Type 0 where
  pub frames_sent : ℤ
  pub error : String

abbrev pub zero_voice_stream_result : VoiceStreamResult
zero_voice_stream_result = record { frames_sent = pos 0; error = "" }

unfoldable pub voice_stream_result_fields : List (Field VoiceStreamResult)
voice_stream_result_fields =
    field "frames_sent" int_kind (λ r. r.frames_sent) (λ v r. record r { frames_sent = v })
    ∷ omitempty "error" string_kind (λ r. r.error) (λ v r. record r { error = v })
    ∷ []

unfoldable pub voice_stream_result_kind : Kind VoiceStreamResult
voice_stream_result_kind = struct_kind zero_voice_stream_result voice_stream_result_fields
