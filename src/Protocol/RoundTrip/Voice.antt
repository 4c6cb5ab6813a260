-- ===== src/Protocol/RoundTrip/Voice.antt =====
-- protocol/voice.go: round trips of its types.
use extension_sdk_go.Prelude.{refl}
use extension_sdk_go.Json.Encoding.{Encoding, IsFaithful}
use extension_sdk_go.Json.Kind.{
  string_kind, bool_kind, int_kind, any_map_kind, slice_kind, bytes_kind,
}
use extension_sdk_go.Json.Struct.{find_field}
use extension_sdk_go.Json.RoundTrip.{
  IsLawful, string-IsLawful, bool-IsLawful, int-IsLawful, any_map-IsLawful, slice-IsLawful,
  bytes-IsLawful, struct-IsLawful,
}
use extension_sdk_go.Protocol.Voice.{
  zero_voice_join_params, voice_join_params_fields, voice_join_params_kind, zero_voice_join_result,
  voice_join_result_fields, voice_join_result_kind, zero_voice_leave_params,
  voice_leave_params_fields, voice_leave_params_kind, zero_voice_leave_result,
  voice_leave_result_fields, voice_leave_result_kind, zero_voice_stream_params,
  voice_stream_params_fields, voice_stream_params_kind, zero_voice_stream_result,
  voice_stream_result_fields, voice_stream_result_kind,
}

pub VoiceJoinParams-IsLawful : ⦃e : Encoding⦄ → IsLawful voice_join_params_kind
unfolding voice_join_params_kind voice_join_params_fields find_field string_kind any_map_kind
VoiceJoinParams-IsLawful = struct-IsLawful zero_voice_join_params voice_join_params_fields λ s. (
  refl,
  refl,
  refl,
  string-IsLawful,
  (refl, refl, refl, any_map-IsLawful, record { lower = refl }),
)

pub VoiceJoinResult-IsLawful : IsLawful voice_join_result_kind
unfolding voice_join_result_kind voice_join_result_fields find_field string_kind bool_kind
VoiceJoinResult-IsLawful = struct-IsLawful zero_voice_join_result voice_join_result_fields λ s.
    (refl, refl, refl, bool-IsLawful, (refl, refl, refl, string-IsLawful, record { lower = refl }))

pub VoiceLeaveParams-IsLawful : IsLawful voice_leave_params_kind
unfolding voice_leave_params_kind voice_leave_params_fields find_field string_kind
VoiceLeaveParams-IsLawful =
    struct-IsLawful zero_voice_leave_params voice_leave_params_fields
      λ s. (refl, refl, refl, string-IsLawful, record { lower = refl })

pub VoiceLeaveResult-IsLawful : IsLawful voice_leave_result_kind
unfolding voice_leave_result_kind voice_leave_result_fields find_field string_kind bool_kind
VoiceLeaveResult-IsLawful = struct-IsLawful zero_voice_leave_result voice_leave_result_fields λ s.
    (refl, refl, refl, bool-IsLawful, (refl, refl, refl, string-IsLawful, record { lower = refl }))

pub VoiceStreamParams-IsLawful :
    ⦃e : Encoding⦄ → (faithful : IsFaithful e) → IsLawful voice_stream_params_kind
unfolding voice_stream_params_kind voice_stream_params_fields find_field string_kind int_kind
    slice_kind bytes_kind
VoiceStreamParams-IsLawful faithful =
    struct-IsLawful zero_voice_stream_params voice_stream_params_fields λ s. (
      refl,
      refl,
      refl,
      string-IsLawful,
      (
        refl,
        refl,
        refl,
        (slice-IsLawful bytes_kind (bytes-IsLawful faithful)),
        (
          refl,
          refl,
          refl,
          string-IsLawful,
          (
            refl,
            refl,
            refl,
            int-IsLawful,
            (refl, refl, refl, int-IsLawful, record { lower = refl }),
          ),
        ),
      ),
    )

pub VoiceStreamResult-IsLawful : IsLawful voice_stream_result_kind
unfolding voice_stream_result_kind voice_stream_result_fields find_field string_kind int_kind
VoiceStreamResult-IsLawful =
    struct-IsLawful zero_voice_stream_result voice_stream_result_fields λ s.
      (refl, refl, refl, int-IsLawful, (refl, refl, refl, string-IsLawful, record { lower = refl }))
