-- ===== src/Protocol/RoundTrip/Tts.antt =====
-- protocol/tts.go: round trips of its types.
use extension_sdk_go.Json.Encoding.{Encoding}
use extension_sdk_go.Prelude.{refl}
use extension_sdk_go.Json.Kind.{string_kind, float_kind, slice_kind}
use extension_sdk_go.Json.Struct.{find_field, struct_kind}
use extension_sdk_go.Json.RoundTrip.{
  IsLawful, string-IsLawful, float-IsLawful, slice-IsLawful, struct-IsLawful,
}
use extension_sdk_go.Protocol.Tts.{
  zero_tts_synthesize_params, tts_synthesize_params_fields, tts_synthesize_params_kind,
  zero_tts_synthesize_result, tts_synthesize_result_fields, tts_synthesize_result_kind,
  zero_tts_voice, tts_voice_fields, tts_voice_kind, zero_tts_voices_result,
  tts_voices_result_fields, tts_voices_result_kind,
}

pub TtsSynthesizeParams-IsLawful : ⦃e : Encoding⦄ → IsLawful tts_synthesize_params_kind
unfolding tts_synthesize_params_kind tts_synthesize_params_fields find_field string_kind float_kind
TtsSynthesizeParams-IsLawful =
    struct-IsLawful zero_tts_synthesize_params tts_synthesize_params_fields λ s. (
      refl,
      refl,
      refl,
      string-IsLawful,
      (
        refl,
        refl,
        refl,
        string-IsLawful,
        (
          refl,
          refl,
          refl,
          string-IsLawful,
          (
            refl,
            refl,
            refl,
            string-IsLawful,
            (refl, refl, refl, float-IsLawful, record { lower = refl }),
          ),
        ),
      ),
    )

pub TtsSynthesizeResult-IsLawful : IsLawful tts_synthesize_result_kind
unfolding tts_synthesize_result_kind tts_synthesize_result_fields find_field string_kind
TtsSynthesizeResult-IsLawful =
    struct-IsLawful zero_tts_synthesize_result tts_synthesize_result_fields λ s. (
      refl,
      refl,
      refl,
      string-IsLawful,
      (
        refl,
        refl,
        refl,
        string-IsLawful,
        (refl, refl, refl, string-IsLawful, record { lower = refl }),
      ),
    )

pub TtsVoice-IsLawful : IsLawful tts_voice_kind
unfolding tts_voice_kind tts_voice_fields find_field string_kind
TtsVoice-IsLawful = struct-IsLawful zero_tts_voice tts_voice_fields λ s. (
  refl,
  refl,
  refl,
  string-IsLawful,
  (
    refl,
    refl,
    refl,
    string-IsLawful,
    (
      refl,
      refl,
      refl,
      string-IsLawful,
      (refl, refl, refl, string-IsLawful, record { lower = refl }),
    ),
  ),
)

pub TtsVoicesResult-IsLawful : IsLawful tts_voices_result_kind
unfolding tts_voices_result_kind tts_voices_result_fields find_field slice_kind struct_kind
    tts_voice_kind
TtsVoicesResult-IsLawful = struct-IsLawful zero_tts_voices_result tts_voices_result_fields λ s.
    (refl, refl, refl, (slice-IsLawful tts_voice_kind TtsVoice-IsLawful), record { lower = refl })
