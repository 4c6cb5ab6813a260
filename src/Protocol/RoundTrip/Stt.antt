-- ===== src/Protocol/RoundTrip/Stt.antt =====
-- protocol/stt.go: round trips of its types.
use extension_sdk_go.Json.Encoding.{Encoding}
use extension_sdk_go.Prelude.{refl}
use extension_sdk_go.Json.Kind.{string_kind, int_kind, float_kind, list_kind, slice_kind}
use extension_sdk_go.Json.Struct.{find_field, struct_kind}
use extension_sdk_go.Json.RoundTrip.{
  IsLawful, string-IsLawful, int-IsLawful, float-IsLawful, list-IsLawful, slice-IsLawful,
  struct-IsLawful,
}
use extension_sdk_go.Protocol.Stt.{
  zero_stt_provider_def, stt_provider_def_fields, stt_provider_def_kind, zero_stt_transcribe_params,
  stt_transcribe_params_fields, stt_transcribe_params_kind, zero_stt_segment, stt_segment_fields,
  stt_segment_kind, zero_stt_transcribe_result, stt_transcribe_result_fields,
  stt_transcribe_result_kind, zero_stt_model, stt_model_fields, stt_model_kind,
  zero_stt_models_result, stt_models_result_fields, stt_models_result_kind,
}

pub SttProviderDef-IsLawful : IsLawful stt_provider_def_kind
unfolding stt_provider_def_kind stt_provider_def_fields find_field string_kind
SttProviderDef-IsLawful = struct-IsLawful zero_stt_provider_def stt_provider_def_fields λ s. (
  refl,
  refl,
  refl,
  string-IsLawful,
  (refl, refl, refl, string-IsLawful, record { lower = refl }),
)

pub SttTranscribeParams-IsLawful : IsLawful stt_transcribe_params_kind
unfolding stt_transcribe_params_kind stt_transcribe_params_fields find_field string_kind int_kind
SttTranscribeParams-IsLawful =
    struct-IsLawful zero_stt_transcribe_params stt_transcribe_params_fields λ s. (
      refl,
      refl,
      refl,
      string-IsLawful,
      (
        refl,
        refl,
        refl,
        string-IsLawful,
        (
          refl,
          refl,
          refl,
          int-IsLawful,
          (
            refl,
            refl,
            refl,
            int-IsLawful,
            (
              refl,
              refl,
              refl,
              string-IsLawful,
              (
                refl,
                refl,
                refl,
                string-IsLawful,
                (
                  refl,
                  refl,
                  refl,
                  string-IsLawful,
                  (refl, refl, refl, string-IsLawful, record { lower = refl }),
                ),
              ),
            ),
          ),
        ),
      ),
    )

pub SttSegment-IsLawful : ⦃e : Encoding⦄ → IsLawful stt_segment_kind
unfolding stt_segment_kind stt_segment_fields find_field string_kind float_kind
SttSegment-IsLawful = struct-IsLawful zero_stt_segment stt_segment_fields λ s. (
  refl,
  refl,
  refl,
  float-IsLawful,
  (refl, refl, refl, float-IsLawful, (refl, refl, refl, string-IsLawful, record { lower = refl })),
)

pub SttTranscribeResult-IsLawful : ⦃e : Encoding⦄ → IsLawful stt_transcribe_result_kind
unfolding stt_transcribe_result_kind stt_transcribe_result_fields find_field string_kind float_kind
    list_kind struct_kind stt_segment_kind
SttTranscribeResult-IsLawful =
    struct-IsLawful zero_stt_transcribe_result stt_transcribe_result_fields λ s. (
      refl,
      refl,
      refl,
      string-IsLawful,
      (
        refl,
        refl,
        refl,
        string-IsLawful,
        (
          refl,
          refl,
          refl,
          float-IsLawful,
          (
            refl,
            refl,
            refl,
            (list-IsLawful stt_segment_kind SttSegment-IsLawful),
            record { lower = refl },
          ),
        ),
      ),
    )

pub SttModel-IsLawful : IsLawful stt_model_kind
unfolding stt_model_kind stt_model_fields find_field string_kind
SttModel-IsLawful = struct-IsLawful zero_stt_model stt_model_fields λ s. (
  refl,
  refl,
  refl,
  string-IsLawful,
  (
    refl,
    refl,
    refl,
    string-IsLawful,
    (
      refl,
      refl,
      refl,
      string-IsLawful,
      (refl, refl, refl, string-IsLawful, record { lower = refl }),
    ),
  ),
)

pub SttModelsResult-IsLawful : IsLawful stt_models_result_kind
unfolding stt_models_result_kind stt_models_result_fields find_field slice_kind struct_kind
    stt_model_kind
SttModelsResult-IsLawful = struct-IsLawful zero_stt_models_result stt_models_result_fields λ s.
    (refl, refl, refl, (slice-IsLawful stt_model_kind SttModel-IsLawful), record { lower = refl })
