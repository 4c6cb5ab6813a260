-- ===== src/Protocol/RoundTrip/Provider/Streams.antt =====
-- protocol/provider.go: round trips of streams of a model's output.
use extension_sdk_go.Prelude.{refl}
use extension_sdk_go.Json.Kind.{string_kind, int_kind}
use extension_sdk_go.Json.Struct.{find_field}
use extension_sdk_go.Json.RoundTrip.{IsLawful, string-IsLawful, int-IsLawful, struct-IsLawful}
use extension_sdk_go.Protocol.Provider.{
  zero_stream_chunk_params, stream_chunk_params_fields, stream_chunk_params_kind,
  zero_stream_end_params, stream_end_params_fields, stream_end_params_kind,
  zero_stream_error_params, stream_error_params_fields, stream_error_params_kind,
}

pub StreamChunkParams-IsLawful : IsLawful stream_chunk_params_kind
unfolding stream_chunk_params_kind stream_chunk_params_fields find_field string_kind int_kind
StreamChunkParams-IsLawful =
    struct-IsLawful zero_stream_chunk_params stream_chunk_params_fields λ s. (
      refl,
      refl,
      refl,
      string-IsLawful,
      (
        refl,
        refl,
        refl,
        string-IsLawful,
        (
          refl,
          refl,
          refl,
          string-IsLawful,
          (
            refl,
            refl,
            refl,
            string-IsLawful,
            (
              refl,
              refl,
              refl,
              string-IsLawful,
              (
                refl,
                refl,
                refl,
                string-IsLawful,
                (refl, refl, refl, int-IsLawful, record { lower = refl }),
              ),
            ),
          ),
        ),
      ),
    )

pub StreamEndParams-IsLawful : IsLawful stream_end_params_kind
unfolding stream_end_params_kind stream_end_params_fields find_field string_kind int_kind
StreamEndParams-IsLawful = struct-IsLawful zero_stream_end_params stream_end_params_fields λ s.
    (refl, refl, refl, string-IsLawful, (refl, refl, refl, int-IsLawful, record { lower = refl }))

pub StreamErrorParams-IsLawful : IsLawful stream_error_params_kind
unfolding stream_error_params_kind stream_error_params_fields find_field string_kind int_kind
StreamErrorParams-IsLawful =
    struct-IsLawful zero_stream_error_params stream_error_params_fields λ s. (
      refl,
      refl,
      refl,
      string-IsLawful,
      (
        refl,
        refl,
        refl,
        int-IsLawful,
        (refl, refl, refl, string-IsLawful, record { lower = refl }),
      ),
    )
