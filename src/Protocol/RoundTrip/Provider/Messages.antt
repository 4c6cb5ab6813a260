-- ===== src/Protocol/RoundTrip/Provider/Messages.antt =====
-- protocol/provider.go: round trips of messages for a model.
use extension_sdk_go.Prelude.{refl}
use extension_sdk_go.Json.Kind.{
  string_kind, bool_kind, int_kind, raw_kind, pointer_kind, list_kind, slice_kind,
}
use extension_sdk_go.Json.Struct.{find_field, struct_kind}
use extension_sdk_go.Json.RoundTrip.{
  IsLawful, string-IsLawful, bool-IsLawful, int-IsLawful, raw-IsLawful, pointer-IsLawful,
  list-IsLawful, slice-IsLawful, struct-IsLawful,
}
use extension_sdk_go.Protocol.Provider.{
  zero_provider_content_block, provider_content_block_fields, provider_content_block_kind,
  zero_provider_message, provider_message_fields, provider_message_kind, zero_provider_tool_def,
  provider_tool_def_fields, provider_tool_def_kind, zero_provider_create_message_params,
  provider_create_message_params_fields, provider_create_message_params_kind,
  zero_provider_create_message_result, provider_create_message_result_fields,
  provider_create_message_result_kind,
}
use extension_sdk_go.Protocol.Initialize.{zero_call_context, call_context_fields, call_context_kind}
use extension_sdk_go.Protocol.RoundTrip.Initialize.{CallContext-IsLawful}

pub ProviderContentBlock-IsLawful : IsLawful provider_content_block_kind
unfolding provider_content_block_kind provider_content_block_fields find_field string_kind bool_kind
    raw_kind
ProviderContentBlock-IsLawful =
    struct-IsLawful zero_provider_content_block provider_content_block_fields λ s. (
      refl,
      refl,
      refl,
      string-IsLawful,
      (
        refl,
        refl,
        refl,
        string-IsLawful,
        (
          refl,
          refl,
          refl,
          string-IsLawful,
          (
            refl,
            refl,
            refl,
            string-IsLawful,
            (
              refl,
              refl,
              refl,
              raw-IsLawful,
              (
                refl,
                refl,
                refl,
                string-IsLawful,
                (refl, refl, refl, bool-IsLawful, record { lower = refl }),
              ),
            ),
          ),
        ),
      ),
    )

pub ProviderMessage-IsLawful : IsLawful provider_message_kind
unfolding provider_message_kind provider_message_fields find_field string_kind slice_kind
    struct_kind provider_content_block_kind
ProviderMessage-IsLawful = struct-IsLawful zero_provider_message provider_message_fields λ s. (
  refl,
  refl,
  refl,
  string-IsLawful,
  (
    refl,
    refl,
    refl,
    (slice-IsLawful provider_content_block_kind ProviderContentBlock-IsLawful),
    record { lower = refl },
  ),
)

pub ProviderToolDef-IsLawful : IsLawful provider_tool_def_kind
unfolding provider_tool_def_kind provider_tool_def_fields find_field string_kind raw_kind
ProviderToolDef-IsLawful = struct-IsLawful zero_provider_tool_def provider_tool_def_fields λ s. (
  refl,
  refl,
  refl,
  string-IsLawful,
  (refl, refl, refl, string-IsLawful, (refl, refl, refl, raw-IsLawful, record { lower = refl })),
)

pub ProviderCreateMessageParams-IsLawful : IsLawful provider_create_message_params_kind
unfolding provider_create_message_params_kind provider_create_message_params_fields find_field
    string_kind int_kind pointer_kind list_kind slice_kind struct_kind call_context_kind
    provider_message_kind provider_tool_def_kind
ProviderCreateMessageParams-IsLawful =
    struct-IsLawful zero_provider_create_message_params provider_create_message_params_fields λ s. (
      refl,
      refl,
      refl,
      string-IsLawful,
      (
        refl,
        refl,
        refl,
        int-IsLawful,
        (
          refl,
          refl,
          refl,
          string-IsLawful,
          (
            refl,
            refl,
            refl,
            (slice-IsLawful provider_message_kind ProviderMessage-IsLawful),
            (
              refl,
              refl,
              refl,
              (list-IsLawful provider_tool_def_kind ProviderToolDef-IsLawful),
              (
                refl,
                refl,
                refl,
                (pointer-IsLawful zero_call_context call_context_fields CallContext-IsLawful),
                (refl, refl, refl, string-IsLawful, record { lower = refl }),
              ),
            ),
          ),
        ),
      ),
    )

pub ProviderCreateMessageResult-IsLawful : IsLawful provider_create_message_result_kind
unfolding provider_create_message_result_kind provider_create_message_result_fields find_field
    string_kind int_kind slice_kind struct_kind provider_content_block_kind
ProviderCreateMessageResult-IsLawful =
    struct-IsLawful zero_provider_create_message_result provider_create_message_result_fields λ s. (
      refl,
      refl,
      refl,
      (slice-IsLawful provider_content_block_kind ProviderContentBlock-IsLawful),
      (
        refl,
        refl,
        refl,
        string-IsLawful,
        (
          refl,
          refl,
          refl,
          int-IsLawful,
          (
            refl,
            refl,
            refl,
            int-IsLawful,
            (
              refl,
              refl,
              refl,
              int-IsLawful,
              (refl, refl, refl, int-IsLawful, record { lower = refl }),
            ),
          ),
        ),
      ),
    )
