-- ===== src/Protocol/RoundTrip/Channel/Sending.antt =====
-- protocol/channel.go: round trips of messages that are sent to a channel.
use extension_sdk_go.Prelude.{refl}
use extension_sdk_go.Json.Encoding.{Encoding, IsFaithful}
use extension_sdk_go.Json.Kind.{string_kind, bool_kind, int_kind, list_kind, slice_kind, bytes_kind}
use extension_sdk_go.Json.Struct.{find_field, struct_kind}
use extension_sdk_go.Json.RoundTrip.{
  IsLawful, string-IsLawful, bool-IsLawful, int-IsLawful, list-IsLawful, slice-IsLawful,
  bytes-IsLawful, struct-IsLawful,
}
use extension_sdk_go.Protocol.Channel.{
  zero_channel_send_attachment, channel_send_attachment_fields, channel_send_attachment_kind,
  zero_channel_send_component, channel_send_component_fields, channel_send_component_kind,
  zero_channel_send_params, channel_send_params_fields, channel_send_params_kind,
}

pub ChannelSendAttachment-IsLawful :
    ⦃e : Encoding⦄ → (faithful : IsFaithful e) → IsLawful channel_send_attachment_kind
unfolding channel_send_attachment_kind channel_send_attachment_fields find_field string_kind
    bytes_kind
ChannelSendAttachment-IsLawful faithful =
    struct-IsLawful zero_channel_send_attachment channel_send_attachment_fields λ s. (
      refl,
      refl,
      refl,
      (bytes-IsLawful faithful),
      (
        refl,
        refl,
        refl,
        string-IsLawful,
        (refl, refl, refl, string-IsLawful, record { lower = refl }),
      ),
    )

pub ChannelSendComponent-IsLawful : IsLawful channel_send_component_kind
unfolding channel_send_component_kind channel_send_component_fields find_field string_kind int_kind
ChannelSendComponent-IsLawful =
    struct-IsLawful zero_channel_send_component channel_send_component_fields λ s. (
      refl,
      refl,
      refl,
      string-IsLawful,
      (
        refl,
        refl,
        refl,
        string-IsLawful,
        (refl, refl, refl, int-IsLawful, record { lower = refl }),
      ),
    )

pub ChannelSendParams-IsLawful :
    ⦃e : Encoding⦄ → (faithful : IsFaithful e) → IsLawful channel_send_params_kind
unfolding channel_send_params_kind channel_send_params_fields find_field string_kind bool_kind
    list_kind slice_kind struct_kind channel_send_attachment_kind channel_send_component_kind
ChannelSendParams-IsLawful faithful =
    struct-IsLawful zero_channel_send_params channel_send_params_fields λ s. (
      refl,
      refl,
      refl,
      string-IsLawful,
      (
        refl,
        refl,
        refl,
        string-IsLawful,
        (
          refl,
          refl,
          refl,
          (list-IsLawful channel_send_attachment_kind (ChannelSendAttachment-IsLawful faithful)),
          (
            refl,
            refl,
            refl,
            (list-IsLawful channel_send_attachment_kind (ChannelSendAttachment-IsLawful faithful)),
            (
              refl,
              refl,
              refl,
              (list-IsLawful channel_send_attachment_kind
                  (ChannelSendAttachment-IsLawful faithful)),
              (
                refl,
                refl,
                refl,
                (list-IsLawful (slice_kind channel_send_component_kind)
                    (slice-IsLawful channel_send_component_kind ChannelSendComponent-IsLawful)),
                (
                  refl,
                  refl,
                  refl,
                  bool-IsLawful,
                  (refl, refl, refl, string-IsLawful, record { lower = refl }),
                ),
              ),
            ),
          ),
        ),
      ),
    )
