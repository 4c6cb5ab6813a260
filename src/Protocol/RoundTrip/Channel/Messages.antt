-- ===== src/Protocol/RoundTrip/Channel/Messages.antt =====
-- protocol/channel.go: round trips of messages that a channel receives.
use extension_sdk_go.Prelude.{refl}
use extension_sdk_go.Json.Encoding.{Encoding, IsFaithful}
use extension_sdk_go.Json.Kind.{string_kind, bool_kind, list_kind, bytes_kind}
use extension_sdk_go.Json.Struct.{find_field, struct_kind}
use extension_sdk_go.Json.RoundTrip.{
  IsLawful, string-IsLawful, bool-IsLawful, list-IsLawful, bytes-IsLawful, struct-IsLawful,
}
use extension_sdk_go.Protocol.Channel.{
  zero_channel_message_image, channel_message_image_fields, channel_message_image_kind,
  zero_channel_message_params, channel_message_params_fields, channel_message_params_kind,
}

pub ChannelMessageImage-IsLawful :
    ⦃e : Encoding⦄ → (faithful : IsFaithful e) → IsLawful channel_message_image_kind
unfolding channel_message_image_kind channel_message_image_fields find_field string_kind bytes_kind
ChannelMessageImage-IsLawful faithful =
    struct-IsLawful zero_channel_message_image channel_message_image_fields λ s. (
      refl,
      refl,
      refl,
      (bytes-IsLawful faithful),
      (
        refl,
        refl,
        refl,
        string-IsLawful,
        (refl, refl, refl, string-IsLawful, record { lower = refl }),
      ),
    )

pub ChannelMessageParams-IsLawful :
    ⦃e : Encoding⦄ → (faithful : IsFaithful e) → IsLawful channel_message_params_kind
unfolding channel_message_params_kind channel_message_params_fields find_field string_kind bool_kind
    list_kind struct_kind channel_message_image_kind
ChannelMessageParams-IsLawful faithful =
    struct-IsLawful zero_channel_message_params channel_message_params_fields λ s. (
      refl,
      refl,
      refl,
      string-IsLawful,
      (
        refl,
        refl,
        refl,
        string-IsLawful,
        (
          refl,
          refl,
          refl,
          string-IsLawful,
          (
            refl,
            refl,
            refl,
            string-IsLawful,
            (
              refl,
              refl,
              refl,
              string-IsLawful,
              (
                refl,
                refl,
                refl,
                string-IsLawful,
                (
                  refl,
                  refl,
                  refl,
                  bool-IsLawful,
                  (
                    refl,
                    refl,
                    refl,
                    string-IsLawful,
                    (
                      refl,
                      refl,
                      refl,
                      bool-IsLawful,
                      (
                        refl,
                        refl,
                        refl,
                        bool-IsLawful,
                        (
                          refl,
                          refl,
                          refl,
                          bool-IsLawful,
                          (
                            refl,
                            refl,
                            refl,
                            string-IsLawful,
                            (
                              refl,
                              refl,
                              refl,
                              string-IsLawful,
                              (
                                refl,
                                refl,
                                refl,
                                (list-IsLawful channel_message_image_kind
                                    (ChannelMessageImage-IsLawful faithful)),
                                record { lower = refl },
                              ),
                            ),
                          ),
                        ),
                      ),
                    ),
                  ),
                ),
              ),
            ),
          ),
        ),
      ),
    )
