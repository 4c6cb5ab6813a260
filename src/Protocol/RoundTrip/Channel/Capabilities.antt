-- ===== src/Protocol/RoundTrip/Channel/Capabilities.antt =====
-- protocol/channel.go: round trips of what a channel can do.
use extension_sdk_go.Prelude.{refl}
use extension_sdk_go.Json.Kind.{string_kind, bool_kind, int_kind, list_kind}
use extension_sdk_go.Json.Struct.{find_field, struct_kind}
use extension_sdk_go.Json.RoundTrip.{
  IsLawful, string-IsLawful, bool-IsLawful, int-IsLawful, list-IsLawful, struct-IsLawful,
}
use extension_sdk_go.Protocol.Channel.{
  zero_channel_capabilities, channel_capabilities_fields, channel_capabilities_kind,
  zero_channel_capabilities_params, channel_capabilities_params_fields,
  channel_capabilities_params_kind, zero_channel_capabilities_result,
  channel_capabilities_result_fields, channel_capabilities_result_kind,
}

pub ChannelCapabilities-IsLawful : IsLawful channel_capabilities_kind
unfolding channel_capabilities_kind channel_capabilities_fields find_field string_kind bool_kind
    int_kind list_kind
ChannelCapabilities-IsLawful =
    struct-IsLawful zero_channel_capabilities channel_capabilities_fields λ s. (
      refl,
      refl,
      refl,
      bool-IsLawful,
      (
        refl,
        refl,
        refl,
        bool-IsLawful,
        (
          refl,
          refl,
          refl,
          bool-IsLawful,
          (
            refl,
            refl,
            refl,
            bool-IsLawful,
            (
              refl,
              refl,
              refl,
              bool-IsLawful,
              (
                refl,
                refl,
                refl,
                bool-IsLawful,
                (
                  refl,
                  refl,
                  refl,
                  bool-IsLawful,
                  (
                    refl,
                    refl,
                    refl,
                    bool-IsLawful,
                    (
                      refl,
                      refl,
                      refl,
                      bool-IsLawful,
                      (
                        refl,
                        refl,
                        refl,
                        bool-IsLawful,
                        (
                          refl,
                          refl,
                          refl,
                          bool-IsLawful,
                          (
                            refl,
                            refl,
                            refl,
                            bool-IsLawful,
                            (
                              refl,
                              refl,
                              refl,
                              bool-IsLawful,
                              (
                                refl,
                                refl,
                                refl,
                                bool-IsLawful,
                                (
                                  refl,
                                  refl,
                                  refl,
                                  bool-IsLawful,
                                  (
                                    refl,
                                    refl,
                                    refl,
                                    int-IsLawful,
                                    (
                                      refl,
                                      refl,
                                      refl,
                                      int-IsLawful,
                                      (
                                        refl,
                                        refl,
                                        refl,
                                        (list-IsLawful string_kind string-IsLawful),
                                        (
                                          refl,
                                          refl,
                                          refl,
                                          (list-IsLawful string_kind string-IsLawful),
                                          (
                                            refl,
                                            refl,
                                            refl,
                                            (list-IsLawful string_kind string-IsLawful),
                                            record { lower = refl },
                                          ),
                                        ),
                                      ),
                                    ),
                                  ),
                                ),
                              ),
                            ),
                          ),
                        ),
                      ),
                    ),
                  ),
                ),
              ),
            ),
          ),
        ),
      ),
    )

pub ChannelCapabilitiesParams-IsLawful : IsLawful channel_capabilities_params_kind
unfolding channel_capabilities_params_kind channel_capabilities_params_fields find_field string_kind
ChannelCapabilitiesParams-IsLawful =
    struct-IsLawful zero_channel_capabilities_params channel_capabilities_params_fields
      λ s. (refl, refl, refl, string-IsLawful, record { lower = refl })

pub ChannelCapabilitiesResult-IsLawful : IsLawful channel_capabilities_result_kind
unfolding channel_capabilities_result_kind channel_capabilities_result_fields find_field struct_kind
    channel_capabilities_kind
ChannelCapabilitiesResult-IsLawful =
    struct-IsLawful zero_channel_capabilities_result channel_capabilities_result_fields
      λ s. (refl, refl, refl, ChannelCapabilities-IsLawful, record { lower = refl })
