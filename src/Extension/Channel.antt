-- ===== src/Extension/Channel.antt =====
-- extension/channel.go: the interface `ChannelExtension` and its dispatch function.
use extension_sdk_go.Prelude.{String, Option, text_eq, if◌then◌else◌}
use extension_sdk_go.Errors.{Error}
use extension_sdk_go.Json.{Members}
use extension_sdk_go.Json.Encoding.{Encoding}
use extension_sdk_go.Protocol.Constants.{
  method_channel_send, method_channel_typing, method_channel_reaction_add,
  method_channel_reaction_remove, method_prompt_user, method_channel_capabilities,
  err_code_internal,
}
use extension_sdk_go.Protocol.Types.{Request}
use extension_sdk_go.Protocol.Initialize.{Registrations}
use extension_sdk_go.Protocol.Channel.{
  ChannelSendParams, channel_send_params_kind, ChannelTypingParams, channel_typing_params_kind,
  ChannelReactionAddParams, channel_reaction_add_params_kind, ChannelReactionRemoveParams,
  channel_reaction_remove_params_kind, PromptUserParams, prompt_user_params_kind, PromptUserResult,
  prompt_user_result_kind, ChannelCapabilitiesParams, channel_capabilities_params_kind,
  ChannelCapabilitiesResult, channel_capabilities_result_kind,
}
use extension_sdk_go.Extension.Handler.{
  Action, Method, unknown_method, serve, serve_optional, empty_object, pointer_json,
}

-- A method with the result type `error` alone returns `Unit`; a result pointer may be nil.
pub record ChannelExtension (W : Type 0) : Type 0 where
  pub initialize :
      (config : Option Members) (extension_root : String) → Method W (Option Registrations)
  pub handle_channel_send : ChannelSendParams → Method W (Unit {0})
  pub handle_channel_typing : ChannelTypingParams → Method W (Unit {0})
  pub handle_channel_reaction_add : ChannelReactionAddParams → Method W (Unit {0})
  pub handle_channel_reaction_remove : ChannelReactionRemoveParams → Method W (Unit {0})
  pub handle_prompt_user : PromptUserParams → Method W (Option PromptUserResult)
  pub handle_channel_capabilities :
      ChannelCapabilitiesParams → Method W (Option ChannelCapabilitiesResult)
  pub shutdown : Method W (Unit {0})

unfoldable pub dispatch_channel :
    ⦃enc : Encoding⦄ → {W : Type 0} → ChannelExtension W → Request → Action W (Option Error)
dispatch_channel ext req =
    if text_eq req.method method_channel_send
    then serve req channel_send_params_kind err_code_internal empty_object ext.handle_channel_send
    else if text_eq req.method method_channel_typing
    then serve req channel_typing_params_kind err_code_internal empty_object
        ext.handle_channel_typing
    else if text_eq req.method method_channel_reaction_add
    then serve req channel_reaction_add_params_kind err_code_internal empty_object
        ext.handle_channel_reaction_add
    else if text_eq req.method method_channel_reaction_remove
    then serve req channel_reaction_remove_params_kind err_code_internal empty_object
        ext.handle_channel_reaction_remove
    else if text_eq req.method method_prompt_user
    then serve req prompt_user_params_kind err_code_internal (pointer_json prompt_user_result_kind)
        ext.handle_prompt_user
    else if text_eq req.method method_channel_capabilities
    then serve_optional req channel_capabilities_params_kind err_code_internal
        (pointer_json channel_capabilities_result_kind) ext.handle_channel_capabilities
    else unknown_method req
