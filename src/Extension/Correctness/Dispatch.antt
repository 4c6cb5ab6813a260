-- ===== src/Extension/Correctness/Dispatch.antt =====
-- What a call of a dispatch function writes.
use extension_sdk_go.Prelude.{Option, none, some, [], ◌≡◌}
use extension_sdk_go.Errors.{Error}
use extension_sdk_go.Json.Encoding.{Encoding}
use extension_sdk_go.Protocol.Types.{Request}
use extension_sdk_go.Extension.Handler.{Host, Action}
use extension_sdk_go.Extension.Channel.{ChannelExtension, dispatch_channel}
use extension_sdk_go.Extension.Provider.{ProviderExtension, dispatch_provider}
use extension_sdk_go.Extension.Tool.{ToolExtension, dispatch_tool}
use extension_sdk_go.Extension.Tts.{TtsExtension, dispatch_tts}
use extension_sdk_go.Extension.Stt.{SttExtension, dispatch_stt}
use extension_sdk_go.Extension.Hook.{HookExtension, dispatch_hook}
use extension_sdk_go.Extension.Http.{HttpExtension, dispatch_http}
use extension_sdk_go.Extension.Service.{ServiceExtension, dispatch_service}
use extension_sdk_go.Extension.Composite.{CompositeConfig, route, composite_dispatch}
use extension_sdk_go.Extension.Answers.{Replied}
use extension_sdk_go.Extension.Answers.Cases.{Answers, Answers-unknown, answer_rules}

module _ ⦃enc : Encoding⦄ {W : Type 0} where
  dispatch_channel-Answers :
      (ext : ChannelExtension W) (req : Request) → Answers req (dispatch_channel ext req)
  unfolding dispatch_channel
  dispatch_channel-Answers ext req = search answer_rules depth 9

  dispatch_provider-Answers :
      (ext : ProviderExtension W) (req : Request) → Answers req (dispatch_provider ext req)
  unfolding dispatch_provider
  dispatch_provider-Answers ext req = search answer_rules depth 6

  dispatch_tool-Answers :
      (ext : ToolExtension W) (req : Request) → Answers req (dispatch_tool ext req)
  unfolding dispatch_tool
  dispatch_tool-Answers ext req = search answer_rules depth 4

  dispatch_tts-Answers : (ext : TtsExtension W) (req : Request) → Answers req (dispatch_tts ext req)
  unfolding dispatch_tts
  dispatch_tts-Answers ext req = search answer_rules depth 5

  dispatch_stt-Answers : (ext : SttExtension W) (req : Request) → Answers req (dispatch_stt ext req)
  unfolding dispatch_stt
  dispatch_stt-Answers ext req = search answer_rules depth 5

  dispatch_hook-Answers :
      (ext : HookExtension W) (req : Request) → Answers req (dispatch_hook ext req)
  unfolding dispatch_hook
  dispatch_hook-Answers ext req = search answer_rules depth 4

  dispatch_http-Answers :
      (ext : HttpExtension W) (req : Request) → Answers req (dispatch_http ext req)
  unfolding dispatch_http
  dispatch_http-Answers ext req = search answer_rules depth 4

  dispatch_service-Answers :
      (ext : ServiceExtension W) (req : Request) → Answers req (dispatch_service ext req)
  unfolding dispatch_service
  dispatch_service-Answers ext req = search answer_rules depth 6

  route-Answers :
      {E : Type 0} (req : Request) (ext : Option E)
      (dispatch : E → Request → Action W (Option Error))
      → ((e : E) → Answers req (dispatch e req))
      → Answers req (route req ext dispatch)
  route-Answers req none dispatch each = Answers-unknown req
  route-Answers req (some e) dispatch each = each e

  ruleset routes = (
    answer_rules, route-Answers, dispatch_channel-Answers, dispatch_provider-Answers,
    dispatch_tool-Answers, dispatch_tts-Answers, dispatch_stt-Answers, dispatch_hook-Answers,
    dispatch_http-Answers, dispatch_service-Answers,
  )

  composite_dispatch-Answers :
      (cc : CompositeConfig W) (req : Request) → Answers req (composite_dispatch cc req)
  unfolding composite_dispatch
  composite_dispatch-Answers cc req = search routes depth 12

  pub composite_dispatch-Replied :
      (cc : CompositeConfig W) (req : Request) (h : Host W)
      → h.transport.writer.script ≡ []
      → Replied req.id h (composite_dispatch cc req h)
  composite_dispatch-Replied cc req h s = (composite_dispatch-Answers cc req).at h s
