-- ===== src/Extension/Correctness/Routing.antt =====
-- The routing table of `compositeDispatch` against the dispatch functions that it calls.
use extension_sdk_go.Prelude.{
  String, refl, sym, subst, inl, inr, Bool, true, false, Option, List, [], text_eq, eq_iff,
  Bool-cases, ◌≡◌, ◌∷◌, if◌then◌else◌,
}
use extension_sdk_go.Errors.{Error}
use extension_sdk_go.Json.Encoding.{Encoding}
use extension_sdk_go.Protocol.Constants
use extension_sdk_go.Protocol.Types.{Request}
use extension_sdk_go.Extension.Handler.{Action}
use extension_sdk_go.Extension.Channel.{ChannelExtension, dispatch_channel}
use extension_sdk_go.Extension.Provider.{ProviderExtension, dispatch_provider}
use extension_sdk_go.Extension.Tool.{ToolExtension, dispatch_tool}
use extension_sdk_go.Extension.Tts.{TtsExtension, dispatch_tts}
use extension_sdk_go.Extension.Stt.{SttExtension, dispatch_stt}
use extension_sdk_go.Extension.Hook.{HookExtension, dispatch_hook}
use extension_sdk_go.Extension.Http.{HttpExtension, dispatch_http}
use extension_sdk_go.Extension.Service.{ServiceExtension, dispatch_service}
use extension_sdk_go.Extension.Composite.{CompositeConfig, composite_dispatch}
use extension_sdk_go.Extension.Run.{
  empty_config, with_channel, with_provider, with_tool, with_tts, with_stt, with_hook, with_http,
  with_service,
}

if-same {ℓ} : {A : Type ℓ} (b : Bool) (x : A) → (if b then x else x) ≡ x
if-same true x = refl
if-same false x = refl

-- No name is the method, and a predicate holds of every name.
abbrev Differs : List String → String → Type 0
Differs [] m = Unit
Differs (n ∷ ns) m = (text_eq m n ≡ false) × Differs ns m

abbrev Each : (String → Type 0) → List String → Type 0
Each P [] = Unit
Each P (n ∷ ns) = P n × Each P ns

-- A property of a method, name by name.
by_name :
    (P : String → Type 0) (ns : List String) (m : String) → Each P ns → (Differs ns m → P m) → P m
by_name P [] m each other = other tt
by_name P (n ∷ ns) m each other = elim (Bool-cases (text_eq m n)) [
  | inl e ↦ subst P (sym ((eq_iff m n).0 e)) each.0
  | inr e ↦ by_name P ns m each.1 (λ rest. other (e, rest))
]

-- One handler, of one of the eight kinds: what each of the runners `RunChannel` to `RunService` is
-- given.
pub data Single (W : Type 0) : Type 0 where
  channel : ChannelExtension W → Single W
  provider : ProviderExtension W → Single W
  tool : ToolExtension W → Single W
  tts : TtsExtension W → Single W
  stt : SttExtension W → Single W
  hook : HookExtension W → Single W
  http : HttpExtension W → Single W
  service : ServiceExtension W → Single W

pub config_of : {W : Type 0} → Single W → CompositeConfig W
config_of (channel ext) = with_channel ext empty_config
config_of (provider ext) = with_provider ext empty_config
config_of (tool ext) = with_tool ext empty_config
config_of (tts ext) = with_tts ext empty_config
config_of (stt ext) = with_stt ext empty_config
config_of (hook ext) = with_hook ext empty_config
config_of (http ext) = with_http ext empty_config
config_of (service ext) = with_service ext empty_config

pub dispatch_of : ⦃enc : Encoding⦄ → {W : Type 0} → Single W → Request → Action W (Option Error)
dispatch_of (channel ext) = dispatch_channel ext
dispatch_of (provider ext) = dispatch_provider ext
dispatch_of (tool ext) = dispatch_tool ext
dispatch_of (tts ext) = dispatch_tts ext
dispatch_of (stt ext) = dispatch_stt ext
dispatch_of (hook ext) = dispatch_hook ext
dispatch_of (http ext) = dispatch_http ext
dispatch_of (service ext) = dispatch_service ext

module _ ⦃enc : Encoding⦄ {W : Type 0} where
  channel_alone :
      (ext : ChannelExtension W) (req : Request)
      → composite_dispatch (with_channel ext empty_config) req ≡ dispatch_channel ext req
  unfolding composite_dispatch dispatch_channel
  channel_alone ext req =
      by_name
        (λ m.
          composite_dispatch (with_channel ext empty_config) (record req { method = m })
          ≡ dispatch_channel ext (record req { method = m }))
        (Constants.method_channel_send ∷ Constants.method_channel_typing
          ∷ Constants.method_channel_reaction_add ∷ Constants.method_channel_reaction_remove
          ∷ Constants.method_prompt_user ∷ Constants.method_channel_capabilities ∷ [])
        req.method (refl, (refl, (refl, (refl, (refl, (refl, tt))))))
        (λ f.
          rw
            (
              f.0, f.1.0, f.1.1.0, f.1.1.1.0, f.1.1.1.1.0, f.1.1.1.1.1.0, composite_dispatch,
              dispatch_channel,
            )
            simp (if-same))

  provider_alone :
      (ext : ProviderExtension W) (req : Request)
      → composite_dispatch (with_provider ext empty_config) req ≡ dispatch_provider ext req
  unfolding composite_dispatch dispatch_provider
  provider_alone ext req =
      by_name
        (λ m.
          composite_dispatch (with_provider ext empty_config) (record req { method = m })
          ≡ dispatch_provider ext (record req { method = m }))
        (Constants.method_provider_create_message ∷ Constants.method_provider_stream_message
          ∷ Constants.method_provider_capabilities ∷ [])
        req.method (refl, (refl, (refl, tt)))
        (λ f. rw (f.0, f.1.0, f.1.1.0, composite_dispatch, dispatch_provider) simp (if-same))

  tool_alone :
      (ext : ToolExtension W) (req : Request)
      → composite_dispatch (with_tool ext empty_config) req ≡ dispatch_tool ext req
  unfolding composite_dispatch dispatch_tool
  tool_alone ext req =
      by_name
        (λ m.
          composite_dispatch (with_tool ext empty_config) (record req { method = m })
          ≡ dispatch_tool ext (record req { method = m }))
        (Constants.method_tool_call ∷ []) req.method (refl, tt)
        (λ f. rw (f.0, composite_dispatch, dispatch_tool) simp (if-same))

  tts_alone :
      (ext : TtsExtension W) (req : Request)
      → composite_dispatch (with_tts ext empty_config) req ≡ dispatch_tts ext req
  unfolding composite_dispatch dispatch_tts
  tts_alone ext req =
      by_name
        (λ m.
          composite_dispatch (with_tts ext empty_config) (record req { method = m })
          ≡ dispatch_tts ext (record req { method = m }))
        (Constants.method_tts_synthesize ∷ Constants.method_tts_voices ∷ []) req.method
        (refl, (refl, tt)) (λ f. rw (f.0, f.1.0, composite_dispatch, dispatch_tts) simp (if-same))

  stt_alone :
      (ext : SttExtension W) (req : Request)
      → composite_dispatch (with_stt ext empty_config) req ≡ dispatch_stt ext req
  unfolding composite_dispatch dispatch_stt
  stt_alone ext req =
      by_name
        (λ m.
          composite_dispatch (with_stt ext empty_config) (record req { method = m })
          ≡ dispatch_stt ext (record req { method = m }))
        (Constants.method_stt_transcribe ∷ Constants.method_stt_models ∷ []) req.method
        (refl, (refl, tt)) (λ f. rw (f.0, f.1.0, composite_dispatch, dispatch_stt) simp (if-same))

  hook_alone :
      (ext : HookExtension W) (req : Request)
      → composite_dispatch (with_hook ext empty_config) req ≡ dispatch_hook ext req
  unfolding composite_dispatch dispatch_hook
  hook_alone ext req =
      by_name
        (λ m.
          composite_dispatch (with_hook ext empty_config) (record req { method = m })
          ≡ dispatch_hook ext (record req { method = m }))
        (Constants.method_hook_event ∷ []) req.method (refl, tt)
        (λ f. rw (f.0, composite_dispatch, dispatch_hook) simp (if-same))

  http_alone :
      (ext : HttpExtension W) (req : Request)
      → composite_dispatch (with_http ext empty_config) req ≡ dispatch_http ext req
  unfolding composite_dispatch dispatch_http
  http_alone ext req =
      by_name
        (λ m.
          composite_dispatch (with_http ext empty_config) (record req { method = m })
          ≡ dispatch_http ext (record req { method = m }))
        (Constants.method_http_request ∷ []) req.method (refl, tt)
        (λ f. rw (f.0, composite_dispatch, dispatch_http) simp (if-same))

  service_alone :
      (ext : ServiceExtension W) (req : Request)
      → composite_dispatch (with_service ext empty_config) req ≡ dispatch_service ext req
  unfolding composite_dispatch dispatch_service
  service_alone ext req =
      by_name
        (λ m.
          composite_dispatch (with_service ext empty_config) (record req { method = m })
          ≡ dispatch_service ext (record req { method = m }))
        (Constants.method_service_start ∷ Constants.method_service_health
          ∷ Constants.method_service_stop ∷ [])
        req.method (refl, (refl, (refl, tt)))
        (λ f. rw (f.0, f.1.0, f.1.1.0, composite_dispatch, dispatch_service) simp (if-same))

  -- With a single handler registered, `compositeDispatch` does for every method what the dispatch
  -- function of that handler's kind does: its table has exactly the methods that the eight functions
  -- know.
  pub composite_dispatch-alone :
      (x : Single W) (req : Request) → composite_dispatch (config_of x) req ≡ dispatch_of x req
  unfolding config_of dispatch_of
  composite_dispatch-alone (channel ext) req = channel_alone ext req
  composite_dispatch-alone (provider ext) req = provider_alone ext req
  composite_dispatch-alone (tool ext) req = tool_alone ext req
  composite_dispatch-alone (tts ext) req = tts_alone ext req
  composite_dispatch-alone (stt ext) req = stt_alone ext req
  composite_dispatch-alone (hook ext) req = hook_alone ext req
  composite_dispatch-alone (http ext) req = http_alone ext req
  composite_dispatch-alone (service ext) req = service_alone ext req
