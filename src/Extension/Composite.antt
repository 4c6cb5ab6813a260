-- ===== src/Extension/Composite.antt =====
-- extension/run.go: the handlers of a composite extension, their initialization, the routing of
-- methods and the shutdown.
use extension_sdk_go.Prelude.{
  String, Bool, false, Option, none, some, List, [], text_eq, Result, ok, err, ◌||◌, ◌∷◌, ◌++◌,
  ◌+++◌, if◌then◌else◌,
}
use extension_sdk_go.Errors.{Error, text, wrap, message}
use extension_sdk_go.Json.Encoding.{Encoding}
use extension_sdk_go.Protocol.Constants
use extension_sdk_go.Protocol.Types.{Request}
use extension_sdk_go.Protocol.Initialize.{InitializeParams, Registrations, zero_registrations}
use extension_sdk_go.Extension.Handler.{Action, Method, call_method, unknown_method}
use extension_sdk_go.Extension.Channel.{ChannelExtension, dispatch_channel}
use extension_sdk_go.Extension.Provider.{ProviderExtension, dispatch_provider}
use extension_sdk_go.Extension.Tool.{ToolExtension, dispatch_tool}
use extension_sdk_go.Extension.Tts.{TtsExtension, dispatch_tts}
use extension_sdk_go.Extension.Stt.{SttExtension, dispatch_stt}
use extension_sdk_go.Extension.Hook.{HookExtension, dispatch_hook}
use extension_sdk_go.Extension.Http.{HttpExtension, dispatch_http}
use extension_sdk_go.Extension.Service.{ServiceExtension, dispatch_service}

pub record CompositeConfig (W : Type 0) : Type 0 where
  pub channel : Option (ChannelExtension W)
  pub provider : Option (ProviderExtension W)
  pub tool : Option (ToolExtension W)
  pub tts : Option (TtsExtension W)
  pub stt : Option (SttExtension W)
  pub hook : Option (HookExtension W)
  pub http : Option (HttpExtension W)
  pub service : Option (ServiceExtension W)

-- A nil source changes nothing.
unfoldable pub merge_registrations : Registrations → Option Registrations → Registrations
merge_registrations dst none = dst
merge_registrations dst (some src) = record {
  tools = dst.tools ++ src.tools;
  http_routes = dst.http_routes ++ src.http_routes;
  hooks = dst.hooks ++ src.hooks;
  services = dst.services ++ src.services;
  providers = dst.providers ++ src.providers;
  tts_providers = dst.tts_providers ++ src.tts_providers;
  stt_providers = dst.stt_providers ++ src.stt_providers;
  cli_commands = dst.cli_commands ++ src.cli_commands;
}

-- The Initialize and Shutdown methods of a handler that is registered, with the name that its errors
-- carry.
pub record Lifecycle (W : Type 0) : Type 0 where
  pub name : String
  pub initialize : InitializeParams → Method W (Option Registrations)
  pub shutdown : Method W (Unit {0})

module _ {W : Type 0} where
  abbrev pub lifecycle_of :
      {E : Type 0}
      → String
      → (E → InitializeParams → Method W (Option Registrations))
      → (E → Method W (Unit {0}))
      → Option E
      → List (Lifecycle W)
  lifecycle_of name initialize shutdown none = []
  lifecycle_of name initialize shutdown (some ext) =
      record { name = name; initialize = initialize ext; shutdown = shutdown ext } ∷ []

  -- In the order of the source.
  unfoldable pub lifecycles : CompositeConfig W → List (Lifecycle W)
  lifecycles cc =
      lifecycle_of "channel" (λ x p. x.initialize p.config p.extension_root) (λ x. x.shutdown)
        cc.channel
      ++ lifecycle_of "provider" (λ x p. x.initialize p.config p.extension_root) (λ x. x.shutdown)
          cc.provider
      ++ lifecycle_of "tool" (λ x p. x.initialize p.config p.extension_root) (λ x. x.shutdown)
          cc.tool
      ++ lifecycle_of "tts" (λ x p. x.initialize p.config p.extension_root) (λ x. x.shutdown) cc.tts
      ++ lifecycle_of "stt" (λ x p. x.initialize p.config p.extension_root) (λ x. x.shutdown) cc.stt
      ++ lifecycle_of "hook" (λ x p. x.initialize p.config p.extension_root) (λ x. x.shutdown)
          cc.hook
      ++ lifecycle_of "http" (λ x p. x.initialize p.config p.extension_root) (λ x. x.shutdown)
          cc.http
      ++ lifecycle_of "service" (λ x p. x.initialize p.config p.extension_root) (λ x. x.shutdown)
          cc.service

abbrev pub pointer_to : Result Error Registrations → Result Error (Option Registrations)
pointer_to (ok regs) = ok (some regs)
pointer_to (err e) = err e

-- The error of the shutdown, by the errors of the handlers.
listed_messages : List Error → String
listed_messages [] = ""
listed_messages (e ∷ errs) = " " +++ message e +++ ";" +++ listed_messages errs

unfoldable pub combine : List Error → Option Error
unfolding listed_messages
combine [] = none
combine (e ∷ []) = some e
combine (e ∷ e' ∷ errs) =
    some (text ("multiple shutdown errors:" +++ listed_messages (e ∷ e' ∷ errs)))

-- A group of `case` labels.
abbrev pub one_of : List String → String → Bool
one_of [] m = false
one_of (n ∷ ns) m = text_eq m n || one_of ns m

module _ ⦃enc : Encoding⦄ {W : Type 0} where
  -- The eight blocks of `compositeInitialize`, one round each; the first error ends it.
  unfoldable pub initialize_all :
      List (Lifecycle W) → InitializeParams → Registrations → Action W (Result Error Registrations)
  initialize_all [] params merged h = (ok merged, h)
  initialize_all (l ∷ ls) params merged h =
      let (r, h') = call_method (l.initialize params) h in
      elim r [
        | err e ↦ (err (wrap (l.name +++ " init") e), h')
        | ok regs ↦ initialize_all ls params (merge_registrations merged regs) h'
      ]

  unfoldable pub composite_initialize :
      CompositeConfig W → InitializeParams → Action W (Result Error (Option Registrations))
  composite_initialize cc params h =
      let (r, h') = initialize_all (lifecycles cc) params zero_registrations h in (pointer_to r, h')

  -- The eight blocks of `compositeShutdown`: every handler is shut down, and the errors collected.
  unfoldable pub shutdown_all : List (Lifecycle W) → Action W (List Error)
  shutdown_all [] h = ([], h)
  shutdown_all (l ∷ ls) h =
      let (r, h') = call_method l.shutdown h in
      let (errs, h'') = shutdown_all ls h' in
      (elim r [ ok _ ↦ errs | err e ↦ wrap (l.name +++ " shutdown") e ∷ errs ], h'')

  unfoldable pub composite_shutdown : CompositeConfig W → Action W (Option Error)
  composite_shutdown cc h = let (errs, h') = shutdown_all (lifecycles cc) h in (combine errs, h')

  -- A case with a handler that may be nil; if it is, the switch is left and the method is unknown.
  abbrev pub route :
      {E : Type 0}
      → Request
      → Option E
      → (E → Request → Action W (Option Error))
      → Action W (Option Error)
  route req none dispatch = unknown_method req
  route req (some ext) dispatch = dispatch ext req

  unfoldable pub composite_dispatch : CompositeConfig W → Request → Action W (Option Error)
  composite_dispatch cc req =
      if one_of
        (Constants.method_channel_send ∷ Constants.method_channel_typing
          ∷ Constants.method_channel_reaction_add ∷ Constants.method_channel_reaction_remove
          ∷ Constants.method_prompt_user ∷ Constants.method_channel_capabilities ∷ [])
        req.method
      then route req cc.channel dispatch_channel
      else if one_of
          (Constants.method_provider_create_message ∷ Constants.method_provider_stream_message
            ∷ Constants.method_provider_capabilities ∷ [])
          req.method
      then route req cc.provider dispatch_provider
      else if one_of (Constants.method_tool_call ∷ []) req.method
      then route req cc.tool dispatch_tool
      else if one_of (Constants.method_tts_synthesize ∷ Constants.method_tts_voices ∷ []) req.method
      then route req cc.tts dispatch_tts
      else if one_of (Constants.method_stt_transcribe ∷ Constants.method_stt_models ∷ []) req.method
      then route req cc.stt dispatch_stt
      else if one_of (Constants.method_hook_event ∷ []) req.method
      then route req cc.hook dispatch_hook
      else if one_of (Constants.method_http_request ∷ []) req.method
      then route req cc.http dispatch_http
      else if one_of
          (Constants.method_service_start ∷ Constants.method_service_health
            ∷ Constants.method_service_stop ∷ [])
          req.method
      then route req cc.service dispatch_service
      else unknown_method req
