-- ===== src/Extension/Run.antt =====
-- extension/run.go and extension/extension.go: options, `Run`, and the runners of one handler.
use mathlib.Core.List.{foldl}
use extension_sdk_go.Prelude.{ℕ, Bool, Option, none, some, List, [], ◌∷◌}
use extension_sdk_go.Errors.{Error}
use extension_sdk_go.Json.Encoding.{Encoding}
use extension_sdk_go.Jsonrpc.Writer.{Writer}
use extension_sdk_go.Jsonrpc.Transport.{
  Transport, new_transport, default_buffer_size, large_buffer_size,
}
use extension_sdk_go.Extension.Handler.{Host}
use extension_sdk_go.Extension.Dispatcher.{Dispatcher, Ending}
use extension_sdk_go.Extension.Dispatcher
use extension_sdk_go.Extension.Channel.{ChannelExtension}
use extension_sdk_go.Extension.Provider.{ProviderExtension}
use extension_sdk_go.Extension.Tool.{ToolExtension}
use extension_sdk_go.Extension.Tts.{TtsExtension}
use extension_sdk_go.Extension.Stt.{SttExtension}
use extension_sdk_go.Extension.Hook.{HookExtension}
use extension_sdk_go.Extension.Http.{HttpExtension}
use extension_sdk_go.Extension.Service.{ServiceExtension}
use extension_sdk_go.Extension.Composite.{
  CompositeConfig, composite_initialize, composite_dispatch, composite_shutdown,
}

-- A reader is the bytes that it gives and the error, if not io.EOF, with which it ends.
pub record RunConfig : Type 0 where
  pub stdin : List ℕ × Option Error
  pub stdout : Writer
  pub buf_size : ℕ

abbrev pub RunnerOption : Type 0
RunnerOption = RunConfig → RunConfig

abbrev pub with_stdin : List ℕ × Option Error → RunnerOption
with_stdin r c = record c { stdin = r }

abbrev pub with_stdout : Writer → RunnerOption
with_stdout w c = record c { stdout = w }

abbrev pub with_buffer_size : ℕ → RunnerOption
with_buffer_size size c = record c { buf_size = size }

-- The arguments are os.Stdin and os.Stdout.
unfoldable pub default_config : List ℕ × Option Error → Writer → RunConfig
default_config os_stdin os_stdout = record {
  stdin = os_stdin;
  stdout = os_stdout;
  buf_size = default_buffer_size;
}

unfoldable pub apply_options : List RunnerOption → RunConfig → RunConfig
apply_options opts cfg = foldl (λ c o. o c) cfg opts

-- The transport of `startRun`. Its context is the argument `cancelled` of `run_extension`.
unfoldable pub start_run : List RunnerOption → RunConfig → Transport
start_run opts default =
    let cfg = apply_options opts default in
    new_transport cfg.stdin.0 cfg.stdin.1 cfg.stdout cfg.buf_size

abbrev pub RunOption : Type 0 → Type 0
RunOption W = CompositeConfig W → CompositeConfig W

module _ {W : Type 0} where
  abbrev pub with_channel : ChannelExtension W → RunOption W
  with_channel ext c = record c { channel = some ext }

  abbrev pub with_provider : ProviderExtension W → RunOption W
  with_provider ext c = record c { provider = some ext }

  abbrev pub with_tool : ToolExtension W → RunOption W
  with_tool ext c = record c { tool = some ext }

  abbrev pub with_tts : TtsExtension W → RunOption W
  with_tts ext c = record c { tts = some ext }

  abbrev pub with_stt : SttExtension W → RunOption W
  with_stt ext c = record c { stt = some ext }

  abbrev pub with_hook : HookExtension W → RunOption W
  with_hook ext c = record c { hook = some ext }

  abbrev pub with_http : HttpExtension W → RunOption W
  with_http ext c = record c { http = some ext }

  abbrev pub with_service : ServiceExtension W → RunOption W
  with_service ext c = record c { service = some ext }

  abbrev pub empty_config : CompositeConfig W
  empty_config = record {
    channel = none;
    provider = none;
    tool = none;
    tts = none;
    stt = none;
    hook = none;
    http = none;
    service = none;
  }

  unfoldable pub configure : List (RunOption W) → CompositeConfig W
  configure run_opts = foldl (λ c o. o c) empty_config run_opts

  -- A registered provider puts the large buffer first, where a later option overrides it.
  abbrev provider_first : Option (ProviderExtension W) → List RunnerOption → List RunnerOption
  provider_first none opts = opts
  provider_first (some _) opts = with_buffer_size large_buffer_size ∷ opts

  unfoldable pub runner_options : CompositeConfig W → List RunnerOption → List RunnerOption
  runner_options cc opts = provider_first cc.provider opts

module _ ⦃enc : Encoding⦄ {W : Type 0} where
  unfoldable pub composite_dispatcher : CompositeConfig W → Dispatcher W
  composite_dispatcher cc = record {
    on_initialize = composite_initialize cc;
    on_method = composite_dispatch cc;
    on_shutdown = some (composite_shutdown cc);
  }

  -- `Run`, from the default configuration and the extension's first state.
  unfoldable pub run_extension :
      (cancelled : ℕ → Bool)
      → RunConfig
      → List (RunOption W)
      → List RunnerOption
      → W
      → Ending × Host W
  run_extension cancelled default run_opts opts world =
      let cc = configure run_opts in
      let transport = start_run (runner_options cc opts) default in
      Dispatcher.run cancelled (composite_dispatcher cc)
        (record { transport = transport; world = world })

  unfoldable pub run_channel :
      (cancelled : ℕ → Bool)
      → RunConfig
      → ChannelExtension W
      → List RunnerOption
      → W
      → Ending × Host W
  run_channel cancelled default ext opts world =
      run_extension cancelled default (with_channel ext ∷ []) opts world

  unfoldable pub run_provider :
      (cancelled : ℕ → Bool)
      → RunConfig
      → ProviderExtension W
      → List RunnerOption
      → W
      → Ending × Host W
  run_provider cancelled default ext opts world =
      run_extension cancelled default (with_provider ext ∷ []) opts world

  unfoldable pub run_tool :
      (cancelled : ℕ → Bool) → RunConfig → ToolExtension W → List RunnerOption → W → Ending × Host W
  run_tool cancelled default ext opts world =
      run_extension cancelled default (with_tool ext ∷ []) opts world

  unfoldable pub run_tts :
      (cancelled : ℕ → Bool) → RunConfig → TtsExtension W → List RunnerOption → W → Ending × Host W
  run_tts cancelled default ext opts world =
      run_extension cancelled default (with_tts ext ∷ []) opts world

  unfoldable pub run_stt :
      (cancelled : ℕ → Bool) → RunConfig → SttExtension W → List RunnerOption → W → Ending × Host W
  run_stt cancelled default ext opts world =
      run_extension cancelled default (with_stt ext ∷ []) opts world

  unfoldable pub run_hook :
      (cancelled : ℕ → Bool) → RunConfig → HookExtension W → List RunnerOption → W → Ending × Host W
  run_hook cancelled default ext opts world =
      run_extension cancelled default (with_hook ext ∷ []) opts world

  unfoldable pub run_http :
      (cancelled : ℕ → Bool) → RunConfig → HttpExtension W → List RunnerOption → W → Ending × Host W
  run_http cancelled default ext opts world =
      run_extension cancelled default (with_http ext ∷ []) opts world

  unfoldable pub run_service :
      (cancelled : ℕ → Bool)
      → RunConfig
      → ServiceExtension W
      → List RunnerOption
      → W
      → Ending × Host W
  run_service cancelled default ext opts world =
      run_extension cancelled default (with_service ext ∷ []) opts world
