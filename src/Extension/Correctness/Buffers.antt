-- ===== src/Extension/Correctness/Buffers.antt =====
-- The buffer of the transport that a runner reads through.
use extension_sdk_go.Prelude.{
  ℕ, max, refl, ap, inl, inr, some, List, [], Option-cases, All, ◌≡◌, ◌∙◌, ◌∷◌, ◌++◌,
}
use extension_sdk_go.Jsonrpc.Scanner.{new_scanner}
use extension_sdk_go.Jsonrpc.Transport.{new_transport, large_buffer_size}
use extension_sdk_go.Extension.Provider.{ProviderExtension}
use extension_sdk_go.Extension.Composite.{CompositeConfig}
use extension_sdk_go.Extension.Run.{
  RunConfig, RunnerOption, with_buffer_size, apply_options, start_run, runner_options,
}

-- An option that leaves the size of the buffer alone.
abbrev pub KeepsSize : RunnerOption → Type 0
KeepsSize o = (c : RunConfig) → (o c).buf_size ≡ c.buf_size

apply_options-size :
    (opts : List RunnerOption) (c : RunConfig)
    → All KeepsSize opts
    → (apply_options opts c).buf_size ≡ c.buf_size
unfolding apply_options
apply_options-size [] c k = refl
apply_options-size (o ∷ opts) c k = apply_options-size opts (o c) k.1 ∙ k.0 c

apply_options-append :
    (before after : List RunnerOption) (c : RunConfig)
    → apply_options (before ++ after) c ≡ apply_options after (apply_options before c)
unfolding apply_options
apply_options-append [] after c = refl
apply_options-append (o ∷ before) after c = apply_options-append before after (o c)

start_run-limit :
    (opts : List RunnerOption) (default : RunConfig)
    → (start_run opts default).scanner.limit ≡ max 65536 (apply_options opts default).buf_size
unfolding start_run new_transport new_scanner
start_run-limit opts default = refl

last_size :
    (size : ℕ) (before after : List RunnerOption) (default : RunConfig)
    → All KeepsSize after
    → (start_run (before ++ (with_buffer_size size ∷ after)) default).scanner.limit ≡ max 65536 size
unfolding apply_options
last_size size before after default k =
    let opts = before ++ (with_buffer_size size ∷ after) in
    let c = with_buffer_size size (apply_options before default) in
    start_run-limit opts default
    ∙ ap (λ x. max 65536 x)
        (ap (λ x. x.buf_size) (apply_options-append before (with_buffer_size size ∷ after) default)
          ∙ apply_options-size after c k)

module _ {W : Type 0} where
  -- With a provider and no option for the size, a line may be as long as the large buffer.
  pub start_run_large :
      (cc : CompositeConfig W) (ext : ProviderExtension W) (opts : List RunnerOption)
      (default : RunConfig)
      → cc.provider ≡ some ext
      → All KeepsSize opts
      → (start_run (runner_options cc opts) default).scanner.limit ≡ large_buffer_size
  unfolding runner_options
  start_run_large cc ext opts default p k =
      rw (p, runner_options) (last_size large_buffer_size [] opts default k)

  -- An option `WithBufferSize` decides the size, with or without a provider, unless a later option
  -- changes it; a size below 64 KB counts as 64 KB.
  pub start_run_chosen :
      (cc : CompositeConfig W) (size : ℕ) (before after : List RunnerOption) (default : RunConfig)
      → All KeepsSize after
      → (start_run
          (runner_options cc (before ++ (with_buffer_size size ∷ after)))
          default).scanner.limit
        ≡ max 65536 size
  unfolding runner_options
  start_run_chosen cc size before after default k = elim (Option-cases cc.provider) [
    | inl p ↦ rw (p, runner_options) (last_size size before after default k)
    | inr (ext, p) ↦
        rw (p, runner_options)
          (last_size size (with_buffer_size large_buffer_size ∷ before) after default k)
  ]
