-- ===== src/Extension/Correctness/Registration.antt =====
-- What the initialization of a composite extension registers.
use extension_sdk_go.Prelude.{
  refl, sym, ap, subst, Option, none, some, List, [], append-nil, append_assoc, ok, err, ◌≡◌, ◌∙◌,
  ◌∷◌, ◌++◌, ◌+++◌,
}
use mathlib.Core.List.{foldl}
use extension_sdk_go.Errors.{Error, wrap}
use extension_sdk_go.Json.Encoding.{Encoding}
use extension_sdk_go.Protocol.Initialize.{InitializeParams, Registrations, zero_registrations}
use extension_sdk_go.Extension.Handler.{Host, call_method}
use extension_sdk_go.Extension.Correctness.Handlers.{
  registered_handlers, lifecycles-registered_handlers,
}
use extension_sdk_go.Extension.Composite.{
  CompositeConfig, Lifecycle, pointer_to, merge_registrations, initialize_all, composite_initialize,
}

-- A field of the sources, one after the other; a nil source has nothing.
pub gather : {A : Type 0} → (Registrations → List A) → List (Option Registrations) → List A
gather get [] = []
gather get (none ∷ sources) = gather get sources
gather get (some source ∷ sources) = get source ++ gather get sources

foldl-gather :
    {A : Type 0} (get : Registrations → List A) (sources : List (Option Registrations))
    (dst : Registrations)
    → ((d s : Registrations) → get (merge_registrations d (some s)) ≡ get d ++ get s)
    → get (foldl merge_registrations dst sources) ≡ get dst ++ gather get sources
unfolding gather merge_registrations
foldl-gather get [] dst step = sym (append-nil (get dst))
foldl-gather get (none ∷ sources) dst step = foldl-gather get sources dst step
foldl-gather get (some source ∷ sources) dst step =
    foldl-gather get sources (merge_registrations dst (some source)) step
    ∙ ap (λ x. x ++ gather get sources) (step dst source)
    ∙ append_assoc (get dst) (get source) (gather get sources)

-- Registrations whose eight lists are those of the sources, in the order of the sources.
pub record Gathers (sources : List (Option Registrations)) (regs : Registrations) : Type 0 where
  pub tools : regs.tools ≡ gather (λ r. r.tools) sources
  pub http_routes : regs.http_routes ≡ gather (λ r. r.http_routes) sources
  pub hooks : regs.hooks ≡ gather (λ r. r.hooks) sources
  pub services : regs.services ≡ gather (λ r. r.services) sources
  pub providers : regs.providers ≡ gather (λ r. r.providers) sources
  pub tts_providers : regs.tts_providers ≡ gather (λ r. r.tts_providers) sources
  pub stt_providers : regs.stt_providers ≡ gather (λ r. r.stt_providers) sources
  pub cli_commands : regs.cli_commands ≡ gather (λ r. r.cli_commands) sources

merge-Gathers :
    (sources : List (Option Registrations))
    → Gathers sources (foldl merge_registrations zero_registrations sources)
unfolding merge_registrations
merge-Gathers sources = record {
  tools = foldl-gather (λ r. r.tools) sources zero_registrations (λ d s. refl);
  http_routes = foldl-gather (λ r. r.http_routes) sources zero_registrations (λ d s. refl);
  hooks = foldl-gather (λ r. r.hooks) sources zero_registrations (λ d s. refl);
  services = foldl-gather (λ r. r.services) sources zero_registrations (λ d s. refl);
  providers = foldl-gather (λ r. r.providers) sources zero_registrations (λ d s. refl);
  tts_providers = foldl-gather (λ r. r.tts_providers) sources zero_registrations (λ d s. refl);
  stt_providers = foldl-gather (λ r. r.stt_providers) sources zero_registrations (λ d s. refl);
  cli_commands = foldl-gather (λ r. r.cli_commands) sources zero_registrations (λ d s. refl);
}

module _ ⦃enc : Encoding⦄ {W : Type 0} where
  -- `Initialized params ls h sources h'`: the handlers `ls` are initialized one after the other,
  -- from `h` to `h'`, without an error, and return the `sources`.
  pub data Initialized (params : InitializeParams)
      : List (Lifecycle W) → Host W → List (Option Registrations) → Host W → Type 0 where
    none_left : {h : Host W} → Initialized params [] h [] h
    next :
        {l : Lifecycle W} {ls : List (Lifecycle W)} {h h' h'' : Host W}
        {source : Option Registrations} {sources : List (Option Registrations)}
        → call_method (l.initialize params) h ≡ (ok source, h')
        → Initialized params ls h' sources h''
        → Initialized params (l ∷ ls) h (source ∷ sources) h''

  initialize_all-before :
      {params : InitializeParams} {ls : List (Lifecycle W)} {h h' : Host W}
      {sources : List (Option Registrations)} (rest : List (Lifecycle W)) (merged : Registrations)
      → Initialized params ls h sources h'
      → initialize_all (ls ++ rest) params merged h
        ≡ initialize_all rest params (foldl merge_registrations merged sources) h'
  unfolding initialize_all
  initialize_all-before rest merged none_left = refl
  initialize_all-before {params} rest merged (next {l} {ls} {source} called i) =
      rw (ap (λ x. x.0) called, initialize_all)
        (ap (λ x. initialize_all (ls ++ rest) params (merge_registrations merged source) x.1) called
          ∙ initialize_all-before rest (merge_registrations merged source) i)

  initialize_all-whole :
      {params : InitializeParams} {ls : List (Lifecycle W)} {h h' : Host W}
      {sources : List (Option Registrations)}
      → Initialized params ls h sources h'
      → initialize_all ls params zero_registrations h
        ≡ (ok (foldl merge_registrations zero_registrations sources), h')
  unfolding initialize_all
  initialize_all-whole {params} {ls} {h} i =
      ap (λ l. initialize_all l params zero_registrations h) (sym (append-nil ls))
      ∙ initialize_all-before [] zero_registrations i

  -- If every registered handler, from channel to service, initializes, the composite extension does, and registers exactly what
  -- the handlers return, list by list and in the order of the handlers.
  pub composite_initialize_all :
      {params : InitializeParams} (cc : CompositeConfig W) {h h' : Host W}
      {sources : List (Option Registrations)}
      → Initialized params (registered_handlers cc) h sources h'
      → (regs : Registrations) × (composite_initialize cc params h ≡ (ok (some regs), h'))
        × Gathers sources regs
  unfolding composite_initialize
  composite_initialize_all {params} cc {h} {h'} {sources} i =
      let called =
        subst (λ ls. Initialized params ls h sources h') (sym (lifecycles-registered_handlers cc))
          i in
      let whole = initialize_all-whole called in
      (_, ap (λ x. (pointer_to x.0, x.1)) whole, merge-Gathers sources)

  initialize_all-fails :
      (params : InitializeParams) (l : Lifecycle W) (after : List (Lifecycle W))
      (merged : Registrations) (h : Host W) {h' : Host W} {e : Error}
      → call_method (l.initialize params) h ≡ (err e, h')
      → initialize_all (l ∷ after) params merged h ≡ (err (wrap (l.name +++ " init") e), h')
  unfolding initialize_all
  initialize_all-fails params l after merged h {e} failed =
      rw (ap (λ x. x.0) failed, initialize_all)
        (ap (λ x. (err (wrap (l.name +++ " init") e), x.1)) failed)

  -- The first handler whose initialization fails ends it: its error is returned under its name, the
  -- state is the one it leaves, so no later handler is called.
  pub composite_initialize_first_error :
      {params : InitializeParams} (cc : CompositeConfig W) (before after : List (Lifecycle W))
      (l : Lifecycle W) {h h' h'' : Host W} {sources : List (Option Registrations)} {e : Error}
      → registered_handlers cc ≡ before ++ (l ∷ after)
      → Initialized params before h sources h'
      → call_method (l.initialize params) h' ≡ (err e, h'')
      → composite_initialize cc params h ≡ (err (wrap (l.name +++ " init") e), h'')
  unfolding composite_initialize
  composite_initialize_first_error {params} cc before after l {h} {h'} {sources} order i failed =
      let start = initialize_all-before (l ∷ after) zero_registrations i in
      ap (λ x. (pointer_to x.0, x.1))
        (ap (λ ls. initialize_all ls params zero_registrations h)
            (lifecycles-registered_handlers cc ∙ order)
          ∙ start
          ∙ initialize_all-fails params l after _ h' failed)
