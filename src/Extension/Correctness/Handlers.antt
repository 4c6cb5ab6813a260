-- ===== src/Extension/Correctness/Handlers.antt =====
-- extension/run.go: the handlers that a composite extension registers, each with its own name and
-- methods, independently of the order of calls that the code writes out.
use extension_sdk_go.Protocol.Initialize.{InitializeParams, Registrations}
use extension_sdk_go.Extension.Handler.{Method}
use extension_sdk_go.Prelude.{
  String, refl, sym, ap, Option, none, some, List, [], append-nil, ◌≡◌, ◌∙◌, ◌∷◌, ◌++◌,
}
use extension_sdk_go.Extension.Composite.{CompositeConfig, Lifecycle, lifecycles, lifecycle_of}
use extension_sdk_go.Extension.Correctness.Routing.{
  Single, channel, provider, tool, tts, stt, hook, http, service,
}

module _ {W : Type 0} where
  -- What is called on a handler, and the name that its errors carry.
  unfoldable pub lifecycle_for : Single W → Lifecycle W
  lifecycle_for (channel x) = record {
    name = "channel";
    initialize = λ p. x.initialize p.config p.extension_root;
    shutdown = x.shutdown;
  }
  lifecycle_for (provider x) = record {
    name = "provider";
    initialize = λ p. x.initialize p.config p.extension_root;
    shutdown = x.shutdown;
  }
  lifecycle_for (tool x) = record {
    name = "tool";
    initialize = λ p. x.initialize p.config p.extension_root;
    shutdown = x.shutdown;
  }
  lifecycle_for (tts x) = record {
    name = "tts";
    initialize = λ p. x.initialize p.config p.extension_root;
    shutdown = x.shutdown;
  }
  lifecycle_for (stt x) = record {
    name = "stt";
    initialize = λ p. x.initialize p.config p.extension_root;
    shutdown = x.shutdown;
  }
  lifecycle_for (hook x) = record {
    name = "hook";
    initialize = λ p. x.initialize p.config p.extension_root;
    shutdown = x.shutdown;
  }
  lifecycle_for (http x) = record {
    name = "http";
    initialize = λ p. x.initialize p.config p.extension_root;
    shutdown = x.shutdown;
  }
  lifecycle_for (service x) = record {
    name = "service";
    initialize = λ p. x.initialize p.config p.extension_root;
    shutdown = x.shutdown;
  }

  -- A handler, if it is registered, after the others.
  abbrev and_handler :
      {E : Type 0} → (E → Single W) → Option E → List (Lifecycle W) → List (Lifecycle W)
  and_handler handler none others = others
  and_handler handler (some x) others = others ++ (lifecycle_for (handler x) ∷ [])

  -- The registered handlers, in the order channel, provider, tool, tts, stt, hook, http, service.
  unfoldable pub registered_handlers : CompositeConfig W → List (Lifecycle W)
  registered_handlers cc = and_handler service cc.service (
      and_handler http cc.http (
        and_handler hook cc.hook (
          and_handler stt cc.stt (
            and_handler tts cc.tts (
              and_handler tool cc.tool
                (and_handler provider cc.provider (and_handler channel cc.channel [])))))))

  module _ {E : Type 0} (handler : E → Single W) (name : String)
      (initialize : E → InitializeParams → Method W (Option Registrations))
      (shutdown : E → Method W (Unit {0}))
      (same : (x : E)
        → lifecycle_for (handler x)
          ≡ record { name = name; initialize = initialize x; shutdown = shutdown x }) where
    append-and_handler :
        (o : Option E) {before others : List (Lifecycle W)}
        → before ≡ others
        → before ++ lifecycle_of name initialize shutdown o ≡ and_handler handler o others
    append-and_handler none {before} e = append-nil before ∙ e
    append-and_handler (some x) {before} e =
        ap (λ l. before ++ (l ∷ [])) (sym (same x))
        ∙ ap (λ ls. ls ++ (lifecycle_for (handler x) ∷ [])) e

    only-and_handler :
        (o : Option E) → lifecycle_of name initialize shutdown o ≡ and_handler handler o []
    only-and_handler none = refl
    only-and_handler (some x) = ap (λ l. l ∷ []) (sym (same x))

  -- The code calls exactly the registered handlers.
  pub lifecycles-registered_handlers :
      (cc : CompositeConfig W) → lifecycles cc ≡ registered_handlers cc
  unfolding lifecycles registered_handlers lifecycle_for
  lifecycles-registered_handlers cc =
      append-and_handler service "service" (λ x p. x.initialize p.config p.extension_root)
        (λ x. x.shutdown) (λ x. refl) cc.service
        (append-and_handler http "http" (λ x p. x.initialize p.config p.extension_root)
          (λ x. x.shutdown) (λ x. refl) cc.http
          (append-and_handler hook "hook" (λ x p. x.initialize p.config p.extension_root)
            (λ x. x.shutdown) (λ x. refl) cc.hook
            (append-and_handler stt "stt" (λ x p. x.initialize p.config p.extension_root)
              (λ x. x.shutdown) (λ x. refl) cc.stt
              (append-and_handler tts "tts" (λ x p. x.initialize p.config p.extension_root)
                (λ x. x.shutdown) (λ x. refl) cc.tts
                (append-and_handler tool "tool" (λ x p. x.initialize p.config p.extension_root)
                  (λ x. x.shutdown) (λ x. refl) cc.tool
                  (append-and_handler provider "provider"
                    (λ x p. x.initialize p.config p.extension_root) (λ x. x.shutdown) (λ x. refl)
                    cc.provider
                    (only-and_handler channel "channel"
                      (λ x p. x.initialize p.config p.extension_root) (λ x. x.shutdown) (λ x. refl)
                      cc.channel)))))))
