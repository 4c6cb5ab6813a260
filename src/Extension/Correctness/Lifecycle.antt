-- ===== src/Extension/Correctness/Lifecycle.antt =====
-- What the initialization and the shutdown of a composite extension write.
use extension_sdk_go.Prelude.{
  refl, inl, inr, true, none, some, List, [], Option-cases, ok, err, Result-cases, ◌≡◌, ◌⊎◌, ◌∷◌,
}
use extension_sdk_go.Errors.{Error}
use extension_sdk_go.Json.Encoding.{Encoding}
use extension_sdk_go.Protocol.Types.{Request}
use extension_sdk_go.Protocol.Initialize.{InitializeParams, Registrations, zero_registrations}
use extension_sdk_go.Extension.Handler.{Host, call_method}
use extension_sdk_go.Extension.Dispatcher.{
  initialize_params, handle_initialize, handle_shutdown, handle_method, registered,
}
use extension_sdk_go.Extension.Composite.{
  CompositeConfig, Lifecycle, lifecycles, merge_registrations, initialize_all, composite_initialize,
  shutdown_all, composite_shutdown, combine,
}
use extension_sdk_go.Extension.Run.{composite_dispatcher}
use extension_sdk_go.Extension.Answers.{
  Answered-dropped, answered, unsent, Notified, Notified-refl, Notified-trans, Answered,
  call_method-Notified, transmit_response-Answered, transmit_error-Answered,
}
use extension_sdk_go.Extension.Correctness.Dispatch.{composite_dispatch-Replied}
use extension_sdk_go.Json.Marshal.{encode}

module _ ⦃enc : Encoding⦄ {W : Type 0} where
  initialize_all-Notified :
      (ls : List (Lifecycle W)) (params : InitializeParams) (merged : Registrations) (h : Host W)
      → h.transport.writer.script ≡ []
      → Notified h.transport (initialize_all ls params merged h).1.transport
  unfolding initialize_all
  initialize_all-Notified [] params merged h s = Notified-refl h.transport s
  initialize_all-Notified (l ∷ ls) params merged h s =
      let first = call_method-Notified (l.initialize params) h s in
      elim (Result-cases (call_method (l.initialize params) h).0) [
        | inr (e, failed) ↦ rw (failed, initialize_all) first
        | inl (regs, good) ↦
            rw (good, initialize_all)
              (Notified-trans first (
                initialize_all-Notified ls params (merge_registrations merged regs)
                  (call_method (l.initialize params) h).1 first.sent.sound))
      ]

  shutdown_all-Notified :
      (ls : List (Lifecycle W)) (h : Host W)
      → h.transport.writer.script ≡ []
      → Notified h.transport (shutdown_all ls h).1.transport
  unfolding shutdown_all
  shutdown_all-Notified [] h s = Notified-refl h.transport s
  shutdown_all-Notified (l ∷ ls) h s =
      let first = call_method-Notified l.shutdown h s in
      Notified-trans first (shutdown_all-Notified ls (call_method l.shutdown h).1 first.sent.sound)

  composite_initialize-cases :
      (cc : CompositeConfig W) (params : InitializeParams) (h : Host W)
      → ((regs : Registrations) × ((composite_initialize cc params h).0 ≡ ok (some regs)))
        ⊎ ((e : Error) × ((composite_initialize cc params h).0 ≡ err e))
  unfolding composite_initialize
  composite_initialize-cases cc params h =
      elim (Result-cases (initialize_all (lifecycles cc) params zero_registrations h).0) [
        | inl (regs, good) ↦ inl (regs, rw good refl)
        | inr (e, bad) ↦ inr (e, rw bad refl)
      ]

  composite_initialize-Notified :
      (cc : CompositeConfig W) (params : InitializeParams) (h : Host W)
      → h.transport.writer.script ≡ []
      → Notified h.transport (composite_initialize cc params h).1.transport
  unfolding composite_initialize
  composite_initialize-Notified cc params h s =
      initialize_all-Notified (lifecycles cc) params zero_registrations h s

  module _ (cc : CompositeConfig W) (req : Request) (h : Host W)
      (s : h.transport.writer.script ≡ []) where
    -- The registrations are never dereferenced at nil. `handleInitialize` drops the error of
    -- sending them, so an answer takes registrations that can be marshalled.
    pub handle_initialize-Answered :
        ((params : InitializeParams) (g : Host W) (regs : Registrations)
          → (composite_initialize cc params g).0 ≡ ok (some regs)
          → encode (registered regs) ≡ ok (registered regs))
        → let (returned, h') = handle_initialize (composite_dispatcher cc) req h in
          (returned ≡ true) × Answered req.id h (none, h')
    unfolding handle_initialize composite_dispatcher
    handle_initialize-Answered marshals = elim (Result-cases (initialize_params req)) [
      | inr (e, bad) ↦
          rw (bad, handle_initialize)
            (refl, Answered-dropped (transmit_error-Answered _ _ h (Notified-refl h.transport s)))
      | inl (params, good) ↦
          let (r, h') = composite_initialize cc params h in
          let first = composite_initialize-Notified cc params h s in
          elim (composite_initialize-cases cc params h) [
            | inl (regs, fine) ↦
                rw (good, handle_initialize)
                  (rw (fine, marshals params h regs fine, handle_initialize)
                    (refl, Answered-dropped (transmit_response-Answered _ h' first)))
            | inr (e, bad) ↦
                rw (good, handle_initialize)
                  (rw (bad, handle_initialize)
                    (refl, Answered-dropped (transmit_error-Answered _ _ h' first)))
          ]
    ]

    pub handle_shutdown-Answered :
        Answered req.id h (none, (handle_shutdown (composite_dispatcher cc) req h).1)
    unfolding handle_shutdown composite_dispatcher composite_shutdown encode
    handle_shutdown-Answered =
        let (errs, h') = shutdown_all (lifecycles cc) h in
        let first = shutdown_all-Notified (lifecycles cc) h s in
        elim (Option-cases (combine errs)) [
          | inl fine ↦
              rw (fine, handle_shutdown) (Answered-dropped (transmit_response-Answered _ h' first))
          | inr (e, bad) ↦
              rw (bad, handle_shutdown) (Answered-dropped (transmit_error-Answered _ _ h' first))
        ]

    pub handle_method-Answered :
        Answered req.id h (none, (handle_method (composite_dispatcher cc) req h).1)
    unfolding handle_method composite_dispatcher
    handle_method-Answered = elim (composite_dispatch-Replied cc req h s) [
      | answered a ↦ rw (a.quiet, handle_method) (Answered-dropped a)
      | unsent u ↦
          rw (u.returned, handle_method)
            (Answered-dropped (transmit_error-Answered _ _ _ u.notified))
    ]
