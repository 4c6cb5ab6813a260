-- ===== src/Extension/Correctness/Shutdown.antt =====
-- What the shutdown of a composite extension does.
use extension_sdk_go.Prelude.{
  refl, ap, subst, inl, inr, none, List, [], ok, err, Result-cases, ◌≡◌, ◌↔◌, ◌∷◌, ◌+++◌,
}
use extension_sdk_go.Errors.{Error, wrap}
use extension_sdk_go.Json.Encoding.{Encoding}
use extension_sdk_go.Extension.Handler.{Host, call_method}
use extension_sdk_go.Extension.Correctness.Handlers.{
  registered_handlers, lifecycles-registered_handlers,
}
use extension_sdk_go.Extension.Composite.{
  CompositeConfig, Lifecycle, lifecycles, combine, shutdown_all, composite_shutdown,
}

combine-none : (errs : List Error) → (combine errs ≡ none) ↔ (errs ≡ [])
unfolding combine
combine-none [] = (λ h. refl, λ h. refl)
combine-none (e ∷ []) = (λ h. (cc), λ h. (cc))
combine-none (e ∷ e' ∷ errs) = (λ h. (cc), λ h. (cc))

module _ ⦃enc : Encoding⦄ {W : Type 0} where
  -- `Stopped ls h errs h'`: every one of the handlers `ls` is shut down, one after the other, from `h`
  -- to `h'`, and `errs` are the errors that they return, each under its handler's name.
  pub data Stopped : List (Lifecycle W) → Host W → List Error → Host W → Type 0 where
    all_stopped : {h : Host W} → Stopped [] h [] h
    well :
        {l : Lifecycle W} {ls : List (Lifecycle W)} {h h' h'' : Host W} {errs : List Error}
        {u : Unit {0}}
        → call_method l.shutdown h ≡ (ok u, h')
        → Stopped ls h' errs h''
        → Stopped (l ∷ ls) h errs h''
    badly :
        {l : Lifecycle W} {ls : List (Lifecycle W)} {h h' h'' : Host W} {errs : List Error}
        {e : Error}
        → call_method l.shutdown h ≡ (err e, h')
        → Stopped ls h' errs h''
        → Stopped (l ∷ ls) h (wrap (l.name +++ " shutdown") e ∷ errs) h''

  shutdown_all-Stopped :
      (ls : List (Lifecycle W)) (h : Host W)
      → Stopped ls h (shutdown_all ls h).0 (shutdown_all ls h).1
  unfolding shutdown_all
  shutdown_all-Stopped [] h = all_stopped
  shutdown_all-Stopped (l ∷ ls) h =
      let h' = (call_method l.shutdown h).1 in
      let rest = shutdown_all-Stopped ls h' in
      elim (Result-cases (call_method l.shutdown h).0) [
        | inl (u, fine) ↦ rw (fine, shutdown_all) (well (ap (λ r. (r, h')) fine) rest)
        | inr (e, bad) ↦ rw (bad, shutdown_all) (badly (ap (λ r. (r, h')) bad) rest)
      ]

  -- The shutdown of a composite extension shuts down every registered handler, whatever the others
  -- return, and returns nil exactly if none of them returns an error.
  pub composite_shutdown_all :
      (cc : CompositeConfig W) (h : Host W)
      → let (e, h') = composite_shutdown cc h in
        (errs : List Error) × Stopped (registered_handlers cc) h errs h'
        × ((e ≡ none) ↔ (errs ≡ []))
  unfolding composite_shutdown
  composite_shutdown_all cc h =
      let errs = (shutdown_all (lifecycles cc) h).0 in
      let h' = (shutdown_all (lifecycles cc) h).1 in
      (
        errs,
        subst (λ ls. Stopped ls h errs h') (lifecycles-registered_handlers cc)
            (shutdown_all-Stopped (lifecycles cc) h),
        combine-none errs,
      )
