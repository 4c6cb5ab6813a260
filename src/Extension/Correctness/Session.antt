-- ===== src/Extension/Correctness/Session.antt =====
-- A whole session: the host sends requests and then a shutdown.
use extension_sdk_go.Prelude.{
  ℕ, refl, ap, subst, inl, inr, Bool, false, none, some, List, [], map, text_eq, Bool-cases, All,
  Result, ok, err, ◌+◌, ◌<◌, ◌≡◌, ◌∙◌, ◌∷◌, ◌++◌,
}
use extension_sdk_go.Errors.{Error, sentinel, eof}
use extension_sdk_go.Json.Encoding.{Encoding}
use extension_sdk_go.Protocol.Constants.{method_initialize, method_shutdown}
use extension_sdk_go.Protocol.Types.{Request}
use extension_sdk_go.Jsonrpc.Transport.Inputs.{inputs-print, IsReadable, request_lines}
use extension_sdk_go.Extension.Handler.{Host}
use extension_sdk_go.Extension.Dispatcher
use extension_sdk_go.Extension.Dispatcher.{Ending, finished, registered}
use extension_sdk_go.Extension.Composite.{CompositeConfig, composite_initialize}
use extension_sdk_go.Json.Marshal.{encode}
use extension_sdk_go.Protocol.Initialize.{InitializeParams, Registrations}
use extension_sdk_go.Extension.Run.{composite_dispatcher}
use extension_sdk_go.Extension.Correctness.Conversation.{Conversation}
use extension_sdk_go.Extension.Correctness.Loop.{due, outcome, run-Conversation}

abbrev pub uncancelled : ℕ → Bool
uncancelled i = false

-- A request that does not end the session.
abbrev pub GoesOn : Request → Type 0
GoesOn req = text_eq req.method method_shutdown ≡ false

abbrev session_of : List Request → Request → List Request → List (Result Error Request)
session_of reqs stop later = map (λ r. ok r) (reqs ++ (stop ∷ later)) ++ (err (sentinel eof) ∷ [])

due-session :
    (i : ℕ) (reqs : List Request) (stop : Request) (later : List Request)
    → All GoesOn reqs
    → stop.method ≡ method_shutdown
    → due uncancelled i (session_of reqs stop later) ≡ map (λ r. r.id) reqs ++ (stop.id ∷ [])
unfolding due
due-session i [] stop later g s = rw (s, due) refl
due-session i (req ∷ reqs) stop later g s =
    let rest = due-session (i + 1) reqs stop later g.1 s in
    elim (Bool-cases (text_eq req.method method_initialize)) [
      | inl m ↦ rw (m, due) (ap (λ ids. req.id ∷ ids) rest)
      | inr m ↦ rw (m, g.0, due) (ap (λ ids. req.id ∷ ids) rest)
    ]

outcome-session :
    (i : ℕ) (reqs : List Request) (stop : Request) (later : List Request)
    → All GoesOn reqs
    → stop.method ≡ method_shutdown
    → outcome uncancelled i (session_of reqs stop later) ≡ none
unfolding outcome
outcome-session i [] stop later g s = rw (s, outcome) refl
outcome-session i (req ∷ reqs) stop later g s =
    let rest = outcome-session (i + 1) reqs stop later g.1 s in
    elim (Bool-cases (text_eq req.method method_initialize)) [
      | inl m ↦ rw (m, outcome) rest
      | inr m ↦ rw (m, g.0, outcome) rest
    ]

module _ ⦃enc : Encoding⦄ {W : Type 0} where
  -- If the host sends the lines of some readable requests, then a shutdown, then anything readable, and
  -- neither the context ends nor the writer fails, and json.Marshal takes the registrations that the
  -- initialization gives, if any, a run of a composite extension returns nil. The
  -- responses among what it writes are valid, and answer the requests up to the shutdown, and the
  -- shutdown, once each and in their order; what the host sends later is not answered.
  pub run-session :
      (cc : CompositeConfig W) (h : Host W) (reqs : List Request) (stop : Request)
      (later : List Request)
      → ((params : InitializeParams) (g : Host W) (regs : Registrations)
          → (composite_initialize cc params g).0 ≡ ok (some regs)
          → encode (registered regs) ≡ ok (registered regs))
      → h.transport.writer.script ≡ []
      → 0 < h.transport.scanner.limit
      → h.transport.scanner.read_err ≡ none
      → h.transport.scanner.input ≡ request_lines (reqs ++ (stop ∷ later))
      → All (IsReadable h.transport.scanner.limit) (reqs ++ (stop ∷ later))
      → All GoesOn reqs
      → stop.method ≡ method_shutdown
      → let (ending, h') = Dispatcher.run uncancelled (composite_dispatcher cc) h in
        (ending ≡ finished none)
        × Conversation
            (map (λ r. r.id) reqs ++ (stop.id ∷ []))
            h.transport.writer
            h'.transport.writer
  run-session cc h reqs stop later marshals s room ends e readable g m =
      let whole = run-Conversation uncancelled cc h marshals s in
      let read = inputs-print (reqs ++ (stop ∷ later)) h.transport.scanner room ends e readable in
      let same_outcome =
        ap (λ rs. outcome uncancelled 0 rs) read ∙ outcome-session 0 reqs stop later g m in
      let same_due = ap (λ rs. due uncancelled 0 rs) read ∙ due-session 0 reqs stop later g m in
      (
        whole.0 ∙ ap (λ e'. finished e') same_outcome,
        subst
            (λ ids.
              Conversation ids h.transport.writer
                (Dispatcher.run uncancelled (composite_dispatcher cc) h).1.transport.writer)
            same_due whole.1,
      )
