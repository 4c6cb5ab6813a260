-- ===== src/Extension/Correctness/Loop.antt =====
-- The request loop of a composite extension, against the list of the requests that it reads.
use extension_sdk_go.Prelude.{
  ℕ, zero, suc, refl, subst, inl, inr, Bool, true, Option, none, some, List, [], arith, text_eq,
  Bool-cases, length, ℤ, pos, Result, ok, err, Result-cases, ◌+◌, ◌<◌, ◌≡◌, ◌∷◌, ◌+++◌,
  if◌then◌else◌,
}
use extension_sdk_go.Errors.{Error, is, message, eof}
use extension_sdk_go.Json.Encoding.{Encoding}
use extension_sdk_go.Protocol.Constants.{err_code_parse_error, method_initialize, method_shutdown}
use extension_sdk_go.Protocol.Types.{Request}
use extension_sdk_go.Jsonrpc.Transport.{read_request}
use extension_sdk_go.Jsonrpc.Transport.Reading.{read_request-length}
use extension_sdk_go.Jsonrpc.Transport.Inputs.{inputs_from, inputs, inputs_from-ok, inputs_from-err}
use extension_sdk_go.Extension.Handler.{Host}
use extension_sdk_go.Extension.Dispatcher
use extension_sdk_go.Extension.Dispatcher.{
  Dispatcher, Ending, finished, panicked, out_of_fuel, handle_initialize, handle_shutdown,
  handle_method, loop, registered,
}
use extension_sdk_go.Extension.Composite.{CompositeConfig, composite_initialize}
use extension_sdk_go.Json.Marshal.{encode}
use extension_sdk_go.Protocol.Initialize.{InitializeParams, Registrations}
use extension_sdk_go.Extension.Run.{composite_dispatcher}
use extension_sdk_go.Extension.Answers.{Answered, Notified-refl, transmit_error-Answered}
use extension_sdk_go.Extension.Correctness.Conversation.{
  Conversation, Conversation-nil, Conversation-append, Conversation-Answered,
}
use extension_sdk_go.Extension.Correctness.Lifecycle.{
  handle_initialize-Answered, handle_shutdown-Answered, handle_method-Answered,
}

-- The identifiers of the responses that are due for what is read, from the i-th request on: one for
-- each request up to a shutdown or the end of the context, and 0 for a line that is no request.
unfoldable pub due : (cancelled : ℕ → Bool) → (i : ℕ) → List (Result Error Request) → List ℤ
due cancelled i [] = []
due cancelled i (err e ∷ rs) = if is e eof then [] else pos 0 ∷ []
due cancelled i (ok req ∷ rs) =
    let rest = due cancelled (i + 1) rs in
    if cancelled i
    then []
    else if text_eq req.method method_initialize
    then req.id ∷ rest
    else if text_eq req.method method_shutdown
    then req.id ∷ []
    else req.id ∷ rest

-- The error that `Run` returns: that of the line that ends the run, unless it is io.EOF, a shutdown or
-- the context that does.
unfoldable pub outcome :
    (cancelled : ℕ → Bool) → (i : ℕ) → List (Result Error Request) → Option Error
outcome cancelled i [] = none
outcome cancelled i (err e ∷ rs) = if is e eof then none else some e
outcome cancelled i (ok req ∷ rs) =
    let rest = outcome cancelled (i + 1) rs in
    if cancelled i
    then none
    else if text_eq req.method method_initialize
    then rest
    else if text_eq req.method method_shutdown
    then none
    else rest

module _ ⦃enc : Encoding⦄ {W : Type 0} where
  -- The three kinds of request of the loop are answered from every state with a sound writer.
  record Responsive (d : Dispatcher W) : Type 0 where
    on_initialize :
        (req : Request) (h : Host W)
        → h.transport.writer.script ≡ []
        → ((handle_initialize d req h).0 ≡ true)
          × Answered req.id h (none, (handle_initialize d req h).1)
    on_shutdown :
        (req : Request) (h : Host W)
        → h.transport.writer.script ≡ []
        → Answered req.id h (none, (handle_shutdown d req h).1)
    on_method :
        (req : Request) (h : Host W)
        → h.transport.writer.script ≡ []
        → Answered req.id h (none, (handle_method d req h).1)

  composite_dispatcher-Responsive :
      (cc : CompositeConfig W)
      → ((params : InitializeParams) (g : Host W) (regs : Registrations)
          → (composite_initialize cc params g).0 ≡ ok (some regs)
          → encode (registered regs) ≡ ok (registered regs))
      → Responsive (composite_dispatcher cc)
  composite_dispatcher-Responsive cc marshals = record {
    on_initialize = λ req h s. handle_initialize-Answered cc req h s marshals;
    on_shutdown = handle_shutdown-Answered cc;
    on_method = handle_method-Answered cc;
  }

  module _ (cancelled : ℕ → Bool) (d : Dispatcher W) (good : Responsive d) where
    -- The run of the loop on what it reads.
    abbrev Serves : ℕ → List (Result Error Request) → Host W → Ending × Host W → Type 0
    Serves i rs h x =
        (x.0 ≡ finished (outcome cancelled i rs))
        × Conversation (due cancelled i rs) h.transport.writer x.1.transport.writer

    -- The state once a request has been read.
    abbrev read : Host W → Host W
    read h = record h { transport = (read_request h.transport).1 }

    stop-err :
        (fuel i : ℕ) (h : Host W) (e : Error)
        → (read_request h.transport).0 ≡ err e
        → h.transport.writer.script ≡ []
        → Serves i (err e ∷ []) h (loop (suc fuel) cancelled d i h)
    unfolding loop due outcome read_request
    stop-err fuel i h e r s = elim (Bool-cases (is e eof)) [
      | inl end ↦ rw (r, loop) (rw (end, loop) (refl, Conversation-nil _ _ refl s))
      | inr more ↦
          let a =
            transmit_error-Answered {h = read h} err_code_parse_error
              ("invalid request: " +++ message e) (read h) (Notified-refl (read h).transport s) in
          rw (r, loop) (rw (more, loop) (refl, Conversation-Answered a))
    ]

    -- The rest of the loop, from the state `x` that the answer to the request leaves.
    continue :
        (i : ℕ) (req : Request) (rs : List (Result Error Request)) (h : Host W) (x : Host W)
        (y : Ending × Host W)
        → Answered req.id (read h) (none, x)
        → Serves (i + 1) rs x y
        → (y.0 ≡ finished (outcome cancelled (i + 1) rs))
          × Conversation (req.id ∷ due cancelled (i + 1) rs) h.transport.writer y.1.transport.writer
    unfolding read_request
    continue i req rs h x y a (e, c) = (e, Conversation-append (Conversation-Answered a) c)

    -- The case of a request that is not the end, for what the recursive call does.
    go-on :
        (fuel i : ℕ) (h : Host W) (req : Request) (rs : List (Result Error Request))
        → (read_request h.transport).0 ≡ ok req
        → h.transport.writer.script ≡ []
        → ((x : Host W)
            → x.transport.scanner ≡ (read h).transport.scanner
            → x.transport.writer.script ≡ []
            → Serves (i + 1) rs x (loop fuel cancelled d (i + 1) x))
        → Serves i (ok req ∷ rs) h (loop (suc fuel) cancelled d i h)
    unfolding loop due outcome read_request
    go-on fuel i h req rs r s rest = elim (Bool-cases (cancelled i)) [
      | inl stop ↦ rw (r, loop) (rw (stop, loop) (refl, Conversation-nil _ _ refl s))
      | inr run ↦ elim (Bool-cases (text_eq req.method method_initialize)) [
        | inl init ↦
            let x = (handle_initialize d req (read h)).1 in
            let (fine, a) = good.on_initialize req (read h) s in
            rw (r, loop)
              (rw (run, loop)
                (rw (init, loop)
                  (rw (fine, loop)
                    (continue i req rs h x (loop fuel cancelled d (i + 1) x) a
                      (rest x a.sent.unread a.sent.sound)))))
        | inr other ↦ elim (Bool-cases (text_eq req.method method_shutdown)) [
          | inl shut ↦
              let a = good.on_shutdown req (read h) s in
              rw (r, loop)
                (rw (run, loop)
                  (rw (other, loop) (rw (shut, loop) (refl, Conversation-Answered a))))
          | inr method ↦
              let x = (handle_method d req (read h)).1 in
              let a = good.on_method req (read h) s in
              rw (r, loop)
                (rw (run, loop)
                  (rw (other, loop)
                    (rw (method, loop)
                      (continue i req rs h x (loop fuel cancelled d (i + 1) x) a
                        (rest x a.sent.unread a.sent.sound)))))
        ]
      ]
    ]

    loop-Serves :
        (fuel i : ℕ) (h : Host W)
        → length h.transport.scanner.input < fuel
        → h.transport.writer.script ≡ []
        → Serves i (inputs_from fuel h.transport.scanner) h (loop fuel cancelled d i h)
    loop-Serves zero i h lt s = elim lt [ ]
    loop-Serves (suc fuel) i h lt s = elim (Result-cases (read_request h.transport).0) [
      | inr (e, r) ↦ rw (inputs_from-err fuel h.transport e r) (stop-err fuel i h e r s)
      | inl (req, r) ↦
          let shorter = read_request-length h.transport req r in
          rw (inputs_from-ok fuel h.transport req r) (
            go-on fuel i h req (inputs_from fuel (read h).transport.scanner) r s (λ x same sound.
              subst (λ sc. Serves (i + 1) (inputs_from fuel sc) x (loop fuel cancelled d (i + 1) x))
                same (loop-Serves fuel (i + 1) x (rw same (omega arith)) sound)))
    ]

  -- However a run of a composite extension is fed, if its writer does not fail and json.Marshal takes
  -- the registrations that its initialization gives, if any, it returns: no
  -- nil pointer is dereferenced and the loop ends. The error it returns is the `outcome` of what
  -- `ReadRequest` gives. The responses among what it writes are valid and answer, in the order of
  -- the requests and once each, those that are `due`: every request that is read before a shutdown
  -- or the end of the context, the shutdown itself, and a line that is no request, with the
  -- identifier 0.
  pub run-Conversation :
      (cancelled : ℕ → Bool) (cc : CompositeConfig W) (h : Host W)
      → ((params : InitializeParams) (g : Host W) (regs : Registrations)
          → (composite_initialize cc params g).0 ≡ ok (some regs)
          → encode (registered regs) ≡ ok (registered regs))
      → h.transport.writer.script ≡ []
      → let (ending, h') = Dispatcher.run cancelled (composite_dispatcher cc) h in
        let rs = inputs h.transport.scanner in
        (ending ≡ finished (outcome cancelled 0 rs))
        × Conversation (due cancelled 0 rs) h.transport.writer h'.transport.writer
  unfolding Dispatcher.run inputs
  run-Conversation cancelled cc h marshals s =
      loop-Serves cancelled (composite_dispatcher cc) (composite_dispatcher-Responsive cc marshals)
        (suc (length h.transport.scanner.input)) 0 h (omega arith) s
