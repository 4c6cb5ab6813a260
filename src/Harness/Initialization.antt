-- ===== src/Harness/Initialization.antt =====
-- `FakeKova.Initialize` and the initialization of a composite extension, over two pipes.
use extension_sdk_go.Prelude.{
  String, refl, sym, ap, true, Option, none, some, [], All, pos, ok, append-cancel, ◌+◌, ◌≡◌, ◌∙◌,
  ◌∷◌, ◌++◌,
}
use extension_sdk_go.Json.{Json, Members, end}
use extension_sdk_go.Json.Marshal.{encode}
use extension_sdk_go.Json.Kind.{Kind}
use extension_sdk_go.Json.Encoding.{Encoding}
use extension_sdk_go.Protocol.Constants.{method_initialize}
use extension_sdk_go.Protocol.Types.{Request, Response}
use extension_sdk_go.Protocol.Initialize.{
  InitializeParams, initialize_params_kind, initialize_result_kind, Registrations,
}
use extension_sdk_go.Protocol.RoundTrip.Initialize.{
  InitializeParams-IsLawful, InitializeResult-IsLawful,
}
use extension_sdk_go.Jsonrpc.Transport.{read_request, unmarshal_raw, unmarshal_value}
use extension_sdk_go.Jsonrpc.Transport.Framing.{read_request-print}
use extension_sdk_go.Jsonrpc.Transport.Inputs.{IsReadable}
use extension_sdk_go.Jsonrpc.Transport.Writing.{reply, Sent, Sent-trans, send_response-Sent}
use extension_sdk_go.Extension.Handler.{Host}
use extension_sdk_go.Extension.Dispatcher.{initialize_params, handle_initialize, registered}
use extension_sdk_go.Extension.Composite.{CompositeConfig, composite_initialize}
use extension_sdk_go.Extension.Run.{composite_dispatcher}
use extension_sdk_go.Extension.Answers.{notices, Notified}
use extension_sdk_go.Harness.{FakeKova}
use extension_sdk_go.Harness.Calls.{result_of, call_internal, call, initialize}
use extension_sdk_go.Harness.Inboxes.{store_all}
use extension_sdk_go.Harness.Reading.{IsCarried}
use extension_sdk_go.Harness.Exchange.{
  next_request, sent, has_read, checked-same, store_all-to_ext, call_with-lines,
}

-- What `Initialize` sends; a nil config is an empty map.
abbrev pub params_for : Option Members → (temp_dir : String) → InitializeParams
params_for config temp_dir = record {
  config = some (elim config [ some ms ↦ ms | none ↦ end ]);
  extension_root = temp_dir;
  agent_name = "";
  agent_version = "";
}

module _ ⦃enc : Encoding⦄ where
  abbrev pub initialize_request : Option Members → (temp_dir : String) → FakeKova → Request
  initialize_request config temp_dir fk =
      next_request method_initialize
        (some (initialize_params_kind.marshal (params_for config temp_dir))) fk

  -- The response that carries the registrations.
  abbrev pub registered_response : Registrations → FakeKova → Response
  registered_response regs fk = record {
    jsonrpc = "2.0";
    result = some (registered regs);
    error = none;
    id = pos (fk.next_id + 1);
  }

  unmarshal_raw-known :
      {T : Type 0} (k : Kind T) (j : Json) (v : T)
      → k.unmarshal j k.zero_value ≡ some v
      → unmarshal_raw k (some j) ≡ ok v
  unfolding unmarshal_raw unmarshal_value
  unmarshal_raw-known k j v u = rw (u, unmarshal_value) refl

  pub initialize-call :
      (config : Option Members) (temp_dir : String) (fk fk' : FakeKova) (regs : Registrations)
      → initialize_result_kind.fits (record { protocol_version = ""; registrations = regs }) ≡ true
      → encode (initialize_params_kind.marshal (params_for config temp_dir))
        ≡ ok (initialize_params_kind.marshal (params_for config temp_dir))
      → call method_initialize
          (some (ok (initialize_params_kind.marshal (params_for config temp_dir))))
          fk
        ≡ (ok (some (registered regs)), fk')
      → initialize config temp_dir fk ≡ (ok regs, fk')
  unfolding initialize
  initialize-call config temp_dir fk fk' regs fits marshals same =
      let back =
        unmarshal_raw-known initialize_result_kind (registered regs) _
          (InitializeResult-IsLawful.back _ fits) in
      let same' = ap (λ r. call method_initialize (some r) fk) marshals ∙ same in
      rw (same', initialize) (rw (back, initialize) (ap (λ x. (ok regs, x.1)) same'))

module _ ⦃enc : Encoding⦄ {W : Type 0} where
  pub handle_initialize-Sent :
      (cc : CompositeConfig W) (req : Request) (params : InitializeParams) (regs : Registrations)
      (h : Host W)
      → initialize_params req ≡ ok params
      → (composite_initialize cc params h).0 ≡ ok (some regs)
      → encode (registered regs) ≡ ok (registered regs)
      → (n : Notified h.transport (composite_initialize cc params h).1.transport)
      → Sent h.transport
          (notices n.notes
            ++ (reply (record {
              jsonrpc = "2.0";
              result = some (registered regs);
              error = none;
              id = req.id;
            })
                ∷ []))
          (handle_initialize (composite_dispatcher cc) req h).1.transport
  unfolding handle_initialize composite_dispatcher
  handle_initialize-Sent composite req params regs h good fine marshals n =
      let after = (composite_initialize composite params h).1.transport in
      rw (good, handle_initialize)
        (rw (fine, marshals, handle_initialize)
          (Sent-trans n.sent (send_response-Sent req.id (registered regs) after n.sent.sound).1))

  -- A host and a composite extension are connected by two pipes. If the host's writer does not fail, the
  -- params and the registrations are within Go's ranges, with float64s as the numbers of their maps,
  -- and json.Marshal takes them, the messages are lines that can be read, and
  -- the handlers initialize, then the extension reads exactly the request of `Initialize`, with the
  -- config and the directory of the host, and `Initialize` returns the registrations that the handlers
  -- have merged.
  pub initialize-composite_initialize :
      (cc : CompositeConfig W) (config : Option Members) (temp_dir : String) (fk : FakeKova)
      (h : Host W) (regs : Registrations)
      (n : Notified
        (has_read h).transport
        (composite_initialize cc (params_for config temp_dir) (has_read h)).1.transport)
      → (composite_initialize cc (params_for config temp_dir) (has_read h)).0 ≡ ok (some regs)
      → initialize_params_kind.fits (params_for config temp_dir) ≡ true
      → initialize_result_kind.fits (record { protocol_version = ""; registrations = regs }) ≡ true
      → encode (initialize_params_kind.marshal (params_for config temp_dir))
        ≡ ok (initialize_params_kind.marshal (params_for config temp_dir))
      → encode (registered regs) ≡ ok (registered regs)
      → fk.to_ext.script ≡ []
      → IsReadable h.transport.scanner.limit (initialize_request config temp_dir fk)
      → (initialize config temp_dir fk).1.to_ext.written
        ≡ fk.to_ext.written ++ h.transport.scanner.input
      → (handle_initialize
          (composite_dispatcher cc)
          (initialize_request config temp_dir fk)
          (has_read h)).1.transport.writer.written
        ≡ h.transport.writer.written ++ fk.scanner.input
      → All
          (IsCarried fk.scanner.limit)
          (notices n.notes ++ (reply (registered_response regs fk) ∷ []))
      → ((read_request h.transport).0 ≡ ok (initialize_request config temp_dir fk))
        × ((initialize config temp_dir fk).0 ≡ ok regs)
  unfolding call call_internal read_request initialize_params
  initialize-composite_initialize composite config temp_dir fk h regs n fine fits fits' sends
        replies s readable to_ext from_ext carried =
      let req = initialize_request config temp_dir fk in
      let params = params_for config temp_dir in
      let j = initialize_params_kind.marshal params in
      let r = registered_response regs fk in
      let good =
        unmarshal_raw-known initialize_params_kind j params
          (InitializeParams-IsLawful.back params fits) in
      let answer =
        handle_initialize-Sent composite req params regs (has_read h) good fine replies n in
      let fk' = store_all n.notes (record (sent method_initialize (some j) fk) {
        scanner = record fk.scanner { input = [] };
      }) in
      let same =
        call_with-lines result_of method_initialize (some (ok j)) (some j) fk n.notes r refl s
          (append-cancel h.transport.writer.written (sym from_ext ∙ answer.written)) carried in
      let result = initialize-call config temp_dir fk fk' regs fits' sends (
        same
        ∙ ap (λ x. (x, fk'))
            (checked-same (pos (fk.next_id + 1)) (result_of method_initialize) r refl)) in
      let question = append-cancel fk.to_ext.written (
        sym to_ext
        ∙ ap (λ x. x.1.to_ext.written) result
        ∙ ap (λ w. w.written) (store_all-to_ext n.notes _)) in
      (
        ap (λ x. x.0)
            (read_request-print req [] h.transport readable.fits readable.parses readable.filled
              readable.plain readable.small question),
        ap (λ x. x.0) result,
      )
