-- ===== src/Harness/Exchange.antt =====
-- A call of the host and its handling by an extension, over two pipes.
use extension_sdk_go.Prelude.{
  suc, String, refl, sym, ap, Option, List, [], append-nil, arith, length, length-append, All, ℤ,
  pos, eq_ℤ_iff, Result, ok, append-cancel, ◌+◌, ◌≤◌, ◌≡◌, ◌∙◌, ◌∷◌, ◌++◌,
}
use extension_sdk_go.Json.{Json}
use extension_sdk_go.Json.Encoding.{Encoding}
use extension_sdk_go.Protocol.Types.{Request, request_kind, Response, Notification}
use extension_sdk_go.Jsonrpc.Transport.{read_request}
use extension_sdk_go.Jsonrpc.Transport.Framing.{read_request-print}
use extension_sdk_go.Jsonrpc.Transport.Inputs.{IsReadable}
use extension_sdk_go.Jsonrpc.Transport.Writing.{
  Outgoing, reply, notice, json_of, lines, write_sound,
}
use extension_sdk_go.Extension.Handler.{Host}
use extension_sdk_go.Extension.Composite.{CompositeConfig, composite_dispatch}
use extension_sdk_go.Extension.Answers.{notices, Answered}
use extension_sdk_go.Harness.{FakeKova, Fatal, expected_error, store, store_notification}
use extension_sdk_go.Harness.Calls.{
  Params, raw_params, result_of, checked, send_request, receive, call_with, call_internal, call,
}
use extension_sdk_go.Harness.Inboxes.{store_all}
use extension_sdk_go.Harness.Reading.{IsCarried, receive-lines}

-- The request of the next call.
abbrev pub next_request : String → Option Json → FakeKova → Request
next_request method raw fk = record {
  jsonrpc = "2.0";
  method = method;
  params = raw;
  id = pos (fk.next_id + 1);
}

store_all-notifications :
    (ns : List Notification) (fk fk' : FakeKova)
    → fk.notifications ≡ fk'.notifications
    → (store_all ns fk).notifications ≡ (store_all ns fk').notifications
unfolding store_all store_notification
store_all-notifications [] fk fk' e = e
store_all-notifications (n ∷ ns) fk fk' e =
    store_all-notifications ns (store_notification n fk) (store_notification n fk')
      (ap (λ x. store n x) e)

pub store_all-to_ext :
    (ns : List Notification) (fk : FakeKova) → (store_all ns fk).to_ext ≡ fk.to_ext
unfolding store_all store_notification
store_all-to_ext [] fk = refl
store_all-to_ext (n ∷ ns) fk = store_all-to_ext ns (store_notification n fk)

pub checked-same :
    {A : Type 0} (id : ℤ) (expect : Response → Result Fatal A) (r : Response)
    → r.id ≡ id
    → checked id expect r ≡ expect r
checked-same id expect r e = rw ((eq_ℤ_iff r.id id).1 e) refl

module _ ⦃enc : Encoding⦄ where
  length-lines :
      (ns : List Notification) (ms : List Outgoing) → length ns ≤ length (lines (notices ns ++ ms))
  unfolding lines
  length-lines [] ms = omega arith
  length-lines (n ∷ ns) ms = omega (
    arith,
    length-append (enc.print (json_of (notice n))) (b'\n' ∷ lines (notices ns ++ ms)),
    length-lines ns ms,
  )

  -- The host when it has sent the request.
  abbrev pub sent : String → Option Json → FakeKova → FakeKova
  sent method raw fk = record fk {
    next_id = fk.next_id + 1;
    to_ext = record fk.to_ext {
      written =
          fk.to_ext.written
          ++ (enc.print (request_kind.marshal (next_request method raw fk)) ++ (b'\n' ∷ []));
    };
  }

  send_request_sound :
      (method : String) (params : Params) (raw : Option Json) (fk : FakeKova)
      → raw_params params ≡ ok raw
      → fk.to_ext.script ≡ []
      → send_request (pos (fk.next_id + 1)) method params (record fk { next_id = fk.next_id + 1 })
        ≡ (ok tt, sent method raw fk)
  unfolding send_request
  send_request_sound method params raw fk p s =
      let line = enc.print (request_kind.marshal (next_request method raw fk)) ++ (b'\n' ∷ []) in
      rw (p, send_request)
        (rw (write_sound line fk.to_ext s) (
          ap (λ x. (ok tt, record fk { next_id = fk.next_id + 1; to_ext = x.1 }))
            (write_sound line fk.to_ext s)))

  call_with-sent :
      {A : Type 0} (expect : String → Response → Result Fatal A) (method : String) (params : Params)
      (fk fk' : FakeKova)
      → send_request (pos (fk.next_id + 1)) method params (record fk { next_id = fk.next_id + 1 })
        ≡ (ok tt, fk')
      → call_with expect method params fk
        ≡ receive
            (suc (length fk'.scanner.input))
            (pos (fk.next_id + 1))
            (expect method)
            (expected_error method)
            fk'
  unfolding call_with
  call_with-sent expect method params fk fk' e =
      let id = pos (fk.next_id + 1) in
      rw (e, call_with)
        (ap
          (λ x.
            receive (suc (length x.1.scanner.input)) id (expect method) (expected_error method) x.1)
          e)

  -- A call whose answer are notifications and a response stores the former and returns the latter.
  pub call_with-lines :
      {A : Type 0} (expect : String → Response → Result Fatal A) (method : String) (params : Params)
      (raw : Option Json) (fk : FakeKova) (ns : List Notification) (r : Response)
      → raw_params params ≡ ok raw
      → fk.to_ext.script ≡ []
      → fk.scanner.input ≡ lines (notices ns ++ (reply r ∷ []))
      → All (IsCarried fk.scanner.limit) (notices ns ++ (reply r ∷ []))
      → call_with expect method params fk ≡ (
        checked (pos (fk.next_id + 1)) (expect method) r,
        store_all ns (record (sent method raw fk) { scanner = record fk.scanner { input = [] } }),
      )
  call_with-lines expect method params raw fk ns r p s e c =
      let fk' = sent method raw fk in
      let enough = length-lines ns (reply r ∷ []) in
      call_with-sent expect method params fk fk' (send_request_sound method params raw fk p s)
      ∙ receive-lines (suc (length fk.scanner.input)) (pos (fk.next_id + 1)) (expect method)
          (expected_error method) ns r [] fk' (omega (arith, enough, ap length e))
          (e ∙ sym (append-nil _)) c

module _ ⦃enc : Encoding⦄ {W : Type 0} where
  -- The extension when it has read a request.
  abbrev pub has_read : Host W → Host W
  has_read h = record h { transport = (read_request h.transport).1 }

  -- A host calls a method of a composite extension over two pipes. If the params have a JSON value, the
  -- host's writer does not fail, and the request and the messages of the answer are lines that can be
  -- read, then the extension reads exactly the request of the call, and the call returns what the
  -- response says, and stores the notifications that came before it.
  pub call-composite_dispatch :
      (cc : CompositeConfig W) (method : String) (params : Params) (raw : Option Json)
      (fk : FakeKova) (h : Host W)
      (a : Answered
        (pos (fk.next_id + 1))
        (has_read h)
        (composite_dispatch cc (next_request method raw fk) (has_read h)))
      → raw_params params ≡ ok raw
      → fk.to_ext.script ≡ []
      → IsReadable h.transport.scanner.limit (next_request method raw fk)
      → (call method params fk).1.to_ext.written ≡ fk.to_ext.written ++ h.transport.scanner.input
      → (composite_dispatch cc (next_request method raw fk) (has_read h)).1.transport.writer.written
        ≡ h.transport.writer.written ++ fk.scanner.input
      → All (IsCarried fk.scanner.limit) (notices a.notes ++ (reply a.response ∷ []))
      → let (result, fk') = call method params fk in
        ((read_request h.transport).0 ≡ ok (next_request method raw fk))
        × (result ≡ result_of method a.response)
        × (fk'.notifications ≡ (store_all a.notes fk).notifications)
  unfolding call call_internal read_request
  call-composite_dispatch cc method params raw fk h a p s readable to_ext from_ext carried =
      let req = next_request method raw fk in
      let messages = notices a.notes ++ (reply a.response ∷ []) in
      let answer : fk.scanner.input ≡ lines messages =
        append-cancel h.transport.writer.written (sym from_ext ∙ a.sent.written) in
      let same =
        call_with-lines result_of method params raw fk a.notes a.response p s answer carried in
      let fk' = sent method raw fk in
      let fk'' = record fk' { scanner = record fk.scanner { input = [] } } in
      let question : h.transport.scanner.input
          ≡ enc.print (request_kind.marshal req) ++ (b'\n' ∷ []) =
        append-cancel fk.to_ext.written (
          sym to_ext
          ∙ ap (λ x. x.1.to_ext.written) same
          ∙ ap (λ w. w.written) (store_all-to_ext a.notes fk'')) in
      (
        ap (λ x. x.0)
            (read_request-print req [] h.transport readable.fits readable.parses readable.filled
              readable.plain readable.small question),
        ap (λ x. x.0) same
            ∙ checked-same (pos (fk.next_id + 1)) (result_of method) a.response a.same_id,
        ap (λ x. x.1.notifications) same ∙ store_all-notifications a.notes fk'' fk refl,
      )
