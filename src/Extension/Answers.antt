-- ===== src/Extension/Answers.antt =====
-- What each piece of a runner writes.
pub mod Cases
use extension_sdk_go.Prelude.{
  String, refl, sym, subst, inl, inr, Option, none, some, List, [], map, ℤ, Result, ok, err,
  Result-cases, ◌≡◌, ◌≢◌, ◌⊎◌, ◌∷◌, ◌++◌,
}
use mathlib.Core.List.{map-append}
use extension_sdk_go.Errors.{Error, wrap}
use extension_sdk_go.Json.{Json}
use extension_sdk_go.Json.Marshal.{encode}
use extension_sdk_go.Json.Encoding.{Encoding}
use extension_sdk_go.Json.Kind.{Kind}
use extension_sdk_go.Protocol.Types.{Request, Response, Notification}
use extension_sdk_go.Jsonrpc.Transport.{
  Transport, unmarshal_raw, send_response, send_error, send_notification,
}
use extension_sdk_go.Jsonrpc.Transport.Writing.{
  Outgoing, reply, notice, Sent, Sent-refl, Sent-trans, send_response-Sent, send_error-Sent,
  send_notification-Sent,
}
use extension_sdk_go.Extension.Emitter.{
  Emission, log_call, channel_message_call, stream_chunk_call, stream_end_call, stream_error_call,
  emit_by,
}
use extension_sdk_go.Extension.Handler
use extension_sdk_go.Extension.Handler.{
  Program, done, emit, run_program, Host, Action, Method, transmit, call_method, invalid_params,
  unknown_method, serve, serve_optional, serve_bare,
}

abbrev pub notices : List Notification → List Outgoing
notices ns = map notice ns

-- Of the result and the error exactly one is there, under the version "2.0".
pub record IsValid (r : Response) : Type 0 where
  pub version : r.jsonrpc ≡ "2.0"
  pub one_of : ((r.result ≢ none) × (r.error ≡ none)) ⊎ ((r.result ≡ none) × (r.error ≢ none))

module _ ⦃enc : Encoding⦄ where
  -- Only notifications are written from `t` to `t'`.
  pub record Notified (t t' : Transport) : Type 0 where
    pub notes : List Notification
    pub sent : Sent t (notices notes) t'

  pub Notified-refl : (t : Transport) → t.writer.script ≡ [] → Notified t t
  Notified-refl t h = record { notes = []; sent = Sent-refl t h }

  pub Notified-trans : {t u v : Transport} → Notified t u → Notified u v → Notified t v
  Notified-trans {t} {v} a b = record {
    notes = a.notes ++ b.notes;
    sent =
        subst (λ ms. Sent t ms v) (sym (map-append notice a.notes b.notes))
          (Sent-trans a.sent b.sent);
  }

  -- A notification whose params cannot be marshalled is not written.
  send_notification-Notified :
      (method : String) (params : Result Error Json) (t : Transport)
      → t.writer.script ≡ []
      → Notified t (send_notification method params t).1
  unfolding send_notification
  send_notification-Notified method (ok j) t h = record {
    notes = _ ∷ [];
    sent = (send_notification-Sent method j t h).1;
  }
  send_notification-Notified method (err e) t h = Notified-refl t h

  emit_by-Notified :
      (e : Emission) (t : Transport) → t.writer.script ≡ [] → Notified t (emit_by e t).1
  unfolding emit_by
  emit_by-Notified (log_call level m) t h = send_notification-Notified _ _ t h
  emit_by-Notified (channel_message_call p) t h = send_notification-Notified _ _ t h
  emit_by-Notified (stream_chunk_call p) t h = send_notification-Notified _ _ t h
  emit_by-Notified (stream_end_call p) t h = send_notification-Notified _ _ t h
  emit_by-Notified (stream_error_call p) t h = send_notification-Notified _ _ t h

  run_program-Notified :
      {A : Type 0} (p : Program A) (t : Transport)
      → t.writer.script ≡ []
      → Notified t (run_program p t).1
  unfolding run_program
  run_program-Notified (done a) t h = Notified-refl t h
  run_program-Notified (emit e k) t h =
      let first = emit_by-Notified e t h in
      Notified-trans first
        (run_program-Notified (k (emit_by e t).0) (emit_by e t).1 first.sent.sound)

  -- An action that goes from `h` to the state `x.1` returns no error, and writes notifications and
  -- then one valid response with the identifier.
  pub record Answered {W : Type 0} (id : ℤ) (h : Host W) (x : Option Error × Host W) : Type 0 where
    pub quiet : x.0 ≡ none
    pub notes : List Notification
    pub response : Response
    pub sent : Sent h.transport (notices notes ++ (reply response ∷ [])) x.1.transport
    pub same_id : response.id ≡ id
    pub valid : IsValid response

  -- An action that ends in json.Marshal's error for a value that it rejects: only notifications are
  -- written, and the error is returned.
  pub record Unsent {W : Type 0} (h : Host W) (x : Option Error × Host W) : Type 0 where
    pub value : Json
    pub e : Error
    pub rejected : encode value ≡ err e
    pub returned : x.0 ≡ some (wrap "marshal result" e)
    pub notified : Notified h.transport x.1.transport

  pub data Replied {W : Type 0} (id : ℤ) (h : Host W) (x : Option Error × Host W) : Type 0 where
    answered : Answered id h x → Replied id h x
    unsent : Unsent h x → Replied id h x

module _ ⦃enc : Encoding⦄ {W : Type 0} where
  pub call_method-Notified :
      {R : Type 0} (m : Method W R) (h : Host W)
      → h.transport.writer.script ≡ []
      → Notified h.transport (call_method m h).1.transport
  unfolding call_method
  call_method-Notified m h s = run_program-Notified (m h.world) h.transport s

  -- A response after notifications.
  pub Answered-after :
      {id : ℤ} {h : Host W} {x : Option Error × Host W} {t : Transport}
      → Notified h.transport t
      → x.0 ≡ none
      → (r : Response) → Sent t (reply r ∷ []) x.1.transport
      → r.id ≡ id
      → IsValid r
      → Answered id h x
  Answered-after a q r s e v = record {
    quiet = q;
    notes = a.notes;
    response = r;
    sent = Sent-trans a.sent s;
    same_id = e;
    valid = v;
  }

  -- The loop drops the error.
  pub Answered-dropped :
      {id : ℤ} {h : Host W} {x : Option Error × Host W}
      → Answered id h x
      → Answered id h (none, x.1)
  Answered-dropped a = record {
    quiet = refl;
    notes = a.notes;
    response = a.response;
    sent = a.sent;
    same_id = a.same_id;
    valid = a.valid;
  }

  pub transmit_response-Answered :
      {id : ℤ} {h : Host W} (j : Json) (h' : Host W)
      → Notified h.transport h'.transport
      → Answered id h (transmit (send_response id (ok j)) h')
  transmit_response-Answered {id} j h' a =
      let (q, s) = send_response-Sent id j h'.transport a.sent.sound in
      Answered-after a q _ s refl (record { version = refl; one_of = inl ((cc), refl) })

  pub transmit_error-Answered :
      {id : ℤ} {h : Host W} (code : ℤ) (m : String) (h' : Host W)
      → Notified h.transport h'.transport
      → Answered id h (transmit (send_error id code m) h')
  transmit_error-Answered {id} code m h' a =
      let (q, s) = send_error-Sent id code m h'.transport a.sent.sound in
      Answered-after a q _ s refl (record { version = refl; one_of = inr (refl, (cc)) })

  -- A response with a result that is marshalled on the way.
  pub transmit_encoded-Replied :
      {id : ℤ} {h : Host W} (j : Json) (h' : Host W)
      → Notified h.transport h'.transport
      → Replied id h (transmit (send_response id (encode j)) h')
  unfolding send_response
  transmit_encoded-Replied {id} {h} j h' a = elim (Result-cases (encode j)) [
    | inl (j', e) ↦
        subst (λ r. Replied id h (transmit (send_response id r) h')) (sym e)
          (answered (transmit_response-Answered j' h' a))
    | inr (x, e) ↦
        subst (λ r. Replied id h (transmit (send_response id r) h')) (sym e)
          (unsent (record { value = j; e = x; rejected = e; returned = refl; notified = a }))
  ]

  pub invalid_params-Answered :
      (req : Request) (e : Error) (h : Host W)
      → h.transport.writer.script ≡ []
      → Answered req.id h (invalid_params req e h)
  unfolding invalid_params
  invalid_params-Answered req e h s = transmit_error-Answered _ _ h (Notified-refl h.transport s)

  pub unknown_method-Answered :
      (req : Request) (h : Host W)
      → h.transport.writer.script ≡ []
      → Answered req.id h (unknown_method req h)
  unfolding unknown_method
  unknown_method-Answered req h s = transmit_error-Answered _ _ h (Notified-refl h.transport s)

  pub reply-Replied :
      {R : Type 0} {h : Host W} (req : Request) (code : ℤ) (to_json : R → Json) (r : Result Error R)
      (h' : Host W)
      → Notified h.transport h'.transport
      → Replied req.id h (Handler.reply req code to_json r h')
  unfolding Handler.reply
  reply-Replied req code to_json (ok r) h' a = transmit_encoded-Replied _ h' a
  reply-Replied req code to_json (err e) h' a = answered (transmit_error-Answered _ _ h' a)
