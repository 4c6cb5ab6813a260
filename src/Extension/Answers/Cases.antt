-- ===== src/Extension/Answers/Cases.antt =====
-- What the cases of a dispatch function write, and the rules by which one walks it.
use extension_sdk_go.Prelude.{
  sym, subst, inl, inr, Bool, true, false, Option, [], arith, Option-cases, ℤ, Result-cases, ◌≡◌,
  if◌then◌else◌,
}
use extension_sdk_go.Errors.{Error}
use extension_sdk_go.Json.{Json}
use extension_sdk_go.Json.Encoding.{Encoding}
use extension_sdk_go.Json.Kind.{Kind}
use extension_sdk_go.Protocol.Types.{Request}
use extension_sdk_go.Jsonrpc.Transport.{unmarshal_raw}
use extension_sdk_go.Extension.Handler.{
  Host, Action, Method, unknown_method, serve, serve_optional, serve_bare,
}
use extension_sdk_go.Extension.Answers.{
  Replied, answered, call_method-Notified, invalid_params-Answered, unknown_method-Answered,
  reply-Replied,
}

module _ ⦃enc : Encoding⦄ {W : Type 0} where
  -- The three forms of a case answer the request.
  pub serve_bare-Replied :
      {R : Type 0} (req : Request) (code : ℤ) (to_json : R → Json) (m : Method W R) (h : Host W)
      → h.transport.writer.script ≡ []
      → Replied req.id h (serve_bare req code to_json m h)
  unfolding serve_bare
  serve_bare-Replied req code to_json m h s =
      reply-Replied req code to_json _ _ (call_method-Notified m h s)

  pub serve-Replied :
      {P R : Type 0} (req : Request) (k : Kind P) (code : ℤ) (to_json : R → Json)
      (m : P → Method W R) (h : Host W)
      → h.transport.writer.script ≡ []
      → Replied req.id h (serve req k code to_json m h)
  unfolding serve
  serve-Replied req k code to_json m h s = elim (Result-cases (unmarshal_raw k req.params)) [
    | inl (p, e) ↦
        rw (e, serve) (reply-Replied req code to_json _ _ (call_method-Notified (m p) h s))
    | inr (x, e) ↦ rw (e, serve) (answered (invalid_params-Answered req x h s))
  ]

  pub serve_optional-Replied :
      {P R : Type 0} (req : Request) (k : Kind P) (code : ℤ) (to_json : R → Json)
      (m : P → Method W R) (h : Host W)
      → h.transport.writer.script ≡ []
      → Replied req.id h (serve_optional req k code to_json m h)
  unfolding serve_optional serve_bare
  serve_optional-Replied req k code to_json m h s = elim (Option-cases req.params) [
    | inl e ↦
        let same : serve_optional req k code to_json m h
            ≡ serve_bare req code to_json (m k.zero_value) h =
          ground arith in
        subst (λ x. Replied req.id h x) (sym same)
          (serve_bare-Replied req code to_json (m k.zero_value) h s)
    | inr (j, e) ↦
        let same : serve_optional req k code to_json m h ≡ serve req k code to_json m h =
          ground arith in
        subst (λ x. Replied req.id h x) (sym same) (serve-Replied req k code to_json m h s)
  ]

  -- From every state with a writer that does not fail, the action answers the request.
  pub record Answers (req : Request) (m : Action W (Option Error)) : Type 0 where
    pub at : (h : Host W) → h.transport.writer.script ≡ [] → Replied req.id h (m h)

  pub Answers-unknown : (req : Request) → Answers req (unknown_method req)
  Answers-unknown req = record { at = λ h s. answered (unknown_method-Answered req h s) }

  pub Answers-bare :
      {R : Type 0} (req : Request) (code : ℤ) (to_json : R → Json) (m : Method W R)
      → Answers req (serve_bare req code to_json m)
  Answers-bare req code to_json m = record { at = serve_bare-Replied req code to_json m }

  pub Answers-serve :
      {P R : Type 0} (req : Request) (k : Kind P) (code : ℤ) (to_json : R → Json)
      (m : P → Method W R)
      → Answers req (serve req k code to_json m)
  Answers-serve req k code to_json m = record { at = serve-Replied req k code to_json m }

  pub Answers-optional :
      {P R : Type 0} (req : Request) (k : Kind P) (code : ℤ) (to_json : R → Json)
      (m : P → Method W R)
      → Answers req (serve_optional req k code to_json m)
  Answers-optional req k code to_json m = record {
    at = serve_optional-Replied req k code to_json m;
  }

  pub Answers-if :
      (req : Request) (b : Bool) (m n : Action W (Option Error))
      → Answers req m
      → Answers req n
      → Answers req (if b then m else n)
  Answers-if req true m n x y = x
  Answers-if req false m n x y = y

-- The rules by which `search` walks a dispatch function.
pub ruleset answer_rules =
    (Answers-unknown, Answers-bare, Answers-serve, Answers-optional, Answers-if)
