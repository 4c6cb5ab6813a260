-- ===== src/Extension/Correctness/Conversation.antt =====
-- The messages that a runner writes, seen as responses to a list of requests.
use extension_sdk_go.Prelude.{
  refl, sym, ap, subst, Option, List, [], map, append-nil, append_assoc, ℤ, ◌≡◌, ◌∙◌, ◌∷◌, ◌++◌,
}
use extension_sdk_go.Json.Encoding.{Encoding}
use extension_sdk_go.Errors.{Error}
use mathlib.Core.List.{map-append}
use extension_sdk_go.Protocol.Types.{Response, Notification}
use extension_sdk_go.Jsonrpc.Writer.{Writer}
use extension_sdk_go.Jsonrpc.Transport.Writing.{Outgoing, reply, notice, lines, lines-append}
use extension_sdk_go.Extension.Handler.{Host}
use extension_sdk_go.Extension.Answers.{IsValid, notices, Answered}

-- The responses among the messages, in order.
pub replies : List Outgoing → List Response
replies [] = []
replies (reply r ∷ ms) = r ∷ replies ms
replies (notice _ ∷ ms) = replies ms

replies-append : (ms ns : List Outgoing) → replies (ms ++ ns) ≡ replies ms ++ replies ns
unfolding replies
replies-append [] ns = refl
replies-append (reply r ∷ ms) ns = ap (λ rs. r ∷ rs) (replies-append ms ns)
replies-append (notice _ ∷ ms) ns = replies-append ms ns

replies-notices :
    (ns : List Notification) (ms : List Outgoing) → replies (notices ns ++ ms) ≡ replies ms
unfolding replies
replies-notices [] ms = refl
replies-notices (n ∷ ns) ms = replies-notices ns ms

abbrev pub response_ids : List Response → List ℤ
response_ids rs = map (λ r. r.id) rs

abbrev AllValid : List Response → Type 0
AllValid [] = Unit
AllValid (r ∷ rs) = IsValid r × AllValid rs

AllValid-append : (rs ss : List Response) → AllValid rs → AllValid ss → AllValid (rs ++ ss)
AllValid-append [] ss a b = b
AllValid-append (r ∷ rs) ss a b = (a.0, AllValid-append rs ss a.1 b)

module _ ⦃enc : Encoding⦄ where
  -- From `w` to `w'` whole messages are written. The responses among them are valid and carry the
  -- identifiers, one each and in their order.
  pub record Conversation (ids : List ℤ) (w w' : Writer) : Type 0 where
    pub messages : List Outgoing
    pub sound : w'.script ≡ []
    pub written : w'.written ≡ w.written ++ lines messages
    pub same_ids : response_ids (replies messages) ≡ ids
    pub valid : AllValid (replies messages)

  pub Conversation-nil : (w w' : Writer) → w' ≡ w → w.script ≡ [] → Conversation [] w w'
  unfolding lines replies
  Conversation-nil w w' same s = record {
    messages = [];
    sound = ap (λ x. x.script) same ∙ s;
    written = ap (λ x. x.written) same ∙ sym (append-nil w.written);
    same_ids = refl;
    valid = tt;
  }

  pub Conversation-append :
      {w u v : Writer} {ids jds : List ℤ}
      → Conversation ids w u
      → Conversation jds u v
      → Conversation (ids ++ jds) w v
  Conversation-append {w} {ids} {jds} a b = record {
    messages = a.messages ++ b.messages;
    sound = b.sound;
    written =
        b.written
        ∙ ap (λ x. x ++ lines b.messages) a.written
        ∙ append_assoc w.written (lines a.messages) (lines b.messages)
        ∙ ap (λ x. w.written ++ x) (sym (lines-append a.messages b.messages));
    same_ids =
        ap response_ids (replies-append a.messages b.messages)
        ∙ map-append (λ r. r.id) (replies a.messages) (replies b.messages)
        ∙ ap (λ x. x ++ response_ids (replies b.messages)) a.same_ids
        ∙ ap (λ y. ids ++ y) b.same_ids;
    valid =
        subst AllValid (sym (replies-append a.messages b.messages))
          (AllValid-append (replies a.messages) (replies b.messages) a.valid b.valid);
  }

  pub Conversation-Answered :
      {W : Type 0} {id : ℤ} {h : Host W} {x : Option Error × Host W}
      → Answered id h x
      → Conversation (id ∷ []) h.transport.writer x.1.transport.writer
  unfolding replies
  Conversation-Answered a =
      let only = replies-notices a.notes (reply a.response ∷ []) in
      record {
        messages = notices a.notes ++ (reply a.response ∷ []);
        sound = a.sent.sound;
        written = a.sent.written;
        same_ids = ap response_ids only ∙ ap (λ i. i ∷ []) a.same_id;
        valid = subst AllValid (sym only) (a.valid, tt);
      }
