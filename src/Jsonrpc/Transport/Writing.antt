-- ===== src/Jsonrpc/Transport/Writing.antt =====
-- What the transport writes, as messages, and what a failing writer leaves behind.
use extension_sdk_go.Prelude.{
  ℕ, String, refl, sym, ap, none, some, List, [], append-nil, append_assoc, arith, ℤ, ok, ◌≡◌, ◌∙◌,
  ◌∷◌, ◌++◌,
}
use extension_sdk_go.Errors.{Error, wrap}
use extension_sdk_go.Json.{Json}
use extension_sdk_go.Json.Encoding.{Encoding}
use extension_sdk_go.Protocol.Types.{Response, response_kind, Notification, notification_kind}
use extension_sdk_go.Jsonrpc.Writer.{Outcome, short, Writer, take, write}
use extension_sdk_go.Jsonrpc.Transport.{
  Transport, write_line, send_response, send_error, send_notification,
}

-- The messages of an extension.
pub data Outgoing : Type 0 where
  reply : Response → Outgoing
  notice : Notification → Outgoing

abbrev pub json_of : Outgoing → Json
json_of (reply r) = response_kind.marshal r
json_of (notice n) = notification_kind.marshal n

module _ ⦃enc : Encoding⦄ where
  -- The bytes of messages: each is a line.
  unfoldable pub lines : List Outgoing → List ℕ
  lines [] = []
  lines (m ∷ ms) = enc.print (json_of m) ++ (b'\n' ∷ lines ms)

  pub lines-append : (ms ns : List Outgoing) → lines (ms ++ ns) ≡ lines ms ++ lines ns
  unfolding lines
  lines-append [] ns = refl
  lines-append (m ∷ ms) ns = simp (lines-append ms ns, append_assoc)

  -- From `t` to `t'` exactly the messages `ms` were written, nothing was read, and the writer has
  -- not failed and will not.
  pub record Sent (t : Transport) (ms : List Outgoing) (t' : Transport) : Type 0 where
    pub unread : t'.scanner ≡ t.scanner
    pub sound : t'.writer.script ≡ []
    pub written : t'.writer.written ≡ t.writer.written ++ lines ms

  pub Sent-refl : (t : Transport) → t.writer.script ≡ [] → Sent t [] t
  unfolding lines
  Sent-refl t h = record { unread = refl; sound = h; written = sym (append-nil t.writer.written) }

  pub Sent-trans :
      {t u v : Transport} {ms ns : List Outgoing} → Sent t ms u → Sent u ns v → Sent t (ms ++ ns) v
  Sent-trans {t} {ms} {ns} a b = record {
    unread = b.unread ∙ a.unread;
    sound = b.sound;
    written =
        b.written
        ∙ ap (λ w. w ++ lines ns) a.written
        ∙ append_assoc t.writer.written (lines ms) (lines ns)
        ∙ ap (λ w. t.writer.written ++ w) (sym (lines-append ms ns));
  }

  pub write_sound :
      (bs : List ℕ) (w : Writer)
      → w.script ≡ []
      → write bs w ≡ (none, record w { written = w.written ++ bs })
  unfolding write
  write_sound bs w h = rw h refl

  pub write_line_sound :
      (j : Json) (t : Transport)
      → t.writer.script ≡ []
      → write_line j t ≡ (
        none,
        record t {
          writer = record t.writer { written = (t.writer.written ++ enc.print j) ++ (b'\n' ∷ []) };
        },
      )
  unfolding write_line write
  write_line_sound j t h = ground arith

  -- With a writer that does not fail a message is written as one whole line.
  pub write_line-Sent :
      (m : Outgoing) (t : Transport)
      → t.writer.script ≡ []
      → ((write_line (json_of m) t).0 ≡ none) × Sent t (m ∷ []) (write_line (json_of m) t).1
  unfolding lines
  write_line-Sent m t h = rw (write_line_sound (json_of m) t h) (
    refl,
    record {
      unread = refl;
      sound = h;
      written = append_assoc t.writer.written (enc.print (json_of m)) (b'\n' ∷ []);
    },
  )

  pub send_response-Sent :
      (id : ℤ) (j : Json) (t : Transport)
      → t.writer.script ≡ []
      → let (e, t') = send_response id (ok j) t in
        (e ≡ none)
        × Sent t
            (reply (record { jsonrpc = "2.0"; result = some j; error = none; id = id }) ∷ [])
            t'
  unfolding send_response
  send_response-Sent id j t h = write_line-Sent (reply _) t h

  pub send_error-Sent :
      (id code : ℤ) (m : String) (t : Transport)
      → t.writer.script ≡ []
      → let (e, t') = send_error id code m t in
        (e ≡ none)
        × Sent t
            (reply (record {
              jsonrpc = "2.0";
              result = none;
              error = some (record { code = code; message = m });
              id = id;
            })
              ∷ [])
            t'
  unfolding send_error
  send_error-Sent id code m t h = write_line-Sent (reply _) t h

  pub send_notification-Sent :
      (method : String) (j : Json) (t : Transport)
      → t.writer.script ≡ []
      → let (e, t') = send_notification method (ok j) t in
        (e ≡ none)
        × Sent t (notice (record { jsonrpc = "2.0"; method = method; params = some j }) ∷ []) t'
  unfolding send_notification
  send_notification-Sent method j t h = write_line-Sent (notice _) t h

  -- If the write of the data fails after `n` bytes, `writeLine` returns that error, has written those
  -- bytes alone, and makes no further call of the writer: no newline follows a broken line.
  pub write_line_failed :
      (j : Json) (t : Transport) (n : ℕ) (e : Error) {later : List Outcome}
      → t.writer.script ≡ short n e ∷ later
      → let (r, t') = write_line j t in
        (r ≡ some (wrap "write" e))
        × (t'.writer.written ≡ t.writer.written ++ take n (enc.print j))
        × (t'.writer.script ≡ later)
  unfolding write_line write
  write_line_failed j t n e h = rw h (refl, refl, refl)
