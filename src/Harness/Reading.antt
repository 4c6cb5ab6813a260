-- ===== src/Harness/Reading.antt =====
-- The messages of an extension, as the host reads them.
use extension_sdk_go.Prelude.{
  ℕ, zero, suc, refl, ap, inl, inr, Bool, true, false, not, some, List, [], append_assoc, arith,
  text_eq, Bool-cases, length, All, ℤ, Result, ok, ◌<◌, ◌≡◌, ◌∙◌, ◌≢◌, ◌&&◌, ◌∷◌, ◌++◌,
}
use extension_sdk_go.Json.Struct.{Field, struct_kind, write_fields, is_omitted}
use extension_sdk_go.Json.Encoding.{Encoding, plain_byte}
use extension_sdk_go.Protocol.Types.{
  Response, response_kind, response_fields, Notification, notification_kind, notification_fields,
}
use extension_sdk_go.Protocol.RoundTrip.Types.{Response-IsLawful, Notification-IsLawful}
use extension_sdk_go.Jsonrpc.Scanner.{Scanner, scan}
use extension_sdk_go.Jsonrpc.Transport.{unmarshal}
use extension_sdk_go.Jsonrpc.Transport.Framing.{scan-line, unmarshal-known}
use extension_sdk_go.Jsonrpc.Transport.Writing.{Outgoing, reply, notice, json_of, lines}
use extension_sdk_go.Extension.Answers.{notices}
use extension_sdk_go.Harness.{
  FakeKova, Fatal, Incoming, response, notification, classify, has_method, as_response,
  as_notification, read_message_from, read_message, store_notification,
}
use extension_sdk_go.Harness.Calls.{receive, checked}
use extension_sdk_go.Harness.Inboxes.{store_all}

abbrev incoming : Outgoing → Incoming
incoming (reply r) = response r
incoming (notice n) = notification n

abbrev pub fits_message : Outgoing → Bool
fits_message (reply r) = response_kind.fits r
fits_message (notice n) = notification_kind.fits n

abbrev no_method : {S : Type 0} → List (Field S) → Bool
no_method [] = true
no_method (f ∷ fs) = not (text_eq f.name "method") && no_method fs

write_fields-has_method :
    {S : Type 0} (fs : List (Field S)) (s : S)
    → no_method fs ≡ true
    → has_method (write_fields fs s) ≡ false
unfolding write_fields
write_fields-has_method [] s h = refl
write_fields-has_method (f ∷ fs) s h = elim (Bool-cases (is_omitted f s)) [
  | inl o ↦ rw o (write_fields-has_method fs s (ground arith))
  | inr o ↦ rw o (ground (arith, write_fields-has_method fs s))
]

response_fields-has_method : (r : Response) → has_method (write_fields response_fields r) ≡ false
unfolding response_fields
response_fields-has_method r = write_fields-has_method response_fields r refl

notification_fields-has_method :
    (n : Notification) → has_method (write_fields notification_fields n) ≡ true
unfolding notification_fields write_fields
notification_fields-has_method n = refl

module _ ⦃enc : Encoding⦄ where
  -- A message whose text is a line that the host can read: it fits Go's types, the text parses to what
  -- was printed, is not empty, has no line break and fits the buffer.
  pub record IsCarried (limit : ℕ) (m : Outgoing) : Type 0 where
    pub fits : fits_message m ≡ true
    pub parses : enc.parse (enc.print (json_of m)) ≡ some (json_of m)
    pub filled : enc.print (json_of m) ≢ []
    pub plain : All (λ c. plain_byte c ≡ true) (enc.print (json_of m))
    pub small : length (enc.print (json_of m)) < limit

  as_response-known :
      (line : List ℕ) (r : Response)
      → unmarshal response_kind line ≡ ok r
      → as_response line ≡ ok (response r)
  as_response-known line r u = rw (u, as_response) refl

  as_notification-known :
      (line : List ℕ) (n : Notification)
      → unmarshal notification_kind line ≡ ok n
      → as_notification line ≡ ok (notification n)
  as_notification-known line n u = rw (u, as_notification) refl

  classify-message :
      (m : Outgoing) (line : List ℕ)
      → fits_message m ≡ true
      → enc.parse line ≡ some (json_of m)
      → classify line (enc.parse line) ≡ ok (incoming m)
  unfolding response_kind notification_kind struct_kind notification_fields
  classify-message (reply r) line f p =
      let u = unmarshal-known response_kind line _ r p (Response-IsLawful.back r f) in
      rw p (rw (response_fields-has_method r) (as_response-known line r u))
  classify-message (notice n) line f p =
      let u = unmarshal-known notification_kind line _ n p (Notification-IsLawful.back n f) in
      rw p (as_notification-known line n u)

  read_message_from-line :
      (fuel : ℕ) (line : List ℕ) (m : Result Fatal Incoming) (s s' : Scanner)
      → line ≢ []
      → scan s ≡ (some line, s')
      → classify line (enc.parse line) ≡ m
      → read_message_from (suc fuel) s ≡ (m, s')
  unfolding read_message_from
  read_message_from-line fuel [] m s s' ne e u = absurd (ne refl)
  read_message_from-line fuel (c ∷ line) m s s' ne e u =
      rw (e, read_message_from) (rw u (ap (λ x. (m, x.1)) e))

  -- A carried message at the start of the input is returned, and what follows its line is left.
  pub read_message-line :
      (m : Outgoing) (rest : List ℕ) (fk : FakeKova)
      → IsCarried fk.scanner.limit m
      → fk.scanner.input ≡ enc.print (json_of m) ++ (b'\n' ∷ rest)
      → read_message fk
        ≡ (ok (incoming m), record fk { scanner = record fk.scanner { input = rest } })
  unfolding read_message
  read_message-line m rest fk c e =
      let line = enc.print (json_of m) in
      rw
        (read_message_from-line (length fk.scanner.input) line (ok (incoming m)) fk.scanner _
          c.filled (scan-line line rest fk.scanner c.plain e c.small)
          (classify-message m line c.fits c.parses))
        refl

  receive-response :
      {A : Type 0} (fuel : ℕ) (id : ℤ) (expect : Response → Result Fatal A) (stopped : Fatal)
      (r : Response) (fk fk' : FakeKova)
      → read_message fk ≡ (ok (response r), fk')
      → receive (suc fuel) id expect stopped fk ≡ (checked id expect r, fk')
  unfolding receive
  receive-response fuel id expect stopped r fk fk' e =
      rw (e, receive) (ap (λ x. (checked id expect r, x.1)) e)

  receive-notification :
      {A : Type 0} (fuel : ℕ) (id : ℤ) (expect : Response → Result Fatal A) (stopped : Fatal)
      (n : Notification) (fk fk' : FakeKova)
      → read_message fk ≡ (ok (notification n), fk')
      → receive (suc fuel) id expect stopped fk
        ≡ receive fuel id expect stopped (store_notification n fk')
  unfolding receive
  receive-notification fuel id expect stopped n fk fk' e =
      rw (e, receive) (ap (λ x. receive fuel id expect stopped (store_notification n x.1)) e)

  -- The host stores the notifications `ns`, takes the response and leaves what follows it.
  pub receive-lines :
      {A : Type 0} (fuel : ℕ) (id : ℤ) (expect : Response → Result Fatal A) (stopped : Fatal)
      (ns : List Notification) (r : Response) (rest : List ℕ) (fk : FakeKova)
      → length ns < fuel
      → fk.scanner.input ≡ lines (notices ns ++ (reply r ∷ [])) ++ rest
      → All (IsCarried fk.scanner.limit) (notices ns ++ (reply r ∷ []))
      → receive fuel id expect stopped fk ≡ (
        checked id expect r,
        store_all ns (record fk { scanner = record fk.scanner { input = rest } }),
      )
  unfolding store_all store_notification lines
  receive-lines zero id expect stopped ns r rest fk h e c = elim h [ ]
  receive-lines (suc fuel) id expect stopped [] r rest fk h e c =
      let here = e ∙ append_assoc (enc.print (json_of (reply r))) (b'\n' ∷ []) rest in
      receive-response fuel id expect stopped r fk _ (read_message-line (reply r) rest fk c.0 here)
  receive-lines (suc fuel) id expect stopped (n ∷ ns) r rest fk h e c =
      let after = lines (notices ns ++ (reply r ∷ [])) in
      let here = e ∙ append_assoc (enc.print (json_of (notice n))) (b'\n' ∷ after) rest in
      let fk' = record fk { scanner = record fk.scanner { input = after ++ rest } } in
      receive-notification fuel id expect stopped n fk fk'
        (read_message-line (notice n) (after ++ rest) fk c.0 here)
      ∙ (receive-lines fuel id expect stopped ns r rest (store_notification n fk') (omega arith)
          refl c.1)
