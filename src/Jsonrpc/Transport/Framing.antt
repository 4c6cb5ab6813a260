-- ===== src/Jsonrpc/Transport/Framing.antt =====
-- Lines: a request as one side prints it and as `ReadRequest` reads it.
use extension_sdk_go.Prelude.{
  ℕ, suc, refl, ap, true, none, some, List, [], arith, length, All, ok, err, ◌≤◌, ◌<◌, ◌≡◌, ◌≢◌,
  ◌∷◌, ◌++◌,
}
use extension_sdk_go.Errors.{eof, sentinel, wrap, too_long}
use extension_sdk_go.Json.Encoding.{Encoding, plain_byte}
use extension_sdk_go.Json.{Json}
use extension_sdk_go.Json.Kind.{Kind}
use extension_sdk_go.Protocol.Types.{Request, request_kind}
use extension_sdk_go.Protocol.RoundTrip.Types.{Request-IsLawful}
use extension_sdk_go.Jsonrpc.Scanner.{Scanner, cut_line, drop_cr, scan}
use extension_sdk_go.Jsonrpc.Transport.{
  Transport, unmarshal, unmarshal_value, request_of, no_token, read_from, read_request,
}

cut_line-plain :
    (line rest : List ℕ)
    → All (λ c. plain_byte c ≡ true) line
    → cut_line (line ++ (b'\n' ∷ rest)) ≡ (line, some rest)
unfolding cut_line
cut_line-plain [] rest h = refl
cut_line-plain (c ∷ line) rest h = let i = cut_line-plain line rest h.1 in ground (arith, h.0)

drop_cr-plain : (line : List ℕ) → All (λ c. plain_byte c ≡ true) line → drop_cr line ≡ line
unfolding drop_cr
drop_cr-plain [] h = refl
drop_cr-plain (c ∷ []) h = ground (arith, h.0)
drop_cr-plain (c ∷ d ∷ line) h = ap (λ l. c ∷ l) (drop_cr-plain (d ∷ line) h.1)

-- A line that fits the buffer is the next token.
pub scan-line :
    (line rest : List ℕ) (s : Scanner)
    → All (λ c. plain_byte c ≡ true) line
    → s.input ≡ line ++ (b'\n' ∷ rest)
    → length line < s.limit
    → scan s ≡ (some line, record s { input = rest })
unfolding scan
scan-line line rest s plain e small =
    rw (e, scan)
      (rw (cut_line-plain line rest plain, scan) (rw (drop_cr-plain line plain) (ground arith)))

-- A line that does not fit the buffer ends the scan with bufio.ErrTooLong, and none of it is a token.
pub scan-too_long :
    (line rest : List ℕ) (s : Scanner)
    → All (λ c. plain_byte c ≡ true) line
    → s.input ≡ line ++ (b'\n' ∷ rest)
    → s.limit ≤ length line
    → scan s ≡ (none, record s { failed = some (sentinel too_long) })
unfolding scan
scan-too_long line rest s plain e large =
    rw (e, scan) (rw (cut_line-plain line rest plain, scan) (ground arith))

scan-end :
    (s : Scanner)
    → s.input ≡ []
    → 0 < s.limit
    → s.read_err ≡ none
    → scan s ≡ (none, record s { failed = none })
unfolding scan cut_line
scan-end s e some_room n = rw (e, scan) (ground arith)

module _ ⦃enc : Encoding⦄ where
  pub unmarshal-known :
      {T : Type 0} (k : Kind T) (bytes : List ℕ) (j : Json) (v : T)
      → enc.parse bytes ≡ some j
      → k.unmarshal j k.zero_value ≡ some v
      → unmarshal k bytes ≡ ok v
  unfolding unmarshal unmarshal_value
  unmarshal-known k bytes j v p u = rw (p, unmarshal) (rw (u, unmarshal_value) refl)

  unmarshal-print :
      (req : Request)
      → request_kind.fits req ≡ true
      → enc.parse (enc.print (request_kind.marshal req)) ≡ some (request_kind.marshal req)
      → unmarshal request_kind (enc.print (request_kind.marshal req)) ≡ ok req
  unmarshal-print req f p = unmarshal-known request_kind _ _ req p (Request-IsLawful.back req f)

  read_from-line :
      (fuel : ℕ) (c : ℕ) (line : List ℕ) (s s' : Scanner) (req : Request)
      → scan s ≡ (some (c ∷ line), s')
      → unmarshal request_kind (c ∷ line) ≡ ok req
      → read_from (suc fuel) s ≡ (ok req, s')
  unfolding read_from
  read_from-line fuel c line s s' req e u =
      rw (e, read_from) (rw (u, request_of) (ap (λ x. (ok req, x.1)) e))

  read_from-print :
      (fuel : ℕ) (line : List ℕ) (s s' : Scanner) (req : Request)
      → line ≢ []
      → scan s ≡ (some line, s')
      → unmarshal request_kind line ≡ ok req
      → read_from (suc fuel) s ≡ (ok req, s')
  read_from-print fuel [] s s' req ne e u = absurd (ne refl)
  read_from-print fuel (c ∷ line) s s' req ne e u = read_from-line fuel c line s s' req e u

  -- A request that fits Go's types comes back from its own text, if that text is a line that is not
  -- empty, parses to the value it was printed from and is shorter than the buffer: `ReadRequest`
  -- returns it and leaves exactly what follows the line.
  pub read_request-print :
      (req : Request) (rest : List ℕ) (t : Transport)
      → request_kind.fits req ≡ true
      → enc.parse (enc.print (request_kind.marshal req)) ≡ some (request_kind.marshal req)
      → enc.print (request_kind.marshal req) ≢ []
      → All (λ c. plain_byte c ≡ true) (enc.print (request_kind.marshal req))
      → length (enc.print (request_kind.marshal req)) < t.scanner.limit
      → t.scanner.input ≡ enc.print (request_kind.marshal req) ++ (b'\n' ∷ rest)
      → read_request t ≡ (ok req, record t { scanner = record t.scanner { input = rest } })
  unfolding read_request
  read_request-print req rest t fits parses filled plain small e =
      let line = enc.print (request_kind.marshal req) in
      rw
        (read_from-print (length t.scanner.input) line t.scanner _ req filled
          (scan-line line rest t.scanner plain e small) (unmarshal-print req fits parses))
        refl

  -- A line that does not fit the buffer makes `ReadRequest` return bufio.ErrTooLong, wrapped.
  pub read_request-too_long :
      (line rest : List ℕ) (t : Transport)
      → All (λ c. plain_byte c ≡ true) line
      → t.scanner.input ≡ line ++ (b'\n' ∷ rest)
      → t.scanner.limit ≤ length line
      → (read_request t).0 ≡ err (wrap "read" (sentinel too_long))
  unfolding read_request read_from
  read_request-too_long line rest t plain e large =
      let failed = scan-too_long line rest t.scanner plain e large in
      rw (failed, read_from) (ap (λ x. (no_token x.1).0) failed)

  -- At the end of the input there is io.EOF.
  pub read_request-end :
      (t : Transport)
      → t.scanner.input ≡ []
      → 0 < t.scanner.limit
      → t.scanner.read_err ≡ none
      → (read_request t).0 ≡ err (sentinel eof)
  unfolding read_request read_from
  read_request-end t e some_room n =
      let ended = scan-end t.scanner e some_room n in
      rw (ended, read_from) (ap (λ x. (no_token x.1).0) ended)
