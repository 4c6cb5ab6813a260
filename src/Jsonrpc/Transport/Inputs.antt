-- ===== src/Jsonrpc/Transport/Inputs.antt =====
-- All requests of an input, as `ReadRequest` returns them call after call.
use extension_sdk_go.Prelude.{
  ℕ, zero, suc, refl, ap, inl, inr, true, none, some, List, [], map, arith, length, All, Result, ok,
  err, Result-cases, ◌<◌, ◌≡◌, ◌∙◌, ◌≢◌, ◌∷◌, ◌++◌,
}
use extension_sdk_go.Errors.{Error, sentinel, eof}
use extension_sdk_go.Json.Encoding.{Encoding, plain_byte}
use extension_sdk_go.Protocol.Types.{Request, request_kind}
use extension_sdk_go.Jsonrpc.Scanner.{Scanner}
use extension_sdk_go.Jsonrpc.Transport.{Transport, read_from, read_request}
use extension_sdk_go.Jsonrpc.Transport.Reading.{read_request-length}
use extension_sdk_go.Jsonrpc.Transport.Framing.{read_request-print, read_request-end}

module _ ⦃enc : Encoding⦄ where
  -- What ReadRequest returns, call after call, up to the first error. A call takes a byte or ends the
  -- list, so as many calls as there are bytes, and one more, read it whole.
  unfoldable pub inputs_from : (fuel : ℕ) → Scanner → List (Result Error Request)
  inputs_from zero s = []
  inputs_from (suc fuel) s =
      let (r, s') = read_from (suc (length s.input)) s in
      elim r [ ok req ↦ ok req ∷ inputs_from fuel s' | err e ↦ err e ∷ [] ]

  pub inputs_from-ok :
      (fuel : ℕ) (t : Transport) (req : Request)
      → (read_request t).0 ≡ ok req
      → inputs_from (suc fuel) t.scanner ≡ ok req ∷ inputs_from fuel (read_request t).1.scanner
  unfolding inputs_from read_request
  inputs_from-ok fuel t req r = rw (r, inputs_from) refl

  pub inputs_from-err :
      (fuel : ℕ) (t : Transport) (e : Error)
      → (read_request t).0 ≡ err e
      → inputs_from (suc fuel) t.scanner ≡ err e ∷ []
  unfolding inputs_from read_request
  inputs_from-err fuel t e r = rw (r, inputs_from) refl

  unfoldable pub inputs : Scanner → List (Result Error Request)
  unfolding inputs_from
  inputs s = inputs_from (suc (length s.input)) s

  -- The transport of a scanner, whatever is written.
  abbrev reader : Scanner → Transport
  reader s = record { scanner = s; writer = record { written = []; script = [] } }

  inputs_from-ends :
      (fuel : ℕ) (s : Scanner)
      → length s.input < fuel
      → (reqs : List Request) × (e : Error) × (inputs_from fuel s
          ≡ map (λ r. ok r) reqs ++ (err e ∷ []))
  inputs_from-ends zero s h = elim h [ ]
  inputs_from-ends (suc fuel) s h = elim (Result-cases (read_request (reader s)).0) [
    | inr (e, r) ↦ ([], e, inputs_from-err fuel (reader s) e r)
    | inl (req, r) ↦
        let s' = (read_request (reader s)).1.scanner in
        let shorter = read_request-length (reader s) req r in
        let (reqs, e, same) = inputs_from-ends fuel s' (omega arith) in
        (req ∷ reqs, e, inputs_from-ok fuel (reader s) req r ∙ ap (λ rs. ok req ∷ rs) same)
  ]

  -- The list ends with an error, so it holds every request that can be read.
  pub inputs-ends :
      (s : Scanner)
      → (reqs : List Request) × (e : Error) × (inputs s ≡ map (λ r. ok r) reqs ++ (err e ∷ []))
  unfolding inputs
  inputs-ends s = inputs_from-ends (suc (length s.input)) s (omega arith)

  -- A request whose text is a line that can be read: it is not empty, has no line break, parses to
  -- what was printed and fits the Go types and the buffer.
  pub record IsReadable (limit : ℕ) (req : Request) : Type 0 where
    pub fits : request_kind.fits req ≡ true
    pub parses : enc.parse (enc.print (request_kind.marshal req)) ≡ some (request_kind.marshal req)
    pub filled : enc.print (request_kind.marshal req) ≢ []
    pub plain : All (λ c. plain_byte c ≡ true) (enc.print (request_kind.marshal req))
    pub small : length (enc.print (request_kind.marshal req)) < limit

  -- What a host sends.
  pub request_lines : List Request → List ℕ
  request_lines [] = []
  request_lines (req ∷ reqs) = enc.print (request_kind.marshal req) ++ (b'\n' ∷ request_lines reqs)

  inputs_from-print :
      (fuel : ℕ) (reqs : List Request) (s : Scanner)
      → length s.input < fuel
      → 0 < s.limit
      → s.read_err ≡ none
      → s.input ≡ request_lines reqs
      → All (IsReadable s.limit) reqs
      → inputs_from fuel s ≡ map (λ r. ok r) reqs ++ (err (sentinel eof) ∷ [])
  unfolding request_lines
  inputs_from-print zero reqs s h l n e a = elim h [ ]
  inputs_from-print (suc fuel) [] s h l n e a =
      inputs_from-err fuel (reader s) (sentinel eof) (read_request-end (reader s) e l n)
  inputs_from-print (suc fuel) (req ∷ reqs) s h l n e a =
      let r = a.0 in
      let same =
        read_request-print req (request_lines reqs) (reader s) r.fits r.parses r.filled r.plain
          r.small e in
      let at : (read_request (reader s)).1.scanner.input ≡ request_lines reqs =
        ap (λ x. x.1.scanner.input) same in
      let good : (read_request (reader s)).0 ≡ ok req = ap (λ x. x.0) same in
      let shorter = read_request-length (reader s) req good in
      let rest =
        inputs_from-print fuel reqs (record s { input = request_lines reqs })
          (omega (arith, ap length at)) l n refl a.1 in
      inputs_from-ok fuel (reader s) req good
      ∙ ap (λ rs. ok req ∷ rs) (ap (λ x. inputs_from fuel x.1.scanner) same ∙ rest)

  -- A reader that gives the lines of some readable requests and then ends is read as exactly those
  -- requests, in order, and then io.EOF.
  pub inputs-print :
      (reqs : List Request) (s : Scanner)
      → 0 < s.limit
      → s.read_err ≡ none
      → s.input ≡ request_lines reqs
      → All (IsReadable s.limit) reqs
      → inputs s ≡ map (λ r. ok r) reqs ++ (err (sentinel eof) ∷ [])
  unfolding inputs
  inputs-print reqs s l n e a =
      inputs_from-print (suc (length s.input)) reqs s (omega arith) l n e a
