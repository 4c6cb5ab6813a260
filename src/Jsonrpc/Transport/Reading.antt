-- ===== src/Jsonrpc/Transport/Reading.antt =====
-- How much input reading a request takes, and the fuel of its loop.
use extension_sdk_go.Prelude.{
  ℕ, zero, suc, refl, sym, inl, inr, Option, none, some, List, [], arith, leb, Bool-cases,
  Option-cases, length, ok, Result-cases, ◌<◌, ◌≡◌, ◌∷◌,
}
use extension_sdk_go.Json.Encoding.{Encoding}
use extension_sdk_go.Protocol.Types.{Request, request_kind}
use extension_sdk_go.Jsonrpc.Scanner.{Scanner, cut_line, scan, scan_line}
use extension_sdk_go.Jsonrpc.Transport.{
  unmarshal, Transport, read_from, read_request, request_of, no_token,
}

-- What is left after a line is shorter than before.
cut_line-length : (cs r : List ℕ) → (cut_line cs).1 ≡ some r → length r < length cs
unfolding cut_line
cut_line-length [] r e = ground arith
cut_line-length (c ∷ cs) r e = ground (arith, cut_line-length cs r)

cut_line-all : (cs : List ℕ) → (cut_line cs).1 ≡ none → (cut_line cs).0 ≡ cs
unfolding cut_line
cut_line-all [] e = refl
cut_line-all (c ∷ cs) e = ground (arith, cut_line-all cs)

scan_line-length :
    (line : List ℕ) (rest : Option (List ℕ)) (s : Scanner) (token : List ℕ)
    → (rest ≡ none → line ≡ s.input)
    → ((r : List ℕ) → rest ≡ some r → length r < length s.input)
    → (scan_line line rest s).0 ≡ some token
    → length (scan_line line rest s).1.input < length s.input
scan_line-length line (some r) s token a b e = b r refl
scan_line-length [] none s token a b e = ground arith
scan_line-length (c ∷ line) none s token a b e = rw (sym (a refl)) (omega arith)

-- A token takes at least one byte.
scan-length :
    (s : Scanner) (token : List ℕ)
    → (scan s).0 ≡ some token
    → length (scan s).1.input < length s.input
unfolding scan
scan-length s token e = elim (Bool-cases (leb s.limit (length (cut_line s.input).0))) [
  | inl full ↦ ground arith
  | inr fits ↦
      let e' = rw (fits, scan) at e in
      (rw (fits, scan)
        (scan_line-length (cut_line s.input).0 (cut_line s.input).1 s token (cut_line-all s.input)
          (cut_line-length s.input) e'))
]

module _ ⦃enc : Encoding⦄ where
  request_of-scanner : (line : List ℕ) (s : Scanner) → (request_of line s).1 ≡ s
  request_of-scanner line s = elim (Result-cases (unmarshal request_kind line)) [
    | inl (r, e) ↦ rw (e, request_of) refl
    | inr (x, e) ↦ rw (e, request_of) refl
  ]

  no_token-error : (s : Scanner) (req : Request) → ¬ ((no_token s).0 ≡ ok req)
  no_token-error s req e = elim (Option-cases s.failed) [
    | inl f ↦ ground arith
    | inr (x, f) ↦ ground arith
  ]

  -- One more unit of fuel than there are bytes changes nothing.
  pub read_from_fuel :
      (fuel : ℕ) (s : Scanner) → length s.input < fuel → read_from fuel s ≡ read_from (suc fuel) s
  unfolding read_from
  read_from_fuel zero s h = elim h [ ]
  read_from_fuel (suc fuel) s h = elim (Option-cases (scan s).0) [
    | inl e ↦ rw (e, read_from) refl
    | inr ([], e) ↦
        rw (e, read_from) (read_from_fuel fuel (scan s).1 (omega (arith, scan-length s [] e)))
    | inr (c ∷ line, e) ↦ rw (e, read_from) refl
  ]

  read_from-length :
      (fuel : ℕ) (s : Scanner) (req : Request)
      → (read_from fuel s).0 ≡ ok req
      → length (read_from fuel s).1.input < length s.input
  unfolding read_from
  read_from-length zero s req e = ground arith
  read_from-length (suc fuel) s req e = elim (Option-cases (scan s).0) [
    | inl n ↦ let e' = rw (n, read_from) at e in absurd (no_token-error (scan s).1 req e')
    | inr ([], n) ↦
        let e' = rw (n, read_from) at e in
        rw (n, read_from)
          (omega (arith, scan-length s [] n, read_from-length fuel (scan s).1 req e'))
    | inr (c ∷ line, n) ↦
        rw (n, read_from)
          (rw (request_of-scanner (c ∷ line) (scan s).1) (scan-length s (c ∷ line) n))
  ]

  -- A request that is read takes at least one byte.
  pub read_request-length :
      (t : Transport) (req : Request)
      → (read_request t).0 ≡ ok req
      → length (read_request t).1.scanner.input < length t.scanner.input
  unfolding read_request
  read_request-length t req e = read_from-length (suc (length t.scanner.input)) t.scanner req e
