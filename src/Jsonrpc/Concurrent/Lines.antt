-- ===== src/Jsonrpc/Concurrent/Lines.antt =====
-- What goroutines that write at the same time leave on the wire.
use extension_sdk_go.Prelude.{
  ℕ, refl, sym, ap, inl, inr, true, List, [], append-nil, append_assoc, ◌≡◌, ◌∙◌, ◌⊎◌, ◌∷◌, ◌++◌,
}
use extension_sdk_go.Json.{Json}
use extension_sdk_go.Json.Encoding.{Encoding}
use extension_sdk_go.Jsonrpc.Transport.{Transport, write_line}
use extension_sdk_go.Jsonrpc.Transport.Writing.{write_sound, write_line_sound}
use extension_sdk_go.Jsonrpc.Concurrent.{
  Pc, idle, data_next, newline_next, unlock_next, System, Reach, sequential,
}
use extension_sdk_go.Jsonrpc.Concurrent.Invariant.{Within, Inv, free, held, Reach-Inv}

module _ ⦃enc : Encoding⦄ where
  -- The lines of the calls, in order.
  pub lines_of : List (ℕ × Json) → List ℕ
  lines_of [] = []
  lines_of ((i, j) ∷ calls) = enc.print j ++ (b'\n' ∷ lines_of calls)

  sequential_sound :
      (calls : List (ℕ × Json)) (t : Transport)
      → t.writer.script ≡ []
      → let u = (sequential calls t).1 in
        (u.writer.script ≡ []) × (u.writer.written ≡ t.writer.written ++ lines_of calls)
  unfolding sequential lines_of
  sequential_sound [] t h = (h, sym (append-nil t.writer.written))
  sequential_sound ((i, j) ∷ calls) t h =
      let line = write_line_sound j t h in
      let (sound, written) =
        sequential_sound calls (write_line j t).1 (ap (λ x. x.1.writer.script) line ∙ h) in
      (
        sound,
        written
            ∙ ap (λ x. x.1.writer.written ++ lines_of calls) line
            ∙ append_assoc (t.writer.written ++ enc.print j) (b'\n' ∷ []) (lines_of calls)
            ∙ append_assoc t.writer.written (enc.print j) (b'\n' ∷ lines_of calls),
      )

  lines_of-snoc :
      (calls : List (ℕ × Json)) (i : ℕ) (j : Json)
      → lines_of (calls ++ ((i, j) ∷ [])) ≡ lines_of calls ++ (enc.print j ++ (b'\n' ∷ []))
  unfolding lines_of
  lines_of-snoc [] i j = refl
  lines_of-snoc ((i', j') ∷ calls) i j =
      ap (λ x. enc.print j' ++ (b'\n' ∷ x)) (lines_of-snoc calls i j)
      ∙ sym (append_assoc (enc.print j') (b'\n' ∷ lines_of calls) (enc.print j ++ (b'\n' ∷ [])))

  -- What the holder of the mutex has still to write of its line.
  rest_of_line :
      (j : Json) (u : Transport) (p : Pc) (v : Transport) (left : ℕ)
      → u.writer.script ≡ []
      → Within j u p v left
      → (rest : List ℕ) × (v.writer.written ++ rest
          ≡ u.writer.written ++ (enc.print j ++ (b'\n' ∷ [])))
  rest_of_line j u idle v left h w = absurd w
  rest_of_line j u (data_next j') v left h w =
      (enc.print j ++ (b'\n' ∷ []), ap (λ x. x.writer.written ++ (enc.print j ++ (b'\n' ∷ []))) w.1)
  rest_of_line j u newline_next v left h w = (
    b'\n' ∷ [],
    ap (λ x. x.writer.written ++ (b'\n' ∷ [])) w.1
        ∙ ap (λ x. x.1.written ++ (b'\n' ∷ [])) (write_sound (enc.print j) u.writer h)
        ∙ append_assoc u.writer.written (enc.print j) (b'\n' ∷ []),
  )
  rest_of_line j u (unlock_next e) v left h w = (
    [],
    append-nil v.writer.written
        ∙ ap (λ x. x.writer.written) w.1
        ∙ ap (λ x. x.1.writer.written) (write_line_sound j u h)
        ∙ append_assoc u.writer.written (enc.print j) (b'\n' ∷ []),
  )

  Inv-lines :
      {t : Transport} {k : ℕ} {s : System}
      → Inv t k s
      → t.writer.script ≡ []
      → (rest : List ℕ) × (s.transport.writer.written ++ rest
          ≡ t.writer.written ++ lines_of s.order)
        × ((s.locked ≡ true) ⊎ (rest ≡ []))
  Inv-lines {t} {s} (free l idles q few) h = (
    [],
    append-nil s.transport.writer.written
        ∙ ap (λ x. x.1.writer.written) (sym q)
        ∙ (sequential_sound s.order t h).1,
    inr refl,
  )
  Inv-lines {t} {s} (held i j before left l others o r w few) h =
      let u = (sequential before t).1 in
      let (sound, written) = sequential_sound before t h in
      let (rest, e) = rest_of_line j u (s.threads i).pc s.transport left sound w in
      (
        rest,
        e
            ∙ ap (λ x. x ++ (enc.print j ++ (b'\n' ∷ []))) written
            ∙ append_assoc t.writer.written (lines_of before) (enc.print j ++ (b'\n' ∷ []))
            ∙ ap (λ x. t.writer.written ++ x) (sym (lines_of-snoc before i j))
            ∙ ap (λ x. t.writer.written ++ lines_of x) (sym o),
        inl l,
      )

  -- With a writer that does not fail, what has been written is at every moment a prefix of whole
  -- lines, those of the calls in the order in which they took the mutex; whenever the mutex is free, it
  -- is all of these lines.
  pub Reach-lines :
      {t : Transport} {work : ℕ → List Json} {k : ℕ} {s : System}
      → Reach t work k s
      → t.writer.script ≡ []
      → (rest : List ℕ) × (s.transport.writer.written ++ rest
          ≡ t.writer.written ++ lines_of s.order)
        × ((s.locked ≡ true) ⊎ (rest ≡ []))
  Reach-lines r h = Inv-lines (Reach-Inv r) h
