-- ===== src/Jsonrpc/Concurrent/Invariant.antt =====
-- Who holds the mutex, and what has been written, after any number of steps.
use extension_sdk_go.Prelude.{
  ℕ, refl, sym, ap, subst, inl, inr, true, false, Option, none, some, List, [], arith, Option-cases,
  length, length-append, update, update-same, update-other, ◌+◌, ◌*◌, ◌≤◌, ◌<◌, ◌≡◌, ◌∙◌, ◌≢◌, ◌∷◌,
  ◌++◌,
}
use native.Mathlib.Decide.{ℕ_discrete}
use extension_sdk_go.Errors.{Error, wrap}
use extension_sdk_go.Json.{Json}
use extension_sdk_go.Json.Encoding.{Encoding}
use extension_sdk_go.Jsonrpc.Transport.{Transport, write_line}
use extension_sdk_go.Jsonrpc.Concurrent.{
  Pc, idle, data_next, newline_next, unlock_next, Goroutine, System, put, Step, acquire, write_data,
  write_newline, release, Reach, start, later, sequential,
}

module _ ⦃enc : Encoding⦄ where
  pub sequential-snoc :
      (calls : List (ℕ × Json)) (i : ℕ) (j : Json) (t : Transport)
      → let (results, u) = sequential calls t in
        sequential (calls ++ ((i, j) ∷ [])) t
        ≡ (results ++ ((i, (write_line j u).0) ∷ []), (write_line j u).1)
  unfolding sequential
  sequential-snoc [] i j t = refl
  sequential-snoc ((i', j') ∷ calls) i j t =
      ap (λ x. ((i', (write_line j' t).0) ∷ x.0, x.1))
        (sequential-snoc calls i j (write_line j' t).1)

  -- How far the holder of the mutex is with the value `j`, from the transport `u`, in the transport
  -- `v`. The number is how many steps of the call are left.
  abbrev pub Within : Json → Transport → Pc → Transport → ℕ → Type 0
  Within j u idle v left = ⊥
  Within j u (data_next j') v left = (j' ≡ j) × (v ≡ u) × (left ≡ 3)
  Within j u newline_next v left =
      ((put (enc.print j) u).0 ≡ none) × (v ≡ (put (enc.print j) u).1) × (left ≡ 2)
  Within j u (unlock_next e) v left =
      (e ≡ (write_line j u).0) × (v ≡ (write_line j u).1) × (left ≡ 1)

  -- The mutex is free, or goroutine i holds it. Of `k` steps there are four at most for each call.
  pub data Inv (t : Transport) (k : ℕ) (s : System) : Type 0 where
    free :
        s.locked ≡ false
        → ((l : ℕ) → (s.threads l).pc ≡ idle)
        → sequential s.order t ≡ (s.returned, s.transport)
        → k ≤ 4 * length s.order
        → Inv t k s
    held :
        (i : ℕ) (j : Json) (before : List (ℕ × Json)) (left : ℕ)
        → s.locked ≡ true
        → ((l : ℕ) → l ≢ i → (s.threads l).pc ≡ idle)
        → s.order ≡ before ++ ((i, j) ∷ [])
        → (sequential before t).0 ≡ s.returned
        → Within j (sequential before t).1 (s.threads i).pc s.transport left
        → k + left ≤ 4 * length s.order
        → Inv t k s

  write_line-bad :
      (j : Json) (u : Transport) (e : Error)
      → (put (enc.print j) u).0 ≡ some e
      → write_line j u ≡ (some (wrap "write" e), (put (enc.print j) u).1)
  unfolding write_line
  write_line-bad j u e bad = rw (bad, write_line) refl

  abbrev newline_error : Option Error → Option Error
  newline_error none = none
  newline_error (some e) = some (wrap "write newline" e)

  write_line-good :
      (j : Json) (u : Transport)
      → (put (enc.print j) u).0 ≡ none
      → let (e, v) = put (b'\n' ∷ []) (put (enc.print j) u).1 in
        write_line j u ≡ (newline_error e, v)
  unfolding write_line
  write_line-good j u fine = elim (Option-cases (put (b'\n' ∷ []) (put (enc.print j) u).1).0) [
    | inl fine' ↦ rw (fine, write_line) (rw (fine', write_line) refl)
    | inr (e, bad) ↦ rw (fine, write_line) (rw (bad, write_line) refl)
  ]

  -- What is known of the goroutine that holds the mutex.
  pub record Holding (t : Transport) (k : ℕ) (s : System) (i : ℕ) (p : Pc) : Type 0 where
    pub j : Json
    pub before : List (ℕ × Json)
    pub left : ℕ
    pub locked : s.locked ≡ true
    pub others : (l : ℕ) → l ≢ i → (s.threads l).pc ≡ idle
    pub order : s.order ≡ before ++ ((i, j) ∷ [])
    pub returned : (sequential before t).0 ≡ s.returned
    pub within : Within j (sequential before t).1 p s.transport left
    pub few : k + left ≤ 4 * length s.order

  -- A goroutine that is not idle holds the mutex.
  pub Inv-Holding :
      {t : Transport} {k : ℕ} {s : System} (i : ℕ) (p : Pc)
      → Inv t k s
      → (s.threads i).pc ≡ p
      → p ≢ idle
      → Holding t k s i p
  Inv-Holding i p (free l idles q few) at busy = absurd (busy (sym at ∙ idles i))
  Inv-Holding {t} {s} i p (held i' j before left l others o r w few) at busy =
      elim (ℕ_discrete i i') [
        | no d ↦ absurd (busy (sym at ∙ others i d))
        | yes same ↦ record {
          j = j;
          before = before;
          left = left;
          locked = l;
          others = λ l' d. others l' (λ e. d (e ∙ sym same));
          order = o ∙ ap (λ x. before ++ ((x, j) ∷ [])) (sym same);
          returned = r;
          within =
              subst (λ x. Within j (sequential before t).1 x s.transport left)
                (ap (λ x. (s.threads x).pc) (sym same) ∙ at) w;
          few = few;
        }
      ]

  -- The holder goes on, and keeps the mutex.
  stay :
      {t : Transport} {k : ℕ} {s : System} {p : Pc} (i : ℕ) (q : Pc) (js : List Json)
      (v : Transport) (left : ℕ) (h : Holding t k s i p)
      → Within h.j (sequential h.before t).1 q v left
      → left < h.left
      → Inv t (k + 1) (record s {
        transport = v;
        threads = update s.threads i (record { pc = q; pending = js });
      })
  stay {t} {s} i q js v left h w less =
      let g : Goroutine = record { pc = q; pending = js } in
      held i h.j h.before left h.locked
        (λ l d. ap (λ x. x.pc) (update-other s.threads i g l d) ∙ h.others l d) h.order h.returned
        (subst (λ x. Within h.j (sequential h.before t).1 x.pc v left)
          (sym (update-same s.threads i g)) w)
        (omega (arith, h.few))

  Step-Inv : {t : Transport} {k : ℕ} {s u : System} → Step s u → Inv t k s → Inv t (k + 1) u
  unfolding write_line
  Step-Inv {t} {k} {s} (acquire i j js unlocked at) (free l idles q few) =
      let g : Goroutine = record { pc = data_next j; pending = js } in
      held i j s.order 3 refl (λ l' d. ap (λ x. x.pc) (update-other s.threads i g l' d) ∙ idles l')
        refl (ap (λ x. x.0) q)
        (subst (λ x. Within j (sequential s.order t).1 x.pc s.transport 3)
          (sym (update-same s.threads i g)) (refl, sym (ap (λ x. x.1) q), refl))
        (omega (arith, length-append s.order ((i, j) ∷ [])))
  Step-Inv (acquire i j js unlocked at) (held i' j' before left l others o r w few) = absurd (cc)
  Step-Inv {t} {s} (write_data i j js at) inv =
      let h = Inv-Holding i (data_next j) inv (ap (λ x. x.pc) at) (cc) in
      let (same, now, left) = h.within in
      let u = (sequential h.before t).1 in
      let e = ap (λ x. put (enc.print x) s.transport) same ∙ ap (λ v. put (enc.print h.j) v) now in
      elim (Option-cases (put (enc.print j) s.transport).0) [
        | inl fine ↦ rw fine (
            stay i newline_next js (put (enc.print j) s.transport).1 2 h
              (sym (ap (λ x. x.0) e) ∙ fine, ap (λ x. x.1) e, refl) (omega arith))
        | inr (x, bad) ↦
            let whole = write_line-bad h.j u x (sym (ap (λ y. y.0) e) ∙ bad) in
            rw bad (
              stay i (unlock_next (some (wrap "write" x))) js (put (enc.print j) s.transport).1 1 h
                (sym (ap (λ y. y.0) whole), ap (λ y. y.1) e ∙ sym (ap (λ y. y.1) whole), refl)
                (omega arith))
      ]
  Step-Inv {t} {s} (write_newline i js at) inv =
      let h = Inv-Holding i newline_next inv (ap (λ x. x.pc) at) (cc) in
      let (fine, now, left) = h.within in
      let u = (sequential h.before t).1 in
      let e = ap (λ v. put (b'\n' ∷ []) v) now in
      let whole = write_line-good h.j u fine in
      let v = (put (b'\n' ∷ []) s.transport).1 in
      let v' = ap (λ y. y.1) e ∙ sym (ap (λ y. y.1) whole) in
      elim (Option-cases (put (b'\n' ∷ []) s.transport).0) [
        | inl fine' ↦ rw fine' (
            stay i (unlock_next none) js v 1 h
              (ap newline_error (sym fine' ∙ ap (λ y. y.0) e) ∙ sym (ap (λ y. y.0) whole), v', refl)
              (omega arith))
        | inr (x, bad) ↦ rw bad (
            stay i (unlock_next (some (wrap "write newline" x))) js v 1 h
              (ap newline_error (sym bad ∙ ap (λ y. y.0) e) ∙ sym (ap (λ y. y.0) whole), v', refl)
              (omega arith))
      ]
  Step-Inv {t} {k} {s} (release i e js at) inv =
      let h = Inv-Holding i (unlock_next e) inv (ap (λ x. x.pc) at) (cc) in
      let (result, now, left) = h.within in
      let g : Goroutine = record { pc = idle; pending = js } in
      let whole = write_line h.j (sequential h.before t).1 in
      free refl
        (λ l. elim (ℕ_discrete l i) [
          | yes same ↦
              ap (λ x. (update s.threads i g x).pc) same
              ∙ ap (λ x. x.pc) (update-same s.threads i g)
          | no d ↦ ap (λ x. x.pc) (update-other s.threads i g l d) ∙ h.others l d
        ])
        (ap (λ calls. sequential calls t) h.order
          ∙ sequential-snoc h.before i h.j t
          ∙ ap (λ r. (r ++ ((i, whole.0) ∷ []), whole.1)) h.returned
          ∙ ap (λ x. (s.returned ++ ((i, x) ∷ []), whole.1)) (sym result)
          ∙ ap (λ x. (s.returned ++ ((i, e) ∷ []), x)) (sym now))
        (omega (arith, h.few))

  pub Reach-Inv :
      {t : Transport} {work : ℕ → List Json} {k : ℕ} {s : System} → Reach t work k s → Inv t k s
  unfolding sequential
  Reach-Inv start = free refl (λ l. refl) refl (omega arith)
  Reach-Inv (later r step) = Step-Inv step (Reach-Inv r)
