-- ===== src/Jsonrpc/Concurrent/Guarantees.antt =====
-- What the mutex of a transport guarantees to goroutines that write at the same time.
use extension_sdk_go.Prelude.{
  ℕ, refl, ap, inl, inr, true, false, List, [], arith, length, List-cases, ◌*◌, ◌≤◌, ◌≡◌, ◌∙◌, ◌≢◌,
  ◌⊎◌, ◌∷◌, ◌==◌, if◌then◌else◌,
}
use extension_sdk_go.Json.{Json}
use extension_sdk_go.Json.Encoding.{Encoding}
use extension_sdk_go.Jsonrpc.Transport.{Transport}
use extension_sdk_go.Jsonrpc.Concurrent.{
  Pc, idle, data_next, newline_next, unlock_next, Goroutine, System, Step, acquire, write_data,
  write_newline, release, Reach, sequential,
}
use extension_sdk_go.Jsonrpc.Concurrent.Invariant.{Within, Inv, free, held, Inv-Holding, Reach-Inv}

-- The values of goroutine i among the calls, in order.
pub calls_by : ℕ → List (ℕ × Json) → List Json
calls_by i [] = []
calls_by i ((l, j) ∷ calls) = let rest = calls_by i calls in if i == l then j ∷ rest else rest

module _ ⦃enc : Encoding⦄ where
  -- Whenever the mutex is free, the transport is as if one goroutine had made the calls, one after the
  -- other, in the order in which they took the mutex, and each has returned what it returns there,
  -- also where writes fail.
  pub Reach-sequential :
      {t : Transport} {work : ℕ → List Json} {k : ℕ} {s : System}
      → Reach t work k s
      → s.locked ≡ false
      → sequential s.order t ≡ (s.returned, s.transport)
  Reach-sequential {t} {k} {s} r unlocked = case (Reach-Inv r)
    where
      case : Inv t k s → sequential s.order t ≡ (s.returned, s.transport)
      case (free l idles q few) = q
      case (held i j before left l others o r' w few) = absurd (cc)

  -- While a goroutine is between taking and giving back the mutex, the mutex is locked and every other
  -- goroutine is outside.
  pub Reach-exclusive :
      {t : Transport} {work : ℕ → List Json} {k : ℕ} {s : System} (i l : ℕ)
      → Reach t work k s
      → (s.threads i).pc ≢ idle
      → l ≢ i
      → (s.locked ≡ true) × ((s.threads l).pc ≡ idle)
  Reach-exclusive {s} i l r busy other =
      let h = Inv-Holding i (s.threads i).pc (Reach-Inv r) refl busy in (h.locked, h.others l other)

  at_pc : (g : Goroutine) (p : Pc) → g.pc ≡ p → g ≡ record { pc = p; pending = g.pending }
  at_pc g p e = ap (λ x. record { pc = x; pending = g.pending }) e

  holder-Step :
      (s : System) (i : ℕ) (p : Pc) (j : Json) (u v : Transport) (left : ℕ)
      → (s.threads i).pc ≡ p
      → Within j u p v left
      → (x : System) × Step s x
  holder-Step s i idle j u v left e w = absurd w
  holder-Step s i (data_next j') j u v left e w =
      (_, write_data i j' (s.threads i).pending (at_pc (s.threads i) (data_next j') e))
  holder-Step s i newline_next j u v left e w =
      (_, write_newline i (s.threads i).pending (at_pc (s.threads i) newline_next e))
  holder-Step s i (unlock_next r) j u v left e w =
      (_, release i r (s.threads i).pending (at_pc (s.threads i) (unlock_next r) e))

  Inv-live :
      {t : Transport} {k : ℕ} {s : System} (i : ℕ)
      → Inv t k s
      → ((s.threads i).pc ≢ idle) ⊎ ((s.threads i).pending ≢ [])
      → ((u : System) × Step s u) × (k ≤ 4 * length s.order)
  Inv-live {t} {s} i (held i' j before left l others o r w few) busy = (
    holder-Step s i' (s.threads i').pc j (sequential before t).1 s.transport left refl w,
    omega arith,
  )
  Inv-live i (free l idles q few) (inl busy) = absurd (busy (idles i))
  Inv-live {s} i (free l idles q few) (inr some_left) = elim (List-cases (s.threads i).pending) [
    | inl nothing ↦ absurd (some_left nothing)
    | inr (j, js, e) ↦
        let here =
          at_pc (s.threads i) idle (idles i) ∙ ap (λ x. record { pc = idle; pending = x }) e in
        ((_, acquire i j js l here), few)
  ]

  -- Nobody waits for ever: while a goroutine is in a call, or has a value to write, some step is
  -- possible; and steps do not go on without calls, since there are at most four for each.
  pub Reach-live :
      {t : Transport} {work : ℕ → List Json} {k : ℕ} {s : System} (i : ℕ)
      → Reach t work k s
      → ((s.threads i).pc ≢ idle) ⊎ ((s.threads i).pending ≢ [])
      → ((u : System) × Step s u) × (k ≤ 4 * length s.order)
  Reach-live i r busy = Inv-live i (Reach-Inv r) busy
