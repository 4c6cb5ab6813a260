-- ===== src/Jsonrpc/Concurrent.antt =====
-- jsonrpc/transport.go: `writeLine` called by many goroutines. Each call takes the mutex, makes two
-- calls of Write and gives the mutex back; between any two of these steps another goroutine may move.
pub mod Invariant
pub mod Guarantees
pub mod Lines
use extension_sdk_go.Prelude.{
  ℕ, Bool, true, false, Option, none, some, List, [], update, ◌+◌, ◌≡◌, ◌∷◌, ◌++◌,
}
use extension_sdk_go.Errors.{Error, wrap}
use extension_sdk_go.Json.{Json}
use extension_sdk_go.Json.Encoding.{Encoding}
use extension_sdk_go.Jsonrpc.Writer.{write}
use extension_sdk_go.Jsonrpc.Transport.{Transport, write_line}

-- Where a goroutine stands: outside `writeLine`, before the first or the second Write, or before the
-- deferred Unlock with the error that the call returns.
pub data Pc : Type 0 where
  idle : Pc
  data_next : Json → Pc
  newline_next : Pc
  unlock_next : Option Error → Pc

-- `pending` are the values for which the goroutine has still to call `writeLine`.
pub record Goroutine : Type 0 where
  pub pc : Pc
  pub pending : List Json

-- `order` lists the calls as they took the mutex, and `returned` what they returned, for the proofs.
pub record System : Type 0 where
  pub locked : Bool
  pub transport : Transport
  pub threads : ℕ → Goroutine
  pub order : List (ℕ × Json)
  pub returned : List (ℕ × Option Error)

abbrev pub after_data : Option Error → Pc
after_data none = newline_next
after_data (some e) = unlock_next (some (wrap "write" e))

abbrev pub after_newline : Option Error → Pc
after_newline none = unlock_next none
after_newline (some e) = unlock_next (some (wrap "write newline" e))

abbrev pub init : Transport → (ℕ → List Json) → System
init t work = record {
  locked = false;
  transport = t;
  threads = λ i. record { pc = idle; pending = work i };
  order = [];
  returned = [];
}

-- One call of Write.
abbrev pub put : List ℕ → Transport → Option Error × Transport
put bytes t = let (e, w) = write bytes t.writer in (e, record t { writer = w })

module _ ⦃enc : Encoding⦄ where
  -- A step of goroutine i.
  pub data Step (s : System) : System → Type 0 where
    acquire :
        (i : ℕ) (j : Json) (js : List Json)
        → s.locked ≡ false
        → s.threads i ≡ record { pc = idle; pending = j ∷ js }
        → Step s (record s {
          locked = true;
          threads = update s.threads i (record { pc = data_next j; pending = js });
          order = s.order ++ ((i, j) ∷ []);
        })
    write_data :
        (i : ℕ) (j : Json) (js : List Json)
        → s.threads i ≡ record { pc = data_next j; pending = js }
        → Step s (record s {
          transport = (put (enc.print j) s.transport).1;
          threads =
              update s.threads i
                (record { pc = after_data (put (enc.print j) s.transport).0; pending = js });
        })
    write_newline :
        (i : ℕ) (js : List Json)
        → s.threads i ≡ record { pc = newline_next; pending = js }
        → Step s (record s {
          transport = (put (b'\n' ∷ []) s.transport).1;
          threads =
              update s.threads i
                (record { pc = after_newline (put (b'\n' ∷ []) s.transport).0; pending = js });
        })
    release :
        (i : ℕ) (e : Option Error) (js : List Json)
        → s.threads i ≡ record { pc = unlock_next e; pending = js }
        → Step s (record s {
          locked = false;
          threads = update s.threads i (record { pc = idle; pending = js });
          returned = s.returned ++ ((i, e) ∷ []);
        })

  -- `Reach t work k s`: k steps lead to `s` from the goroutines' first states.
  pub data Reach (t : Transport) (work : ℕ → List Json) : ℕ → System → Type 0 where
    start : Reach t work 0 (init t work)
    later : {k : ℕ} {s u : System} → Reach t work k s → Step s u → Reach t work (k + 1) u

  -- One goroutine that makes the calls one after the other.
  unfoldable pub sequential : List (ℕ × Json) → Transport → List (ℕ × Option Error) × Transport
  sequential [] t = ([], t)
  sequential ((i, j) ∷ calls) t =
      let (e, u) = write_line j t in let (results, v) = sequential calls u in ((i, e) ∷ results, v)
