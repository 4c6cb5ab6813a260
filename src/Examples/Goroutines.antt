-- ===== src/Examples/Goroutines.antt =====
-- Two goroutines that write to one transport.
use extension_sdk_go.Prelude.{
  ℕ, refl, inl, true, none, List, [], length, ◌*◌, ◌≤◌, ◌≡◌, ◌≢◌, ◌⊎◌, ◌∷◌, ◌++◌, ◌==◌,
  if◌then◌else◌,
}
use extension_sdk_go.Json.{Json, null}
use extension_sdk_go.Protocol.Types.{request_kind}
use extension_sdk_go.Json.Struct.{struct_kind}
use extension_sdk_go.Jsonrpc.Writer.{write}
use extension_sdk_go.Jsonrpc.Transport.{Transport}
use extension_sdk_go.Jsonrpc.Concurrent.{
  idle, newline_next, System, Step, acquire, write_data, write_newline, release, Reach, start,
  later, sequential,
}
use extension_sdk_go.Jsonrpc.Concurrent.Guarantees.{Reach-sequential, Reach-live}
use extension_sdk_go.Jsonrpc.Concurrent.Lines.{lines_of, Reach-lines}
use extension_sdk_go.Examples.Fixtures.{digits, initialize_1, tool_call_2, transport_of}

-- Goroutine 0 has one value to write, goroutine 1 two, the others none.
abbrev work : ℕ → List Json
work i =
    if i == 0
    then request_kind.marshal initialize_1 ∷ []
    else if i == 1
    then request_kind.marshal tool_call_2 ∷ null ∷ []
    else []

abbrev first : Transport
first = transport_of []

abbrev called : Json
called = request_kind.marshal tool_call_2

-- Goroutine 1 has made its first call.
one_call : (s : System) × Reach first work 4 s
unfolding write request_kind struct_kind
one_call =
    let waiting = null ∷ [] in
    (
      _,
      later
          (later
            (later (later start (acquire 1 called waiting refl refl))
              (write_data 1 called waiting refl))
            (write_newline 1 waiting refl))
          (release 1 none waiting refl),
    )

-- Then goroutine 0 has written its data, and has its newline to write.
between : (s : System) × Reach first work 6 s
unfolding one_call
between =
    let value = request_kind.marshal initialize_1 in
    (_, later (later one_call.1 (acquire 0 value [] refl refl)) (write_data 0 value [] refl))

busy : (between.0.threads 0).pc ≢ idle
unfolding between
busy h = let h' : newline_next ≡ idle = h in cc

Reach-sequential_example :
    sequential one_call.0.order first ≡ (one_call.0.returned, one_call.0.transport)
unfolding one_call
Reach-sequential_example = Reach-sequential one_call.1 refl

Reach-lines_example :
    (rest : List ℕ) × (between.0.transport.writer.written ++ rest
      ≡ first.writer.written ++ lines_of between.0.order)
    × ((between.0.locked ≡ true) ⊎ (rest ≡ []))
Reach-lines_example = Reach-lines between.1 refl

Reach-live_example : ((u : System) × Step between.0 u) × (6 ≤ 4 * length between.0.order)
Reach-live_example = Reach-live 0 between.1 (inl busy)
