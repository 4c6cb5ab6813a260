-- ===== src/Examples/Sessions.antt =====
-- A whole session, and the host's side, at concrete inputs.
use extension_sdk_go.Prelude.{ℕ, refl, none, some, List, [], arith, pos, ◌≡◌, ◌∷◌}
use extension_sdk_go.Json.{null}
use extension_sdk_go.Protocol.Types.{Request, Notification}
use extension_sdk_go.Jsonrpc.Transport.Inputs.{request_lines}
use extension_sdk_go.Extension.Dispatcher
use extension_sdk_go.Extension.Dispatcher.{finished}
use extension_sdk_go.Extension.Run.{with_tool, empty_config, composite_dispatcher}
use extension_sdk_go.Extension.Handler.{Host}
use extension_sdk_go.Extension.Correctness.Conversation.{Conversation}
use extension_sdk_go.Extension.Correctness.Session.{uncancelled, run-session}
use extension_sdk_go.Examples.Runs.{counting-marshals}
use extension_sdk_go.Harness.{FakeKova, new_fake_kova, stored_for, received_notifications}
use extension_sdk_go.Harness.Inboxes.{params_of, store_all, received_notifications-store_all}
use extension_sdk_go.Examples.Fixtures.{
  digits, initialize_1, tool_call_2, shutdown_3, host_of, counting_tool, sound_writer,
}
use extension_sdk_go.Examples.Requests.{IsReadable-1, IsReadable-2, IsReadable-3}

abbrev sent : List Request
sent = initialize_1 ∷ tool_call_2 ∷ shutdown_3 ∷ tool_call_2 ∷ []

abbrev fed : Host ℕ
fed = host_of (request_lines sent)

-- The call after the shutdown is not answered.
run-session_example :
    let (ending, h') =
      Dispatcher.run uncancelled
        (composite_dispatcher (with_tool counting_tool empty_config))
        fed in
    (ending ≡ finished none)
    × Conversation (pos 1 ∷ pos 2 ∷ pos 3 ∷ []) sound_writer h'.transport.writer
run-session_example =
    run-session (with_tool counting_tool empty_config) fed (initialize_1 ∷ tool_call_2 ∷ [])
      shutdown_3 (tool_call_2 ∷ []) counting-marshals refl (omega arith) refl refl
      (IsReadable-1, (IsReadable-2, (IsReadable-3, (IsReadable-2, tt)))) (refl, (refl, tt)) refl

abbrev logged : List Notification
logged =
    record { jsonrpc = "2.0"; method = "log"; params = none }
    ∷ record { jsonrpc = "2.0"; method = "channel_message"; params = some null }
    ∷ record { jsonrpc = "2.0"; method = "log"; params = some null }
    ∷ []

abbrev fresh_host : FakeKova
fresh_host = new_fake_kova [] none sound_writer

fresh : stored_for "log" fresh_host.notifications ≡ []
unfolding stored_for new_fake_kova
fresh = refl

received_notifications-store_all_example :
    let (received, fk') = received_notifications "log" (store_all logged fresh_host) in
    (received ≡ params_of "log" logged) × ((received_notifications "log" fk').0 ≡ [])
received_notifications-store_all_example =
    received_notifications-store_all "log" logged fresh_host fresh
