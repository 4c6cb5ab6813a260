-- ===== src/Examples/Exchanges.antt =====
-- A call of the host that an extension answers.
use extension_sdk_go.Json.Marshal.{encode, rejected, rejected_members}
use extension_sdk_go.Prelude.{
  ℕ, refl, ap, inl, true, none, some, List, [], arith, length, All, pos, ok, ◌<◌, ◌≡◌, ◌∷◌, ◌++◌,
}
use extension_sdk_go.Json.{obj, end, null}
use extension_sdk_go.Protocol.Types.{
  response_kind, request_fields, notification_kind, notification_fields, response_fields, Request,
  request_kind, Response, Notification,
}
use extension_sdk_go.Json.Kind.{pointer_kind, string_kind, raw_kind, int_kind}
use extension_sdk_go.Json.Struct.{write_fields, fits_fields, struct_kind}
use extension_sdk_go.Protocol.Tools.{tool_call_params_kind}
use extension_sdk_go.Protocol.Log.{log_params_fields, log_params_kind}
use extension_sdk_go.Jsonrpc.Transport.{
  read_request, unmarshal_raw, unmarshal_value, send_response, send_notification, write_line,
}
use extension_sdk_go.Jsonrpc.Scanner.{new_scanner}
use extension_sdk_go.Jsonrpc.Writer.{write}
use extension_sdk_go.Extension.Tool.{dispatch_tool}
use extension_sdk_go.Extension.Emitter.{emit_by, log}
use extension_sdk_go.Jsonrpc.Transport.Inputs.{IsReadable}
use extension_sdk_go.Jsonrpc.Transport.Writing.{Outgoing, reply, notice, json_of, lines}
use extension_sdk_go.Extension.Handler.{
  Host, serve, reply as respond, pointer_json, call_method, run_program,
}
use extension_sdk_go.Extension.Run.{with_tool, empty_config}
use extension_sdk_go.Extension.Composite.{CompositeConfig, composite_dispatch}
use extension_sdk_go.Extension.Answers.{Answered}
use extension_sdk_go.Harness.{FakeKova, new_fake_kova, store_notification}
use extension_sdk_go.Harness.Calls.{result_of, call_internal, call}
use extension_sdk_go.Harness.Inboxes.{store_all}
use extension_sdk_go.Harness.Reading.{IsCarried, fits_message}
use extension_sdk_go.Harness.Exchange.{next_request, call_with-lines, call-composite_dispatch}
use extension_sdk_go.Examples.Characters.{chars}
use extension_sdk_go.Examples.Codec.{codec, print_json}
use extension_sdk_go.Examples.Codec.Laws.{codec-IsFaithful}
use extension_sdk_go.Examples.Fixtures.{host_of, counting_tool, sound_writer}

abbrev pub tools : CompositeConfig ℕ
tools = with_tool counting_tool empty_config

abbrev pub before : FakeKova
before = new_fake_kova [] none sound_writer

abbrev question : Request
question = next_request "tool_call" (some (obj end)) before

abbrev extension : Host ℕ
extension = host_of (print_json (request_kind.marshal question) ++ (b'\n' ∷ []))

abbrev has_read : Host ℕ
has_read = record extension { transport = (read_request extension.transport).1 }

abbrev note : Notification
note = record {
  jsonrpc = "2.0";
  method = "log";
  params = some (log_params_kind.marshal (record { level = "info"; message = "called" }));
}

abbrev answer : Response
answer = record { jsonrpc = "2.0"; result = some null; error = none; id = pos 1 }

abbrev messages : List Outgoing
messages = notice note ∷ reply answer ∷ []

abbrev host : FakeKova
host = record before { scanner = record before.scanner { input = lines messages } }

answered : Answered (pos 1) has_read (composite_dispatch tools question has_read)
unfolding composite_dispatch dispatch_tool serve respond pointer_json pointer_kind call_method
    unmarshal_raw run_program emit_by send_response send_notification write_line write read_request
    new_fake_kova lines unmarshal_value tool_call_params_kind struct_kind log_params_kind log
    print_json chars notification_kind response_kind notification_fields response_fields encode
    rejected rejected_members write_fields string_kind raw_kind int_kind log_params_fields
answered = record {
  quiet = refl;
  notes = note ∷ [];
  response = answer;
  sent = record { unread = refl; sound = refl; written = refl };
  same_id = refl;
  valid = record { version = refl; one_of = inl ((λ h. (cc)), refl) };
}

-- The codec carries every message that fits.
pub carries :
    (limit : ℕ) (m : Outgoing)
    → fits_message m ≡ true
    → length (codec.print (json_of m)) < limit
    → IsCarried limit m
carries limit m fits small = record {
  fits = fits;
  parses = codec-IsFaithful.parse-print (json_of m);
  filled = codec-IsFaithful.print-ne-nil (json_of m);
  plain = codec-IsFaithful.print_plain (json_of m);
  small = small;
}

carried : All (IsCarried 1_048_576) messages
unfolding print_json response_kind notification_kind struct_kind string_kind raw_kind int_kind
    pointer_kind notification_fields response_fields write_fields fits_fields chars log_params_kind
    log_params_fields
carried =
    (carries _ (notice note) refl (omega arith), (carries _ (reply answer) refl (omega arith), tt))

-- The codec makes every request readable that fits.
pub reads :
    (limit : ℕ) (req : Request)
    → request_kind.fits req ≡ true
    → length (codec.print (request_kind.marshal req)) < limit
    → IsReadable limit req
reads limit req fits small = record {
  fits = fits;
  parses = codec-IsFaithful.parse-print (request_kind.marshal req);
  filled = codec-IsFaithful.print-ne-nil (request_kind.marshal req);
  plain = codec-IsFaithful.print_plain (request_kind.marshal req);
  small = small;
}

readable : IsReadable 65536 question
unfolding print_json request_kind struct_kind request_fields write_fields fits_fields string_kind
    raw_kind int_kind chars new_fake_kova
readable = reads _ question refl (omega arith)

asked :
    (call "tool_call" (some (ok (obj end))) host).1.to_ext.written
    ≡ host.to_ext.written ++ extension.transport.scanner.input
unfolding call call_internal new_fake_kova new_scanner store_all store_notification
asked =
    ap (λ x. x.1.to_ext.written)
      (call_with-lines result_of "tool_call" (some (ok (obj end))) (some (obj end)) host (note ∷ [])
        answer refl refl refl carried)

call-composite_dispatch_example :
    let (result, host') = call "tool_call" (some (ok (obj end))) host in
    ((read_request extension.transport).0 ≡ ok question)
    × (result ≡ ok (some null))
    × (host'.notifications ≡ (store_all (note ∷ []) host).notifications)
unfolding new_fake_kova new_scanner composite_dispatch read_request lines dispatch_tool answered
    print_json
call-composite_dispatch_example =
    call-composite_dispatch tools "tool_call" (some (ok (obj end))) (some (obj end)) host extension
      answered refl refl readable asked answered.sent.written carried
