-- ===== src/Harness.antt =====
-- harness/harness.go: `FakeKova`, the host's side in a test.
-- What the extension writes is the input of the scanner, as a whole; `closed` says whether the
-- extension's input has been closed.
pub mod Calls
pub mod Inboxes
pub mod Helpers
pub mod Reading
pub mod Exchange
pub mod Initialization
use extension_sdk_go.Prelude.{
  ℕ, zero, suc, String, Bool, false, Option, none, some, List, [], text_eq, length, ℤ, Result, ok,
  err, ◌||◌, ◌∷◌, ◌++◌, if◌then◌else◌,
}
use extension_sdk_go.Errors.{Error}
use extension_sdk_go.Json.{Json, null, obj, Members, end, member}
use extension_sdk_go.Json.Encoding.{Encoding}
use extension_sdk_go.Json.Kind.{Kind}
use extension_sdk_go.Protocol.Constants.{method_initialize, method_shutdown}
use extension_sdk_go.Protocol.Types.{
  Request, request_kind, RpcError, Response, response_kind, Notification, notification_kind,
}
use extension_sdk_go.Protocol.Initialize.{
  InitializeParams, initialize_params_kind, InitializeResult, initialize_result_kind, Registrations,
}
use extension_sdk_go.Jsonrpc.Scanner.{Scanner, new_scanner, scan}
use extension_sdk_go.Jsonrpc.Writer.{Writer, write}
use extension_sdk_go.Jsonrpc.Transport.{unmarshal, unmarshal_raw}

-- The params of the notifications that are stored, by method.
abbrev pub Inbox : Type 0
Inbox = List (String × List (Option Json))

pub record FakeKova : Type 0 where
  pub next_id : ℕ
  pub to_ext : Writer
  pub closed : Bool
  pub notifications : Inbox
  pub scanner : Scanner

-- Why a test is stopped by t.Fatalf.
pub data Fatal : Type 0 where
  marshal_params : Error → Fatal
  write_request : Error → Fatal
  read_failed : Error → Fatal
  closed_stdout : Fatal
  invalid_json : List ℕ → Fatal
  unmarshal_notification : Error → Fatal
  unmarshal_response : Error → Fatal
  id_mismatch : (got want : ℤ) → Fatal
  error_returned : (method : String) → RpcError → Fatal
  expected_error : (method : String) → Fatal
  unmarshal_initialize : Error → Fatal
  unmarshal_failed : Error → Fatal

abbrev pub Test : Type 0 → Type 0
Test A = FakeKova → Result Fatal A × FakeKova

unfoldable pub new_fake_kova : List ℕ → Option Error → Writer → FakeKova
new_fake_kova input read_err w = record {
  next_id = 0;
  to_ext = w;
  closed = false;
  notifications = [];
  scanner = new_scanner input read_err 1_048_576;
}

-- Appends to the entry of the method, or makes one.
unfoldable pub store : Notification → Inbox → Inbox
store n [] = (n.method, n.params ∷ []) ∷ []
store n ((m, stored) ∷ inbox) =
    let rest = store n inbox in
    if text_eq n.method m then (m, stored ++ (n.params ∷ [])) ∷ inbox else (m, stored) ∷ rest

unfoldable pub stored_for : String → Inbox → List (Option Json)
stored_for method [] = []
stored_for method ((m, stored) ∷ inbox) =
    let rest = stored_for method inbox in if text_eq method m then stored else rest

unfoldable pub remove : String → Inbox → Inbox
remove method [] = []
remove method ((m, stored) ∷ inbox) =
    let rest = remove method inbox in if text_eq method m then rest else (m, stored) ∷ rest

unfoldable pub store_notification : Notification → FakeKova → FakeKova
unfolding store
store_notification n fk = record fk { notifications = store n fk.notifications }

-- The notifications of a method, which are then forgotten.
unfoldable pub received_notifications : String → FakeKova → List (Option Json) × FakeKova
unfolding stored_for remove
received_notifications method fk = (
  stored_for method fk.notifications,
  record fk { notifications = remove method fk.notifications },
)

abbrev pub has_method : Members → Bool
has_method end = false
has_method (member k _ ms) = text_eq k "method" || has_method ms

pub data Incoming : Type 0 where
  response : Response → Incoming
  notification : Notification → Incoming

module _ ⦃enc : Encoding⦄ where
  abbrev pub as_notification : List ℕ → Result Fatal Incoming
  as_notification line = elim (unmarshal notification_kind line) [
    | ok n ↦ ok (notification n)
    | err e ↦ err (unmarshal_notification e)
  ]

  abbrev pub as_response : List ℕ → Result Fatal Incoming
  as_response line = elim (unmarshal response_kind line) [
    | ok r ↦ ok (response r)
    | err e ↦ err (unmarshal_response e)
  ]

  -- The line as a map from names to raw values, for which null is the nil map.
  abbrev pub classify : List ℕ → Option Json → Result Fatal Incoming
  classify line (some (obj ms)) = if has_method ms then as_notification line else as_response line
  classify line (some null) = as_response line
  classify line _ = err (invalid_json line)

  unfoldable pub read_message_from : (fuel : ℕ) → Scanner → Result Fatal Incoming × Scanner
  read_message_from zero s = (err closed_stdout, s)
  read_message_from (suc fuel) s =
      let (token, s') = scan s in
      elim token [
        | none ↦ (elim s'.failed [ some e ↦ err (read_failed e) | none ↦ err closed_stdout ], s')
        | some [] ↦ read_message_from fuel s'
        | some (c ∷ line) ↦ (classify (c ∷ line) (enc.parse (c ∷ line)), s')
      ]

  unfoldable pub read_message : Test Incoming
  unfolding read_message_from
  read_message fk =
      let (m, s) = read_message_from (suc (length fk.scanner.input)) fk.scanner in
      (m, record fk { scanner = s })
