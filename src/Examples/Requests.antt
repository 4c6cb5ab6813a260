-- ===== src/Examples/Requests.antt =====
-- The transport at concrete inputs.
use extension_sdk_go.Prelude.{
  ℕ, refl, true, none, some, List, [], map, arith, pos, ok, err, ◌≡◌, ◌∷◌, ◌++◌,
}
use extension_sdk_go.Errors.{Error, sentinel, eof, too_long, wrap}
use extension_sdk_go.Json.{obj, end, member, str, num}
use extension_sdk_go.Json.Names.{equal_fold}
use extension_sdk_go.Json.Marshal.{rejected}
use extension_sdk_go.Json.Kind.{string_kind, raw_kind, int_kind}
use extension_sdk_go.Json.Struct.{struct_kind, write_fields, fits_fields, read_members, find_field}
use extension_sdk_go.Protocol.Types.{Request, zero_request, request_kind, request_fields}
use extension_sdk_go.Jsonrpc.Writer.{short}
use extension_sdk_go.Jsonrpc.Transport.{Transport, read_request}
use extension_sdk_go.Jsonrpc.Transport.Framing.{read_request-print, read_request-too_long}
use extension_sdk_go.Jsonrpc.Transport.Inputs.{
  inputs, inputs-print, inputs-ends, IsReadable, request_lines,
}
use extension_sdk_go.Examples.Fixtures.{
  digits, initialize_1, tool_call_2, shutdown_3, transport_of, session, broken,
}

pub IsReadable-1 : IsReadable 65536 initialize_1
unfolding request_kind struct_kind request_fields string_kind raw_kind int_kind write_fields
    fits_fields read_members find_field rejected
IsReadable-1 = record {
  fits = refl;
  parses = refl;
  filled = cc;
  plain = (refl, tt);
  small = omega arith;
}

pub IsReadable-2 : IsReadable 65536 tool_call_2
unfolding request_kind struct_kind request_fields string_kind raw_kind int_kind write_fields
    fits_fields read_members find_field rejected
IsReadable-2 = record {
  fits = refl;
  parses = refl;
  filled = cc;
  plain = (refl, tt);
  small = omega arith;
}

pub IsReadable-3 : IsReadable 65536 shutdown_3
unfolding request_kind struct_kind request_fields string_kind raw_kind int_kind write_fields
    fits_fields read_members find_field rejected
IsReadable-3 = record {
  fits = refl;
  parses = refl;
  filled = cc;
  plain = (refl, tt);
  small = omega arith;
}

abbrev three : List Request
three = initialize_1 ∷ tool_call_2 ∷ shutdown_3 ∷ []

inputs-print_example :
    inputs (transport_of (request_lines three)).scanner
    ≡ ok initialize_1 ∷ ok tool_call_2 ∷ ok shutdown_3 ∷ err (sentinel eof) ∷ []
inputs-print_example =
    inputs-print three (transport_of (request_lines three)).scanner (omega arith) refl refl
      (IsReadable-1, (IsReadable-2, (IsReadable-3, tt)))

inputs-ends_example :
    (reqs : List Request) × (e : Error) × (inputs (transport_of session).scanner
      ≡ map (λ r. ok r) reqs ++ (err e ∷ []))
inputs-ends_example = inputs-ends (transport_of session).scanner

abbrev after_1 : List ℕ
after_1 = b'2' ∷ b'\n' ∷ b'3' ∷ b'\n' ∷ b'2' ∷ b'\n' ∷ []

session_1 : session ≡ digits.print (request_kind.marshal initialize_1) ++ (b'\n' ∷ after_1)
unfolding request_kind struct_kind request_fields string_kind raw_kind int_kind
session_1 = refl

read_request-print_example :
    read_request (transport_of session) ≡ (ok initialize_1, transport_of after_1)
read_request-print_example =
    read_request-print initialize_1 after_1 (transport_of session) IsReadable-1.fits
      IsReadable-1.parses IsReadable-1.filled IsReadable-1.plain IsReadable-1.small session_1

-- A buffer of two bytes.
abbrev narrow : Transport
narrow = record (transport_of []) {
  scanner = record {
    input = b'1' ∷ b'2' ∷ b'3' ∷ b'\n' ∷ [];
    read_err = none;
    limit = 2;
    failed = none;
  };
}

read_request-too_long_example : (read_request narrow).0 ≡ err (wrap "read" (sentinel too_long))
read_request-too_long_example =
    read_request-too_long (b'1' ∷ b'2' ∷ b'3' ∷ []) [] narrow (refl, (refl, (refl, tt))) refl
      (omega arith)

-- The disk is full after no byte.
abbrev full_disk : Transport
full_disk = record (transport_of []) {
  writer = record { written = b'a' ∷ []; script = short 0 broken ∷ [] };
}

-- The name of a member counts in any case; the sign for kelvin is a k.
shouted :
    request_kind.unmarshal
      (obj (member "METHOD" (str "shutdown") (member "Id" (num (pos 3) 0) end)))
      zero_request
    ≡ some (record { jsonrpc = ""; method = "shutdown"; params = none; id = pos 3 })
unfolding request_kind struct_kind request_fields read_members find_field string_kind int_kind
    equal_fold
shouted = refl

kelvin : equal_fold "token" "toKen" ≡ true
unfolding equal_fold
kelvin = refl
