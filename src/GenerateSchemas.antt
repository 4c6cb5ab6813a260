-- ===== src/GenerateSchemas.antt =====
-- cmd/generate-schemas/main.go: writes the schemas of the protocol types, or checks those on disk.
-- The schema library, the text of a schema and the file system are a `Toolbox`.
pub mod Environment
pub mod Generate
pub mod Check
use extension_sdk_go.Prelude.{
  ℕ, String, refl, Bool, true, false, none, some, List, [], arith, length, pos, Result, ok, err,
  ◌≡◌, ◌↔◌, ◌&&◌, ◌∷◌, ◌++◌, ◌==◌, ◌+++◌, if◌then◌else◌,
}
use extension_sdk_go.Errors.{Error, message, itoa}
use extension_sdk_go.GenerateSchemas.Environment.{Toolbox}

-- The names of the types, in the order of the table `types`.
abbrev pub types : List String
types =
    "Request" ∷ "Response" ∷ "Notification" ∷ "RPCError" ∷ "InitializeParams" ∷ "InitializeResult"
    ∷ "Registrations" ∷ "ToolDef" ∷ "HTTPRouteDef" ∷ "HookDef" ∷ "ServiceDef" ∷ "ProviderDef"
    ∷ "TTSProviderDef" ∷ "CLIDef" ∷ "CallContext" ∷ "ToolCallParams" ∷ "ToolCallResult"
    ∷ "ChannelMessageParams" ∷ "ChannelMessageImage" ∷ "ChannelSendParams" ∷ "ChannelSendAttachment"
    ∷ "ChannelSendComponent" ∷ "ChannelTypingParams" ∷ "ChannelReactionAddParams"
    ∷ "ChannelReactionRemoveParams" ∷ "PromptOption" ∷ "PromptUserParams" ∷ "PromptUserResult"
    ∷ "ChannelCapabilities" ∷ "ChannelCapabilitiesParams" ∷ "ChannelCapabilitiesResult"
    ∷ "HookEventParams" ∷ "HookEventResult" ∷ "HTTPRequestParams" ∷ "HTTPResponseResult"
    ∷ "ServiceStartParams" ∷ "ServiceStartResult" ∷ "ServiceHealthParams" ∷ "ServiceHealthResult"
    ∷ "ServiceStopParams" ∷ "ServiceStopResult" ∷ "ProviderContentBlock" ∷ "ProviderMessage"
    ∷ "ProviderToolDef" ∷ "ProviderCreateMessageParams" ∷ "ProviderCreateMessageResult"
    ∷ "StreamChunkParams" ∷ "StreamEndParams" ∷ "StreamErrorParams" ∷ "ProviderCapabilitiesParams"
    ∷ "ProviderCapabilitiesResult" ∷ "TTSSynthesizeParams" ∷ "TTSSynthesizeResult"
    ∷ "TTSVoicesResult" ∷ "TTSVoice" ∷ "STTProviderDef" ∷ "STTTranscribeParams"
    ∷ "STTTranscribeResult" ∷ "STTSegment" ∷ "STTModelsResult" ∷ "STTModel" ∷ "LogParams" ∷ []

abbrev pub filename : String → String
filename name = name +++ ".json"

-- `filepath.Join(outDir, filename)`.
abbrev pub out_path : String → String
out_path name = "schemas/" +++ filename name

-- What the loop has collected. `printed` are the lines of standard output.
pub record Report : Type 0 where
  pub errors : List String
  pub drifts : List String
  pub printed : List String

abbrev no_report : Report
no_report = record { errors = []; drifts = []; printed = [] }

abbrev add_error : String → Report → Report
add_error line r = record r { errors = r.errors ++ (line ∷ []) }

abbrev add_drift : String → Report → Report
add_drift line r = record r { drifts = r.drifts ++ (line ∷ []) }

abbrev add_line : String → Report → Report
add_line line r = record r { printed = r.printed ++ (line ∷ []) }

-- bytes.Equal.
unfoldable pub same_bytes : List ℕ → List ℕ → Bool
same_bytes [] [] = true
same_bytes (a ∷ as') (b ∷ bs) = a == b && same_bytes as' bs
same_bytes [] (b ∷ bs) = false
same_bytes (a ∷ as') [] = false

pub same_bytes_iff : (as' bs : List ℕ) → (same_bytes as' bs ≡ true) ↔ (as' ≡ bs)
unfolding same_bytes
same_bytes_iff [] [] = (λ h. refl, λ h. refl)
same_bytes_iff (a ∷ as') (b ∷ bs) = ground (arith, same_bytes_iff as' bs)
same_bytes_iff [] (b ∷ bs) = (λ h. (cc), λ h. (cc))
same_bytes_iff (a ∷ as') [] = (λ h. (cc), λ h. (cc))

-- How the process ends. The time that package log puts before a line is left out.
pub record Outcome (Disk : Type 0) : Type 0 where
  pub status : ℕ
  pub stdout : List String
  pub stderr : List String
  pub disk : Disk

abbrev error_lines : List String → List String
error_lines [] = []
error_lines (e ∷ es) = ("ERROR: " +++ e) ∷ error_lines es

abbrev drift_lines : List String → List String
drift_lines [] = []
drift_lines (d ∷ ds) = ("  " +++ d) ∷ drift_lines ds

module _ (box : Toolbox) where
  open box use {
    Disk, Schema, for_type, with_title, marshal_indent, mkdir_all, read_file, write_file,
  }

  -- The text for a type with its final newline, or the line for `errors`.
  unfoldable pub render : String → Result String (List ℕ)
  render name = elim (for_type name) [
    | err e ↦ err (filename name +++ ": " +++ message e)
    | ok schema ↦ elim (marshal_indent (with_title name schema)) [
      | err e ↦ err (filename name +++ ": marshal: " +++ message e)
      | ok data' ↦ ok (data' ++ (b'\n' ∷ []))
    ]
  ]

  -- The round of a type whose text is `data'`, with and without --check.
  unfoldable pub compare_file : String → List ℕ → Disk → Report → Report × Disk
  compare_file name data' s r = elim (read_file s (out_path name)) [
    | err e ↦ (add_drift (filename name +++ ": " +++ message e) r, s)
    | ok existing ↦ (if same_bytes data' existing then r else add_drift (filename name) r, s)
  ]

  unfoldable pub emit_file : String → List ℕ → Disk → Report → Report × Disk
  emit_file name data' s r =
      let (e, s') = write_file s (out_path name) data' in
      elim e [
        | some e' ↦ (add_error (filename name +++ ": write: " +++ message e') r, s')
        | none ↦ (add_line ("wrote " +++ out_path name) r, s')
      ]

  unfoldable pub visit : (check : Bool) → String → Disk → Report → Report × Disk
  unfolding render compare_file emit_file
  visit check name s r = elim (render name) [
    | err line ↦ (add_error line r, s)
    | ok data' ↦ elim check [
      | true ↦ compare_file name data' s r
      | false ↦ emit_file name data' s r
    ]
  ]

  unfoldable pub visit_all : (check : Bool) → List String → Disk → Report → Report × Disk
  unfolding visit
  visit_all check [] s r = (r, s)
  visit_all check (name ∷ names) s r =
      let (r', s') = visit check name s r in visit_all check names s' r'

  -- After the loop.
  unfoldable pub finish : (check : Bool) → (count : ℕ) → Report → Disk → Outcome Disk
  finish check count r s = elim r.errors [
    | e ∷ es ↦ record { status = 1; stdout = r.printed; stderr = error_lines (e ∷ es); disk = s }
    | [] ↦ elim check [
      | false ↦ record {
        status = 0;
        stdout =
            r.printed ++ ("" ∷ ("Generated " +++ itoa (pos count) +++ " schemas in schemas/") ∷ []);
        stderr = [];
        disk = s;
      }
      | true ↦ elim r.drifts [
        | d ∷ ds ↦ record {
          status = 1;
          stdout = r.printed;
          stderr =
              "schemas are out of date — run 'make generate' and commit:" ∷ drift_lines (d ∷ ds);
          disk = s;
        }
        | [] ↦ record {
          status = 0;
          stdout = r.printed ++ (("All " +++ itoa (pos count) +++ " schemas are up-to-date") ∷ []);
          stderr = [];
          disk = s;
        }
      ]
    ]
  ]

  -- `main` over a table of types; log.Fatalf exits with the status 1.
  unfoldable pub generate_schemas : (check : Bool) → List String → Disk → Outcome Disk
  unfolding visit_all finish
  generate_schemas check names s =
      let (e, s') = mkdir_all s in
      elim e [
        | some e' ↦ record {
          status = 1;
          stdout = [];
          stderr = ("create schemas dir: " +++ message e') ∷ [];
          disk = s';
        }
        | none ↦
            let (r, s'') = visit_all check names s' no_report in finish check (length names) r s''
      ]

  unfoldable pub main : (check : Bool) → Disk → Outcome Disk
  unfolding generate_schemas
  main check s = generate_schemas check types s
