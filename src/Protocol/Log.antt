-- ===== src/Protocol/Log.antt =====
-- protocol/log.go: log lines. A table lists the fields of a struct with their tags.
use extension_sdk_go.Prelude.{String, Option, none, List, [], ◌∷◌}
use extension_sdk_go.Json.{Members}
use extension_sdk_go.Json.Encoding.{Encoding}
use extension_sdk_go.Json.Kind.{string_kind, any_map_kind, Kind}
use extension_sdk_go.Json.Struct.{Field, field, omitempty, struct_kind}

-- The level names.
abbrev pub log_level_debug : String
log_level_debug = "DEBUG"

abbrev pub log_level_info : String
log_level_info = "INFO"

abbrev pub log_level_warn : String
log_level_warn = "WARN"

abbrev pub log_level_error : String
log_level_error = "ERROR"

pub record LogEntry : Type 0 where
  pub time : String
  pub level : String
  pub msg : String
  pub attrs : Option Members

abbrev pub zero_log_entry : LogEntry
zero_log_entry = record { time = ""; level = ""; msg = ""; attrs = none }

unfoldable pub log_entry_fields : ⦃e : Encoding⦄ → List (Field LogEntry)
log_entry_fields =
    field "time" string_kind (λ r. r.time) (λ v r. record r { time = v })
    ∷ field "level" string_kind (λ r. r.level) (λ v r. record r { level = v })
    ∷ field "msg" string_kind (λ r. r.msg) (λ v r. record r { msg = v })
    ∷ omitempty "attrs" any_map_kind (λ r. r.attrs) (λ v r. record r { attrs = v })
    ∷ []

unfoldable pub log_entry_kind : ⦃e : Encoding⦄ → Kind LogEntry
log_entry_kind = struct_kind zero_log_entry log_entry_fields

pub record LogParams : Type 0 where
  pub level : String
  pub message : String

abbrev pub zero_log_params : LogParams
zero_log_params = record { level = ""; message = "" }

unfoldable pub log_params_fields : List (Field LogParams)
log_params_fields =
    field "level" string_kind (λ r. r.level) (λ v r. record r { level = v })
    ∷ field "message" string_kind (λ r. r.message) (λ v r. record r { message = v })
    ∷ []

unfoldable pub log_params_kind : Kind LogParams
log_params_kind = struct_kind zero_log_params log_params_fields

-- What `SetupLogging` uses of log/slog. A `State` holds the default logger; `new_json_handler` writes
-- to os.Stderr and has the level as its only option.
pub record Slog : Type 1 where
  pub Level : Type 0
  pub Handler : Type 0
  pub Logger : Type 0
  pub State : Type 0
  pub new_json_handler : Level → Handler
  pub new_logger : Handler → Logger
  pub set_default : Logger → State → State

abbrev pub setup_logging : (slog : Slog) → slog.Level → slog.State → slog.State
setup_logging slog level s =
    let handler = slog.new_json_handler level in slog.set_default (slog.new_logger handler) s
