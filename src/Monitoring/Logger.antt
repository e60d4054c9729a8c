-- ===== src/Monitoring/Logger.antt =====
-- src/monitoring/logger.cpp: records of a log, kept or printed as a line each.
use Prim.Native.String.{◌++◌ as ◌<>◌}
use wall.Prelude.{List, String, [], ◌++◌, ◌∷◌}
use wall.Prelude.Dict.{Dict}

pub data LogLevel : Type 0 where
  info warn error : LogLevel

pub record LogRecord : Type 0 where
  pub level : LogLevel
  pub message : String
  pub fields : Dict String

unfoldable pub level_text : LogLevel → String
level_text info = "info"
level_text warn = "warn"
level_text error = "error"

-- The loop over the fields.
unfoldable pub fields_text : Dict String → String
fields_text [] = ""
fields_text ((key, value) ∷ fields) = " " <> key <> "=" <> value <> fields_text fields

-- `ConsoleStructuredLogger` behind what was written to its stream.
unfoldable pub log_to_console : LogRecord → String → String
unfolding level_text fields_text
log_to_console r stream =
    stream
    <> "level="
    <> level_text r.level
    <> " message="
    <> r.message
    <> fields_text r.fields
    <> "\n"

-- `InMemoryStructuredLogger`
unfoldable pub log_in_memory : LogRecord → List LogRecord → List LogRecord
log_in_memory r records = records ++ (r ∷ [])
