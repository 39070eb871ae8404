-- ===== src/Logger/Defs.antt =====
-- internal/logger/logger.go: New, the configurations, the global logger, and the methods that log.
use goqtt.Text.{bytes_eq, ascii}
use goqtt.Logger.Slog.{
  HandlerOptions, text, text_format, json_format, warn_level, error_level, info_level, debug_level,
  LogRecord, stdout, Writer, new_handler, Attr, handle_record, Level, handler_with_group, Handler,
  handler_with_attrs, Format,
}
use goqtt.Base.Int.{ℤ, pos, negsuc}
use goqtt.Base.{
  ◌==◌, none, some, ◌∷◌, [], true, ◌+◌, false, ◌&&◌, map, [], leb, ◌++◌, Bool, if◌then◌else◌, some,
  Option, ℕ, List, String, Bytes,
}

-- LogLevel is an `int`.
abbrev pub level_debug : ℤ
level_debug = pos 0

abbrev pub level_info : ℤ
level_info = pos 1

abbrev pub level_warn : ℤ
level_warn = pos 2

abbrev pub level_error : ℤ
level_error = pos 3

abbrev pub level_fatal : ℤ
level_fatal = pos 4

unfoldable pub convert_level : ℤ → Level
convert_level (pos n) =
    if n == 0
    then debug_level
    else if n == 1
    then info_level
    else if n == 2
    then warn_level
    else if n == 3
    then error_level
    else if n == 4
    then error_level
    else info_level
convert_level (negsuc n) = info_level

-- A handler has all of an embedded slog.Logger.
pub record Logger : Type 0 where
  pub handler : Handler
  pub level : ℤ
  pub component : Bytes

-- `output` is `none` for a nil Writer.
pub record LogConfig : Type 0 where
  pub level : ℤ
  pub format : Bytes
  pub output : Option Writer
  pub component : Bytes
  pub show_caller : Bool
  pub add_source : Bool
  pub time_format : Bytes
  pub environment : Bytes
  pub service : Bytes
  pub version : Bytes

-- `strings.ToLower` on ASCII. It makes "json" of nothing else: no other rune becomes one of its letters.
unfoldable pub to_lower : ℕ → ℕ
to_lower c = if leb b'A' c && leb c b'Z' then c + 32 else c

unfoldable pub format_of : Bytes → Format
unfolding to_lower
format_of name = if bytes_eq (map to_lower name) (ascii "json") then json_format else text_format

unfoldable pub output_of : Option Writer → Writer
output_of none = stdout
output_of (some w) = w

-- `if value != "" { attrs = append(attrs, slog.String(key, value)) }`
unfoldable pub default_field : String → Bytes → List Attr
default_field key [] = []
default_field key (c ∷ value) = record { key = ascii key; value = text (c ∷ value) } ∷ []

-- Without a field the handler is left alone, as `WithAttrs` leaves it without attributes.
unfoldable pub default_fields : LogConfig → List Attr
unfolding default_field
default_fields config =
    default_field "service" config.service
    ++ (default_field "version" config.version ++ default_field "environment" config.environment)

unfoldable pub new_logger : LogConfig → Logger
unfolding convert_level format_of output_of default_fields handler_with_attrs handler_with_group
new_logger config =
    let opts : HandlerOptions = record {
      level = convert_level config.level;
      add_source = config.add_source;
    } in
    let handler = new_handler (format_of config.format) (output_of config.output) opts in
    record {
      handler =
          handler_with_group config.component (handler_with_attrs (default_fields config) handler);
      level = config.level;
      component = config.component;
    }

abbrev pub development_config : LogConfig
development_config = record {
  level = level_debug;
  format = ascii "text";
  output = some stdout;
  component = [];
  show_caller = true;
  add_source = true;
  time_format = [];
  environment = ascii "development";
  service = ascii "goqtt";
  version = ascii "dev";
}

abbrev pub production_config : LogConfig
production_config = record {
  level = level_info;
  format = ascii "json";
  output = some stdout;
  component = [];
  show_caller = false;
  add_source = false;
  time_format = [];
  environment = ascii "production";
  service = ascii "goqtt";
  version = [];
}

-- The global logger is a variable, `none` where it is nil. Each function returns its new value.
unfoldable pub init_global_logger : LogConfig → Option Logger
unfolding new_logger
init_global_logger config = some (new_logger config)

unfoldable pub get_global_logger : Option Logger → Logger × Option Logger
unfolding init_global_logger new_logger
get_global_logger none = (new_logger development_config, init_global_logger development_config)
get_global_logger (some l) = (l, some l)

unfoldable pub for_component : Bytes → Logger → Logger
unfolding handler_with_group
for_component component global = record {
  handler = handler_with_group component global.handler;
  level = global.level;
  component = component;
}

unfoldable pub new_mqtt_logger : Bytes → Option Logger → Logger × Option Logger
unfolding get_global_logger for_component
new_mqtt_logger component globals =
    let (global, globals') = get_global_logger globals in (for_component component global, globals')

unfoldable pub with_attrs : List Attr → Logger → Logger
unfolding handler_with_attrs
with_attrs attrs l = record l { handler = handler_with_attrs attrs l.handler }

unfoldable pub with_group : Bytes → Logger → Logger
unfolding handler_with_group
with_group name l = record l { handler = handler_with_group name l.handler }

unfoldable pub log_attrs : Logger → Level → Bytes → List Attr → List LogRecord
unfolding handle_record
log_attrs l level message attrs = handle_record l.handler level message attrs

unfoldable pub debug : Logger → Bytes → List Attr → List LogRecord
unfolding log_attrs
debug l msg attrs = log_attrs l debug_level msg attrs

unfoldable pub info : Logger → Bytes → List Attr → List LogRecord
unfolding log_attrs
info l msg attrs = log_attrs l info_level msg attrs

unfoldable pub warn : Logger → Bytes → List Attr → List LogRecord
unfolding log_attrs
warn l msg attrs = log_attrs l warn_level msg attrs

unfoldable pub error : Logger → Bytes → List Attr → List LogRecord
unfolding log_attrs
error l msg attrs = log_attrs l error_level msg attrs

-- What is logged, and then the text of the panic.
unfoldable pub fatal : Logger → Bytes → List Attr → List LogRecord × Bytes
unfolding log_attrs
fatal l msg attrs = (log_attrs l error_level msg attrs, ascii "fatal error: " ++ msg)
