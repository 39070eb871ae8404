-- ===== src/Main/Startup.antt =====
-- The start of the program: whether it serves, and what it has logged until then.

use goqtt.Main.Lines.{line-log_attrs, written-lines, line, IsLog}
use goqtt.Text.{ascii, bytes_eq}
use goqtt.Logger.Events.{global_warn, global_info, string_attr, global_fatal}
use goqtt.Logger.Slog.{error_level, info_level, warn_level, text, severity, Attr}
use goqtt.Logger.Defs.{
  warn, init_global_logger, info, development_config, convert_level, get_global_logger,
  production_config, fatal, LogConfig,
}
use goqtt.Logger.Records.{threshold, written, Written}
use goqtt.Main.{
  with_config, with_file, main, init_logger, serving, Config, Run, Log, logged, failed_with,
  init_schema, Environment, start_server, stopped, require, make_store, Answer, fine, panicked,
}
use goqtt.Base.{
  true, false, Bool, Option, arith, ◌≡◌, ◌++◌, ◌||◌, map, if◌then◌else◌, List, refl, none, some,
  ◌∷◌, [], Bytes,
}

-- The message of a failure and the attributes of its line.
abbrev pub Failure : Type 0
Failure = Bytes × List Attr

unfoldable pub failure_of : Answer → Bytes → List Failure
failure_of fine msg = []
failure_of (failed_with err) msg = (msg, record { key = ascii "error"; value = text err } ∷ []) ∷ []

unfoldable pub failures_of : List (Answer × Bytes) → List Failure
unfolding failure_of
failures_of [] = []
failures_of ((answer, msg) ∷ steps) = failure_of answer msg ++ failures_of steps

-- The steps behind the reading of the configuration.
unfoldable pub start_steps : Environment → List (Answer × Bytes)
unfolding make_store
start_steps env =
    (make_store env, ascii "Failed to create store directory")
    ∷ (env.open_store, ascii "Failed to open sqlite db")
    ∷ (env.exec, ascii "Failed to initialize schema")
    ∷ []

-- The steps that would fail, in the order in which they are tried.
unfoldable pub failures_from : Environment → Option Bytes → List Failure
unfolding failures_of start_steps
failures_from env none = (ascii "failed to read config from yaml file", []) ∷ []
failures_from env (some config) =
    failures_of
      (((env.unmarshal config).1, ascii "Failed to unmarshal yaml config") ∷ start_steps env)

-- The logger's configuration, the warning, and the port, for an environment that was read.
unfoldable pub configuration : Bytes → LogConfig
configuration environment =
    if bytes_eq environment (ascii "production") then production_config else development_config

unfoldable pub warnings : Bytes → List Written
unfolding line
warnings environment =
    if bytes_eq environment (ascii "production") || bytes_eq environment (ascii "development")
    then []
    else line development_config warn_level
        (ascii "Invalid server environment config value, assigning default.") []
      ∷ []

-- How a start ends, and what it has written: the lines `before`, and one line more.
pub data Outcome (c : LogConfig) (before : List Written) (port : Bytes)
    : List Failure → Run → Type 0 where
  serves :
      {log : Log}
      → map written log.lines
        ≡ before
          ++ (line c info_level
                (ascii "Server started listening")
                (record { key = ascii "port"; value = text port } ∷ [])
              ∷ [])
      → Outcome c before port [] (serving port log)
  stops :
      {log : Log} {msg : Bytes} {attrs : List Attr} {rest : List Failure}
      → map written log.lines ≡ before ++ (line c error_level msg attrs ∷ [])
      → Outcome c before port ((msg, attrs) ∷ rest) (panicked (ascii "fatal error: " ++ msg) log)

stopped-Outcome :
    {c : LogConfig} {before : List Written} {port : Bytes} {rest : List Failure} {log : Log}
    (msg : Bytes) (attrs : List Attr)
    → IsLog c before log
    → Outcome c before port ((msg, attrs) ∷ rest) (stopped msg attrs log)
unfolding stopped global_fatal fatal severity
stopped-Outcome {c} {before} {log} msg attrs is =
    stops (written-lines error_level msg attrs is (ground (arith, is.low)))

require-Outcome :
    {c : LogConfig} {before : List Written} {port : Bytes} {fs : List Failure} {log : Log}
    (answer : Answer) (msg : Bytes) (next : Log → Run)
    → IsLog c before log
    → Outcome c before port fs (next log)
    → Outcome c before port (failure_of answer msg ++ fs) (require answer msg next log)
unfolding require failure_of string_attr
require-Outcome fine msg next is then_next = then_next
require-Outcome (failed_with err) msg next is then_next = stopped-Outcome msg _ is

start_server-Outcome :
    {c : LogConfig} {before : List Written} {log : Log} (env : Environment) (cfg : Config)
    → IsLog c before log
    → Outcome c before cfg.server.port (failures_of (start_steps env)) (start_server env cfg log)
unfolding start_server init_schema logged global_info info string_attr failures_of start_steps
    severity
start_server-Outcome {log} env cfg is = require-Outcome (make_store env) _ _ is (
    require-Outcome env.open_store _ _ is (
      require-Outcome env.exec _ _ is
        (serves (written-lines info_level _ _ is (ground (arith, is.low))))))

choose-IsLog :
    {c d : LogConfig} {before : List Written} {l m n : Log} (production development : Bool)
    → IsLog c [] l
    → IsLog d [] m
    → IsLog d before n
    → IsLog
        (if production then c else d)
        (if production || development then [] else before)
        (if production then l else if development then m else n)
choose-IsLog true development p q r = p
choose-IsLog false true p q r = q
choose-IsLog false false p q r = r

abbrev pub new_log : Log
new_log = record { globals = none; lines = [] }

new_log-IsLog : IsLog development_config [] new_log
unfolding get_global_logger threshold convert_level severity
new_log-IsLog = record { global = refl; low = omega arith; lines = refl }

init_logger-IsLog :
    (environment : Bytes)
    → IsLog (configuration environment) (warnings environment) (init_logger environment new_log)
unfolding init_logger configuration warnings init_global_logger get_global_logger threshold
    convert_level severity logged global_warn warn
init_logger-IsLog environment =
    choose-IsLog (bytes_eq environment (ascii "production"))
      (bytes_eq environment (ascii "development"))
      (record { global = refl; low = omega arith; lines = refl })
      (record { global = refl; low = omega arith; lines = refl })
      (record {
        global = refl;
        low = omega arith;
        lines = line-log_attrs development_config warn_level _ [] (omega arith);
      })

-- The configuration, where it is read.
unfoldable pub config_of : Config × Answer → Option Config
config_of (cfg, fine) = some cfg
config_of (cfg, failed_with err) = none

unfoldable pub config_read : Environment → Option Bytes → Option Config
unfolding config_of
config_read env none = none
config_read env (some config) = config_of (env.unmarshal config)

-- How the logger is configured, what it has written before the server starts, and the port.
unfoldable pub configured : Option Config → LogConfig
unfolding configuration
configured none = development_config
configured (some cfg) = configuration cfg.server.environment

unfoldable pub warned : Option Config → List Written
unfolding warnings
warned none = []
warned (some cfg) = warnings cfg.server.environment

unfoldable pub port_of : Option Config → Bytes
port_of none = []
port_of (some cfg) = cfg.server.port

with_config-Outcome :
    (env : Environment) (parsed : Config × Answer)
    → Outcome
        (configured (config_of parsed))
        (warned (config_of parsed))
        (port_of (config_of parsed))
        (failures_of ((parsed.1, ascii "Failed to unmarshal yaml config") ∷ start_steps env))
        (with_config env parsed new_log)
unfolding with_config require config_of configured warned port_of failures_of failure_of string_attr
with_config-Outcome env (cfg, fine) =
    start_server-Outcome env cfg (init_logger-IsLog cfg.server.environment)
with_config-Outcome env (cfg, failed_with err) = stopped-Outcome _ _ new_log-IsLog

with_file-Outcome :
    (env : Environment) (file : Option Bytes)
    → Outcome
        (configured (config_read env file))
        (warned (config_read env file))
        (port_of (config_read env file))
        (failures_from env file)
        (with_file env file new_log)
unfolding with_file config_read configured warned port_of failures_from
with_file-Outcome env none = stopped-Outcome _ _ new_log-IsLog
with_file-Outcome env (some config) = with_config-Outcome env (env.unmarshal config)

-- The program panics at the first of its steps that fails, and else the server is started at the
-- configured port. What is logged is the warning of an unknown environment, where the configuration
-- is read and has one, and then one line: at level ERROR, the message of the step that failed, with
-- its error (a file that cannot be read has none), or at level INFO that the server has started. The
-- lines are written with the production configuration if the environment that is read is
-- "production", and with the development one otherwise.
pub main-Outcome :
    (env : Environment)
    → Outcome
        (configured (config_read env env.read_file))
        (warned (config_read env env.read_file))
        (port_of (config_read env env.read_file))
        (failures_from env env.read_file)
        (main env new_log)
unfolding main
main-Outcome env = with_file-Outcome env env.read_file
