-- ===== src/Main.antt =====
-- main.go: the start and the end of the program. What the file system, the YAML library and the
-- database answer are parameters, and so is the end of the listener.
mod Lines
pub mod Startup
mod Tests
use goqtt.Logger.Slog.{LogRecord, Attr}
use goqtt.Text.{bytes_eq, ascii}
use goqtt.Logger.Defs.{development_config, production_config, Logger, init_global_logger}
use goqtt.Logger.Events.{global_error, global_warn, string_attr, global_fatal, global_info}
use goqtt.Base.{◌++◌, List, Bool, if◌then◌else◌, Option, none, some, ◌∷◌, [], Bytes}

pub record ServerConfig : Type 0 where
  pub port : Bytes
  pub environment : Bytes

pub record Config : Type 0 where
  pub name : Bytes
  pub version : Bytes
  pub server : ServerConfig

-- What a call returns where only its error counts, as its text.
pub data Answer : Type 0 where
  fine : Answer
  failed_with : Bytes → Answer

pub record Environment : Type 0 where
  -- os.ReadFile of config.yml; `none` for an error
  pub read_file : Option Bytes
  -- yaml.Unmarshal: the configuration as it is then, and the error
  pub unmarshal : Bytes → Config × Answer
  -- os.Stat of the store says that it does not exist
  pub store_is_missing : Bool
  -- os.Mkdir
  pub mkdir : Answer
  -- sql.Open
  pub open_store : Answer
  -- db.Exec of the schema
  pub exec : Answer

-- The global logger, and what was logged.
pub record Log : Type 0 where
  pub globals : Option Logger
  pub lines : List LogRecord

-- `main` has panicked with a text, or it has started the server at a port.
pub data Run : Type 0 where
  panicked : Bytes → Log → Run
  serving : Bytes → Log → Run

-- A function on the global logger.
unfoldable pub logged : (Option Logger → List LogRecord × Option Logger) → Log → Log
logged call log =
    let (lines, globals) = call log.globals in
    record { globals = globals; lines = log.lines ++ lines }

-- logger.Fatal
unfoldable pub stopped : Bytes → List Attr → Log → Run
unfolding global_fatal
stopped msg attrs log =
    let ((lines, text), globals) = global_fatal msg attrs log.globals in
    panicked text (record { globals = globals; lines = log.lines ++ lines })

-- `if err != nil { logger.Fatal(msg, logger.String("error", err.Error())) }`
unfoldable pub require : Answer → Bytes → (Log → Run) → Log → Run
unfolding stopped string_attr
require fine msg next log = next log
require (failed_with err) msg next log = stopped msg (string_attr (ascii "error") err ∷ []) log

-- The switch on the environment: InitGlobalLogger, and a warning for an unknown one.
unfoldable pub init_logger : Bytes → Log → Log
unfolding init_global_logger logged global_warn
init_logger environment log =
    if bytes_eq environment (ascii "production")
    then record log { globals = init_global_logger production_config }
    else if bytes_eq environment (ascii "development")
    then record log { globals = init_global_logger development_config }
    else logged
        (global_warn (ascii "Invalid server environment config value, assigning default.") [])
        (record log { globals = init_global_logger development_config })

unfoldable pub make_store : Environment → Answer
make_store env = if env.store_is_missing then env.mkdir else fine

unfoldable pub init_schema : Environment → Answer
init_schema env = env.exec

-- The database is opened, and the server made and started.
unfoldable pub start_server : Environment → Config → Log → Run
unfolding require make_store init_schema logged global_info string_attr
start_server env cfg = require (make_store env) (ascii "Failed to create store directory") (
    require env.open_store (ascii "Failed to open sqlite db") (
      require (init_schema env) (ascii "Failed to initialize schema") (λ log.
        serving cfg.server.port (
          logged
            (global_info (ascii "Server started listening")
              (string_attr (ascii "port") cfg.server.port ∷ []))
            log))))

-- From the answer of yaml.Unmarshal on.
unfoldable pub with_config : Environment → Config × Answer → Log → Run
unfolding require init_logger start_server
with_config env (cfg, answer) log =
    require answer (ascii "Failed to unmarshal yaml config")
      (λ log. start_server env cfg (init_logger cfg.server.environment log)) log

unfoldable pub with_file : Environment → Option Bytes → Log → Run
unfolding stopped with_config
with_file env none log = stopped (ascii "failed to read config from yaml file") [] log
with_file env (some config) log = with_config env (env.unmarshal config) log

-- The server's goroutine, and the shutdown, are not in it.
unfoldable pub main : Environment → Log → Run
unfolding with_file
main env log = with_file env env.read_file log

-- gracefulShutdown once a signal came, and the end of `main`; `answer` is what Stop returns.
unfoldable pub graceful_shutdown : Answer → Log → Log
unfolding logged global_info global_error string_attr
graceful_shutdown fine log =
    logged (global_info (ascii "Graceful shutdown has triggered...") []) log
graceful_shutdown (failed_with err) log =
    logged (global_error (ascii "Shutdown error") (string_attr (ascii "error") err ∷ []))
      (logged (global_info (ascii "Graceful shutdown has triggered...") []) log)
