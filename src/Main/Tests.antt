-- ===== src/Main/Tests.antt =====
-- The start of the program at concrete inputs.
use goqtt.Logger.Slog.{warn_level}
use goqtt.Main.Lines.{line}
use goqtt.Logger.Defs.{development_config}
use goqtt.Logger.Events.{string_attr, global_info}
use goqtt.Text.{bytes_eq, ascii}
use goqtt.Main.Startup.{
  main-Outcome, Outcome, warnings, configuration, new_log, start_steps, failure_of, failures_of,
  failures_from, port_of, warned, config_of, config_read, configured,
}
use goqtt.Main.{
  init_logger, logged, init_schema, make_store, start_server, require, with_config, with_file,
  Environment, main, fine, failed_with, serving,
}
use goqtt.Base.{◌≡◌, true, refl, some, ◌∷◌, []}

-- The store cannot be made, and the environment has no known name.
abbrev read_only : Environment
read_only = record {
  read_file = some (ascii "server: ...");
  unmarshal = λ text. (
    record {
      name = ascii "goqtt";
      version = ascii "1.0";
      server = record { port = ascii "1883"; environment = ascii "test" };
    },
    fine,
  );
  store_is_missing = true;
  mkdir = failed_with (ascii "read-only file system");
  open_store = failed_with (ascii "no such file");
  exec = fine;
}

main-Outcome_example :
    Outcome development_config
      (line development_config warn_level
          (ascii "Invalid server environment config value, assigning default.")
          []
        ∷ [])
      (ascii "1883")
      ((
        ascii "Failed to create store directory",
        string_attr (ascii "error") (ascii "read-only file system") ∷ [],
      )
        ∷ (
          ascii "Failed to open sqlite db",
          string_attr (ascii "error") (ascii "no such file") ∷ [],
        )
        ∷ [])
      (main read_only new_log)
unfolding configured config_read config_of warned port_of failures_from failures_of failure_of
    start_steps make_store configuration warnings bytes_eq string_attr
main-Outcome_example = main-Outcome read_only

-- With everything fine the server listens at its port.
abbrev good : Environment
good = record read_only { mkdir = fine; open_store = fine }

good_is_served :
    main good new_log
    ≡ serving (ascii "1883") (
        logged
          (global_info
            (ascii "Server started listening")
            (string_attr (ascii "port") (ascii "1883") ∷ []))
          (init_logger (ascii "test") new_log))
unfolding main with_file with_config require start_server make_store init_schema logged
good_is_served = refl
