-- ===== src/Logger/Tests.antt =====
-- The loggers at concrete inputs.
use goqtt.Base.Int.{pos}
use goqtt.Er.{invalid_password}
use goqtt.Text.{ascii}
use goqtt.Er.Texts.{error_text}
use goqtt.Logger.Slog.{handler_with_attrs, handler_with_group, severity, handle_record}
use goqtt.Logger.Records.{written, attrs_added, component_added, Derivation}
use goqtt.Logger.Defs.{
  development_config, default_field, default_fields, convert_level, production_config, new_logger,
  log_attrs, error, fatal,
}
use goqtt.Logger.Events.{error_attr, log_qos_flow, client_id_attr, log_error}
use goqtt.Base.{map, ◌≡◌, List, refl, some, ◌∷◌, []}

-- NewMQTTLogger on the production logger, and then With.
abbrev broker_logger : List Derivation
broker_logger =
    component_added (ascii "broker") ∷ attrs_added (client_id_attr (ascii "c1") ∷ []) ∷ []

-- Below the level of the configuration nothing is written.
production_is_quiet :
    map written
      (log_qos_flow (ascii "c1") 7 (pos 1) (ascii "PUBACK_SENT") [] (new_logger production_config))
    ≡ []
unfolding log_qos_flow log_attrs handle_record severity new_logger convert_level handler_with_group
    handler_with_attrs default_fields default_field
production_is_quiet = refl

-- An error of the program, as its text.
error_is_logged :
    log_error
      (some (ascii (error_text (record { context = "Auth"; message = invalid_password }))))
      (ascii "refused")
      []
      (new_logger development_config)
    ≡ error
        (new_logger development_config)
        (ascii "refused")
        (error_attr (ascii "context: Auth, message: password is invalid") ∷ [])
unfolding log_error error error_attr error_text
error_is_logged = refl

-- Fatal panics, whatever the level.
fatal_text :
    (fatal (new_logger production_config) (ascii "server error") []).1
    ≡ ascii "fatal error: server error"
unfolding fatal
fatal_text = refl
