-- ===== src/Logger/Events.antt =====
-- internal/logger/logger.go: the methods for the events of the broker, the functions on the global
-- logger, and the attributes. LogPerformance and Any, whose values are of any type, are left out.
use goqtt.Text.{ascii}
use goqtt.Logger.Slog.{
  warn_level, info_level, debug_level, error_level, LogRecord, flag, text, number, Attr,
}
use goqtt.Logger.Defs.{Logger, info, debug, error, warn, fatal, get_global_logger, log_attrs}
use goqtt.Base.Int.{ℤ, pos}
use goqtt.Base.{
  none, some, ◌∷◌, [], not, ◌++◌, if◌then◌else◌, [], some, ◌∷◌, ℕ, Option, List, Bool, Bytes,
}

unfoldable pub string_attr : Bytes → Bytes → Attr
string_attr key value = record { key = key; value = text value }

unfoldable pub int_attr : Bytes → ℤ → Attr
int_attr key value = record { key = key; value = number value }

unfoldable pub bool_attr : Bytes → Bool → Attr
bool_attr key value = record { key = key; value = flag value }

unfoldable pub client_id_attr : Bytes → Attr
unfolding string_attr
client_id_attr client_id = string_attr (ascii "client_id") client_id

-- An error is its text.
unfoldable pub error_attr : Bytes → Attr
unfolding string_attr
error_attr err = string_attr (ascii "error") err

unfoldable pub log_client_connection : Bytes → Bytes → Bytes → List Attr → Logger → List LogRecord
unfolding string_attr int_attr bool_attr log_attrs
log_client_connection client_id remote_addr action attrs l =
    let base_attrs =
      string_attr (ascii "client_id") client_id
      ∷ string_attr (ascii "remote_addr") remote_addr
      ∷ string_attr (ascii "action") action
      ∷ [] in
    log_attrs l info_level (ascii "Client connection event") (base_attrs ++ attrs)

unfoldable pub log_mqtt_packet : Bytes → Bytes → Bytes → List Attr → Logger → List LogRecord
unfolding string_attr int_attr bool_attr log_attrs
log_mqtt_packet packet_type client_id direction attrs l =
    let base_attrs =
      string_attr (ascii "packet_type") packet_type
      ∷ string_attr (ascii "client_id") client_id
      ∷ string_attr (ascii "direction") direction
      ∷ [] in
    log_attrs l debug_level (ascii "MQTT packet") (base_attrs ++ attrs)

unfoldable pub log_publish : Bytes → Bytes → ℤ → Bool → ℤ → List Attr → Logger → List LogRecord
unfolding string_attr int_attr bool_attr log_attrs
log_publish client_id topic qos retain payload_size attrs l =
    let base_attrs =
      string_attr (ascii "client_id") client_id
      ∷ string_attr (ascii "topic") topic
      ∷ int_attr (ascii "qos") qos
      ∷ bool_attr (ascii "retain") retain
      ∷ int_attr (ascii "payload_size") payload_size
      ∷ [] in
    log_attrs l info_level (ascii "Message published") (base_attrs ++ attrs)

unfoldable pub log_subscription : Bytes → Bytes → ℤ → Bytes → List Attr → Logger → List LogRecord
unfolding string_attr int_attr bool_attr log_attrs
log_subscription client_id topic qos action attrs l =
    let base_attrs =
      string_attr (ascii "client_id") client_id
      ∷ string_attr (ascii "topic_filter") topic
      ∷ int_attr (ascii "qos") qos
      ∷ string_attr (ascii "action") action
      ∷ [] in
    log_attrs l info_level (ascii "Subscription event") (base_attrs ++ attrs)

-- `err` is `none` for nil.
unfoldable pub log_error : Option Bytes → Bytes → List Attr → Logger → List LogRecord
unfolding string_attr log_attrs
log_error none message attrs l = log_attrs l error_level message attrs
log_error (some err) message attrs l =
    log_attrs l error_level message (attrs ++ (string_attr (ascii "error") err ∷ []))

unfoldable pub log_auth : Bytes → Bytes → Bool → Bytes → List Attr → Logger → List LogRecord
unfolding string_attr int_attr bool_attr log_attrs
log_auth client_id username success reason attrs l =
    let base_attrs =
      string_attr (ascii "client_id") client_id
      ∷ string_attr (ascii "username") username
      ∷ bool_attr (ascii "success") success
      ∷ string_attr (ascii "reason") reason
      ∷ [] in
    log_attrs l (if not success then warn_level else info_level) (ascii "Authentication attempt")
      (base_attrs ++ attrs)

unfoldable pub log_qos_flow : Bytes → ℕ → ℤ → Bytes → List Attr → Logger → List LogRecord
unfolding string_attr int_attr bool_attr log_attrs
log_qos_flow client_id packet_id qos step attrs l =
    let base_attrs =
      string_attr (ascii "client_id") client_id
      ∷ int_attr (ascii "packet_id") (pos packet_id)
      ∷ int_attr (ascii "qos") qos
      ∷ string_attr (ascii "step") step
      ∷ [] in
    log_attrs l debug_level (ascii "QoS flow control") (base_attrs ++ attrs)

unfoldable pub log_retained_message : Bytes → Bytes → ℤ → List Attr → Logger → List LogRecord
unfolding string_attr int_attr bool_attr log_attrs
log_retained_message topic action payload_size attrs l =
    let base_attrs =
      string_attr (ascii "topic") topic
      ∷ string_attr (ascii "action") action
      ∷ int_attr (ascii "payload_size") payload_size
      ∷ [] in
    log_attrs l debug_level (ascii "Retained message operation") (base_attrs ++ attrs)

-- The functions of the package log on the global logger, which each returns as it is then.
unfoldable pub global_debug : Bytes → List Attr → Option Logger → List LogRecord × Option Logger
unfolding get_global_logger debug
global_debug msg attrs globals =
    let (l, globals') = get_global_logger globals in (debug l msg attrs, globals')

unfoldable pub global_info : Bytes → List Attr → Option Logger → List LogRecord × Option Logger
unfolding get_global_logger info
global_info msg attrs globals =
    let (l, globals') = get_global_logger globals in (info l msg attrs, globals')

unfoldable pub global_warn : Bytes → List Attr → Option Logger → List LogRecord × Option Logger
unfolding get_global_logger warn
global_warn msg attrs globals =
    let (l, globals') = get_global_logger globals in (warn l msg attrs, globals')

unfoldable pub global_error : Bytes → List Attr → Option Logger → List LogRecord × Option Logger
unfolding get_global_logger error
global_error msg attrs globals =
    let (l, globals') = get_global_logger globals in (error l msg attrs, globals')

unfoldable pub global_fatal :
    Bytes → List Attr → Option Logger → (List LogRecord × Bytes) × Option Logger
unfolding get_global_logger fatal
global_fatal msg attrs globals =
    let (l, globals') = get_global_logger globals in (fatal l msg attrs, globals')
