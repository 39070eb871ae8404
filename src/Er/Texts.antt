-- ===== src/Er/Texts.antt =====
-- pkg/er/er.go: the text of an error, and the error that it wraps.
use Prim.Native.String.{◌++◌}
use goqtt.Base.{String}
use goqtt.Er.{
  Err, Message, short_buffer, invalid_conn_packet, invalid_packet_type, identifier_rejected,
  empty_client_id, empty_and_clean_session_client_id, client_id_length_exceed,
  invalid_chars_client_id, unsupported_protocol_level, unsupported_protocol_name, invalid_will_qos,
  password_without_username, malformed_username_field, malformed_password_field, hash_failed,
  user_not_found, invalid_password, invalid_publish_packet, publish_remaining_length_exceeded,
  invalid_qos_level, wildcards_not_allowed_in_publish, missing_packet_id, invalid_packet_id,
  invalid_reserved_flag, invalid_packet_length, invalid_dup_flag, empty_topic, topic_too_long,
  payload_too_large, null_character_in_topic, invalid_utf8_topic, control_character_in_topic,
  invalid_disconnect_packet, invalid_subscribe_packet, invalid_subscribe_flags, empty_topic_filter,
  missing_qos_byte, invalid_qos_reserved_bits, no_topic_filters, invalid_utf8_topic_filter,
  null_character_in_topic_filter, control_character_in_topic_filter, multi_level_wildcard_not_last,
  multi_level_wildcard_not_alone, single_level_wildcard_not_alone, invalid_unsubscribe_packet,
  invalid_unsubscribe_flags, invalid_pingreq_packet, invalid_pingreq_flags, invalid_pingreq_length,
  invalid_pingresp_packet, invalid_pingresp_flags, invalid_pingresp_length,
  remaining_length_exceeded, invalid_utf8_string, empty_topic_level, invalid_single_level_wildcard,
  invalid_multi_level_wildcard,
}

-- The texts that the file gives to `errors.New`.
unfoldable pub message_text : Message → String
message_text short_buffer = "buffer is too short"
message_text invalid_conn_packet = "connect packet is invalid"
message_text invalid_packet_type = "packet type is invalid"
message_text identifier_rejected = "identifier rejected"
message_text empty_client_id = "empty client id requires clean session to be 1"
message_text empty_and_clean_session_client_id = "client id is empty and clean session is set to 0"
message_text client_id_length_exceed = "client id exceeds 23 bytes"
message_text invalid_chars_client_id = "client id contains invalid characters"
message_text unsupported_protocol_level = "protocol level is not supported"
message_text unsupported_protocol_name = "protocol name is not supported"
message_text invalid_will_qos = "willqos level is invalid"
message_text password_without_username = "password flag set without username flag"
message_text malformed_username_field = "malformed username field"
message_text malformed_password_field = "malformed password field"
message_text hash_failed = "failed to hash password"
message_text user_not_found = "user does not exist"
message_text invalid_password = "password is invalid"
message_text invalid_publish_packet = "publish packet is invalid"
message_text publish_remaining_length_exceeded = "remaining length exceeds maximum of 4 bytes"
message_text invalid_qos_level = "qos level is invalid"
message_text wildcards_not_allowed_in_publish = "wildcards not allowed in publish topic"
message_text missing_packet_id = "packet ID required for QoS > 0"
message_text invalid_packet_id = "packet ID cannot be 0"
message_text invalid_reserved_flag = "reserved flag bit must be 0"
message_text invalid_packet_length = "packet length mismatch"
message_text invalid_dup_flag = "DUP flag cannot be set for QoS 0"
message_text empty_topic = "topic cannot be empty"
message_text topic_too_long = "topic exceeds maximum length"
message_text payload_too_large = "payload exceeds maximum size"
message_text null_character_in_topic = "null character not allowed in topic"
message_text invalid_utf8_topic = "topic must be valid UTF-8"
message_text control_character_in_topic = "control characters not allowed in topic"
message_text invalid_disconnect_packet = "disconnect packet is invalid"
message_text invalid_subscribe_packet = "subscribe packet is invalid"
message_text invalid_subscribe_flags = "subscribe fixed header flags must be 0010"
message_text empty_topic_filter = "topic filter cannot be empty"
message_text missing_qos_byte = "missing QoS byte for topic filter"
message_text invalid_qos_reserved_bits = "QoS reserved bits must be 0"
message_text no_topic_filters = "subscribe must contain at least one topic filter"
message_text invalid_utf8_topic_filter = "topic filter must be valid UTF-8"
message_text null_character_in_topic_filter = "null character not allowed in topic filter"
message_text control_character_in_topic_filter = "control characters not allowed in topic filter"
message_text multi_level_wildcard_not_last = "multi-level wildcard # must be the last character"
message_text multi_level_wildcard_not_alone =
    "multi-level wildcard # must be preceded by / or be alone"
message_text single_level_wildcard_not_alone =
    "single-level wildcard + must be between / characters or at boundaries"
message_text invalid_unsubscribe_packet = "unsubscribe packet is invalid"
message_text invalid_unsubscribe_flags = "unsubscribe fixed header flags must be 0010"
message_text invalid_pingreq_packet = "pingreq packet is invalid"
message_text invalid_pingreq_flags = "pingreq fixed header flags must be 0000"
message_text invalid_pingreq_length = "pingreq remaining length must be 0"
message_text invalid_pingresp_packet = "pingresp packet is invalid"
message_text invalid_pingresp_flags = "pingresp fixed header flags must be 0000"
message_text invalid_pingresp_length = "pingresp remaining length must be 0"
message_text remaining_length_exceeded = "remaining length exceeds maximum of 4 bytes"
message_text invalid_utf8_string = "string must be valid UTF-8"
message_text empty_topic_level = "empty topic level not allowed"
message_text invalid_single_level_wildcard = "single-level wildcard + must be alone in its level"
message_text invalid_multi_level_wildcard = "multi-level wildcard # must be alone in its level"

-- `fmt.Sprintf("context: %s, message: %v", e.Context, e.Message)`
unfoldable pub error_text : Err → String
unfolding message_text
error_text e = "context: " ++ e.context ++ ", message: " ++ message_text e.message

-- What `errors.Is` goes on with.
unfoldable pub unwrap : Err → Message
unwrap e = e.message
