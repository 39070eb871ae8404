-- ===== src/Transport/Tests/Subscriptions.antt =====
-- The theorems on SUBSCRIBE and on retries at concrete inputs.
use goqtt.Transport.Retaining.{publish_subscribe, HasRetained}
use goqtt.Packet.Publish.Safe.{IsValid}
use goqtt.Transport.Unsubscribing.{handle_event_unsubscribe, ParsesAs}
use goqtt.Broker.Granting.Withdrawing.{names_path}
use goqtt.Broker.Tree.Find.{find}
use goqtt.Packet.Unsuback.{encode_unsuback}
use goqtt.Packet.Unsubscribe.{
  read_topic_filter, topic_filters_loop, unsubscribe_header, UnsubscribePacket, parse_unsubscribe,
}
use goqtt.Broker.Granting.Retained.{RetainedFor}
use goqtt.Broker.Session.{Write}
use goqtt.Broker.Granting.{changes_of, apply_changes, expected_code}
use goqtt.Transport.Publishing.{received_packet}
use goqtt.Packet.Suback.{encode_suback, SubackPacket}
use goqtt.Broker.Tree.Table.{change_tree}
use goqtt.Transport.Reaching.{subscribe_publish, HasDelivery}
use goqtt.Broker.State.{min_qos, new_broker}
use goqtt.Broker.Delivery.{pending}
use goqtt.Packet.Publish.{PublishPacket, encode_publish}
use goqtt.Transport.Server.{new_server}
use goqtt.Transport.Handler.{World}
use goqtt.Broker.Qos.{new_qos_manager, add_pending_qos1, second, PendingMessage}
use goqtt.Broker.Tree.{
  new_subscription_tree, topic_matches, is_valid_topic_filter, is_valid_topic_name, is_ok,
  topic_matches_recursive,
}
use goqtt.Packet.Types.{unsubscribe_type, subscribe_type}
use goqtt.Packet.Parser.{blank_packet, parse, parse_body}
use goqtt.Packet.Subscribe.{
  SubscribePacket, parse_subscribe, subscribe_header, filters_loop, read_filter,
}
use goqtt.Transport.Subscribing.{handle_event_subscribe, ParsesTo}
use goqtt.Encoding.Topic.{is_control}
use goqtt.Encoding.Topic as TopicRules
use goqtt.Text.Utf8.{range_from, valid_string, valid_from, decode_rune, any_rune, runes_from}
use goqtt.Text.Split.{split}
use goqtt.Text.{bytes_eq}
use goqtt.Er.{fail_if}
use goqtt.Slice.{index, slice, uint16}
use goqtt.Encoding.Length.{parse_remaining_length, parse_loop}
use goqtt.Packet.Filter.{
  validate_unsubscribe_topic_filter, validate_topic_filter, validate_wildcards, validate_runes,
  validate_rune,
}
use goqtt.Base.{
  none, ◌&&◌, if◌then◌else◌, ◌++◌, List, map, ◌*◌, Bytes, ◌≡◌, refl, arith, true, false, some, ◌∷◌,
  [], inl,
}
use goqtt.Dict.{insert, lookup, bytes_key, nat_key}
use goqtt.Transport.Network.{handle_event, Network, received}
use goqtt.Transport.Frame.{packet}
use goqtt.Transport.Tests.{a_b-valid, alice, a_b, world, greeting, greeting-IsValid}
use goqtt.Transport.Tests.Sessions.{subscription, network, network-IsNetwork, known, session}

-- A SUBSCRIBE to "a/b" at QoS 1.
abbrev raw : Bytes
raw = 0x82 ∷ 8 ∷ 0 ∷ 5 ∷ 0 ∷ 3 ∷ b'a' ∷ b'/' ∷ b'b' ∷ 1 ∷ []

abbrev request : SubscribePacket
request = record { packet_id = 5; filters = record { topic = a_b; qos = 1 } ∷ []; raw = raw }

raw-ParsesTo : ParsesTo (b'u' ∷ []) raw request
unfolding parse parse_body fail_if index slice uint16 parse_subscribe subscribe_header filters_loop
    read_filter parse_remaining_length parse_loop validate_topic_filter validate_wildcards
    validate_runes validate_rune valid_string valid_from decode_rune any_rune runes_from is_control
raw-ParsesTo = record {
  parsed = record (blank_packet subscribe_type raw) { subscribe = some request };
  parses = refl;
  typed = refl;
  given = refl;
}

handle_event_subscribe_example :
    let (sent, n') = handle_event (received world 1 (packet raw [])) network in
    let b = network.server.broker in
    let suback : SubackPacket = record {
      packet_id = 5;
      return_codes = map expected_code request.filters;
    } in
    ((retained : List Write) × RetainedFor 1 b.retained_msgs request.filters retained
      × (sent ≡ retained ++ (1, encode_suback suback) ∷ []))
    × (n'.server.broker.subscriptions
        ≡ apply_changes (changes_of session request.filters) b.subscriptions)
    × (n'.server.broker.sessions ≡ b.sessions)
    × (n'.handlers ≡ insert 1 known network.handlers)
unfolding lookup bytes_eq
handle_event_subscribe_example =
    handle_event_subscribe world 1 known network raw [] request session 1 network-IsNetwork refl
      refl raw-ParsesTo (refl, tt) refl refl refl

a_b-matches : topic_matches a_b a_b ≡ true
unfolding topic_matches is_valid_topic_filter is_valid_topic_name is_ok topic_matches_recursive
    TopicRules.validate_topic_filter TopicRules.validate_topic_name TopicRules.has_empty_levels
    TopicRules.consecutive_slashes TopicRules.trailing_slash TopicRules.validate_wildcards
    TopicRules.split_topic_levels TopicRules.levels_loop TopicRules.contains_multi_level_wildcard
    TopicRules.contains_single_level_wildcard TopicRules.contains_wildcards
    TopicRules.validate_level TopicRules.validate_levels fail_if valid_string valid_from decode_rune
    any_rune runes_from range_from is_control slice split bytes_eq
a_b-matches = refl

subscribe_publish_example :
    let n' = (handle_event (received world 1 (packet raw [])) network).1 in
    HasDelivery 1
      (received_packet greeting)
      (handle_event (received world 1 (packet (encode_publish greeting) [])) n').0
unfolding lookup bytes_eq
subscribe_publish_example =
    subscribe_publish world 1 known network raw [] request session 1 world 1 known greeting []
      (record { topic = a_b; qos = 1 }) network-IsNetwork refl refl raw-ParsesTo (refl, tt) refl
      refl refl refl refl greeting-IsValid (omega arith) refl (inl refl) a_b-matches

-- The same message, to be retained.
abbrev notice : PublishPacket
notice = record greeting { retain = true }

notice-IsValid : IsValid notice
notice-IsValid = record {
  qos_le = omega arith;
  dup_qos = λ h. cc;
  topic_valid = a_b-valid;
  topic_length = omega arith;
  id_fits = omega arith;
  size = omega arith;
}

publish_subscribe_example :
    let n' = (handle_event (received world 1 (packet (encode_publish notice) [])) network).1 in
    HasRetained 1 a_b (b'h' ∷ b'i' ∷ []) 1 (handle_event (received world 1 (packet raw [])) n').0
unfolding lookup bytes_eq min_qos
publish_subscribe_example =
    publish_subscribe world 1 known network notice [] world 1 known raw [] request session 1
      (record { topic = a_b; qos = 1 }) network-IsNetwork refl refl notice-IsValid (omega arith)
      refl (omega arith) refl refl refl raw-ParsesTo (refl, tt) refl refl refl (inl refl)
      a_b-matches

-- A message of QoS 1 that was sent 30 s ago waits for its PUBACK.
abbrev waiting : PendingMessage
waiting = pending session 7 a_b (b'h' ∷ []) 1 false

abbrev unanswered : Network
unanswered = record network {
  server = record new_server {
    broker = record new_broker {
      sessions = (alice, session) ∷ [];
      subscriptions = change_tree subscription new_subscription_tree;
      qos_manager = add_pending_qos1 0 waiting new_qos_manager;
    };
    current_connections = 1;
  };
}

abbrev later : World
later = record world { now = 30 * second }

-- An UNSUBSCRIBE from "a/b".
abbrev goodbye_raw : Bytes
goodbye_raw = 0xA2 ∷ 7 ∷ 0 ∷ 6 ∷ 0 ∷ 3 ∷ b'a' ∷ b'/' ∷ b'b' ∷ []

abbrev goodbye : UnsubscribePacket
goodbye = record { packet_id = 6; topic_filters = a_b ∷ []; raw = goodbye_raw }

goodbye_raw-ParsesAs : ParsesAs (b'u' ∷ []) goodbye_raw goodbye
unfolding parse parse_body fail_if index slice uint16 parse_unsubscribe unsubscribe_header
    topic_filters_loop read_topic_filter parse_remaining_length parse_loop
    validate_unsubscribe_topic_filter validate_topic_filter validate_wildcards validate_runes
    validate_rune valid_string valid_from decode_rune any_rune runes_from is_control
goodbye_raw-ParsesAs = record {
  parsed = record (blank_packet unsubscribe_type goodbye_raw) { unsubscribe = some goodbye };
  parses = refl;
  typed = refl;
  given = refl;
}

handle_event_unsubscribe_example :
    let (sent, n') = handle_event (received world 1 (packet goodbye_raw [])) network in
    let b = network.server.broker in
    let b' = n'.server.broker in
    (sent ≡ (1, encode_unsuback (record { packet_id = 6 })) ∷ [])
    × ((path : List Bytes) (d : Bytes)
        → find path d b'.subscriptions ≡ (
            if names_path (a_b ∷ []) path && bytes_eq alice d
            then none
            else find path d b.subscriptions))
    × (b'.sessions ≡ b.sessions)
    × (b'.retained_msgs ≡ b.retained_msgs)
    × (n'.handlers ≡ insert 1 known network.handlers)
unfolding lookup bytes_eq
handle_event_unsubscribe_example =
    handle_event_unsubscribe world 1 known network goodbye_raw [] goodbye session network-IsNetwork
      refl refl goodbye_raw-ParsesAs refl refl
