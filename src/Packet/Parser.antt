-- ===== src/Packet/Parser.antt =====
-- internal/packet/parser.go: `Parse`; internal/packet/packet.go: `ParsedPacket`.
pub mod Dispatch
pub mod RoundTrip
use goqtt.Base.{
  Bool, true, false, ◌&&◌, ltb, ◌==◌, if◌then◌else◌, length, Bytes, bit_and, Option, none, some,
}
use goqtt.Er.{Result, ok, fail, fail_if, ◌>>=◌, ◌>>◌, short_buffer, invalid_packet_type}
use goqtt.Packet.Acks.{
  PubackPacket, PubrecPacket, PubrelPacket, PubcompPacket, parse_puback, parse_pubrec, parse_pubrel,
  parse_pubcomp,
}
use goqtt.Packet.Connect.{ConnectPacket, parse_connect}
use goqtt.Packet.Disconnect.{DisconnectPacket, parse_disconnect}
use goqtt.Packet.Ping.{PingreqPacket, parse_pingreq}
use goqtt.Packet.Publish.{PublishPacket, parse_publish}
use goqtt.Packet.Suback.{SubackPacket, parse_suback}
use goqtt.Packet.Subscribe.{SubscribePacket, parse_subscribe}
use goqtt.Packet.Types.{
  PacketType, connect_type, publish_type, puback_type, pubrec_type, pubrel_type, pubcomp_type,
  subscribe_type, suback_type, unsubscribe_type, unsuback_type, pingreq_type, disconnect_type,
}
use goqtt.Packet.Unsuback.{UnsubackPacket, parse_unsuback}
use goqtt.Packet.Unsubscribe.{UnsubscribePacket, parse_unsubscribe}
use goqtt.Slice.{index}

-- A nil pointer is `none`.
pub record ParsedPacket : Type 0 where
  pub packet_type : PacketType
  pub raw : Bytes
  pub connect : Option ConnectPacket
  pub publish : Option PublishPacket
  pub puback : Option PubackPacket
  pub pubrec : Option PubrecPacket
  pub pubrel : Option PubrelPacket
  pub pubcomp : Option PubcompPacket
  pub subscribe : Option SubscribePacket
  pub suback : Option SubackPacket
  pub unsubscribe : Option UnsubscribePacket
  pub unsuback : Option UnsubackPacket
  pub pingreq : Option PingreqPacket
  pub disconnect : Option DisconnectPacket

abbrev pub is_some {ℓ} : {A : Type ℓ} → Option A → Bool
is_some none = false
is_some (some _) = true

unfoldable pub is_connect : ParsedPacket → Bool
is_connect p = p.packet_type == connect_type && is_some p.connect

unfoldable pub get_connect : ParsedPacket → Option ConnectPacket
unfolding is_connect
get_connect p = if is_connect p then p.connect else none

-- `&ParsedPacket{Type: packetType, Raw: raw}`
abbrev pub blank_packet : PacketType → Bytes → ParsedPacket
blank_packet packet_type raw = record {
  packet_type = packet_type;
  raw = raw;
  connect = none;
  publish = none;
  puback = none;
  pubrec = none;
  pubrel = none;
  pubcomp = none;
  subscribe = none;
  suback = none;
  unsubscribe = none;
  unsuback = none;
  pingreq = none;
  disconnect = none;
}

-- `switch packetType`
unfoldable pub parse_body : Bytes → PacketType → Bytes → Result ParsedPacket
parse_body new_uuid packet_type raw =
    let result = blank_packet packet_type raw in
    if packet_type == connect_type
    then (do pkt ← parse_connect new_uuid raw; ok (record result { connect = some pkt }))
    else if packet_type == publish_type
    then (do pkt ← parse_publish raw; ok (record result { publish = some pkt }))
    else if packet_type == puback_type
    then (do pkt ← parse_puback raw; ok (record result { puback = some pkt }))
    else if packet_type == pubrec_type
    then (do pkt ← parse_pubrec raw; ok (record result { pubrec = some pkt }))
    else if packet_type == pubrel_type
    then (do pkt ← parse_pubrel raw; ok (record result { pubrel = some pkt }))
    else if packet_type == pubcomp_type
    then (do pkt ← parse_pubcomp raw; ok (record result { pubcomp = some pkt }))
    else if packet_type == subscribe_type
    then (do pkt ← parse_subscribe raw; ok (record result { subscribe = some pkt }))
    else if packet_type == suback_type
    then (do pkt ← parse_suback raw; ok (record result { suback = some pkt }))
    else if packet_type == unsubscribe_type
    then (do pkt ← parse_unsubscribe raw; ok (record result { unsubscribe = some pkt }))
    else if packet_type == unsuback_type
    then (do pkt ← parse_unsuback raw; ok (record result { unsuback = some pkt }))
    else if packet_type == pingreq_type
    then (do pkt ← parse_pingreq raw; ok (record result { pingreq = some pkt }))
    else if packet_type == disconnect_type
    then (do pkt ← parse_disconnect raw; ok (record result { disconnect = some pkt }))
    else fail "Parser" invalid_packet_type

unfoldable pub parse : Bytes → Bytes → Result ParsedPacket
parse new_uuid raw = do
  fail_if (ltb (length raw) 1) "Parser" short_buffer
  b0 ← index raw 0
  parse_body new_uuid (bit_and b0 0xF0) raw
