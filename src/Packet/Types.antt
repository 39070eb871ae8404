-- ===== src/Packet/Types.antt =====
-- internal/packet/packet.go: the packet types. internal/packet/publish.go: the QoS levels.
use goqtt.Base.{ℕ, String, ◌==◌, if◌then◌else◌}

-- A `PacketType` is a byte.
abbrev pub PacketType : Type 0
PacketType = ℕ

abbrev pub connect_type : PacketType
connect_type = 0x10

abbrev pub connack_type : PacketType
connack_type = 0x20

abbrev pub publish_type : PacketType
publish_type = 0x30

abbrev pub puback_type : PacketType
puback_type = 0x40

abbrev pub pubrec_type : PacketType
pubrec_type = 0x50

abbrev pub pubrel_type : PacketType
pubrel_type = 0x60

abbrev pub pubcomp_type : PacketType
pubcomp_type = 0x70

abbrev pub subscribe_type : PacketType
subscribe_type = 0x80

abbrev pub suback_type : PacketType
suback_type = 0x90

abbrev pub unsubscribe_type : PacketType
unsubscribe_type = 0xA0

abbrev pub unsuback_type : PacketType
unsuback_type = 0xB0

abbrev pub pingreq_type : PacketType
pingreq_type = 0xC0

abbrev pub pingresp_type : PacketType
pingresp_type = 0xD0

abbrev pub disconnect_type : PacketType
disconnect_type = 0xE0

-- A `QoSLevel` is a `uint8`; the levels in use are 0, 1 and 2.
abbrev pub QosLevel : Type 0
QosLevel = ℕ

abbrev pub qos_at_most_once : QosLevel
qos_at_most_once = 0

abbrev pub qos_at_least_once : QosLevel
qos_at_least_once = 1

abbrev pub qos_exactly_once : QosLevel
qos_exactly_once = 2

abbrev pub max_payload_size : ℕ
max_payload_size = 268435455

unfoldable pub packet_type_string : PacketType → String
packet_type_string pt =
    if pt == connect_type
    then "CONNECT"
    else if pt == connack_type
    then "CONNACK"
    else if pt == publish_type
    then "PUBLISH"
    else if pt == puback_type
    then "PUBACK"
    else if pt == pubrec_type
    then "PUBREC"
    else if pt == pubrel_type
    then "PUBREL"
    else if pt == pubcomp_type
    then "PUBCOMP"
    else if pt == subscribe_type
    then "SUBSCRIBE"
    else if pt == suback_type
    then "SUBACK"
    else if pt == unsubscribe_type
    then "UNSUBSCRIBE"
    else if pt == unsuback_type
    then "UNSUBACK"
    else if pt == pingreq_type
    then "PINGREQ"
    else if pt == pingresp_type
    then "PINGRESP"
    else if pt == disconnect_type
    then "DISCONNECT"
    else "UNKNOWN"
