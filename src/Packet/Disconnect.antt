-- ===== src/Packet/Disconnect.antt =====
-- internal/packet/disconnect.go.
use goqtt.Base.{ltb, ◌!=◌, length, Bytes}
use goqtt.Er.{Result, ok, fail_if, ◌>>=◌, ◌>>◌, invalid_disconnect_packet}
use goqtt.Packet.Types.{disconnect_type}
use goqtt.Slice.{index}

pub record DisconnectPacket : Type 0 where

unfoldable pub parse_disconnect : Bytes → Result DisconnectPacket
parse_disconnect raw = do
  fail_if (ltb (length raw) 2) "Disconnect" invalid_disconnect_packet
  b0 ← index raw 0
  fail_if (b0 != disconnect_type) "Disconnect, Control" invalid_disconnect_packet
  b1 ← index raw 1
  fail_if (b1 != 0x00) "Disconnect, Remaining Length" invalid_disconnect_packet
  ok (record {})
