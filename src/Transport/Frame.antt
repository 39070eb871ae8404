-- ===== src/Transport/Frame.antt =====
-- internal/transport/tcp.go: how `handleConnection` cuts the bytes of a connection into packets.
pub mod Stream
pub mod Publish
use goqtt.Base.{
  ℕ, zero, suc, ◌+◌, ◌*◌, Bool, List, [], ◌∷◌, ◌++◌, Bytes, if◌then◌else◌, ◌==◌, ltb, bit_and,
  length, take, drop,
}

-- What reading the next packet comes to, with the bytes behind it. `closed` is the end of the
-- stream, or a read error, at any point before the packet is whole.
pub data Frame : Type 0 where
  closed : Frame
  oversized : Frame
  packet : Bytes → Bytes → Frame

pub data LengthRead : Type 0 where
  length_closed : LengthRead
  length_oversized : LengthRead
  length_read : Bytes → ℕ → Bytes → LengthRead

-- The loop over the remaining length; `rounds` is what is left of the four bytes.
unfoldable pub read_length : ℕ → Bytes → Bytes → ℕ → ℕ → LengthRead
read_length zero stream buf total multiplier = length_oversized
read_length (suc rounds) [] buf total multiplier = length_closed
read_length (suc rounds) (b ∷ stream) buf total multiplier =
    let total' = total + bit_and b 0x7F * multiplier in
    let buf' = buf ++ b ∷ [] in
    let more = read_length rounds stream buf' total' (multiplier * 128) in
    if bit_and b 0x80 == 0 then length_read buf' total' stream else more

-- `io.ReadFull` into what is left of the packet's buffer.
unfoldable pub read_body : ℕ → LengthRead → Frame
read_body header length_closed = closed
read_body header length_oversized = oversized
read_body header (length_read buf n stream) =
    if ltb (length stream) n
    then closed
    else packet (header ∷ (buf ++ take n stream)) (drop n stream)

unfoldable pub read_frame : Bytes → Frame
unfolding read_length read_body
read_frame [] = closed
read_frame (header ∷ stream) = read_body header (read_length 4 stream [] 0 1)
