-- ===== src/Transport/Tests.antt =====
-- The theorems on the server at concrete inputs.
pub mod Sessions
mod Subscriptions
use goqtt.Transport.Releasing.{handle_event_release, pubcomp_write}
use goqtt.Broker.Releasing.{IsReleased}
use goqtt.Dict.Nested.{find_entry}
use goqtt.Broker.Qos.History.{published, call}
use goqtt.Packet.Acks.{encode_pubrel}
use goqtt.Transport.Rounds.{Moves-refl, IsHandler}
use goqtt.Transport.Limit.{network_of-count, crowd}
use goqtt.Transport.Frame.Publish.{parse_publish-packets_of}
use goqtt.Transport.Publishing.{handle_event_publish, pubacks, received_packet}
use goqtt.Text.{bytes_eq_iff, bytes_eq}
use goqtt.Packet.Connect.{ConnectPacket}
use goqtt.Er.{ok, fail_if}
use goqtt.Broker.Tree.{match_topic, new_subscription_tree}
use goqtt.Broker.Fanout.{Deliveries}
use goqtt.Broker.State.{new_broker}
use goqtt.Transport.Admission.{handle_frame_admission, IsAdmitted, IsConnectFrame, IsRefused}
use goqtt.Packet.Connect.Safe.{short_connect}
use goqtt.Transport.Cleanup.{handle_event-HasLeft, HasLeft}
use goqtt.Broker.Evolution.{called, no_call, no_change, changed}
use goqtt.Transport.Invariant.{insert-handled, network_of-IsNetwork, IsNetwork}
use goqtt.Broker.Session.{Write, zero_session, Session}
use goqtt.Packet.Publish.{parse_publish, encode_publish, PublishPacket}
use goqtt.Broker.Qos.{new_qos_manager, handle_incoming_qos2_publish}
use goqtt.Transport.Counter.{network_of-IsCounted, refusals_of, refusals, IsCounted}
use goqtt.Transport.Handler.{World}
use goqtt.Transport.Frame.Stream.{packets_of, IsFrame}
use goqtt.Transport.Loop.{Surroundings, Served, serve}
use goqtt.Transport.Loop.Packets.{serve_packets, serve-concat}
use goqtt.Transport.Loop.Ends.{serve-enough}
use mathlib.Core.Bool.{true≢false}
use goqtt.Encoding.Topic.{
  validate_topic_name, has_empty_levels, contains_wildcards, is_control, consecutive_slashes,
  trailing_slash,
}
use goqtt.Text.Utf8.{valid_string, valid_from, any_rune, runes_from, decode_rune}
use goqtt.Encoding.Length.{encode_remaining_length, encode_loop}
use goqtt.Transport.Server.{
  check_server_availability, end_connection, start_handler, stop, new_server, Connection,
}
use goqtt.Transport.Network.{
  network_of, handle_event, accept, start, started, settle, Event, Network, received, accepted,
  stopped,
}
use goqtt.Transport.Dispatch.{handle_frame}
use goqtt.Dict.{lookup, insert, delete, bytes_key, nat_key}
use goqtt.Base.{
  none, concat, drop, ℕ, ◌<◌, ◌≤◌, ◌++◌, ◌⊎◌, ◌+◌, length, arith, map, List, Bytes, ◌≡◌, refl, true,
  false, some, ◌∷◌, [],
}
use goqtt.Packet.Publish.Safe.{IsValid}
use goqtt.Transport.Frame.{Frame, packet, closed, read_frame, read_length, read_body}
use goqtt.Broker.Tree.Table.{change_tree, Change, subscribed}
use goqtt.Auth.{no_rows}

abbrev pub alice : Bytes
alice = b'x' ∷ []

-- The topic and filter "a/b"
abbrev pub a_b : Bytes
a_b = b'a' ∷ b'/' ∷ b'b' ∷ []

abbrev pub world : World
world = record {
  now = 0;
  new_uuid = b'u' ∷ [];
  write_fails = false;
  query = λ _. no_rows;
  compare = λ _ _. false;
}

abbrev pub greeting : PublishPacket
greeting = record {
  dup = false;
  qos = 1;
  retain = false;
  topic = a_b;
  packet_id = some 9;
  payload = b'h' ∷ b'i' ∷ [];
  raw = [];
}

pub a_b-valid : validate_topic_name a_b ≡ ok tt
unfolding validate_topic_name has_empty_levels contains_wildcards is_control consecutive_slashes
    trailing_slash valid_string valid_from any_rune runes_from decode_rune fail_if
a_b-valid = refl

pub greeting-IsValid : IsValid greeting
greeting-IsValid = record {
  qos_le = omega arith;
  dup_qos = λ h. cc;
  topic_valid = a_b-valid;
  topic_length = omega arith;
  id_fits = omega arith;
  size = omega arith;
}

-- A connection without a session.
abbrev fresh : Connection
fresh = record { conn = 1; client_id = []; session_established = false }

-- A CONNECT of "c", and a frame that is a PINGREQ.
abbrev connect_raw : Bytes
connect_raw = short_connect 0x10 13 2 0 60 (0 ∷ 1 ∷ b'c' ∷ [])

abbrev connect_frame : Frame
connect_frame = packet connect_raw []

abbrev ping_frame : Bytes
ping_frame = 0xC0 ∷ 0 ∷ []

ping_frame-IsFrame : IsFrame ping_frame
unfolding encode_remaining_length encode_loop
ping_frame-IsFrame = record { header = 0xC0; body = []; size_le = omega arith; framed = refl }

connect_raw-IsFrame : IsFrame connect_raw
unfolding encode_remaining_length encode_loop
connect_raw-IsFrame = record {
  header = 0x10;
  body = drop 2 connect_raw;
  size_le = omega arith;
  framed = refl;
}

-- The third packet is cut off by the end of the stream.
abbrev cut_off : Bytes
cut_off = 0x30 ∷ 5 ∷ 0 ∷ []

abbrev quiet : Surroundings
quiet = record { world = λ k. world; others = λ k srv. srv }

serve-concat_example :
    let stream = concat (connect_raw ∷ ping_frame ∷ []) ++ cut_off in
    serve (length stream + 1) quiet 0 fresh stream new_server
    ≡ some (serve_packets quiet 0 fresh (connect_raw ∷ ping_frame ∷ []) new_server)
unfolding read_frame read_length read_body
serve-concat_example =
    serve-concat quiet fresh (connect_raw ∷ ping_frame ∷ []) cut_off new_server
      (connect_raw-IsFrame, (ping_frame-IsFrame, tt)) refl

serve-enough_example :
    (served : Served) × ((fuel : ℕ)
      → length connect_raw < fuel
      → serve fuel quiet 0 fresh connect_raw new_server ≡ some served)
serve-enough_example = serve-enough quiet fresh connect_raw new_server

parse_publish-packets_of_example :
    let stream = concat (map encode_publish (greeting ∷ greeting ∷ [])) in
    map parse_publish (packets_of (length stream + 1) stream)
    ≡ map (λ p. ok (record p { raw = encode_publish p })) (greeting ∷ greeting ∷ [])
parse_publish-packets_of_example =
    parse_publish-packets_of (greeting ∷ greeting ∷ []) (greeting-IsValid, (greeting-IsValid, tt))

-- A client connects and leaves, the server stops, and the next client is refused.
abbrev events : List Event
events =
    started world 2
    ∷ accepted 2
    ∷ stopped
    ∷ received world 1 closed
    ∷ received world 1 connect_frame
    ∷ started world 1
    ∷ accepted 1
    ∷ []

network_of-IsNetwork_example : IsNetwork (network_of events).1
network_of-IsNetwork_example = network_of-IsNetwork events

network_of-IsCounted_example : IsCounted (refusals events) (network_of events).1
network_of-IsCounted_example = network_of-IsCounted events

-- Two connections stand between their check and their count together, and a third is refused.
abbrev refusal : List Event
refusal =
    started world 3
    ∷ accepted 3
    ∷ stopped
    ∷ started world 1
    ∷ started world 2
    ∷ accepted 1
    ∷ accepted 2
    ∷ []

network_of-count_example :
    length (network_of refusal).1.handlers ≤ 999 + crowd refusal + refusals refusal
unfolding refusals refusals_of network_of handle_event stop lookup check_server_availability accept
    start settle start_handler insert delete end_connection
network_of-count_example = network_of-count refusal (omega arith) (omega arith)

handle_frame_admission_example :
    let step = handle_frame world fresh connect_frame new_server in
    IsRefused 1 new_server step
    ⊎ ((p : ConnectPacket) × IsConnectFrame world connect_frame p
        × IsAdmitted world 1 p new_server step)
handle_frame_admission_example = handle_frame_admission world fresh connect_frame new_server refl
