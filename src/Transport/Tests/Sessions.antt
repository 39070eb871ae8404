-- ===== src/Transport/Tests/Sessions.antt =====
-- The theorems on a connection with a session at concrete inputs.
use goqtt.Transport.ExactlyOnce.{publish_release}
use goqtt.Broker.Releasing.{held_publish, IsReleased}
use goqtt.Transport.Holding.{pubrec_write, IsExactlyOnce}
use goqtt.Transport.Releasing.{handle_event_release, pubcomp_write}
use goqtt.Dict.Nested.{find_entry}
use goqtt.Broker.Qos.History.{published, call}
use goqtt.Packet.Acks.{encode_pubrel}
use goqtt.Transport.Rounds.{Moves-refl, IsHandler}
use goqtt.Transport.Publishing.{handle_event_publish, pubacks, received_packet}
use goqtt.Text.{bytes_eq_iff, bytes_eq}
use goqtt.Broker.Tree.{match_topic, new_subscription_tree}
use goqtt.Broker.Fanout.{Deliveries}
use goqtt.Broker.State.{new_broker}
use goqtt.Transport.Cleanup.{handle_event-HasLeft, HasLeft}
use goqtt.Broker.Evolution.{called, no_call, no_change, changed}
use goqtt.Transport.Invariant.{insert-handled, IsNetwork}
use goqtt.Broker.Session.{Write, zero_session, Session}
use goqtt.Packet.Publish.{PublishPacket, encode_publish}
use goqtt.Broker.Qos.{new_qos_manager, handle_incoming_qos2_publish}
use mathlib.Core.Bool.{true≢false}
use goqtt.Transport.Server.{new_server, Connection}
use goqtt.Transport.Network.{handle_event, Network, received}
use goqtt.Transport.Dispatch.{handle_frame}
use goqtt.Dict.{lookup, insert, bytes_key, nat_key}
use goqtt.Base.{none, ◌++◌, arith, List, ◌≡◌, refl, true, false, some, ◌∷◌, []}
use goqtt.Transport.Frame.{packet, closed}
use goqtt.Broker.Tree.Table.{change_tree, Change, subscribed}
use goqtt.Transport.Tests.{a_b-valid, alice, a_b, world, greeting, greeting-IsValid}

-- A connection with a session.
abbrev pub known : Connection
known = record { conn = 1; client_id = alice; session_established = true }

-- "x" has a session on connection 1, and a subscription to "a/b".
abbrev pub session : Session
session = record zero_session { client_id = alice; conn = some 1 }

abbrev pub subscription : Change
subscription = subscribed alice session a_b 2 (some alice)

abbrev pub network : Network
network = record {
  server = record new_server {
    broker = record new_broker {
      sessions = (alice, session) ∷ [];
      subscriptions = change_tree subscription new_subscription_tree;
    };
    current_connections = 1;
  };
  checked = [];
  handlers = (1, known) ∷ [];
}

known-IsHandler : IsHandler 1 network.server.broker.sessions known
unfolding lookup bytes_eq
known-IsHandler = record {
  same_conn = refl;
  fresh = λ e. absurd (true≢false e);
  present = λ e. (session, refl);
}

pub network-IsNetwork : IsNetwork network
unfolding lookup insert
network-IsNetwork = record {
  changes = changed no_change subscription;
  calls = no_call;
  keyed = λ k s e. ground (arith, bytes_eq_iff alice k);
  handled = λ conn c e.
      insert-handled [] 1 known (Moves-refl network.server.broker) known-IsHandler (λ j d f. cc)
        conn c e;
}

handle_event-HasLeft_example :
    HasLeft alice (handle_event (received world 1 closed) network).1.server.broker
unfolding lookup handle_frame
handle_event-HasLeft_example =
    handle_event-HasLeft world 1 closed known network network-IsNetwork refl refl refl refl

handle_event_publish_example :
    let (sent, n') =
      handle_event (received world 1 (packet (encode_publish greeting) [])) network in
    let b = network.server.broker in
    ((delivered : List Write) × Deliveries
        (received_packet greeting)
        b.sessions
        (match_topic a_b b.subscriptions)
        delivered
      × (sent ≡ delivered ++ pubacks 1 (some 9)))
    × (lookup 1 n'.handlers ≡ some known)
unfolding lookup
handle_event_publish_example =
    handle_event_publish world 1 known network greeting [] network-IsNetwork refl refl
      greeting-IsValid (omega arith) refl

-- The server holds a message of QoS 2 from "x".
abbrev holding : Network
holding = record network {
  server = record new_server {
    broker = record new_broker {
      sessions = (alice, session) ∷ [];
      subscriptions = change_tree subscription new_subscription_tree;
      qos_manager =
          (handle_incoming_qos2_publish 0 alice 7 a_b (b'h' ∷ []) false new_qos_manager).1;
    };
    current_connections = 1;
  };
}

holding-IsNetwork : IsNetwork holding
unfolding lookup insert call
holding-IsNetwork = record {
  changes = changed no_change subscription;
  calls = called no_call (published 0 alice 7 a_b (b'h' ∷ []) false);
  keyed = network-IsNetwork.keyed;
  handled = network-IsNetwork.handled;
}

handle_event_release_example :
    let frame = packet (encode_pubrel (record { packet_id = 7 })) [] in
    let (sent, n') = handle_event (received world 1 frame) holding in
    let b = holding.server.broker in
    let held = find_entry alice 7 b.qos_manager.qos2_received in
    ((released : List Write) × IsReleased 7 held b.sessions b.subscriptions released
      × (sent ≡ released ++ pubcomp_write 1 7 ∷ []))
    × (find_entry alice 7 n'.server.broker.qos_manager.qos2_received ≡ none)
    × (lookup 1 n'.handlers ≡ some known)
unfolding lookup
handle_event_release_example =
    handle_event_release world 1 known holding 7 [] holding-IsNetwork refl refl (omega arith) refl

-- A message of QoS 2, and its sender's second attempt.
abbrev parcel : PublishPacket
parcel = record greeting { qos = 2; packet_id = some 7 }

abbrev parcel_again : PublishPacket
parcel_again = record parcel { dup = true }

parcel-IsExactlyOnce : IsExactlyOnce 7 parcel
parcel-IsExactlyOnce = record {
  valid = record {
    qos_le = omega arith;
    dup_qos = λ h. cc;
    topic_valid = a_b-valid;
    topic_length = omega arith;
    id_fits = omega arith;
    size = omega arith;
  };
  level = refl;
  own_id = refl;
}

parcel_again-IsExactlyOnce : IsExactlyOnce 7 parcel_again
parcel_again-IsExactlyOnce = record {
  valid = record {
    qos_le = omega arith;
    dup_qos = λ h. omega arith;
    topic_valid = a_b-valid;
    topic_length = omega arith;
    id_fits = omega arith;
    size = omega arith;
  };
  level = refl;
  own_id = refl;
}

publish_release_example :
    let pubrel = packet (encode_pubrel (record { packet_id = 7 })) [] in
    let b = network.server.broker in
    let (first, n1) = handle_event (received world 1 (packet (encode_publish parcel) [])) network in
    let (again, n2) =
      handle_event (received world 1 (packet (encode_publish parcel_again) [])) n1 in
    let (release, n3) = handle_event (received world 1 pubrel) n2 in
    let (last, n4) = handle_event (received world 1 pubrel) n3 in
    (first ≡ pubrec_write 1 7 ∷ [])
    × (again ≡ pubrec_write 1 7 ∷ [])
    × ((delivered : List Write) × Deliveries
          (held_publish 7 a_b (b'h' ∷ b'i' ∷ []) false)
          b.sessions
          (match_topic a_b b.subscriptions)
          delivered
        × (release ≡ delivered ++ pubcomp_write 1 7 ∷ []))
    × (last ≡ pubcomp_write 1 7 ∷ [])
unfolding lookup find_entry
publish_release_example =
    publish_release world world world world 1 known network parcel parcel_again 7 []
      network-IsNetwork refl refl parcel-IsExactlyOnce parcel_again-IsExactlyOnce refl refl refl
      refl refl
