-- ===== src/Broker/Tests.antt =====
-- The theorems on the broker's operations at concrete inputs.
use goqtt.Text.{bytes_eq}
use goqtt.Broker.Tree.{is_valid_topic_name}
use goqtt.Broker.Session.{zero_session, Session}
use goqtt.Broker.Retention.{lookup-handle_publish, to_retain}
use goqtt.Packet.Publish.{PublishPacket}
use goqtt.Broker.Handlers.{handle_publish}
use goqtt.Base.{◌&&◌, if◌then◌else◌, Bytes, ◌≡◌, true, false, none, some, ◌∷◌, []}
use goqtt.Dict.{lookup, bytes_key}
use goqtt.Broker.State.{RetainedMessage, Broker, new_broker}

-- "a/b", and the filter "a/+"
abbrev a_b : Bytes
a_b = b'a' ∷ b'/' ∷ b'b' ∷ []

abbrev a_plus : Bytes
a_plus = b'a' ∷ b'/' ∷ b'+' ∷ []

abbrev session : Session
session = record zero_session { client_id = b'x' ∷ []; conn = some 1 }

abbrev retained : RetainedMessage
retained = record { topic = a_b; payload = b'h' ∷ []; qos = 1 }

abbrev broker : Broker
broker = record new_broker { retained_msgs = (a_b, retained) ∷ [] }

-- An empty message with RETAIN.
abbrev clearing : PublishPacket
clearing = record {
  dup = false;
  qos = 0;
  retain = true;
  topic = a_b;
  packet_id = none;
  payload = [];
  raw = [];
}

lookup-handle_publish_example :
    lookup a_b (handle_publish 0 (some clearing) broker).1.1.retained_msgs ≡ (
      if is_valid_topic_name a_b && (true && bytes_eq a_b a_b)
      then to_retain clearing
      else lookup a_b broker.retained_msgs)
lookup-handle_publish_example = lookup-handle_publish 0 a_b clearing broker
