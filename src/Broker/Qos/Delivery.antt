-- ===== src/Broker/Qos/Delivery.antt =====
-- internal/broker/qos.go: what comes out of the handshakes, and how often a message is sent.
use goqtt.Base.{◌∙◌, ℕ, Bool, none, some, ◌≡◌, arith, Bytes, ==_iff}
use goqtt.Text.{bytes_eq_iff}
use goqtt.Dict.Nested.{find_entry}
use goqtt.Dict.Nested.Laws.{find_entry-add_entry, find_entry-remove_entry}
use goqtt.Broker.Qos.{
  QosManager, PendingMessage, received_message, handle_pub_rec, handle_incoming_qos2_publish,
  handle_incoming_pub_rel, move_pending,
}
use goqtt.Broker.Qos.History.{or_else}

-- What a PUBREL gives to the broker, and what is left.
pub pub_rel-message :
    (c : Bytes) (i : ℕ) (qm : QosManager)
    → ((handle_incoming_pub_rel c i qm).0.0 ≡ find_entry c i qm.qos2_received)
      × (find_entry c i (handle_incoming_pub_rel c i qm).1.qos2_received ≡ none)
unfolding handle_incoming_pub_rel
pub_rel-message c i qm =
    ground (arith, find_entry-remove_entry c i qm.qos2_received c i, bytes_eq_iff c c, ==_iff i i)

pub pubrec_of :
    (now : ℕ) (c : Bytes) (i : ℕ) (topic payload : Bytes) (retain : Bool) (qm : QosManager)
    → (handle_incoming_qos2_publish now c i topic payload retain qm).0 ≡ record { packet_id = i }
unfolding handle_incoming_qos2_publish
pubrec_of now c i topic payload retain qm = ground arith

pub publish-message :
    (now : ℕ) (c : Bytes) (i : ℕ) (topic payload : Bytes) (retain : Bool) (qm : QosManager)
    → find_entry c i (handle_incoming_qos2_publish now c i topic payload retain qm).1.qos2_received
      ≡ some (
          or_else (find_entry c i qm.qos2_received) (received_message c i topic payload retain now))
unfolding handle_incoming_qos2_publish
publish-message now c i topic payload retain qm =
    let r = received_message c i topic payload retain now in
    ground (arith, find_entry-add_entry c i r qm.qos2_received c i, bytes_eq_iff c c, ==_iff i i)

pub_rec-message :
    (now : ℕ) (c : Bytes) (i : ℕ) (msg : PendingMessage) (qm : QosManager)
    → find_entry c i qm.pending_qos2 ≡ some msg
    → find_entry c i (handle_pub_rec now c i qm).1.qos2_received
      ≡ some (received_message c i msg.topic msg.payload msg.retain now)
unfolding handle_pub_rec move_pending
pub_rec-message now c i msg qm e =
    let r = received_message c i msg.topic msg.payload msg.retain now in
    rw e (
      ground (arith, find_entry-add_entry c i r qm.qos2_received c i, bytes_eq_iff c c, ==_iff i i))

-- A QoS 2 message that comes in twice before its PUBREL is delivered once: the first PUBREL gives
-- the message that came first, and the next one gives none.
pub exactly_once :
    (now now' : ℕ) (c : Bytes) (i : ℕ) (topic payload topic' payload' : Bytes)
    (retain retain' : Bool) (qm : QosManager)
    → find_entry c i qm.qos2_received ≡ none
    → let first = (handle_incoming_qos2_publish now c i topic payload retain qm).1 in
      let again = (handle_incoming_qos2_publish now' c i topic' payload' retain' first).1 in
      let release = handle_incoming_pub_rel c i again in
      (release.0.0 ≡ some (received_message c i topic payload retain now))
      × ((handle_incoming_pub_rel c i release.1).0.0 ≡ none)
exactly_once now now' c i topic payload topic' payload' retain retain' qm e =
    let first = (handle_incoming_qos2_publish now c i topic payload retain qm).1 in
    let again = (handle_incoming_qos2_publish now' c i topic' payload' retain' first).1 in
    let release = handle_incoming_pub_rel c i again in
    let kept : find_entry c i again.qos2_received
        ≡ some (received_message c i topic payload retain now) =
      rw (
        publish-message now' c i topic' payload' retain' first,
        publish-message now c i topic payload retain qm,
        e,
      ) in
    (
      (pub_rel-message c i again).0 ∙ kept,
      (pub_rel-message c i release.1).0 ∙ (pub_rel-message c i again).1,
    )

-- One map holds the messages of both directions. Once a client has confirmed a message of the
-- broker's with a PUBREC, a QoS 2 message of its own with the same identifier is taken for a
-- duplicate, and its PUBREL gives the broker's own message instead.
pub pub_rel_collision :
    (now now' : ℕ) (c : Bytes) (i : ℕ) (msg : PendingMessage) (topic payload : Bytes)
    (retain : Bool) (qm : QosManager)
    → find_entry c i qm.pending_qos2 ≡ some msg
    → let recorded = (handle_pub_rec now c i qm).1 in
      let incoming = (handle_incoming_qos2_publish now' c i topic payload retain recorded).1 in
      (handle_incoming_pub_rel c i incoming).0.0
      ≡ some (received_message c i msg.topic msg.payload msg.retain now)
pub_rel_collision now now' c i msg topic payload retain qm e =
    let recorded = (handle_pub_rec now c i qm).1 in
    let incoming = (handle_incoming_qos2_publish now' c i topic payload retain recorded).1 in
    (pub_rel-message c i incoming).0
    ∙ rw (publish-message now' c i topic payload retain recorded, pub_rec-message now c i msg qm e)
