-- ===== src/Broker/Evolution/Publishing.antt =====
-- internal/broker/broker.go: what publishing does to the tree and to the QoS manager.
use goqtt.Base.{
  ℕ, Bool, true, false, List, [], ◌∷◌, Bytes, Option, none, some, if◌then◌else◌, ◌≡◌, ◌⊎◌, inl, inr,
  arith, not,
}
use goqtt.Broker.Delivery.{
  pending, send_packet, deliver_to, deliver_message, call_handler, run_handler, publish_to_all,
  handle_retained_message, Sends,
}
use goqtt.Broker.Fanout.{deliver_message-Keeps}
use goqtt.Broker.Handlers.{PublishError, bad_topic_name, keep_retained, handle_publish}
use goqtt.Broker.Qos.{QosManager}
use goqtt.Broker.Qos.History.{Call, qos1_added, qos2_added, call}
use goqtt.Broker.Session.{Session}
use goqtt.Broker.State.{Broker, generate_packet_id, min_qos}
use goqtt.Broker.Tree.{is_valid_topic_name, Subscription, match_topic}
use goqtt.Packet.Publish.{PublishPacket}
use goqtt.Packet.Types.{QosLevel}
use goqtt.Broker.Evolution.{no_change, Calls, no_call, called, Evolves, Evolves-refl, Evolves-trans}

-- No call or one of two.
one-Calls :
    {q r : QosManager} (c d : Call) → (r ≡ q) ⊎ ((r ≡ call c q) ⊎ (r ≡ call d q)) → Calls q r
one-Calls c d (inl e) = rw e no_call
one-Calls c d (inr (inl e)) = rw e (called no_call c)
one-Calls c d (inr (inr e)) = rw e (called no_call d)

pub deliver_message-Evolves :
    (now : ℕ) (session : Session) (topic payload : Bytes) (qos : QosLevel) (retain : Bool)
    (b : Broker)
    → Evolves b (deliver_message now session topic payload qos retain b).1
unfolding deliver_message deliver_to generate_packet_id send_packet call
deliver_message-Evolves now session topic payload qos retain b =
    let kept = deliver_message-Keeps now session topic payload qos retain b in
    let msg = pending session (generate_packet_id b).0 topic payload qos retain in
    record {
      sessions_same = kept.sessions_kept;
      changes = rw kept.subscriptions_kept no_change;
      calls = one-Calls (qos1_added now msg) (qos2_added now msg) (ground arith);
    }

call_handler-Evolves :
    (now : ℕ) (handler : Option Bytes) (p : PublishPacket) (qos : QosLevel) (b : Broker)
    → Evolves b (call_handler now handler p qos b).1
unfolding call_handler run_handler
call_handler-Evolves now none p qos b = Evolves-refl b
call_handler-Evolves now (some c) p qos b =
    deliver_message-Evolves now _ p.topic p.payload qos p.retain b

publish_to_all-Evolves :
    (now : ℕ) (p : PublishPacket) (ss : List Subscription) (b : Broker)
    → Evolves b (publish_to_all now p ss b).1
unfolding publish_to_all
publish_to_all-Evolves now p [] b = Evolves-refl b
publish_to_all-Evolves now p (s ∷ ss) b =
    Evolves-trans (call_handler-Evolves now s.handler p (min_qos p.qos s.qos) b)
      (publish_to_all-Evolves now p ss _)

keep_retained-Evolves : (p : PublishPacket) (b : Broker) → Evolves b (keep_retained p b)
unfolding keep_retained handle_retained_message
keep_retained-Evolves p b =
    let tree : (keep_retained p b).subscriptions ≡ b.subscriptions = ground arith in
    let manager : (keep_retained p b).qos_manager ≡ b.qos_manager = ground arith in
    record { sessions_same = ground arith; changes = rw tree no_change; calls = rw manager no_call }

pub handle_publish-Evolves :
    (now : ℕ) (p : Option PublishPacket) (b : Broker) → Evolves b (handle_publish now p b).1.1
unfolding handle_publish
handle_publish-Evolves now none b = Evolves-refl b
handle_publish-Evolves now (some p) b =
    elim (is_valid_topic_name p.topic)
      as (λ v.
        let sent =
          publish_to_all now p (match_topic p.topic (keep_retained p b).subscriptions)
            (keep_retained p b) in
        let r : Option PublishError × Sends =
          if not v then (some bad_topic_name, ([], b)) else (none, sent) in
        Evolves b r.1.1) [
          | true ↦ Evolves-trans (keep_retained-Evolves p b) (publish_to_all-Evolves now p _ _)
          | false ↦ Evolves-refl b
        ]
