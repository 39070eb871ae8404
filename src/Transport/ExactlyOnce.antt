-- ===== src/Transport/ExactlyOnce.antt =====
-- internal/transport/tcp.go, `case pkt.PUBLISH` with QoS 2: a message from its PUBLISH to its PUBREL.
use goqtt.Transport.Holding.{handle_event_exactly, pubrec_write, held, IsExactlyOnce}
use goqtt.Encoding.Topic.{validate_topic_name}
use goqtt.Broker.Tree.Matches.{is_ok_iff}
use goqtt.Broker.Releasing.{IsPublished, IsReleased, held_publish}
use mathlib.Core.Path.{subst}
use goqtt.Broker.Tree.{TrieNode, is_valid_topic_name, match_topic}
use goqtt.Broker.Fanout.{Deliveries}
use goqtt.Transport.Releasing.{handle_event_release, pubcomp_write}
use goqtt.Transport.Frame.{packet}
use goqtt.Dict.{bytes_key, nat_key, lookup}
use goqtt.Transport.Invariant.{handle_event-IsNetwork, IsNetwork}
use goqtt.Packet.Publish.Safe.{IdFits}
use goqtt.Broker.Qos.{received_message, ReceivedQos2}
use goqtt.Packet.Publish.{encode_publish, PublishPacket}
use goqtt.Packet.Acks.{encode_pubrel}
use goqtt.Transport.Server.{Connection}
use goqtt.Broker.Session.{SessionMap, Write}
use goqtt.Transport.Handler.{World}
use goqtt.Transport.Network.{received, Network, handle_event}
use goqtt.Base.{
  arith, IsU16, ◌++◌, List, ◌∙◌, true, false, ◌≡◌, Option, ℕ, refl, none, some, ◌∷◌, [], Bytes,
}

-- What a PUBREL sends, by the message that is held.
IsReleased-held :
    (i : ℕ) (m : ReceivedQos2) {o : Option ReceivedQos2} {sessions sessions' : SessionMap}
    {t t' : TrieNode} {sent : List Write}
    → o ≡ some m
    → sessions ≡ sessions'
    → t ≡ t'
    → is_valid_topic_name m.topic ≡ true
    → IsReleased i o sessions t sent
    → Deliveries (held_publish i m.topic m.payload m.retain) sessions' (match_topic m.topic t') sent
IsReleased-held i m {o} {sessions} {sessions'} {t} {t'} {sent} e s u v released =
    let held_one = subst (λ x. IsReleased i x sessions t sent) e released in
    let moved = subst (λ x. IsReleased i (some m) x t sent) s held_one in
    let grown = subst (λ x. IsReleased i (some m) sessions' x sent) u moved in
    subst (λ x. IsPublished x (held_publish i m.topic m.payload m.retain) sessions' t' sent) v grown

IsReleased-none :
    (i : ℕ) (sessions : SessionMap) (t : TrieNode) {o : Option ReceivedQos2} {sent : List Write}
    → o ≡ none
    → IsReleased i o sessions t sent
    → sent ≡ []
IsReleased-none i sessions t {sent} e released =
    subst (λ x. IsReleased i x sessions t sent) e released

-- In a state with the invariant, where a connection with a session sends, one after the other, an
-- encoded PUBLISH of QoS 2 that MQTT allows, a second one with the same identifier, and two PUBREL
-- with it, where the server holds no message for that client and identifier at first, and the writes
-- of the answers do not fail: both PUBLISH packets are answered with a PUBREC alone; the first PUBREL
-- sends the first of the two messages, one packet for each subscription that matches its topic and
-- can be reached, and then the PUBCOMP; and the second PUBREL sends the PUBCOMP alone.
pub publish_release :
    (w x y z : World) (conn : ℕ) (c : Connection) (n : Network) (p q : PublishPacket) (i : ℕ)
    (rest : Bytes)
    → IsNetwork n
    → lookup conn n.handlers ≡ some c
    → c.session_established ≡ true
    → IsExactlyOnce i p
    → IsExactlyOnce i q
    → held c.client_id i n ≡ none
    → w.write_fails ≡ false
    → x.write_fails ≡ false
    → y.write_fails ≡ false
    → z.write_fails ≡ false
    → let pubrel = packet (encode_pubrel (record { packet_id = i })) rest in
      let b = n.server.broker in
      let (first, n1) = handle_event (received w conn (packet (encode_publish p) rest)) n in
      let (again, n2) = handle_event (received x conn (packet (encode_publish q) rest)) n1 in
      let (release, n3) = handle_event (received y conn pubrel) n2 in
      let (last, n4) = handle_event (received z conn pubrel) n3 in
      (first ≡ pubrec_write conn i ∷ [])
      × (again ≡ pubrec_write conn i ∷ [])
      × ((delivered : List Write) × Deliveries
            (held_publish i p.topic p.payload p.retain)
            b.sessions
            (match_topic p.topic b.subscriptions)
            delivered
          × (release ≡ delivered ++ pubcomp_write conn i ∷ []))
      × (last ≡ pubcomp_write conn i ∷ [])
unfolding is_valid_topic_name
publish_release w x y z conn c n p q i rest h e established v v' nothing written written' written''
      written''' =
    let pubrel = packet (encode_pubrel (record { packet_id = i })) rest in
    let m = received_message c.client_id i p.topic p.payload p.retain w.now in
    let b = n.server.broker in
    let n1 = (handle_event (received w conn (packet (encode_publish p) rest)) n).1 in
    let n2 = (handle_event (received x conn (packet (encode_publish q) rest)) n1).1 in
    let n3 = (handle_event (received y conn pubrel) n2).1 in
    let h1 = handle_event-IsNetwork (received w conn (packet (encode_publish p) rest)) h in
    let h2 = handle_event-IsNetwork (received x conn (packet (encode_publish q) rest)) h1 in
    let h3 = handle_event-IsNetwork (received y conn pubrel) h2 in
    let small : IsU16 i = ground (arith, subst (IdFits p.qos) v.own_id v.valid.id_fits, v.level) in
    let (first, kept) = handle_event_exactly w conn c n p i rest h e established v written in
    let (again, kept') =
      handle_event_exactly x conn c n1 q i rest h1 kept.runs established v' written' in
    let (delivered, empty, runs) =
      handle_event_release y conn c n2 i rest h2 kept'.runs established small written'' in
    let (nothing_more, _, _) =
      handle_event_release z conn c n3 i rest h3 runs established small written''' in
    let message : held c.client_id i n2 ≡ some m =
      kept'.held_message ∙ rw (kept.held_message, nothing) refl in
    let valid : is_valid_topic_name p.topic ≡ true =
      (is_ok_iff (validate_topic_name p.topic)).1 v.valid.topic_valid in
    let deliveries =
      IsReleased-held i m message (kept'.same_sessions ∙ kept.same_sessions)
        (kept'.same_tree ∙ kept.same_tree) valid delivered.1 in
    (
      first,
      again,
      (delivered.0, deliveries, delivered.2),
      nothing_more.2 ∙ rw (IsReleased-none i _ _ empty nothing_more.1) refl,
    )
