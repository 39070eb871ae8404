-- ===== src/Transport/Reaching.antt =====
-- internal/transport/tcp.go: a message that is published after a SUBSCRIBE reaches the subscriber.
use goqtt.Transport.Answering.{get_session_found, lookup-insert_same}
use goqtt.Broker.Granting.Effect.{apply_changes_effect}
use goqtt.Transport.Publishing.{pubacks, handle_event_publish, received_packet}
use goqtt.Packet.Publish.Safe.{IsValid}
use goqtt.Broker.Granting.{AreQos}
use goqtt.Transport.Subscribing.{handle_event_subscribe, ParsesTo}
use goqtt.Transport.Invariant.{handle_event-IsNetwork, IsNetwork}
use goqtt.Packet.Subscribe.{SubscribeFilter, SubscribePacket}
use goqtt.Transport.Handler.{World}
use goqtt.Transport.Server.{Connection}
use goqtt.Dict.Laws.{In-append, In}
use goqtt.Broker.Tree.{topic_matches, Subscription}
use goqtt.Broker.Session.{Session, get_session, Write, SessionMap}
use goqtt.Packet.Types.{QosLevel}
use goqtt.Broker.State.{min_qos}
use goqtt.Packet.Publish.{encode_publish, PublishPacket}
use mathlib.Core.Path.{subst}
use mathlib.Core.Option.{some-injective}
use goqtt.Base.{
  ◌++◌, ◌∙◌, sym, ap, Bytes, ◌≤◌, List, ℕ, ◌≡◌, refl, arith, true, false, none, some, inl, inr,
}
use goqtt.Dict.{lookup, bytes_key, nat_key}
use goqtt.Broker.Fanout.{IsUnreachable, Deliveries, IsDelivery, no_more, passed_over, delivered}
use goqtt.Transport.Network.{handle_event, Network, received}
use goqtt.Transport.Frame.{packet}

-- A packet with the message for the connection, of a QoS that the sender's does not exceed.
abbrev pub HasDelivery : ℕ → PublishPacket → List Write → Type 0
HasDelivery k p sent =
    (write : Write) × (qos : QosLevel) × In write sent
    × IsDelivery k p.topic p.payload qos p.retain write
    × (qos ≤ p.qos)

min_qos_le : (a b : QosLevel) → min_qos a b ≤ a
unfolding min_qos
min_qos_le a b = ground arith

some_is_not_none : {A : Type 0} {a : A} → some a ≡ none → ⊥
some_is_not_none e = cc

-- A subscription that is found, and that can be reached, is delivered to.
Deliveries-In :
    (p : PublishPacket) (sessions : SessionMap) {ss : List Subscription} {ws : List Write}
    (s : Subscription) (client_id : Bytes) (k : ℕ)
    → Deliveries p sessions ss ws
    → In s ss
    → s.handler ≡ some client_id
    → (get_session client_id sessions).0.conn ≡ some k
    → HasDelivery k p ws
Deliveries-In p sessions s client_id k no_more m e online = absurd m
Deliveries-In p sessions s client_id k (passed_over u h) (inl same) e online =
    let absent = subst (IsUnreachable sessions) (ap (λ x. x.handler) (sym same) ∙ e) u in
    absurd (some_is_not_none (sym online ∙ absent))
Deliveries-In p sessions s client_id k (passed_over u h) (inr m) e online =
    Deliveries-In p sessions s client_id k h m e online
Deliveries-In p sessions s client_id k (delivered {s = t} {w = w} c j at conn d h) (inl same) e
      online =
    let own : c ≡ client_id = some-injective _ _ (sym at ∙ (ap (λ x. x.handler) (sym same) ∙ e)) in
    let own_conn : j ≡ k =
      some-injective _ _ (sym conn ∙ (ap (λ i. (get_session i sessions).0.conn) own ∙ online)) in
    (
      w,
      min_qos p.qos t.qos,
      inl refl,
      subst (λ i. IsDelivery i p.topic p.payload (min_qos p.qos t.qos) p.retain w) own_conn d,
      min_qos_le p.qos t.qos,
    )
Deliveries-In p sessions s client_id k (delivered c j at conn d h) (inr m) e online =
    let (write, qos, there, d, below) = Deliveries-In p sessions s client_id k h m e online in
    (write, qos, inr there, d, below)

In-front : {A : Type 0} (a : A) (xs ys : List A) → In a xs → In a (xs ++ ys)
In-front a xs ys m = (In-append a xs ys).1 (inl m)

-- In a state with the invariant: one connection sends a SUBSCRIBE, with a QoS of at most 2 for each
-- filter, for a client whose session has an open connection, and after it one sends an encoded
-- PUBLISH of QoS 0 or 1 that MQTT allows, whose topic one of these filters matches; both have a
-- session, and the writes of the answers do not fail. Then a packet with the message is sent to the
-- subscriber's connection, with a QoS of at most the message's own.
pub subscribe_publish :
    (w : World) (conn : ℕ) (c : Connection) (n : Network) (raw rest : Bytes) (p : SubscribePacket)
    (session : Session) (k : ℕ) (w' : World) (conn' : ℕ) (c' : Connection) (m : PublishPacket)
    (rest' : Bytes) (f : SubscribeFilter)
    → IsNetwork n
    → lookup conn n.handlers ≡ some c
    → c.session_established ≡ true
    → ParsesTo w.new_uuid raw p
    → AreQos p.filters
    → lookup c.client_id n.server.broker.sessions ≡ some session
    → session.conn ≡ some k
    → w.write_fails ≡ false
    → lookup conn' n.handlers ≡ some c'
    → c'.session_established ≡ true
    → IsValid m
    → m.qos ≤ 1
    → w'.write_fails ≡ false
    → In f p.filters
    → topic_matches f.topic m.topic ≡ true
    → let n' = (handle_event (received w conn (packet raw rest)) n).1 in
      HasDelivery k
        (received_packet m)
        (handle_event (received w' conn' (packet (encode_publish m) rest')) n').0
subscribe_publish w conn c n raw rest p session k w' conn' c' m rest' f h e established parsed qos
      stored online written e' established' v q written' asked matches =
    let n' = (handle_event (received w conn (packet raw rest)) n).1 in
    let b = n.server.broker in
    let (_, tree, sessions, handlers) =
      handle_event_subscribe w conn c n raw rest p session k h e established parsed qos stored
        online written in
    let runs : lookup conn' n'.handlers ≡ some c' =
      rw handlers (lookup-insert_same conn conn' c c' n.handlers e e') in
    let ((ws, all, sent), _) =
      handle_event_publish w' conn' c' n' m rest'
        (handle_event-IsNetwork (received w conn (packet raw rest)) h) runs established' v q
        written' in
    let (s, found, _, handler) =
      apply_changes_effect session p.filters f b.subscriptions m.topic h.changes asked matches in
    let own : session.client_id ≡ c.client_id = h.keyed c.client_id session stored in
    let reached : (get_session session.client_id n'.server.broker.sessions).0.conn ≡ some k =
      rw (sessions, own, get_session_found c.client_id b.sessions session stored) online in
    let (write, qos, there, d, below) =
      Deliveries-In (received_packet m) n'.server.broker.sessions s session.client_id k all
        (rw tree found) handler reached in
    (write, qos, rw sent (In-front write ws (pubacks conn' m.packet_id) there), d, below)
