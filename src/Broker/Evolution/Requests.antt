-- ===== src/Broker/Evolution/Requests.antt =====
-- internal/broker/broker.go: what subscriptions, the end of a client and the QoS packets do to the tree
-- and to the QoS manager.
use goqtt.Base.{
  ℕ, Bool, true, false, List, [], ◌∷◌, Bytes, Option, none, some, if◌then◌else◌, refl, map,
}
use goqtt.Broker.Delivery.{deliver_message, Sends, send_retained, send_retained_messages}
use goqtt.Broker.Granting.{subscribe_filter-Round, unsubscribe_filters_lem, apply_changes}
use goqtt.Broker.Handlers.{
  publish_released, handle_subscribe, subscribe_filters, subscribe_filter, add_filter, grant_filter,
  handle_unsubscribe, handle_client_disconnect, broker_pub_ack, broker_pub_rec, broker_pub_comp,
  broker_incoming_publish, broker_incoming_pub_rel,
}
use goqtt.Broker.Qos.{ReceivedQos2, handle_incoming_pub_rel}
use goqtt.Broker.Qos.History.{
  pub_acked, pub_recorded, pub_completed, published, released, client_left, call,
}
use goqtt.Broker.Session.{Session}
use goqtt.Broker.State.{Broker, RetainedMessage, min_qos}
use goqtt.Broker.Tree.{is_valid_topic_filter, subscribe, TrieNode, topic_matches}
use goqtt.Broker.Tree.Table.{Change, unsubscribed, removed, change_tree}
use goqtt.Dict.{Dict}
use goqtt.Packet.Types.{QosLevel}
use goqtt.Broker.Evolution.{
  Changes, no_change, changed, Calls, no_call, called, Changes-trans, Evolves, Evolves-refl,
  Evolves-trans,
}
use goqtt.Er.{Result, ok, err, panic, stuck}
use goqtt.Packet.Suback.{suback_failure}
use goqtt.Packet.Acks.{PubcompPacket}
use goqtt.Broker.Evolution.Publishing.{deliver_message-Evolves, handle_publish-Evolves}
use goqtt.Packet.Subscribe.{SubscribePacket, SubscribeFilter}
use goqtt.Packet.Unsubscribe.{UnsubscribePacket}

-- The loops of `HandleSubscribe` and `HandleUnsubscribe` only change the tree.
pub apply-Changes : (changes : List Change) (t : TrieNode) → Changes t (apply_changes changes t)
apply-Changes [] t = no_change
apply-Changes (c ∷ cs) t = Changes-trans (changed no_change c) (apply-Changes cs (change_tree c t))

send_retained-Evolves :
    (now : ℕ) (session : Session) (f : Bytes) (q : QosLevel) (rs : Dict Bytes RetainedMessage)
    (b : Broker)
    → Evolves b (send_retained now session f q rs b).1
unfolding send_retained
send_retained-Evolves now session f q [] b = Evolves-refl b
send_retained-Evolves now session f q ((topic, r) ∷ rs) b =
    elim (topic_matches f topic)
      as (λ x.
        Evolves b
          (send_retained now session f q rs
            (if x
              then deliver_message now session topic r.payload (min_qos r.qos q) true b
              else ([], b)).1).1) [
                | true ↦
                    Evolves-trans
                      (deliver_message-Evolves now session topic r.payload (min_qos r.qos q) true b)
                      (send_retained-Evolves now session f q rs _)
                | false ↦ send_retained-Evolves now session f q rs b
              ]

add_filter-Calls :
    (now : ℕ) (session : Session) (filter : SubscribeFilter) (r : Result TrieNode) (b : Broker)
    → Calls b.qos_manager (add_filter now session filter r b).1.1.qos_manager
unfolding add_filter grant_filter send_retained_messages
add_filter-Calls now session filter (ok t) b =
    (send_retained-Evolves now session filter.topic _ b.retained_msgs
      (record b { subscriptions = t })).calls
add_filter-Calls now session filter (err e) b = no_call
add_filter-Calls now session filter panic b = no_call
add_filter-Calls now session filter stuck b = no_call

subscribe_filter-Calls :
    (now : ℕ) (session : Session) (filter : SubscribeFilter) (b : Broker)
    → Calls b.qos_manager (subscribe_filter now session filter b).1.1.qos_manager
unfolding subscribe_filter
subscribe_filter-Calls now session filter b =
    let added =
      subscribe session.client_id session filter.topic filter.qos (some session.client_id)
        b.subscriptions in
    elim (is_valid_topic_filter filter.topic)
      as (λ v.
        let r : ℕ × Sends =
          if v then add_filter now session filter added b else (suback_failure, ([], b)) in
        Calls b.qos_manager r.1.1.qos_manager) [
          | true ↦ add_filter-Calls now session filter added b
          | false ↦ no_call
        ]

subscribe_filters-Evolves :
    (now : ℕ) (session : Session) (filters : List SubscribeFilter) (b : Broker)
    → Evolves b (subscribe_filters now session filters b).1.1
unfolding subscribe_filters
subscribe_filters-Evolves now session [] b = Evolves-refl b
subscribe_filters-Evolves now session (filter ∷ filters) b =
    let round = subscribe_filter-Round now session filter b in
    let first : Evolves b (subscribe_filter now session filter b).1.1 = record {
      sessions_same = round.sessions_same;
      changes = rw round.tree (changed no_change _);
      calls = subscribe_filter-Calls now session filter b;
    } in
    Evolves-trans first (subscribe_filters-Evolves now session filters _)

pub handle_subscribe-Evolves :
    (now : ℕ) (session : Option Session) (p : Option SubscribePacket) (b : Broker)
    → Evolves b (handle_subscribe now session p b).1.1
unfolding handle_subscribe
handle_subscribe-Evolves now none p b = Evolves-refl b
handle_subscribe-Evolves now (some session) none b = Evolves-refl b
handle_subscribe-Evolves now (some session) (some p) b =
    subscribe_filters-Evolves now session p.filters b

pub handle_unsubscribe-Evolves :
    (session : Option Session) (p : Option UnsubscribePacket) (b : Broker)
    → Evolves b (handle_unsubscribe session p b).1
unfolding handle_unsubscribe
handle_unsubscribe-Evolves none p b = Evolves-refl b
handle_unsubscribe-Evolves (some session) none b = Evolves-refl b
handle_unsubscribe-Evolves (some session) (some p) b =
    let tree = unsubscribe_filters_lem session.client_id p.topic_filters b.subscriptions in
    record {
      sessions_same = refl;
      changes = rw tree (
          apply-Changes (map (λ f. unsubscribed session.client_id f) p.topic_filters)
            b.subscriptions);
      calls = no_call;
    }

pub handle_client_disconnect-Evolves :
    (c : Bytes) (b : Broker) → Evolves b (handle_client_disconnect c b)
unfolding handle_client_disconnect change_tree call
handle_client_disconnect-Evolves c b = record {
  sessions_same = refl;
  changes = changed no_change (removed c);
  calls = called no_call (client_left c);
}

-- The methods of the QoS manager.
pub broker_pub_ack-Evolves : (c : Bytes) (i : ℕ) (b : Broker) → Evolves b (broker_pub_ack c i b).1
unfolding broker_pub_ack call
broker_pub_ack-Evolves c i b = record {
  sessions_same = refl;
  changes = no_change;
  calls = called no_call (pub_acked c i);
}

pub broker_pub_rec-Evolves :
    (now : ℕ) (c : Bytes) (i : ℕ) (b : Broker) → Evolves b (broker_pub_rec now c i b).1
unfolding broker_pub_rec call
broker_pub_rec-Evolves now c i b = record {
  sessions_same = refl;
  changes = no_change;
  calls = called no_call (pub_recorded now c i);
}

pub broker_pub_comp-Evolves : (c : Bytes) (i : ℕ) (b : Broker) → Evolves b (broker_pub_comp c i b).1
unfolding broker_pub_comp call
broker_pub_comp-Evolves c i b = record {
  sessions_same = refl;
  changes = no_change;
  calls = called no_call (pub_completed c i);
}

pub broker_incoming_publish-Evolves :
    (now : ℕ) (c : Bytes) (i : ℕ) (topic payload : Bytes) (retain : Bool) (b : Broker)
    → Evolves b (broker_incoming_publish now c i topic payload retain b).1
unfolding broker_incoming_publish call
broker_incoming_publish-Evolves now c i topic payload retain b = record {
  sessions_same = refl;
  changes = no_change;
  calls = called no_call (published now c i topic payload retain);
}

publish_released-Evolves :
    (now i : ℕ) (pubcomp : PubcompPacket) (msg : Option ReceivedQos2) (b : Broker)
    → Evolves b (publish_released now i pubcomp msg b).1.1
unfolding publish_released
publish_released-Evolves now i pubcomp none b = Evolves-refl b
publish_released-Evolves now i pubcomp (some msg) b = handle_publish-Evolves now _ b

pub broker_incoming_pub_rel-Evolves :
    (now : ℕ) (c : Bytes) (i : ℕ) (b : Broker) → Evolves b (broker_incoming_pub_rel now c i b).1.1
unfolding broker_incoming_pub_rel call
broker_incoming_pub_rel-Evolves now c i b =
    let b' : Broker = record b { qos_manager = (handle_incoming_pub_rel c i b.qos_manager).1 } in
    let first : Evolves b b' = record {
      sessions_same = refl;
      changes = no_change;
      calls = called no_call (released c i);
    } in
    Evolves-trans first
      (publish_released-Evolves now i _ (handle_incoming_pub_rel c i b.qos_manager).0.0 b')
