-- ===== src/Broker/Granting/Retained.antt =====
-- internal/broker/broker.go, `HandleSubscribe`: the retained messages that a SUBSCRIBE packet brings.
use goqtt.Broker.Tree.Table.{or_same}
use goqtt.Broker.Retention.{send_retained-RetainedSent, RetainedSent}
use goqtt.Broker.Granting.{subscribe-valid, send_retained-Keeps, AreQos}
use goqtt.Broker.Tree.{subscribe, is_valid_topic_filter, TrieNode}
use goqtt.Broker.Delivery.{Sends, send_retained_messages}
use goqtt.Packet.Subscribe.{SubscribeFilter}
use goqtt.Packet.Types.{QosLevel}
use goqtt.Broker.Session.{Write, Session}
use goqtt.Broker.State.{Broker, RetainedMessage, get_granted_qos}
use goqtt.Broker.Handlers.{grant_filter, add_filter, subscribe_filter, subscribe_filters}
use mathlib.Core.Path.{subst}
use goqtt.Er.{Result, ok, err, panic, stuck}
use goqtt.Base.{
  ◌++◌, if_both, Bool-cases, List, Bytes, leb, ℕ, ◌≡◌, refl, arith, true, false, some, ◌∷◌, [], inl,
  inr,
}
use goqtt.Dict.{Dict, bytes_key}

-- For each valid filter in turn, one packet for each retained message that it matches.
pub data RetainedFor (conn : ℕ) (rs : Dict Bytes RetainedMessage)
    : List SubscribeFilter → List Write → Type 0 where
  no_filter : RetainedFor conn rs [] []
  granted :
      {f : SubscribeFilter} {fs : List SubscribeFilter} {ws more : List Write}
      → is_valid_topic_filter f.topic ≡ true
      → RetainedSent f.topic conn f.qos rs ws
      → RetainedFor conn rs fs more
      → RetainedFor conn rs (f ∷ fs) (ws ++ more)
  refused :
      {f : SubscribeFilter} {fs : List SubscribeFilter} {more : List Write}
      → is_valid_topic_filter f.topic ≡ false
      → RetainedFor conn rs fs more
      → RetainedFor conn rs (f ∷ fs) more

get_granted_qos_lem : (q : QosLevel) → leb q 2 ≡ true → get_granted_qos q ≡ q
unfolding get_granted_qos
get_granted_qos_lem q h = ground arith

add_filter-retained :
    (now : ℕ) (session : Session) (f : SubscribeFilter) (r : Result TrieNode) (b : Broker)
    → (add_filter now session f r b).1.1.retained_msgs ≡ b.retained_msgs
unfolding add_filter grant_filter send_retained_messages
add_filter-retained now session f (ok t) b =
    (send_retained-Keeps now session f.topic (get_granted_qos f.qos) b.retained_msgs
      (record b { subscriptions = t })).retained_kept
add_filter-retained now session f (err e) b = refl
add_filter-retained now session f panic b = refl
add_filter-retained now session f stuck b = refl

subscribe_filter-retained :
    (now : ℕ) (session : Session) (f : SubscribeFilter) (b : Broker)
    → (subscribe_filter now session f b).1.1.retained_msgs ≡ b.retained_msgs
unfolding subscribe_filter
subscribe_filter-retained now session f b =
    let P : ℕ × Sends → Type 0 = λ r. r.1.1.retained_msgs ≡ b.retained_msgs in
    if_both P (is_valid_topic_filter f.topic) (add_filter-retained now session f _ b) refl

-- A round for a filter that is not valid sends nothing, and one for a valid filter what is retained.
subscribe_filter-invalid :
    (now : ℕ) (session : Session) (f : SubscribeFilter) (b : Broker)
    → is_valid_topic_filter f.topic ≡ false
    → (subscribe_filter now session f b).1.0 ≡ []
unfolding subscribe_filter
subscribe_filter-invalid now session f b v = rw v refl

subscribe_filter-RetainedSent :
    (now conn : ℕ) (session : Session) (f : SubscribeFilter) (b : Broker)
    → session.conn ≡ some conn
    → leb f.qos 2 ≡ true
    → is_valid_topic_filter f.topic ≡ true
    → RetainedSent f.topic conn f.qos b.retained_msgs (subscribe_filter now session f b).1.0
unfolding subscribe_filter add_filter grant_filter send_retained_messages
subscribe_filter-RetainedSent now conn session f b e h v =
    let c = session.client_id in
    let t = or_same b.subscriptions (subscribe c session f.topic f.qos (some c) b.subscriptions) in
    rw
      (
        v,
        subscribe-valid c session f.topic f.qos (some c) b.subscriptions v,
        get_granted_qos_lem f.qos h,
      )
      (send_retained-RetainedSent now conn session f.topic f.qos b.retained_msgs
        (record b { subscriptions = t }) e h)

pub subscribe_filters-RetainedFor :
    (now conn : ℕ) (session : Session) (fs : List SubscribeFilter) (b : Broker)
    → session.conn ≡ some conn
    → AreQos fs
    → RetainedFor conn b.retained_msgs fs (subscribe_filters now session fs b).1.0
unfolding subscribe_filters
subscribe_filters-RetainedFor now conn session [] b e h = no_filter
subscribe_filters-RetainedFor now conn session (f ∷ fs) b e h =
    let next = (subscribe_filter now session f b).1.1 in
    let rest : RetainedFor conn b.retained_msgs fs (subscribe_filters now session fs next).1.0 =
      subst (λ rs. RetainedFor conn rs fs (subscribe_filters now session fs next).1.0)
        (subscribe_filter-retained now session f b)
        (subscribe_filters-RetainedFor now conn session fs next e h.1) in
    elim (Bool-cases (is_valid_topic_filter f.topic)) [
      | inl v ↦ granted v (subscribe_filter-RetainedSent now conn session f b e h.0 v) rest
      | inr v ↦ rw (subscribe_filter-invalid now session f b v) (refused v rest)
    ]
