-- ===== src/Broker/Granting.antt =====
-- internal/broker/broker.go, `HandleSubscribe` and `HandleUnsubscribe`: the return codes, and the
-- tree that is left, by the calls of `Subscribe` and `Unsubscribe` of Broker/Tree/Table.
pub mod Effect
pub mod Withdrawing
pub mod Retained
use goqtt.Base.{
  ℕ, true, false, List, [], ◌∷◌, Bytes, Option, some, if◌then◌else◌, ◌≡◌, refl, ap, ◌∙◌, arith, leb,
  Bool-cases, inl, inr, map,
}
use goqtt.Broker.Delivery.{deliver_message, send_retained, send_retained_messages, Sends}
use goqtt.Broker.Fanout.{Keeps, Keeps-refl, Keeps-trans, deliver_message-Keeps}
use goqtt.Broker.Handlers.{
  add_filter, handle_subscribe, subscribe_filters, subscribe_filter, grant_filter, granted_code,
  handle_unsubscribe, unsubscribe_filters,
}
use goqtt.Broker.Session.{Session}
use goqtt.Broker.State.{min_qos, Broker, RetainedMessage, get_granted_qos}
use goqtt.Broker.Tree.{
  unsubscribe, topic_matches, TrieNode, subscribe, is_valid_topic_filter, is_ok,
}
use goqtt.Broker.Tree.Table.{Change, subscribed, unsubscribed, change_tree, or_same}
use goqtt.Dict.{Dict}
use goqtt.Er.{Result, ok, err, panic, stuck, ◌>>◌}
use goqtt.Encoding.Topic.{validate_topic_filter}
use goqtt.Packet.Subscribe.{SubscribePacket, SubscribeFilter}
use goqtt.Packet.Types.{QosLevel}
use goqtt.Packet.Unsubscribe.{UnsubscribePacket}

-- The code that a filter is to get: its QoS, or 0x80 where it is not valid.
abbrev pub expected_code : SubscribeFilter → ℕ
expected_code filter = if is_valid_topic_filter filter.topic then filter.qos else 0x80

-- The calls that a SUBSCRIBE packet comes to, in their order.
abbrev pub changes_of : Session → List SubscribeFilter → List Change
changes_of session filters =
    map (λ f. subscribed session.client_id session f.topic f.qos (some session.client_id)) filters

abbrev pub apply_changes : List Change → TrieNode → TrieNode
apply_changes [] t = t
apply_changes (change ∷ changes) t = apply_changes changes (change_tree change t)

pub send_retained-Keeps :
    (now : ℕ) (session : Session) (f : Bytes) (q : QosLevel) (rs : Dict Bytes RetainedMessage)
    (b : Broker)
    → Keeps b (send_retained now session f q rs b).1
unfolding send_retained
send_retained-Keeps now session f q [] b = Keeps-refl b
send_retained-Keeps now session f q ((topic, r) ∷ rs) b =
    elim (topic_matches f topic)
      as (λ x.
        Keeps b
          (send_retained now session f q rs
            (if x
              then deliver_message now session topic r.payload (min_qos r.qos q) true b
              else ([], b)).1).1) [
                | true ↦
                    Keeps-trans
                      (deliver_message-Keeps now session topic r.payload (min_qos r.qos q) true b)
                      (send_retained-Keeps now session f q rs _)
                | false ↦ send_retained-Keeps now session f q rs b
              ]

-- What a round of the loop does.
pub record Round (session : Session) (filter : SubscribeFilter) (b : Broker) (r : ℕ × Sends)
    : Type 0 where
  pub code : leb filter.qos 2 ≡ true → r.0 ≡ expected_code filter
  pub tree :
      r.1.1.subscriptions
      ≡ change_tree
          (subscribed session.client_id session filter.topic filter.qos (some session.client_id))
          b.subscriptions
  pub sessions_same : r.1.1.sessions ≡ b.sessions

granted_code_lem : (q : QosLevel) → leb q 2 ≡ true → granted_code (get_granted_qos q) ≡ q
unfolding granted_code get_granted_qos
granted_code_lem q h = ground arith

module _ (c : Bytes) (session : Session) (f : Bytes) (q : QosLevel) (handler : Option Bytes)
    (t : TrieNode) where
  -- On a valid filter `Subscribe` has no error, and on any other it changes nothing.
  pub subscribe-valid :
      is_valid_topic_filter f ≡ true
      → subscribe c session f q handler t ≡ ok (or_same t (subscribe c session f q handler t))
  unfolding subscribe is_valid_topic_filter is_ok
  subscribe-valid = go _ (validate_topic_filter f)
    where
      go :
          (x : TrieNode) (r : Result (Unit {0}))
          → is_ok r ≡ true
          → (r >> ok x) ≡ ok (or_same t (r >> ok x))
      go x (ok _) e = refl
      go x (err _) e = ground arith
      go x panic e = ground arith
      go x stuck e = ground arith

  subscribe-invalid :
      is_valid_topic_filter f ≡ false → or_same t (subscribe c session f q handler t) ≡ t
  unfolding subscribe is_valid_topic_filter is_ok
  subscribe-invalid = go _ (validate_topic_filter f)
    where
      go : (x : TrieNode) (r : Result (Unit {0})) → is_ok r ≡ false → or_same t (r >> ok x) ≡ t
      go x (ok _) e = ground arith
      go x (err _) e = refl
      go x panic e = refl
      go x stuck e = refl

subscribe_filter-valid :
    (now : ℕ) (session : Session) (filter : SubscribeFilter) (b : Broker) (t : TrieNode)
    → is_valid_topic_filter filter.topic ≡ true
    → subscribe session.client_id session filter.topic filter.qos
        (some session.client_id)
        b.subscriptions
      ≡ ok t
    → Round session filter b (subscribe_filter now session filter b)
unfolding subscribe_filter add_filter grant_filter send_retained_messages change_tree
subscribe_filter-valid now session filter b t v e =
    let kept =
      send_retained-Keeps now session filter.topic (get_granted_qos filter.qos) b.retained_msgs
        (record b { subscriptions = t }) in
    record {
      code = λ h. rw (v, e) (granted_code_lem filter.qos h);
      tree = rw (v, e) kept.subscriptions_kept;
      sessions_same = rw (v, e) kept.sessions_kept;
    }

pub subscribe_filter-Round :
    (now : ℕ) (session : Session) (filter : SubscribeFilter) (b : Broker)
    → Round session filter b (subscribe_filter now session filter b)
unfolding subscribe_filter add_filter grant_filter send_retained_messages change_tree
subscribe_filter-Round now session filter b =
    let c = session.client_id in
    let f = filter.topic in
    elim (Bool-cases (is_valid_topic_filter f)) [
      | inl v ↦
          subscribe_filter-valid now session filter b _ v
            (subscribe-valid c session f filter.qos (some c) b.subscriptions v)
      | inr v ↦
          let same = subscribe-invalid c session f filter.qos (some c) b.subscriptions v in
          record {
            code = λ h. ground arith;
            tree = ground (arith, same);
            sessions_same = ground arith;
          }
    ]

abbrev pub AreQos : List SubscribeFilter → Type 0
AreQos [] = Unit
AreQos (filter ∷ filters) = (leb filter.qos 2 ≡ true) × AreQos filters

pub record Rounds (session : Session) (filters : List SubscribeFilter) (b : Broker)
    (r : List ℕ × Sends) : Type 0 where
  pub codes : AreQos filters → r.0 ≡ map expected_code filters
  pub final_tree : r.1.1.subscriptions ≡ apply_changes (changes_of session filters) b.subscriptions
  pub final_sessions : r.1.1.sessions ≡ b.sessions

pub subscribe_filters-Rounds :
    (now : ℕ) (session : Session) (filters : List SubscribeFilter) (b : Broker)
    → Rounds session filters b (subscribe_filters now session filters b)
unfolding subscribe_filters
subscribe_filters-Rounds now session [] b = record {
  codes = λ _. refl;
  final_tree = refl;
  final_sessions = refl;
}
subscribe_filters-Rounds now session (filter ∷ filters) b =
    let first = subscribe_filter-Round now session filter b in
    let next = (subscribe_filter now session filter b).1.1 in
    let rest = subscribe_filters-Rounds now session filters next in
    record {
      codes = λ h. rw (first.code h.0, rest.codes h.1);
      final_tree = rest.final_tree ∙ ap (apply_changes (changes_of session filters)) first.tree;
      final_sessions = rest.final_sessions ∙ first.sessions_same;
    }

-- A SUBSCRIBE packet, with a QoS of at most 2 for each filter, is answered with its identifier and
-- a code for each filter, the QoS or 0x80 where the filter is not valid; it leaves the tree that
-- the calls of `Subscribe` for its filters make, and the sessions as they were.
pub handle_subscribe_lem :
    (now : ℕ) (session : Session) (p : SubscribePacket) (b : Broker)
    → AreQos p.filters
    → let (suback, (sent, b')) = handle_subscribe now (some session) (some p) b in
      (suback
        ≡ some (record { packet_id = p.packet_id; return_codes = map expected_code p.filters }))
      × (b'.subscriptions ≡ apply_changes (changes_of session p.filters) b.subscriptions)
      × (b'.sessions ≡ b.sessions)
unfolding handle_subscribe
handle_subscribe_lem now session p b h =
    let done = subscribe_filters-Rounds now session p.filters b in
    (rw (done.codes h) refl, done.final_tree, done.final_sessions)

pub unsubscribe_filters_lem :
    (c : Bytes) (fs : List Bytes) (t : TrieNode)
    → unsubscribe_filters c fs t ≡ apply_changes (map (unsubscribed c) fs) t
unfolding unsubscribe_filters change_tree
unsubscribe_filters_lem c [] t = refl
unsubscribe_filters_lem c (f ∷ fs) t = unsubscribe_filters_lem c fs (unsubscribe c f t)

-- An UNSUBSCRIBE packet is answered with its identifier, and leaves the tree that the calls of
-- `Unsubscribe` for its filters make.
pub handle_unsubscribe_lem :
    (session : Session) (p : UnsubscribePacket) (b : Broker)
    → let (unsuback, b') = handle_unsubscribe (some session) (some p) b in
      (unsuback ≡ some (record { packet_id = p.packet_id }))
      × (b'.subscriptions
          ≡ apply_changes (map (unsubscribed session.client_id) p.topic_filters) b.subscriptions)
      × (b'.sessions ≡ b.sessions)
unfolding handle_unsubscribe
handle_unsubscribe_lem session p b =
    (refl, unsubscribe_filters_lem session.client_id p.topic_filters b.subscriptions, refl)
