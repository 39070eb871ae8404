-- ===== src/Broker/Granting/Effect.antt =====
-- internal/broker/broker.go: a subscription that is granted is found by the topics that it matches.
use goqtt.Broker.Evolution.Requests.{apply-Changes}
use goqtt.Encoding.Topic.{validate_topic_filter}
use goqtt.Text.{bytes_eq}
use goqtt.Broker.Tree.Matches.{is_ok_iff, topic_matches_iff, Covers}
use goqtt.Broker.Granting.{changes_of, apply_changes}
use goqtt.Dict.Laws.{same_self, In}
use goqtt.Broker.Evolution.{Changes-trans, Changes-tree_of, Changes}
use goqtt.Text.Split.{split}
use goqtt.Broker.Tree.Find.{levels_eq, levels_eq_iff, find}
use goqtt.Broker.Tree.{
  topic_matches, match_topic, new_subscription_tree, is_valid_topic_filter, Subscription, TrieNode,
}
use goqtt.Packet.Subscribe.{SubscribeFilter}
use goqtt.Broker.Session.{Session}
use mathlib.Core.Path.{subst}
use goqtt.Base.{
  ap, ◌∙◌, sym, Option-cases, if_both, ◌&&◌, List, Option, Bytes, ◌≡◌, refl, true, none, some, ◌∷◌,
  [], inl, inr,
}
use goqtt.Broker.Tree.Table.{
  match_topic_iff, find-tree_of, table_of, find-change_tree, change_tree, Change, change_table,
  subscribed,
}
use goqtt.Dict.{bytes_key}

-- A subscription of the client whose handler delivers to the client.
abbrev pub IsOwn : Bytes → Option Subscription → Type 0
IsOwn c none = ⊥
IsOwn c (some s) = (s.client_id ≡ c) × (s.handler ≡ some c)

module _ (session : Session) where
  -- The call of `Subscribe` for a filter.
  abbrev change_of : SubscribeFilter → Change
  change_of f = subscribed session.client_id session f.topic f.qos (some session.client_id)

  change_of-IsOwn :
      (f : SubscribeFilter) (t : TrieNode)
      → is_valid_topic_filter f.topic ≡ true
      → IsOwn session.client_id
          (find (split f.topic) session.client_id (change_tree (change_of f) t))
  unfolding change_table
  change_of-IsOwn f t v =
      let path = split f.topic in
      rw
        (
          find-change_tree path session.client_id (change_of f) t,
          v,
          (levels_eq_iff path path).1 refl,
          same_self session.client_id,
        )
        (refl, refl)

  change_of_keeps :
      (f : SubscribeFilter) (p : List Bytes) (t : TrieNode)
      → IsOwn session.client_id (find p session.client_id t)
      → IsOwn session.client_id (find p session.client_id (change_tree (change_of f) t))
  unfolding change_table
  change_of_keeps f p t h =
      let c = session.client_id in
      let test = is_valid_topic_filter f.topic && (levels_eq (split f.topic) p && bytes_eq c c) in
      rw (find-change_tree p c (change_of f) t) (if_both (IsOwn c) test (refl, refl) h)

  -- The later filters of the packet keep the subscription.
  apply_changes_keeps :
      (fs : List SubscribeFilter) (p : List Bytes) (t : TrieNode)
      → IsOwn session.client_id (find p session.client_id t)
      → IsOwn session.client_id (find p session.client_id (apply_changes (changes_of session fs) t))
  apply_changes_keeps [] p t h = h
  apply_changes_keeps (f ∷ fs) p t h =
      apply_changes_keeps fs p (change_tree (change_of f) t) (change_of_keeps f p t h)

  apply_changes-IsOwn :
      (f : SubscribeFilter) (fs : List SubscribeFilter) (t : TrieNode)
      → In f fs
      → is_valid_topic_filter f.topic ≡ true
      → IsOwn session.client_id
          (find (split f.topic) session.client_id (apply_changes (changes_of session fs) t))
  apply_changes-IsOwn f [] t m v = absurd m
  apply_changes-IsOwn f (g ∷ gs) t (inl e) v =
      apply_changes_keeps gs (split f.topic) (change_tree (change_of g) t) (
        subst
          (λ g.
            IsOwn session.client_id
              (find (split f.topic) session.client_id (change_tree (change_of g) t)))
          e (change_of-IsOwn f t v))
  apply_changes-IsOwn f (g ∷ gs) t (inr m) v =
      apply_changes-IsOwn f gs (change_tree (change_of g) t) m v

-- A subscription at a path that covers a topic is among those that the topic finds.
match_topic-find :
    {t : TrieNode} (topic c : Bytes) (p : List Bytes)
    → Changes new_subscription_tree t
    → Covers p (split topic)
    → IsOwn c (find p c t)
    → (s : Subscription) × In s (match_topic topic t) × (s.client_id ≡ c) × (s.handler ≡ some c)
match_topic-find {t} topic c p changes covers own =
    let (history, e) = Changes-tree_of changes in
    elim (Option-cases (find p c t)) [
      | inl absent ↦ absurd (subst (IsOwn c) absent own)
      | inr (s, found) ↦
          let (client, handler) = subst (IsOwn c) found own in
          let stands : table_of history p c ≡ some s =
            sym (find-tree_of history p c) ∙ (ap (find p c) (sym e) ∙ found) in
          let m = (match_topic_iff history topic s).1 (p, c, stands, covers) in
          (s, rw e m, client, handler)
    ]

-- In a tree that calls have made, a filter of a SUBSCRIBE packet that matches a topic makes the
-- topic find a subscription of the client, whose handler delivers to the client.
pub apply_changes_effect :
    (session : Session) (fs : List SubscribeFilter) (f : SubscribeFilter) (t : TrieNode)
    (topic : Bytes)
    → Changes new_subscription_tree t
    → In f fs
    → topic_matches f.topic topic ≡ true
    → (s : Subscription) × In s (match_topic topic (apply_changes (changes_of session fs) t))
      × (s.client_id ≡ session.client_id)
      × (s.handler ≡ some session.client_id)
unfolding is_valid_topic_filter
apply_changes_effect session fs f t topic changes m matches =
    let (valid, _, covers) = (topic_matches_iff f.topic topic).0 matches in
    let own =
      apply_changes-IsOwn session f fs t m ((is_ok_iff (validate_topic_filter f.topic)).1 valid) in
    match_topic-find topic session.client_id (split f.topic)
      (Changes-trans changes (apply-Changes (changes_of session fs) t)) covers own
