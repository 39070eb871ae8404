-- ===== src/Broker/Tree/Matches.antt =====
-- internal/broker/subscription.go, `topicMatchesRecursive` against the rules of MQTT on levels, as
-- this broker reads them: `#` stands for one level or more.
use goqtt.Base.{true, List, [], ◌∷◌, Bytes, ◌≡◌, ◌↔◌, ◌⊎◌, inl, inr, refl, arith}
use goqtt.Text.{bytes_eq, bytes_eq_iff}
use goqtt.Text.Split.{split}
use goqtt.Er.{Result, ok, err, panic, stuck}
use goqtt.Encoding.Topic.{validate_topic_filter, validate_topic_name}
use goqtt.Broker.Tree.{
  hash, plus, topic_matches, topic_matches_recursive, is_ok, is_valid_topic_filter,
  is_valid_topic_name,
}

-- The levels of a filter match the levels of a topic.
pub data Covers : List Bytes → List Bytes → Type 0 where
  at_end : Covers [] []
  at_level : {n : Bytes} {fs ns : List Bytes} → Covers fs ns → Covers (n ∷ fs) (n ∷ ns)
  at_plus : {n : Bytes} {fs ns : List Bytes} → Covers fs ns → Covers (plus ∷ fs) (n ∷ ns)
  at_hash : {n : Bytes} {fs ns : List Bytes} → Covers (hash ∷ fs) (n ∷ ns)

pub topic_matches_cases :
    (l : Bytes) (ls : List Bytes) (n : Bytes) (ns : List Bytes)
    → topic_matches_recursive (l ∷ ls) (n ∷ ns) ≡ true
    → ((l ≡ n) × (topic_matches_recursive ls ns ≡ true))
      ⊎ (((l ≡ plus) × (topic_matches_recursive ls ns ≡ true)) ⊎ (l ≡ hash))
unfolding topic_matches_recursive
topic_matches_cases l ls n ns e =
    ground (arith, bytes_eq_iff l n, bytes_eq_iff l plus, bytes_eq_iff l hash)

topic_matches_complete : (fs ns : List Bytes) → Covers fs ns → topic_matches_recursive fs ns ≡ true
unfolding topic_matches_recursive bytes_eq
topic_matches_complete _ _ at_end = refl
topic_matches_complete _ _ (at_level {n} {fs} {ns} m) =
    ground (arith, topic_matches_complete fs ns m, bytes_eq_iff n n)
topic_matches_complete _ _ (at_plus {n} {fs} {ns} m) = topic_matches_complete fs ns m
topic_matches_complete _ _ at_hash = refl

topic_matches_sound : (fs ns : List Bytes) → topic_matches_recursive fs ns ≡ true → Covers fs ns
unfolding topic_matches_recursive
topic_matches_sound [] [] e = at_end
topic_matches_sound [] (n ∷ ns) e = ground arith
topic_matches_sound (f ∷ fs) [] e = ground arith
topic_matches_sound (f ∷ fs) (n ∷ ns) e =
    let below : topic_matches_recursive fs ns ≡ true → Covers fs ns = topic_matches_sound fs ns in
    elim (topic_matches_cases f fs n ns e) [
      | inl (u, r) ↦ rw u (at_level (below r))
      | inr (inl (u, r)) ↦ rw u (at_plus (below r))
      | inr (inr u) ↦ rw u at_hash
    ]

pub is_ok_iff : (r : Result (Unit {0})) → (is_ok r ≡ true) ↔ (r ≡ ok tt)
unfolding is_ok
is_ok_iff (ok tt) = grind arith
is_ok_iff (err e) = grind arith
is_ok_iff panic = grind arith
is_ok_iff stuck = grind arith

pub topic_matches_recursive_iff :
    (fs ns : List Bytes) → (topic_matches_recursive fs ns ≡ true) ↔ Covers fs ns
topic_matches_recursive_iff fs ns = (topic_matches_sound fs ns, topic_matches_complete fs ns)

-- A filter is said to match a topic name exactly if both are valid and the levels match.
pub topic_matches_iff :
    (topic_filter topic_name : Bytes)
    → (topic_matches topic_filter topic_name ≡ true)
      ↔ (validate_topic_filter topic_filter ≡ ok tt)
        × (validate_topic_name topic_name ≡ ok tt)
        × Covers (split topic_filter) (split topic_name)
unfolding topic_matches is_valid_topic_filter is_valid_topic_name
topic_matches_iff f n = ground (
  arith,
  is_ok_iff (validate_topic_filter f),
  is_ok_iff (validate_topic_name n),
  topic_matches_recursive_iff (split f) (split n),
)
