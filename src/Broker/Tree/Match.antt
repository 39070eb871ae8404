-- ===== src/Broker/Tree/Match.antt =====
-- internal/broker/subscription.go, `Match` against `TopicMatches`: what the tree finds for a topic
-- are the subscriptions whose filter matches it.
use goqtt.Base.{
  Bool, true, List, [], ◌∷◌, ◌++◌, Option, none, some, Bytes, ◌≡◌, ◌↔◌, inl, inr, refl, arith,
}
use goqtt.Text.{bytes_eq, bytes_eq_iff}
use goqtt.Dict.{bytes_key, Dict}
use goqtt.Dict.Laws.{In-append, In, In-values, lookup-In}
use goqtt.Broker.Tree.{
  in_child, Subscription, TrieNode, node, Children, find_child, hash, plus, match_recursive,
  subscribers_of, topic_matches_recursive,
}
use goqtt.Broker.Tree.Matches.{topic_matches_cases}
use goqtt.Broker.Tree.Find.{find-cons, find_below, find}
use goqtt.Broker.Tree.Invariant.{IsTree, AreTrees, IsLeaf, AreTrees-find_child}

-- The subscription is kept under a filter that matches the levels of the topic.
abbrev pub IsMatch : List Bytes → Subscription → TrieNode → Type 0
IsMatch ns s t =
    (p : List Bytes) × (c : Bytes) × (find p c t ≡ some s) × (topic_matches_recursive p ns ≡ true)

IsMatch-child :
    (l n : Bytes) (ns : List Bytes) (s : Subscription) (t : TrieNode) (cs : Children)
    (ss : Dict Bytes Subscription) (w : Bool)
    → find_child l cs ≡ some t
    → IsMatch ns s t
    → ((p : List Bytes)
        → topic_matches_recursive p ns ≡ true
        → topic_matches_recursive (l ∷ p) (n ∷ ns) ≡ true)
    → IsMatch (n ∷ ns) s (node cs ss w)
unfolding find_below
IsMatch-child l n ns s t cs ss w e (p, c, f, q) step =
    ((l ∷ p), c, ground (arith, find-cons l p c cs ss w), step p q)

In-in_child :
    (s : Subscription) (visit : TrieNode → List Subscription) (o : Option TrieNode)
    → In s (in_child visit o)
    → (t : TrieNode) × (o ≡ some t) × In s (visit t)
In-in_child s visit none m = absurd m
In-in_child s visit (some t) m = (t, refl, m)

in_child-In :
    (s : Subscription) (visit : TrieNode → List Subscription) (t : TrieNode) (o : Option TrieNode)
    → o ≡ some t
    → In s (visit t)
    → In s (in_child visit o)
in_child-In s visit t none e m = grind arith
in_child-In s visit t (some u) e m = ground arith

-- The subscriptions at the child `#` are those of the filter that ends there.
In-hash :
    (s : Subscription) (n : Bytes) (ns : List Bytes) (cs : Children) (ss : Dict Bytes Subscription)
    (w : Bool)
    → AreTrees cs
    → In s (subscribers_of (find_child hash cs))
    → IsMatch (n ∷ ns) s (node cs ss w)
unfolding find_below find subscribers_of topic_matches_recursive bytes_eq
In-hash s n ns cs ss w h m = go (find_child hash cs) refl m
  where
    go :
        (o : Option TrieNode)
        → find_child hash cs ≡ o
        → In s (subscribers_of o)
        → IsMatch (n ∷ ns) s (node cs ss w)
    go none e m = absurd m
    go (some (node ds us v)) e m =
        let (c, f) = lookup-In s us (AreTrees-find_child hash _ cs h e).1.0 m in
        ((hash ∷ []), c, ground (arith, find-cons hash [] c cs ss w), refl)

hash-In :
    (s : Subscription) (ls : List Bytes) (c : Bytes) (t : TrieNode)
    → IsLeaf t
    → find ls c t ≡ some s
    → In s (subscribers_of (some t))
unfolding subscribers_of find find_child
hash-In s [] c (node cs ss w) h e = In-values c s ss e
hash-In s (l ∷ ls) c (node cs ss w) h e = ground arith

In-subscribers_of :
    (s : Subscription) (t : TrieNode) (o : Option TrieNode)
    → o ≡ some t
    → In s (subscribers_of (some t))
    → In s (subscribers_of o)
In-subscribers_of s t none e m = ground arith
In-subscribers_of s t (some u) e m = ground arith

match_recursive_sound :
    (ns : List Bytes) (s : Subscription) (t : TrieNode)
    → IsTree t
    → In s (match_recursive ns t)
    → IsMatch ns s t
unfolding match_recursive topic_matches_recursive find bytes_eq
match_recursive_sound [] s (node cs ss w) h m =
    let (c, e) = lookup-In s ss h.0 m in ([], c, e, refl)
match_recursive_sound (n ∷ ns) s (node cs ss w) h m =
    let visit : TrieNode → List Subscription = match_recursive ns in
    let below : (l : Bytes)
        → ((p : List Bytes)
            → topic_matches_recursive p ns ≡ true
            → topic_matches_recursive (l ∷ p) (n ∷ ns) ≡ true)
        → In s (in_child visit (find_child l cs))
        → IsMatch (n ∷ ns) s (node cs ss w) =
      λ l step i.
        let (t, e, j) = In-in_child s visit (find_child l cs) i in
        IsMatch-child l n ns s t cs ss w e
          (match_recursive_sound ns s t (AreTrees-find_child l t cs h.1 e).1 j) step in
    elim ((In-append s (in_child visit (find_child n cs)) _).0 m) [
      | inl i ↦ below n (λ p e. ground (arith, bytes_eq_iff n n)) i
      | inr r ↦ elim ((In-append s (in_child visit (find_child plus cs)) _).0 r) [
        | inl i ↦ below plus (λ p e. e) i
        | inr i ↦ In-hash s n ns cs ss w h.1 i
      ]
    ]

find_cons_some :
    (l : Bytes) (ls : List Bytes) (c : Bytes) (s : Subscription) (cs : Children)
    (ss : Dict Bytes Subscription) (w : Bool)
    → find (l ∷ ls) c (node cs ss w) ≡ some s
    → (t : TrieNode) × (find_child l cs ≡ some t) × (find ls c t ≡ some s)
unfolding find_below
find_cons_some l ls c s cs ss w e = go (find_child l cs) refl (find-cons l ls c cs ss w)
  where
    go :
        (o : Option TrieNode)
        → find_child l cs ≡ o
        → find (l ∷ ls) c (node cs ss w) ≡ find_below ls c o
        → (t : TrieNode) × (find_child l cs ≡ some t) × (find ls c t ≡ some s)
    go none f g = absurd (ground arith)
    go (some t) f g = (t, f, cc)

match_recursive_complete :
    (ns : List Bytes) (s : Subscription) (t : TrieNode)
    → IsTree t
    → IsMatch ns s t
    → In s (match_recursive ns t)
unfolding match_recursive topic_matches_recursive find
match_recursive_complete [] s (node cs ss w) h ([], c, e, q) = In-values c s ss e
match_recursive_complete [] s (node cs ss w) h ((l ∷ ls), c, e, q) = grind arith
match_recursive_complete (n ∷ ns) s (node cs ss w) h ([], c, e, q) = grind arith
match_recursive_complete (n ∷ ns) s (node cs ss w) h ((l ∷ ls), c, e, q) =
    let (t, f, g) = find_cons_some l ls c s cs ss w e in
    let visit : TrieNode → List Subscription = match_recursive ns in
    let (leaf, tree) = AreTrees-find_child l t cs h.1 f in
    let below : (topic_matches_recursive ls ns ≡ true) → In s (visit t) =
      λ r. match_recursive_complete ns s t tree (ls, c, g, r) in
    let exact : List Subscription = in_child visit (find_child n cs) in
    let single : List Subscription = in_child visit (find_child plus cs) in
    let multi : List Subscription = subscribers_of (find_child hash cs) in
    let later : In s (single ++ multi) → In s (match_recursive (n ∷ ns) (node cs ss w)) =
      λ i. (In-append s exact (single ++ multi)).1 (inr i) in
    elim (topic_matches_cases l ls n ns q) [
      | inl (u, r) ↦
          (In-append s exact (single ++ multi)).1
            (inl (in_child-In s visit t (find_child n cs) (cc) (below r)))
      | inr (inl (u, r)) ↦ later (
          (In-append s single multi).1
            (inl (in_child-In s visit t (find_child plus cs) (cc) (below r))))
      | inr (inr u) ↦ later (
          (In-append s single multi).1
            (inr (In-subscribers_of s t (find_child hash cs) (cc) (hash-In s ls c t (leaf u) g))))
    ]

-- What the tree finds for a topic are the subscriptions under the filters that match it.
pub match_recursive_iff :
    (ns : List Bytes) (s : Subscription) (t : TrieNode)
    → IsTree t
    → In s (match_recursive ns t) ↔ IsMatch ns s t
match_recursive_iff ns s t h = (match_recursive_sound ns s t h, match_recursive_complete ns s t h)
