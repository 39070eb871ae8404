-- ===== src/Broker/Tree/Clients.antt =====
-- internal/broker/subscription.go, `GetSubscriptions`.
use goqtt.Base.{
  ◌∙◌, sym, true, false, List, [], ◌∷◌, Option, none, some, if◌then◌else◌, Bytes, ◌≡◌, ◌↔◌, ◌⊎◌,
  inl, inr, arith,
}
use goqtt.Text.{bytes_eq, bytes_eq_iff}
use goqtt.Dict.{bytes_key, lookup}
use goqtt.Dict.Laws.{In, In-append}
use goqtt.Broker.Tree.{
  Subscription, TrieNode, node, Children, no_child, child, find_child, to_list,
  get_client_subscriptions, get_subscriptions_below, get_subscriptions,
}
use goqtt.Broker.Tree.Find.{find, find_below, find-cons}
use goqtt.Broker.Tree.Invariant.{IsTree, AreTrees}
use goqtt.Broker.Tree.Table.{Change, tree_of, table_of, find-tree_of, tree_of-IsTree}

In-to_list : {A : Type 0} (a : A) (o : Option A) → In a (to_list o) ↔ (o ≡ some a)
In-to_list a none = grind arith
In-to_list a (some b) = grind arith

mutual
  unfolding find find_below find_child get_client_subscriptions get_subscriptions_below

  get_subscriptions_sound :
      (c : Bytes) (s : Subscription) (t : TrieNode)
      → IsTree t
      → In s (get_client_subscriptions c t)
      → (p : List Bytes) × (find p c t ≡ some s)
  get_subscriptions_sound c s (node cs ss w) h m =
      elim ((In-append s (to_list (lookup c ss)) (get_subscriptions_below c cs)).0 m) [
        | inl i ↦ ([], (In-to_list s (lookup c ss)).0 i)
        | inr i ↦
            let (l, p, e) = get_subscriptions_below_sound c s cs h.1 i in
            ((l ∷ p), find-cons l p c cs ss w ∙ e)
      ]

  get_subscriptions_below_sound :
      (c : Bytes) (s : Subscription) (cs : Children)
      → AreTrees cs
      → In s (get_subscriptions_below c cs)
      → (l : Bytes) × (p : List Bytes) × (find_below p c (find_child l cs) ≡ some s)
  get_subscriptions_below_sound c s no_child h m = absurd m
  get_subscriptions_below_sound c s (child l t cs) h m =
      elim ((In-append s (get_client_subscriptions c t) (get_subscriptions_below c cs)).0 m) [
        | inl i ↦
            let (p, e) = get_subscriptions_sound c s t h.1.1.0 i in
            (l, p, ground (arith, bytes_eq_iff l l, e))
        | inr i ↦
            let (k, p, e) = get_subscriptions_below_sound c s cs h.1.1.1 i in
            (k, p, ground (arith, bytes_eq_iff l k, e, h.0))
      ]

mutual
  unfolding find find_below find_child get_client_subscriptions get_subscriptions_below

  get_subscriptions_complete :
      (c : Bytes) (s : Subscription) (p : List Bytes) (t : TrieNode)
      → find p c t ≡ some s
      → In s (get_client_subscriptions c t)
  get_subscriptions_complete c s [] (node cs ss w) e =
      (In-append s (to_list (lookup c ss)) (get_subscriptions_below c cs)).1
        (inl ((In-to_list s (lookup c ss)).1 e))
  get_subscriptions_complete c s (l ∷ p) (node cs ss w) e =
      (In-append s (to_list (lookup c ss)) (get_subscriptions_below c cs)).1
        (inr (get_subscriptions_below_complete c s l p cs (sym (find-cons l p c cs ss w) ∙ e)))

  get_subscriptions_below_complete :
      (c : Bytes) (s : Subscription) (l : Bytes) (p : List Bytes) (cs : Children)
      → find_below p c (find_child l cs) ≡ some s
      → In s (get_subscriptions_below c cs)
  get_subscriptions_below_complete c s l p no_child e = ground arith
  get_subscriptions_below_complete c s l p (child m t cs) e =
      (In-append s (get_client_subscriptions c t) (get_subscriptions_below c cs)).1 (
        elim (bytes_eq m l)
            as (λ b.
              find_below p c (if b then some t else find_child l cs) ≡ some s
              → In s (get_client_subscriptions c t) ⊎ In s (get_subscriptions_below c cs)) [
                | true ↦ λ e. inl (get_subscriptions_complete c s p t e)
                | false ↦ λ e. inr (get_subscriptions_below_complete c s l p cs e)
              ]
          e)

-- Whatever calls made the tree, the subscriptions that it lists for a client are the client's
-- entries of the table.
pub get_subscriptions_iff :
    (history : List Change) (c : Bytes) (s : Subscription)
    → In s (get_subscriptions c (tree_of history))
      ↔ ((p : List Bytes) × (table_of history p c ≡ some s))
unfolding get_subscriptions
get_subscriptions_iff history c s = (
  (λ m.
      let (p, e) = get_subscriptions_sound c s (tree_of history) (tree_of-IsTree history) m in
      (p, sym (find-tree_of history p c) ∙ e)),
  (λ (p, e). get_subscriptions_complete c s p (tree_of history) (find-tree_of history p c ∙ e)),
)
