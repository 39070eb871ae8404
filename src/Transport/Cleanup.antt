-- ===== src/Transport/Cleanup.antt =====
-- internal/transport/tcp.go: what is left of a client behind its connection.
use goqtt.Transport.Rounds.First.{handle_frame-IsRound}
use goqtt.Transport.Dispatch.{handle_frame}
use goqtt.Transport.Invariant.{publish_message-Moves, IsNetwork}
use goqtt.Transport.Rounds.{HasSession}
use goqtt.Broker.Qos.Slots.{slots-manager_of}
use goqtt.Transport.Frame.{Frame}
use goqtt.Transport.Handler.{World}
use goqtt.Transport.Network.{received, Network, receive, handle_event, settle}
use goqtt.Broker.Session.{SessionMap, get_session}
use goqtt.Broker.Qos.{cleanup_client, new_qos_manager}
use goqtt.Broker.Evolution.{
  Calls-trans, Changes-trans, Calls-manager_of, Changes-tree_of, Calls, Changes,
}
use goqtt.Text.{bytes_eq_iff}
use goqtt.Broker.Qos.History.{
  client_left, Call, call_slots, slots_of, slots_after, call, manager_of,
}
use goqtt.Dict.Laws.{same_self, In}
use goqtt.Broker.Tree.{new_subscription_tree, match_topic, Subscription}
use goqtt.Broker.State.{Broker}
use goqtt.Broker.Handlers.{handle_client_disconnect}
use goqtt.Base.{
  ◌∙◌, ◌==◌, length, ℕ, ◌≢◌, arith, List, Bytes, ◌≡◌, refl, true, false, none, some, ◌∷◌, [],
}
use goqtt.Dict.{lookup, bytes_key, nat_key}
use goqtt.Transport.Server.{
  Step, Connection, Server, publish_will, end_connection, goes_on, returns,
}
use goqtt.Broker.Tree.Table.{
  match_topic_iff, Change, change_tree, tree_of, change_table, table_of, subscribed, unsubscribed,
  removed,
}

-- No topic finds a subscription of the client, and there is no message of it in the QoS manager.
pub record HasLeft (client_id : Bytes) (b : Broker) : Type 0 where
  pub no_subscription :
      (topic : Bytes) (s : Subscription)
      → In s (match_topic topic b.subscriptions)
      → s.client_id ≢ client_id
  pub no_message :
      (packet_id : ℕ)
      → slots_of client_id packet_id b.qos_manager
        ≡ record { qos1 = none; qos2 = none; received = none }

-- The table holds a client's subscriptions under its identifier.
table_of_client :
    (history : List Change) (p : List Bytes) (d : Bytes) (s : Subscription)
    → table_of history p d ≡ some s
    → s.client_id ≡ d
unfolding table_of change_table
table_of_client [] p d s e = cc
table_of_client (subscribed c session f qos handler ∷ history) p d s e =
    ground (arith, bytes_eq_iff c d, table_of_client history p d s)
table_of_client (unsubscribed c f ∷ history) p d s e = ground (arith, table_of_client history p d s)
table_of_client (removed c ∷ history) p d s e = ground (arith, table_of_client history p d s)

removed_table :
    (history : List Change) (p : List Bytes) (d : Bytes) (s : Subscription) (c : Bytes)
    → table_of (removed c ∷ history) p d ≡ some s
    → s.client_id ≢ c
unfolding table_of change_table
removed_table history p d s c e = ground (arith, bytes_eq_iff c d, table_of_client history p d s)

client_left-slots :
    (history : List Call) (c : Bytes) (i : ℕ)
    → slots_of c i (cleanup_client c (manager_of history))
      ≡ record { qos1 = none; qos2 = none; received = none }
unfolding manager_of call slots_after call_slots
client_left-slots history c i =
    slots-manager_of (client_left c ∷ history) c i ∙ rw (same_self c) refl

handle_client_disconnect-HasLeft :
    (c : Bytes) (b : Broker)
    → Changes new_subscription_tree b.subscriptions
    → Calls new_qos_manager b.qos_manager
    → HasLeft c (handle_client_disconnect c b)
unfolding handle_client_disconnect tree_of change_tree
handle_client_disconnect-HasLeft c b changes calls =
    let (history, tree) = Changes-tree_of changes in
    let (called, manager) = Calls-manager_of calls in
    record {
      no_subscription = λ topic s m.
          let m' : In s (match_topic topic (tree_of (removed c ∷ history))) = rw⁻¹ tree m in
          let (p, d, e, _) = (match_topic_iff (removed c ∷ history) topic s).0 m' in
          removed_table history p d s c e;
      no_message = λ i. rw manager (client_left-slots called c i);
    }

pub get_session_lem :
    (c : Bytes) (sessions : SessionMap) → HasSession c sessions → (get_session c sessions).1 ≡ true
unfolding get_session
get_session_lem c sessions (session, e) = rw (get_session, e) refl

-- The deferred function, for a client that has a session.
end_connection-HasLeft :
    (now : ℕ) (c : Bytes) (srv : Server)
    → Changes new_subscription_tree srv.broker.subscriptions
    → Calls new_qos_manager srv.broker.qos_manager
    → HasSession c srv.broker.sessions
    → length c == 0 ≡ false
    → HasLeft c (end_connection now c srv).1.broker
unfolding end_connection publish_will
end_connection-HasLeft now c srv changes calls stays named =
    let session = (get_session c srv.broker.sessions).0 in
    let will =
      publish_message-Moves now session session.will_topic session.will_message srv.broker in
    rw (named, get_session_lem c srv.broker.sessions stays)
      (handle_client_disconnect-HasLeft c _ (Changes-trans changes will.changes)
        (Calls-trans calls will.calls))

settle-HasLeft :
    (w : World) (conn : ℕ) (c : Bytes) (n : Network) (step : Step)
    → step.0 ≡ returns
    → HasLeft c (end_connection w.now c step.2).1.broker
    → HasLeft c (settle w conn c n step).1.server.broker
unfolding settle
settle-HasLeft w conn c n (goes_on d, sent, srv) e h = cc
settle-HasLeft w conn c n (returns, sent, srv) e h = h

-- In a state with the invariant, where the round of a handler with a session, for a client
-- identifier that is not empty, ends the handler, no topic finds a subscription of that client any
-- more, and the QoS manager holds no message for it and none from it.
pub handle_event-HasLeft :
    (w : World) (conn : ℕ) (frame : Frame) (c : Connection) (n : Network)
    → IsNetwork n
    → lookup conn n.handlers ≡ some c
    → c.session_established ≡ true
    → length c.client_id == 0 ≡ false
    → (handle_frame w c frame n.server).0 ≡ returns
    → HasLeft c.client_id (handle_event (received w conn frame) n).1.server.broker
unfolding handle_event receive
handle_event-HasLeft w conn frame c n h e established named over =
    let handler = h.handled conn c e in
    let round = handle_frame-IsRound w frame {srv = n.server} handler in
    let stays = round.moves.sessions_stay c.client_id (handler.present established) in
    rw e (
      settle-HasLeft w conn c.client_id n (handle_frame w c frame n.server) over (
        end_connection-HasLeft w.now c.client_id (handle_frame w c frame n.server).2
          (Changes-trans h.changes round.moves.changes) (Calls-trans h.calls round.moves.calls)
          stays named))
