-- ===== src/Transport/Invariant.antt =====
-- internal/transport/tcp.go: the server and its handlers after any events.
use goqtt.Broker.Evolution.Requests.{handle_client_disconnect-Evolves}
use goqtt.Dict.Laws.{lookup-insert, lookup-delete}
use goqtt.Broker.Evolution.Publishing.{handle_publish-Evolves}
use goqtt.Transport.Rounds.First.{handle_frame-IsRound}
use goqtt.Broker.Qos.{new_qos_manager}
use goqtt.Transport.Rounds.{
  Moves-IsHandler, AreKeyed, Moves-trans, Evolves-Moves, IsOutcome, IsHandler, Moves-refl, Moves,
}
use goqtt.Broker.Session.{Write, get_session, Session}
use goqtt.Broker.Tree.{new_subscription_tree}
use goqtt.Transport.Frame.{Frame}
use goqtt.Broker.Evolution.{Calls-trans, Changes-trans, no_call, called, Calls, no_change, Changes}
use goqtt.Transport.Handler.{World}
use goqtt.Broker.Qos.History.{timed_out, retried, call}
use goqtt.Broker.State.{Broker}
use mathlib.Core.Path.{subst}
use mathlib.Core.Bool.{false≢true}
use goqtt.Base.{
  inr, none, ◌∷◌, ==_iff, inl, ◌==◌, arith, Bool-cases, length, if_both, [], some, String, Bytes,
  Option, ℕ, List, ◌≡◌, refl,
}
use goqtt.Dict.{delete, insert, lookup, Dict, bytes_key, nat_key}
use goqtt.Transport.Server.{
  Step, Connection, Server, stop, publish_will, end_connection, publish_message, start_handler,
  goes_on, returns,
}
use goqtt.Transport.Network.{
  Event, network_of, handle_event, settle, Network, receive, accept, start, tick, accepted, started,
  received, ticked, stopped,
}

-- The subscriptions and the QoS manager are reached from new ones by calls of their methods, every
-- session stands under its client's identifier, and every handler that runs has the right
-- variables: a client identifier only with a session, and then one that is in the map.
pub record IsNetwork (n : Network) : Type 0 where
  pub changes : Changes new_subscription_tree n.server.broker.subscriptions
  pub calls : Calls new_qos_manager n.server.broker.qos_manager
  pub keyed : AreKeyed n.server.broker.sessions
  pub handled :
      (conn : ℕ) (c : Connection)
      → lookup conn n.handlers ≡ some c
      → IsHandler conn n.server.broker.sessions c

-- The end of a connection.
pub publish_message-Moves :
    (now : ℕ) (session : Session) (topic message : Option Bytes) (b : Broker)
    → Moves b (publish_message now session topic message b).1
unfolding publish_message
publish_message-Moves now session (some topic) (some message) b =
    Evolves-Moves (handle_publish-Evolves now _ b)
publish_message-Moves now session (some topic) none b = Moves-refl b
publish_message-Moves now session none message b = Moves-refl b

end_connection-Moves :
    (now : ℕ) (client_id : Bytes) (srv : Server)
    → Moves srv.broker (end_connection now client_id srv).1.broker
unfolding end_connection publish_will
end_connection-Moves now client_id srv =
    let session = (get_session client_id srv.broker.sessions).0 in
    let b = (publish_will now session srv.broker).1 in
    let P : List Write × Server → Type 0 = λ r. Moves srv.broker r.1.broker in
    if_both P (length client_id == 0) (Moves-refl srv.broker) (
      if_both P (get_session client_id srv.broker.sessions).1
        (Moves-trans (publish_message-Moves now session _ _ srv.broker)
          (Evolves-Moves (handle_client_disconnect-Evolves client_id b)))
        (Moves-refl srv.broker))

-- A move of the broker keeps the network, with handlers of which each is right already.
Moves-IsNetwork :
    {n : Network} {srv : Server} (checked : Dict ℕ (Option String)) (handlers : Dict ℕ Connection)
    → Moves n.server.broker srv.broker
    → ((conn : ℕ) (c : Connection)
        → lookup conn handlers ≡ some c
        → IsHandler conn srv.broker.sessions c)
    → IsNetwork n
    → IsNetwork (record { server = srv; checked = checked; handlers = handlers })
Moves-IsNetwork checked handlers m right h = record {
  changes = Changes-trans h.changes m.changes;
  calls = Calls-trans h.calls m.calls;
  keyed = m.keyed h.keyed;
  handled = right;
}

pub insert-handled :
    {b b' : Broker} (handlers : Dict ℕ Connection) (conn : ℕ) (c : Connection)
    → Moves b b'
    → IsHandler conn b'.sessions c
    → ((j : ℕ) (d : Connection) → lookup j handlers ≡ some d → IsHandler j b.sessions d)
    → (j : ℕ) (d : Connection) → lookup j (insert conn c handlers) ≡ some d
    → IsHandler j b'.sessions d
insert-handled {b' = b'} handlers conn c m new old j d e = elim (Bool-cases (conn == j)) [
  | inl same ↦
      let here : c ≡ d = ground (arith, lookup-insert conn j c handlers) in
      let there : conn ≡ j = ground (arith, ==_iff conn j) in
      subst (λ k. IsHandler k b'.sessions d) there (subst (IsHandler conn b'.sessions) here new)
  | inr other ↦ Moves-IsHandler m (old j d (ground (arith, lookup-insert conn j c handlers)))
]

delete-handled :
    {b b' : Broker} (handlers : Dict ℕ Connection) (conn : ℕ)
    → Moves b b'
    → ((j : ℕ) (d : Connection) → lookup j handlers ≡ some d → IsHandler j b.sessions d)
    → (j : ℕ) (d : Connection) → lookup j (delete conn handlers) ≡ some d
    → IsHandler j b'.sessions d
delete-handled handlers conn m old j d e =
    Moves-IsHandler m (old j d (ground (arith, lookup-delete conn j handlers)))

settle-IsNetwork :
    (w : World) (conn : ℕ) (client_id : Bytes) (step : Step) {n : Network}
    → Moves n.server.broker step.2.broker
    → IsOutcome conn step.2.broker.sessions step.0
    → IsNetwork n
    → IsNetwork (settle w conn client_id n step).1
unfolding settle
settle-IsNetwork w conn client_id (goes_on c, sent, srv) {n} m right h =
    Moves-IsNetwork n.checked _ m (insert-handled n.handlers conn c m right h.handled) h
settle-IsNetwork w conn client_id (returns, sent, srv) {n} m right h =
    let m' = Moves-trans m (end_connection-Moves w.now client_id srv) in
    Moves-IsNetwork n.checked _ m' (delete-handled n.handlers conn m' h.handled) h

start_handler-IsOutcome :
    (conn : ℕ) (reason : Option String) (srv : Server)
    → let step = start_handler conn reason srv in
      Moves srv.broker step.2.broker × IsOutcome conn step.2.broker.sessions step.0
unfolding start_handler
start_handler-IsOutcome conn none srv = (
  Moves-refl srv.broker,
  record { same_conn = refl; fresh = λ e. refl; present = λ e. absurd (false≢true e) },
)
start_handler-IsOutcome conn (some reason) srv = (Moves-refl srv.broker, tt)

accept-IsNetwork :
    (conn : ℕ) (reason : Option (Option String)) (old : Option Connection) {n : Network}
    → IsNetwork n
    → IsNetwork (accept conn reason old n)
unfolding accept
accept-IsNetwork conn none none {n} h = Moves-IsNetwork _ n.handlers (Moves-refl _) h.handled h
accept-IsNetwork conn none (some c) h = h
accept-IsNetwork conn (some reason) old h = h

start-IsNetwork :
    (w : World) (conn : ℕ) (reason : Option (Option String)) {n : Network}
    → IsNetwork n
    → IsNetwork (start w conn reason n).1
unfolding start
start-IsNetwork w conn none h = h
start-IsNetwork w conn (some reason) {n} h =
    let (m, right) = start_handler-IsOutcome conn reason n.server in
    settle-IsNetwork w conn [] _ {n = record n { checked = delete conn n.checked }} m right
      (Moves-IsNetwork _ n.handlers (Moves-refl _) h.handled h)

receive-IsNetwork :
    (w : World) (conn : ℕ) (frame : Frame) (old : Option Connection) {n : Network}
    → lookup conn n.handlers ≡ old
    → IsNetwork n
    → IsNetwork (receive w conn frame old n).1
unfolding receive
receive-IsNetwork w conn frame none e h = h
receive-IsNetwork w conn frame (some c) {n} e h =
    let round = handle_frame-IsRound w frame {srv = n.server} (h.handled conn c e) in
    settle-IsNetwork w conn c.client_id _ round.moves round.outcome h

tick-IsNetwork : (w : World) {n : Network} → IsNetwork n → IsNetwork (tick w n).1
unfolding tick call
tick-IsNetwork w {n} h =
    let m : Moves n.server.broker (tick w n).1.server.broker = record {
      changes = no_change;
      calls = called (called no_call (retried w.now)) (timed_out w.now);
      sessions_stay = λ k s. s;
      keyed = λ k. k;
    } in
    Moves-IsNetwork n.checked n.handlers m (λ j d e. Moves-IsHandler m (h.handled j d e)) h

pub handle_event-IsNetwork :
    (event : Event) {n : Network} → IsNetwork n → IsNetwork (handle_event event n).1
unfolding handle_event stop
handle_event-IsNetwork (accepted conn) h = accept-IsNetwork conn _ _ h
handle_event-IsNetwork (started w conn) h = start-IsNetwork w conn _ h
handle_event-IsNetwork (received w conn frame) h = receive-IsNetwork w conn frame _ refl h
handle_event-IsNetwork (ticked w) h = tick-IsNetwork w h
handle_event-IsNetwork stopped {n} h =
    Moves-IsNetwork n.checked n.handlers (Moves-refl _) h.handled h

-- After any events the broker's subscriptions and QoS manager are reached from new ones by calls of
-- their methods, every session stands under the identifier of its own client, and every handler
-- that runs has no client identifier before its session is established, and after that one whose
-- session is in the map.
pub network_of-IsNetwork : (history : List Event) → IsNetwork (network_of history).1
unfolding network_of lookup
network_of-IsNetwork [] = record {
  changes = no_change;
  calls = no_call;
  keyed = λ k session e. cc;
  handled = λ conn c e. cc;
}
network_of-IsNetwork (event ∷ history) = handle_event-IsNetwork event (network_of-IsNetwork history)
