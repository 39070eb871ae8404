-- ===== src/Transport/Rounds.antt =====
-- internal/transport/tcp.go: what one round of a handler may do to the server.
pub mod Packets
pub mod First
use goqtt.Base.{◌∷◌, ◌++◌, true, some, if◌then◌else◌, [], false, List, Bool, Bytes, ℕ, ◌≡◌, refl}
use goqtt.Dict.{lookup, bytes_key}
use goqtt.Broker.Evolution.{Calls-trans, Changes-trans, Calls, no_call, Changes, no_change, Evolves}
use goqtt.Transport.Handler.{with_broker, reply, World}
use goqtt.Broker.Session.{Write, Session, SessionMap}
use goqtt.Broker.State.{Broker}
use goqtt.Transport.Server.{returns, goes_on, Outcome, Step, Connection, Server}

-- A session of the client is in the map.
abbrev pub HasSession : Bytes → SessionMap → Type 0
HasSession client_id sessions = (session : Session) × (lookup client_id sessions ≡ some session)

-- Every session stands under its own client identifier.
abbrev pub AreKeyed : SessionMap → Type 0
AreKeyed sessions =
    (k : Bytes) (session : Session) → lookup k sessions ≡ some session → session.client_id ≡ k

-- The broker's maps move by the calls of their methods, and no client loses its session.
pub record Moves (b b' : Broker) : Type 0 where
  pub changes : Changes b.subscriptions b'.subscriptions
  pub calls : Calls b.qos_manager b'.qos_manager
  pub sessions_stay : (k : Bytes) → HasSession k b.sessions → HasSession k b'.sessions
  pub keyed : AreKeyed b.sessions → AreKeyed b'.sessions

pub Moves-refl : (b : Broker) → Moves b b
Moves-refl b = record {
  changes = no_change;
  calls = no_call;
  sessions_stay = λ k h. h;
  keyed = λ h. h;
}

pub Moves-trans : {b c d : Broker} → Moves b c → Moves c d → Moves b d
Moves-trans h m = record {
  changes = Changes-trans h.changes m.changes;
  calls = Calls-trans h.calls m.calls;
  sessions_stay = λ k s. m.sessions_stay k (h.sessions_stay k s);
  keyed = λ k. m.keyed (h.keyed k);
}

pub Evolves-Moves : {b b' : Broker} → Evolves b b' → Moves b b'
Evolves-Moves h = record {
  changes = h.changes;
  calls = h.calls;
  sessions_stay = λ k s. rw h.sessions_same s;
  keyed = λ k. rw h.sessions_same k;
}

-- The variables of a handler of the connection: without a session there is no client identifier,
-- with one it is in the map.
pub record IsHandler (conn : ℕ) (sessions : SessionMap) (c : Connection) : Type 0 where
  pub same_conn : c.conn ≡ conn
  pub fresh : c.session_established ≡ false → c.client_id ≡ []
  pub present : c.session_established ≡ true → HasSession c.client_id sessions

pub Moves-IsHandler :
    {b b' : Broker} {conn : ℕ} {c : Connection}
    → Moves b b'
    → IsHandler conn b.sessions c
    → IsHandler conn b'.sessions c
Moves-IsHandler m h = record {
  same_conn = h.same_conn;
  fresh = h.fresh;
  present = λ e. m.sessions_stay _ (h.present e);
}

-- Where the handler goes on, its variables are right.
abbrev pub IsOutcome : ℕ → SessionMap → Outcome → Type 0
IsOutcome conn sessions (goes_on c) = IsHandler conn sessions c
IsOutcome conn sessions returns = Unit

pub record IsRound (conn : ℕ) (srv : Server) (step : Step) : Type 0 where
  pub same_count : step.2.current_connections ≡ srv.current_connections
  pub same_limit : step.2.max_connections ≡ srv.max_connections
  pub moves : Moves srv.broker step.2.broker
  pub outcome : IsOutcome conn step.2.broker.sessions step.0

-- The ways to end a round.
module _ {conn : ℕ} {srv : Server} where
  pub goes_on-IsRound :
      (sent : List Write) {b : Broker} {c : Connection}
      → IsHandler conn srv.broker.sessions c
      → Moves srv.broker b
      → IsRound conn srv (goes_on c, sent, with_broker b srv)
  goes_on-IsRound sent h m = record {
    same_count = refl;
    same_limit = refl;
    moves = m;
    outcome = Moves-IsHandler m h;
  }

  pub returns-IsRound :
      (sent : List Write) {b : Broker}
      → Moves srv.broker b
      → IsRound conn srv (returns, sent, with_broker b srv)
  returns-IsRound sent m = record { same_count = refl; same_limit = refl; moves = m; outcome = tt }

  pub unchanged-IsRound : (sent : List Write) → IsRound conn srv (returns, sent, srv)
  unchanged-IsRound sent = record {
    same_count = refl;
    same_limit = refl;
    moves = Moves-refl srv.broker;
    outcome = tt;
  }

  pub reply-IsRound :
      (w : World) (ack : Bytes) (sent : List Write) {b : Broker} {c : Connection}
      → IsHandler conn srv.broker.sessions c
      → Moves srv.broker b
      → IsRound conn srv (reply w c ack sent (with_broker b srv))
  reply-IsRound w ack sent {b} {c} h m =
      elim (w.write_fails)
        as (λ v.
          let o : Outcome = if v then returns else goes_on c in
          IsRound conn srv (o, sent ++ (c.conn, ack) ∷ [], with_broker b srv)) [
            | true ↦ returns-IsRound _ m
            | false ↦ goes_on-IsRound _ h m
          ]

  -- The same where the server is left as it is.
  pub stays-IsRound :
      (sent : List Write) {c : Connection}
      → IsHandler conn srv.broker.sessions c
      → IsRound conn srv (goes_on c, sent, srv)
  stays-IsRound sent h = goes_on-IsRound sent h (Moves-refl srv.broker)

  pub reply_stays-IsRound :
      (w : World) (ack : Bytes) (sent : List Write) {c : Connection}
      → IsHandler conn srv.broker.sessions c
      → IsRound conn srv (reply w c ack sent srv)
  reply_stays-IsRound w ack sent h = reply-IsRound w ack sent h (Moves-refl srv.broker)

pub if-IsRound :
    {conn : ℕ} {srv : Server} (test : Bool) {x y : Step}
    → IsRound conn srv x
    → IsRound conn srv y
    → IsRound conn srv (if test then x else y)
if-IsRound true h k = h
if-IsRound false h k = k

-- A round is made of these.
pub ruleset rounds = (
  if-IsRound, goes_on-IsRound, returns-IsRound, unchanged-IsRound, reply-IsRound, stays-IsRound,
  reply_stays-IsRound, Evolves-Moves, Moves-refl,
)
