-- ===== src/Transport/Loop.antt =====
-- internal/transport/tcp.go: the loop of one `handleConnection` over the bytes of its connection.
pub mod Packets
pub mod Ends
use goqtt.Base.{ℕ, zero, suc, ◌+◌, Bytes, List, [], ◌∷◌, ◌++◌, Option, none, some}
use goqtt.Broker.Session.{Write}
use goqtt.Transport.Dispatch.{handle_frame}
use goqtt.Transport.Frame.{Frame, closed, oversized, packet, read_frame}
use goqtt.Transport.Handler.{World}
use goqtt.Transport.Server.{Server, Connection, Step, goes_on, returns, end_connection}

-- What is around the rounds of the handler: the world of each round, and what the other handlers do
-- to the server ahead of it.
pub record Surroundings : Type 0 where
  pub world : ℕ → World
  pub others : ℕ → Server → Server

-- What the handler has sent when its deferred function is through, and the server then.
abbrev pub Served : Type 0
Served = List Write × Server

-- The bytes behind the frame.
abbrev pub rest_of : Frame → Bytes
rest_of closed = []
rest_of oversized = []
rest_of (packet raw rest) = rest

-- Behind a round: the next one, or the deferred function.
unfoldable pub after_round :
    World → Bytes → Step → (Connection → Server → Option Served) → Option Served
after_round w client_id (returns, sent, srv) next =
    let (more, srv') = end_connection w.now client_id srv in some (sent ++ more, srv')
after_round w client_id (goes_on c, sent, srv) next = elim (next c srv) [
  | none ↦ none
  | some (more, srv') ↦ some (sent ++ more, srv')
]

-- The loop, from round `k` on, on fuel.
unfoldable pub serve : ℕ → Surroundings → ℕ → Connection → Bytes → Server → Option Served
serve zero s k c stream srv = none
serve (suc fuel) s k c stream srv =
    let frame = read_frame stream in
    after_round (s.world k) c.client_id (handle_frame (s.world k) c frame (s.others k srv))
      (λ c' srv'. serve fuel s (k + 1) c' (rest_of frame) srv')
