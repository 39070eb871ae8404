-- ===== src/Transport/Loop/Packets.antt =====
-- internal/transport/tcp.go, the loop of `handleConnection`: a stream of whole packets.
use goqtt.Base.{
  ℕ, zero, suc, ◌+◌, ◌<◌, Bytes, List, [], ◌∷◌, ◌++◌, Option, some, ◌≡◌, refl, arith, All, concat,
  length, append_assoc, length-append,
}
use goqtt.Packet.Parser.{parse}
use goqtt.Transport.Dispatch.{handle_frame, handle_parsed}
use goqtt.Transport.Frame.{closed, packet, read_frame}
use goqtt.Transport.Frame.Stream.{IsFrame, read_frame-append, frames_length}
use goqtt.Transport.Handler.{World}
use goqtt.Transport.Loop.{Surroundings, Served, serve, after_round}
use goqtt.Transport.Server.{Server, Connection, Step, goes_on, returns, end_connection}

-- The handler on packets that are given whole: each one is parsed and handled, and a packet behind
-- one that ends the handler is not looked at. When the packets are used up, the connection is closed.
abbrev after_packet : World → Bytes → Step → (Connection → Server → Served) → Served
after_packet w client_id (returns, sent, srv) next =
    let (more, srv') = end_connection w.now client_id srv in (sent ++ more, srv')
after_packet w client_id (goes_on c, sent, srv) next =
    let (more, srv') = next c srv in (sent ++ more, srv')

unfoldable pub serve_packets : Surroundings → ℕ → Connection → List Bytes → Server → Served
serve_packets s k c [] srv = end_connection (s.world k).now c.client_id (s.others k srv)
serve_packets s k c (raw ∷ raws) srv =
    let w = s.world k in
    after_packet w c.client_id (handle_parsed w c (parse w.new_uuid raw) (s.others k srv))
      (λ c' srv'. serve_packets s (k + 1) c' raws srv')

after_round-some :
    (w : World) (client_id : Bytes) (step : Step) (next : Connection → Server → Option Served)
    (next' : Connection → Server → Served)
    → ((c : Connection) (srv : Server) → next c srv ≡ some (next' c srv))
    → after_round w client_id step next ≡ some (after_packet w client_id step next')
unfolding after_round
after_round-some w client_id (returns, sent, srv) next next' same = refl
after_round-some w client_id (goes_on c, sent, srv) next next' same =
    rw (after_round, same c srv) refl

serve-concat_enough :
    (fuel : ℕ) (s : Surroundings) (k : ℕ) (c : Connection) (raws : List Bytes) (tail : Bytes)
    (srv : Server)
    → All IsFrame raws
    → read_frame tail ≡ closed
    → length raws < fuel
    → serve fuel s k c (concat raws ++ tail) srv ≡ some (serve_packets s k c raws srv)
unfolding serve serve_packets handle_frame after_round
serve-concat_enough zero s k c raws tail srv h e f = ground arith
serve-concat_enough (suc fuel) s k c [] tail srv h e f = rw e refl
serve-concat_enough (suc fuel) s k c (raw ∷ raws) tail srv h e f =
    let framed : read_frame ((raw ++ concat raws) ++ tail) ≡ packet raw (concat raws ++ tail) =
      rw (append_assoc raw (concat raws) tail) (read_frame-append raw (concat raws ++ tail) h.0) in
    let w = s.world k in
    rw framed (
      after_round-some w c.client_id (handle_parsed w c (parse w.new_uuid raw) (s.others k srv)) _ _
        (λ c' srv'. serve-concat_enough fuel s (k + 1) c' raws tail srv' h.1 e (omega arith)))

-- On the bytes of framed packets, and behind them bytes whose reading meets the end of the stream,
-- with any worlds and whatever the other handlers do between the rounds, the loop of the handler
-- ends, and does what the handler does on the packets one by one: each is parsed and handled in
-- order, up to the first one that ends the handler, or to the end of the stream, and then the
-- deferred function runs. A round for each byte, and one more, is enough.
pub serve-concat :
    (s : Surroundings) (c : Connection) (raws : List Bytes) (tail : Bytes) (srv : Server)
    → All IsFrame raws
    → read_frame tail ≡ closed
    → let stream = concat raws ++ tail in
      serve (length stream + 1) s 0 c stream srv ≡ some (serve_packets s 0 c raws srv)
serve-concat s c raws tail srv h e =
    let fewer = frames_length raws h in
    let whole = length-append (concat raws) tail in
    serve-concat_enough (length (concat raws ++ tail) + 1) s 0 c raws tail srv h e
      (omega (arith, fewer, whole))
