-- ===== src/Transport/Loop/Ends.antt =====
-- internal/transport/tcp.go, the loop of `handleConnection`: it ends with the bytes of any client.
use goqtt.Base.{
  ℕ, zero, suc, ◌+◌, ◌*◌, ◌<◌, ◌≤◌, Bytes, [], ◌∷◌, ◌++◌, Option, some, ◌≡◌, refl, arith, length,
  length-drop, Bool-cases, inl, inr, ltb, ◌==◌, bit_and, ◌∙◌,
}
use goqtt.Transport.Dispatch.{handle_frame}
use goqtt.Transport.Frame.{
  read_frame, read_body, read_length, LengthRead, length_closed, length_oversized, length_read,
}
use goqtt.Transport.Handler.{World}
use goqtt.Transport.Loop.{Surroundings, Served, serve, after_round, rest_of}
use goqtt.Transport.Server.{Server, Connection, Step, goes_on, returns}

-- How many bytes are left.
abbrev left_of : LengthRead → ℕ
left_of length_closed = 0
left_of length_oversized = 0
left_of (length_read buf n stream) = length stream

read_length-left :
    (rounds : ℕ) (stream buf : Bytes) (total multiplier : ℕ)
    → left_of (read_length rounds stream buf total multiplier) ≤ length stream
unfolding read_length
read_length-left zero stream buf total multiplier = omega arith
read_length-left (suc rounds) [] buf total multiplier = omega arith
read_length-left (suc rounds) (b ∷ stream) buf total multiplier =
    let total' = total + bit_and b 0x7F * multiplier in
    let rest = read_length-left rounds stream (buf ++ b ∷ []) total' (multiplier * 128) in
    elim (Bool-cases (bit_and b 0x80 == 0)) [
      | inl e ↦ rw e (omega arith)
      | inr e ↦ rw e (omega (arith, rest))
    ]

read_body-left :
    (header : ℕ) (read : LengthRead) → length (rest_of (read_body header read)) ≤ left_of read
unfolding read_body
read_body-left header length_closed = omega arith
read_body-left header length_oversized = omega arith
read_body-left header (length_read buf n stream) =
    let less = length-drop n stream in
    elim (Bool-cases (ltb (length stream) n)) [
      | inl e ↦ rw e (omega arith)
      | inr e ↦ rw e (omega (arith, less))
    ]

-- A frame takes a byte at least.
read_frame-left :
    (b : ℕ) (stream : Bytes) → length (rest_of (read_frame (b ∷ stream))) ≤ length stream
unfolding read_frame
read_frame-left b stream =
    let read = read_length 4 stream [] 0 1 in
    let body = read_body-left b read in
    let before = read_length-left 4 stream [] 0 1 in omega (arith, body, before)

abbrev IsServed : Option Served → Type 0
IsServed o = (served : Served) × (o ≡ some served)

after_round-IsServed :
    (w : World) (client_id : Bytes) (step : Step) (next : Connection → Server → Option Served)
    → ((c : Connection) (srv : Server) → IsServed (next c srv))
    → IsServed (after_round w client_id step next)
unfolding after_round
after_round-IsServed w client_id (returns, sent, srv) next go = (_, refl)
after_round-IsServed w client_id (goes_on c, sent, srv) next go =
    let ((more, srv'), e) = go c srv in ((sent ++ more, srv'), rw (after_round, e) refl)

after_round-cong :
    (w : World) (client_id : Bytes) (step : Step) {next next' : Connection → Server → Option Served}
    → ((c : Connection) (srv : Server) → next c srv ≡ next' c srv)
    → after_round w client_id step next ≡ after_round w client_id step next'
unfolding after_round
after_round-cong w client_id (returns, sent, srv) same = refl
after_round-cong w client_id (goes_on c, sent, srv) same = rw (after_round, same c srv) refl

serve-IsServed :
    (fuel : ℕ) (s : Surroundings) (k : ℕ) (c : Connection) (stream : Bytes) (srv : Server)
    → length stream < fuel
    → IsServed (serve fuel s k c stream srv)
unfolding serve handle_frame read_frame after_round
serve-IsServed zero s k c stream srv f = ground arith
serve-IsServed (suc fuel) s k c [] srv f = (_, refl)
serve-IsServed (suc fuel) s k c (b ∷ stream) srv f =
    let fewer = read_frame-left b stream in
    after_round-IsServed (s.world k) c.client_id _ _
      (λ c' srv'. serve-IsServed fuel s (k + 1) c' _ srv' (omega (arith, fewer)))

serve-same :
    (fuel more : ℕ) (s : Surroundings) (k : ℕ) (c : Connection) (stream : Bytes) (srv : Server)
    → length stream < fuel
    → length stream < more
    → serve fuel s k c stream srv ≡ serve more s k c stream srv
unfolding serve handle_frame read_frame after_round
serve-same zero more s k c stream srv f g = ground arith
serve-same (suc fuel) zero s k c stream srv f g = ground arith
serve-same (suc fuel) (suc more) s k c [] srv f g = refl
serve-same (suc fuel) (suc more) s k c (b ∷ stream) srv f g =
    let fewer = read_frame-left b stream in
    after_round-cong (s.world k) c.client_id _ (λ c' srv'.
      serve-same fuel more s (k + 1) c' _ srv' (omega (arith, fewer)) (omega (arith, fewer)))

-- On any bytes, with any worlds and whatever the other handlers do between the rounds, the loop of
-- the handler ends and its deferred function runs: a number of rounds above the number of the bytes
-- is enough, and any such number gives the same result.
pub serve-enough :
    (s : Surroundings) (c : Connection) (stream : Bytes) (srv : Server)
    → (served : Served) × ((fuel : ℕ)
        → length stream < fuel
        → serve fuel s 0 c stream srv ≡ some served)
serve-enough s c stream srv =
    let (served, e) = serve-IsServed (length stream + 1) s 0 c stream srv (omega arith) in
    (served, λ fuel f. serve-same fuel (length stream + 1) s 0 c stream srv f (omega arith) ∙ e)
