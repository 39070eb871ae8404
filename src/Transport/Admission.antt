-- ===== src/Transport/Admission.antt =====
-- internal/transport/tcp.go: what a connection without a session can do.
use goqtt.Dict.Laws.{same_self, lookup-insert}
use goqtt.Transport.Dispatch.{handle_packet, handle_frame, handle_parsed}
use goqtt.Broker.Session.{store_session, get_session}
use goqtt.Packet.Connack.{new_connack}
use goqtt.Packet.Parser.{is_connect, get_connect, parse, ParsedPacket}
use goqtt.Transport.Server.{Connection, goes_on, returns, Step, Server}
use goqtt.Packet.Connect.{ConnectPacket}
use goqtt.Transport.Handler.{
  is_authentic, handle_first, establish, authenticate_both, first_connect, send_and_close,
  answer_connect, new_session, return_code_of, World, check_credentials,
}
use goqtt.Base.{
  Bool-cases, Bool, if_both, Option, arith, ◌⊎◌, not, Bytes, ◌&&◌, ◌<◌, ℕ, ◌≡◌, refl, true, false,
  none, some, inl, inr, ◌∷◌, [],
}
use goqtt.Dict.{lookup, bytes_key}
use goqtt.Er.{Result, Message, ok, err, panic, stuck}
use goqtt.Transport.Frame.{Frame, closed, oversized, packet}
use goqtt.Auth.{AuthError, authenticate, no_error, refused, database_error}

-- The handler returns, the server is as it was, and at most one CONNACK is sent, on this
-- connection, with a return code that is not 0.
pub record IsRefused (conn : ℕ) (srv : Server) (step : Step) : Type 0 where
  pub over : step.0 ≡ returns
  pub untouched : step.2 ≡ srv
  pub answer :
      (step.1 ≡ []) ⊎ ((code : ℕ) × (0 < code) × (step.1 ≡ (conn, new_connack false code) ∷ []))

-- A flag is missing, or there are a user name and a password that `Authenticate` accepts.
abbrev pub AreCredentials : World → ConnectPacket → Type 0
AreCredentials w p =
    (p.username_flag && p.password_flag ≡ false)
    ⊎ ((username : Bytes) × (password : Bytes) × (p.username ≡ some username)
        × (p.password ≡ some password)
        × (authenticate w.query w.compare username password ≡ no_error))

-- The handler goes on with the session of the CONNECT, which is the one in the map now, and the
-- CONNACK says whether there was one before that is kept.
pub record IsAdmitted (w : World) (conn : ℕ) (p : ConnectPacket) (srv : Server) (step : Step)
    : Type 0 where
  pub credentials : AreCredentials w p
  pub goes :
      step.0 ≡ goes_on (record { conn = conn; client_id = p.client_id; session_established = true })
  pub acknowledged :
      let present = not p.clean_session && (get_session p.client_id srv.broker.sessions).1 in
      step.1 ≡ (conn, new_connack present 0) ∷ []
  pub stored : lookup p.client_id step.2.broker.sessions ≡ some (new_session w conn p)

-- The frame is a packet that `Parse` takes for a CONNECT.
abbrev pub IsConnectFrame : World → Frame → ConnectPacket → Type 0
IsConnectFrame w frame connect =
    (raw : Bytes) × (rest : Bytes) × (p : ParsedPacket) × (frame ≡ packet raw rest)
    × (parse w.new_uuid raw ≡ ok p)
    × (get_connect p ≡ some connect)

return_code_of-positive : (m : Message) → 0 < return_code_of m
unfolding return_code_of
return_code_of-positive m = elim m as (λ k. 0 < return_code_of k) [
  | Message.unsupported_protocol_level ↦ omega arith
  | _ ↦ omega arith
]

is_authentic_lem : (e : AuthError) → ok (is_authentic e) ≡ ok true → e ≡ no_error
is_authentic_lem no_error e = refl
is_authentic_lem (refused r) e = cc
is_authentic_lem database_error e = cc

authenticate_both_lem :
    (w : World) (username password : Option Bytes)
    → authenticate_both w username password ≡ ok true
    → (u : Bytes) × (p : Bytes) × (username ≡ some u)
      × (password ≡ some p)
      × (authenticate w.query w.compare u p ≡ no_error)
unfolding authenticate_both
authenticate_both_lem w none password e = cc
authenticate_both_lem w (some u) none e = cc
authenticate_both_lem w (some u) (some p) e = (u, p, refl, refl, is_authentic_lem _ e)

check_credentials_lem :
    (w : World) (p : ConnectPacket) → check_credentials w p ≡ ok true → AreCredentials w p
unfolding check_credentials
check_credentials_lem w p e = elim (Bool-cases (p.username_flag && p.password_flag)) [
  | inl both ↦ inr (authenticate_both_lem w p.username p.password (ground arith))
  | inr missing ↦ inl missing
]

-- A refusal.
refusal-IsRefused :
    (conn code : ℕ) (srv : Server)
    → 0 < code
    → IsRefused conn srv (send_and_close conn (new_connack false code) srv)
unfolding send_and_close
refusal-IsRefused conn code srv h = record {
  over = refl;
  untouched = refl;
  answer = inr (code, h, refl);
}

silent-IsRefused : (conn : ℕ) (srv : Server) → IsRefused conn srv (returns, [], srv)
silent-IsRefused conn srv = record { over = refl; untouched = refl; answer = inl refl }

establish-IsAdmitted :
    (w : World) (c : Connection) (p : ConnectPacket) (srv : Server)
    → AreCredentials w p
    → IsAdmitted w c.conn p srv (establish w c p srv)
unfolding establish store_session
establish-IsAdmitted w c p srv h = record {
  credentials = h;
  goes = refl;
  acknowledged = refl;
  stored =
      rw (lookup-insert p.client_id p.client_id (new_session w c.conn p), same_self p.client_id)
        refl;
}

answer_connect_lem :
    (w : World) (c : Connection) (p : ConnectPacket) (checked : Result Bool) (srv : Server)
    → check_credentials w p ≡ checked
    → let step = answer_connect w c p checked srv in
      IsRefused c.conn srv step ⊎ IsAdmitted w c.conn p srv step
unfolding answer_connect
answer_connect_lem w c p (ok true) srv e =
    inr (establish-IsAdmitted w c p srv (check_credentials_lem w p e))
answer_connect_lem w c p (ok false) srv e = inl (refusal-IsRefused c.conn _ srv (omega arith))
answer_connect_lem w c p (err x) srv e = inl (silent-IsRefused c.conn srv)
answer_connect_lem w c p panic srv e = inl (silent-IsRefused c.conn srv)
answer_connect_lem w c p stuck srv e = inl (silent-IsRefused c.conn srv)

first_connect_lem :
    (w : World) (c : Connection) (given : Option ConnectPacket) (srv : Server)
    → let step = first_connect w c given srv in
      IsRefused c.conn srv step
      ⊎ ((p : ConnectPacket) × (given ≡ some p) × IsAdmitted w c.conn p srv step)
unfolding first_connect
first_connect_lem w c none srv = inl (refusal-IsRefused c.conn _ srv (omega arith))
first_connect_lem w c (some p) srv = elim (answer_connect_lem w c p _ srv refl) [
  | inl r ↦ inl r
  | inr a ↦ inr (p, refl, a)
]

handle_first_lem :
    (w : World) (c : Connection) (parsed : ParsedPacket) (srv : Server)
    → let step = handle_first w c parsed srv in
      IsRefused c.conn srv step
      ⊎ ((p : ConnectPacket) × (get_connect parsed ≡ some p) × IsAdmitted w c.conn p srv step)
unfolding handle_first
handle_first_lem w c parsed srv =
    let P : Step → Type 0 = λ step.
      IsRefused c.conn srv step
      ⊎ ((p : ConnectPacket) × (get_connect parsed ≡ some p) × IsAdmitted w c.conn p srv step) in
    if_both P (not (is_connect parsed)) (inl (refusal-IsRefused c.conn _ srv (omega arith)))
      (first_connect_lem w c (get_connect parsed) srv)

handle_packet_first :
    (w : World) (c : Connection) (parsed : ParsedPacket) (srv : Server)
    → c.session_established ≡ false
    → handle_packet w c parsed srv ≡ handle_first w c parsed srv
unfolding handle_packet
handle_packet_first w c parsed srv e = ground arith

handle_parsed_lem :
    (w : World) (c : Connection) (r : Result ParsedPacket) (srv : Server)
    → c.session_established ≡ false
    → let step = handle_parsed w c r srv in
      IsRefused c.conn srv step
      ⊎ ((parsed : ParsedPacket) × (p : ConnectPacket) × (r ≡ ok parsed)
          × (get_connect parsed ≡ some p)
          × IsAdmitted w c.conn p srv step)
unfolding handle_parsed
handle_parsed_lem w c (ok parsed) srv e =
    rw (handle_packet_first w c parsed srv e) (elim (handle_first_lem w c parsed srv) [
      | inl r ↦ inl r
      | inr (p, g, a) ↦ inr (parsed, p, refl, g, a)
    ])
handle_parsed_lem w c (err x) srv e =
    inl (refusal-IsRefused c.conn _ srv (return_code_of-positive x.message))
handle_parsed_lem w c panic srv e = inl (silent-IsRefused c.conn srv)
handle_parsed_lem w c stuck srv e = inl (silent-IsRefused c.conn srv)

-- While a connection has no session, whatever it sends either ends the handler, with the server
-- unchanged and nothing sent but at most a CONNACK with an error code on that connection, or is a
-- CONNECT whose user name and password, where both are flagged, `Authenticate` accepts; then the
-- handler goes on with the client's session, which is stored, and the CONNACK with code 0 says
-- whether a session is resumed.
pub handle_frame_admission :
    (w : World) (c : Connection) (frame : Frame) (srv : Server)
    → c.session_established ≡ false
    → let step = handle_frame w c frame srv in
      IsRefused c.conn srv step
      ⊎ ((p : ConnectPacket) × IsConnectFrame w frame p × IsAdmitted w c.conn p srv step)
unfolding handle_frame
handle_frame_admission w c closed srv e = inl (silent-IsRefused c.conn srv)
handle_frame_admission w c oversized srv e = inl (refusal-IsRefused c.conn _ srv (omega arith))
handle_frame_admission w c (packet raw rest) srv e =
    elim (handle_parsed_lem w c (parse w.new_uuid raw) srv e) [
      | inl r ↦ inl r
      | inr (parsed, p, q, g, a) ↦ inr (p, (raw, rest, parsed, refl, q, g), a)
    ]
