-- ===== src/Transport/Network.antt =====
-- internal/transport/tcp.go: the connections of a server, whose handlers run side by side. Each
-- event is one round of one handler.
use goqtt.Base.{ℕ, List, [], ◌∷◌, ◌++◌, Bytes, Option, none, some, String}
use goqtt.Broker.Qos.{process_retries, cleanup_timed_out_messages}
use goqtt.Broker.Session.{Write}
use goqtt.Dict.{Dict, lookup, insert, delete, nat_key}
use goqtt.Transport.Dispatch.{handle_frame}
use goqtt.Transport.Frame.{Frame}
use goqtt.Transport.Handler.{World, with_broker}
use goqtt.Transport.Server.{
  Server, Connection, goes_on, returns, Step, new_server, start_handler, check_server_availability,
  end_connection, stop,
}

-- The server, the handlers that have run the check of `checkServerAvailability` and have not acted
-- on it yet, with the reason that it gave, and the handlers that are in their loop, by their
-- connection.
pub record Network : Type 0 where
  pub server : Server
  pub checked : Dict ℕ (Option String)
  pub handlers : Dict ℕ Connection

-- `accept` starts a handler on a connection with a new number, which runs the check; a handler that
-- has run the check counts its connection or refuses it; a handler reads a frame; the retry loop has
-- a tick; `Stop` is called.
pub data Event : Type 0 where
  accepted : ℕ → Event
  started : World → ℕ → Event
  received : World → ℕ → Frame → Event
  ticked : World → Event
  stopped : Event

abbrev pub Sent : Type 0
Sent = List Write × Network

-- What is left of a round: the handler goes on, or the deferred function ends it.
unfoldable pub settle : World → ℕ → Bytes → Network → Step → Sent
settle w conn client_id n (goes_on c, sent, srv) =
    (sent, record n { server = srv; handlers = insert conn c n.handlers })
settle w conn client_id n (returns, sent, srv) =
    let (more, srv') = end_connection w.now client_id srv in
    (sent ++ more, record n { server = srv'; handlers = delete conn n.handlers })

-- `net` gives every connection a number of its own. The check takes no lock.
unfoldable pub accept : ℕ → Option (Option String) → Option Connection → Network → Network
accept conn none none n = record n {
  checked = insert conn (check_server_availability n.server) n.checked;
}
accept conn (some reason) old n = n
accept conn none (some c) n = n

unfoldable pub start : World → ℕ → Option (Option String) → Network → Sent
start w conn none n = ([], n)
start w conn (some reason) n =
    settle w conn [] (record n { checked = delete conn n.checked })
      (start_handler conn reason n.server)

-- A handler that has returned reads no more.
unfoldable pub receive : World → ℕ → Frame → Option Connection → Network → Sent
receive w conn frame none n = ([], n)
receive w conn frame (some c) n = settle w conn c.client_id n (handle_frame w c frame n.server)

unfoldable pub tick : World → Network → Sent
tick w n =
    let (sent, qm) = process_retries w.now n.server.broker.qos_manager in
    let b = record n.server.broker { qos_manager = cleanup_timed_out_messages w.now qm } in
    (sent, record n { server = with_broker b n.server })

unfoldable pub handle_event : Event → Network → Sent
handle_event (accepted conn) n =
    ([], accept conn (lookup conn n.checked) (lookup conn n.handlers) n)
handle_event (started w conn) n = start w conn (lookup conn n.checked) n
handle_event (received w conn frame) n = receive w conn frame (lookup conn n.handlers) n
handle_event (ticked w) n = tick w n
handle_event stopped n = ([], record n { server = stop n.server })

-- What the server has sent after the events, the last one first, and its state.
unfoldable pub network_of : List Event → Sent
network_of [] = ([], record { server = new_server; checked = []; handlers = [] })
network_of (event ∷ history) =
    let (sent, n) = network_of history in
    let (more, n') = handle_event event n in (sent ++ more, n')
