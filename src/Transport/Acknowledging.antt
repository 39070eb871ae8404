-- ===== src/Transport/Acknowledging.antt =====
-- internal/transport/tcp.go, `case pkt.PUBACK`: the end of the retries of a message of QoS 1.
use goqtt.Text.{bytes_eq}
use goqtt.Dict.Nested.{find_entry}
use goqtt.Transport.Network.{Network}
use goqtt.Transport.Server.{goes_on, Step, Server, Connection}
use goqtt.Broker.Handlers.{broker_pub_ack}
use goqtt.Transport.Handler.{with_broker, World}
use goqtt.Broker.Qos.{PendingMessage, QosManager}
use goqtt.Dict.{bytes_key, nat_key}
use goqtt.Base.{◌∙◌, ◌∙◌, ◌==◌, ◌&&◌, if◌then◌else◌, Option, ℕ, none, [], Bytes}

-- The round that a PUBACK of the client comes to.
abbrev acknowledge_step : World → Connection → Server → ℕ → Bytes → Step
acknowledge_step w c srv i client_id =
    (goes_on c, [], with_broker (broker_pub_ack client_id i srv.broker).1 srv)

-- The message that a client and an identifier have, with the acknowledged one left out.
abbrev pub unacknowledged : Bytes → ℕ → Bytes → ℕ → QosManager → Option PendingMessage
unacknowledged c i d j qm = if bytes_eq c d && i == j then none else find_entry d j qm.pending_qos1
