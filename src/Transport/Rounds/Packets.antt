-- ===== src/Transport/Rounds/Packets.antt =====
-- internal/transport/tcp.go: the rounds of a handler that has a session.
use goqtt.Packet.Subscribe.{SubscribePacket}
use goqtt.Packet.Unsubscribe.{UnsubscribePacket}
use goqtt.Broker.Evolution.Requests.{
  handle_client_disconnect-Evolves, handle_unsubscribe-Evolves, handle_subscribe-Evolves,
  broker_pub_comp-Evolves, broker_incoming_pub_rel-Evolves, broker_incoming_publish-Evolves,
  broker_pub_rec-Evolves, broker_pub_ack-Evolves,
}
use goqtt.Packet.Parser.{ParsedPacket}
use goqtt.Broker.Evolution.Publishing.{handle_publish-Evolves}
use goqtt.Broker.State.{Broker}
use goqtt.Packet.Acks.{PubrelPacket}
use goqtt.Packet.Publish.{PublishPacket}
use goqtt.Transport.Dispatch.{
  handle_request_packet, handle_unsubscribe_packet, handle_subscribe_packet, handle_pub_rel_packet,
  handle_pub_rec_packet, given_packet, reply_pubrel, handle_publish_packet, handle_session_packet,
}
use goqtt.Transport.Rounds.{
  rounds, reply-IsRound, goes_on-IsRound, Moves, unchanged-IsRound, IsRound, IsHandler,
}
use goqtt.Broker.Session.{Session}
use goqtt.Transport.Server.{Step, Server, Connection}
use goqtt.Transport.Handler.{send_and_close, World}
use goqtt.Base.{none, some, [], Option, ℕ}

-- What the broker's operations for a packet do.
ruleset evolutions = (
  handle_publish-Evolves, broker_pub_ack-Evolves, broker_pub_rec-Evolves, broker_pub_comp-Evolves,
  broker_incoming_publish-Evolves, broker_incoming_pub_rel-Evolves, handle_subscribe-Evolves,
  handle_unsubscribe-Evolves, handle_client_disconnect-Evolves,
)

module _ {conn : ℕ} (w : World) {c : Connection} (session : Session) {srv : Server}
    (h : IsHandler conn srv.broker.sessions c) where
  given_packet-IsRound :
      {A : Type 0} (o : Option A) (handle : A → Step)
      → ((a : A) → IsRound conn srv (handle a))
      → IsRound conn srv (given_packet w c session srv o handle)
  unfolding given_packet
  given_packet-IsRound none handle k = unchanged-IsRound []
  given_packet-IsRound (some a) handle k = k a

  handle_publish_packet-IsRound :
      (p : PublishPacket) → IsRound conn srv (handle_publish_packet w c session srv p)
  unfolding handle_publish_packet
  handle_publish_packet-IsRound p = search (rounds, evolutions, given_packet-IsRound) depth 8

  reply_pubrel-IsRound :
      (o : Option PubrelPacket) (b : Broker)
      → Moves srv.broker b
      → IsRound conn srv (reply_pubrel w c session srv o b)
  unfolding reply_pubrel
  reply_pubrel-IsRound none b m = goes_on-IsRound [] h m
  reply_pubrel-IsRound (some r) b m = reply-IsRound w _ [] h m

  handle_pub_rec_packet-IsRound :
      (i : ℕ) → IsRound conn srv (handle_pub_rec_packet w c session srv i)
  unfolding handle_pub_rec_packet
  handle_pub_rec_packet-IsRound i = search (rounds, evolutions, reply_pubrel-IsRound)

  handle_pub_rel_packet-IsRound :
      (i : ℕ) → IsRound conn srv (handle_pub_rel_packet w c session srv i)
  unfolding handle_pub_rel_packet
  handle_pub_rel_packet-IsRound i = search (rounds, evolutions)

  handle_subscribe_packet-IsRound :
      (p : SubscribePacket) → IsRound conn srv (handle_subscribe_packet w c session srv p)
  unfolding handle_subscribe_packet
  handle_subscribe_packet-IsRound p = search (rounds, evolutions, given_packet-IsRound)

  handle_unsubscribe_packet-IsRound :
      (p : UnsubscribePacket) → IsRound conn srv (handle_unsubscribe_packet w c session srv p)
  unfolding handle_unsubscribe_packet
  handle_unsubscribe_packet-IsRound p = search (rounds, evolutions, given_packet-IsRound)

  handle_request_packet-IsRound :
      (p : ParsedPacket) → IsRound conn srv (handle_request_packet w c session srv p)
  unfolding handle_request_packet send_and_close
  handle_request_packet-IsRound p =
      search
        (
          rounds, evolutions, given_packet-IsRound, handle_subscribe_packet-IsRound,
          handle_unsubscribe_packet-IsRound,
        )
        depth 10

  pub handle_session_packet-IsRound :
      (p : ParsedPacket) → IsRound conn srv (handle_session_packet w c session srv p)
  unfolding handle_session_packet
  handle_session_packet-IsRound p =
      search
        (
          rounds, evolutions, given_packet-IsRound, handle_publish_packet-IsRound,
          handle_pub_rec_packet-IsRound, handle_pub_rel_packet-IsRound,
          handle_request_packet-IsRound,
        )
        depth 10
