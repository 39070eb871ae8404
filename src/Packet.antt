-- ===== src/Packet.antt =====
-- internal/packet: the MQTT 3.1.1 control packets, their parsers and their encoders.
pub mod Types
pub mod Filter
pub mod Connack
pub mod Ping
pub mod Disconnect
pub mod Acks
pub mod Publish
pub mod Subscribe
pub mod Unsubscribe
pub mod Suback
pub mod Unsuback
pub mod Connect
pub mod Parser
mod Tests
