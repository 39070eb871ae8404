-- ===== src/Encoding.antt =====
-- internal/packet/utils/encoding.go: the parts of the wire format that the packets share.
pub mod Length
pub mod Topic
pub mod Fields
