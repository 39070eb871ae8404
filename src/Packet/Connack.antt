-- ===== src/Packet/Connack.antt =====
-- internal/packet/connack.go.
use goqtt.Base.{ℕ, Bool, [], ◌∷◌, if◌then◌else◌, Bytes}

abbrev pub connection_accepted : ℕ
connection_accepted = 0x00

abbrev pub unacceptable_protocol_version : ℕ
unacceptable_protocol_version = 0x01

abbrev pub identifier_rejected_code : ℕ
identifier_rejected_code = 0x02

abbrev pub server_unavailable : ℕ
server_unavailable = 0x03

abbrev pub bad_username_or_password : ℕ
bad_username_or_password = 0x04

abbrev pub not_authorized : ℕ
not_authorized = 0x05

unfoldable pub new_connack : Bool → ℕ → Bytes
new_connack session_present return_code =
    let flags : ℕ = if session_present then 0x01 else 0x00 in 0x20 ∷ 0x02 ∷ flags ∷ return_code ∷ []
