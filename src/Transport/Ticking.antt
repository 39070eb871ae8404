-- ===== src/Transport/Ticking.antt =====
-- internal/broker/qos.go, `retryLoop`, in the server: what a tick sends.
use goqtt.Dict.{bytes_key, nat_key}
use goqtt.Transport.Network.{Network}
