-- ===== src/Broker.antt =====
-- internal/broker: the broker's state and its operations.
pub mod Session
pub mod Tree
pub mod Qos
pub mod State
pub mod Delivery
pub mod Handlers
pub mod Fanout
pub mod Retention
pub mod Granting
pub mod Evolution
pub mod Releasing
mod Tests
