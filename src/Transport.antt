-- ===== src/Transport.antt =====
-- internal/transport: the connection handler of the server.
pub mod Frame
pub mod Server
pub mod Handler
pub mod Dispatch
pub mod Loop
pub mod Network
pub mod Rounds
pub mod Invariant
pub mod Counter
pub mod Admission
pub mod Limit
pub mod Cleanup
mod Tests
pub mod Answering
pub mod Publishing
pub mod Holding
pub mod ExactlyOnce
pub mod Releasing
pub mod Subscribing
pub mod Retaining
pub mod Unsubscribing
pub mod Ticking
pub mod Acknowledging
pub mod Reaching
