-- ===== src/Net/Connection.antt =====
-- bbt/infra/net/detail/ConnectionState.hpp and impl/ConnectionStateImpl.hpp: a connection's write
-- operations and their completions, the pump that sends, and the two stages of closing.
pub mod State
pub mod Write
pub mod Pump
pub mod Close
pub mod Invariant
pub mod Settling
pub mod Attribution
pub mod Outcomes
pub mod WriteLaws
pub mod Keeping
pub mod Rounds
pub mod PumpLaws
pub mod CloseLaws
pub mod RequestLaws
pub mod Delivery
pub mod Runs
pub mod Promises
pub mod Intent
pub mod Progress
pub mod Capacity
mod Tests
