-- ===== src/Net/Receive.antt =====
-- bbt/infra/net/detail/ReceiveRing.hpp and impl/ReceiveRingImpl.hpp: the truth of a connection's
-- received bytes. They wait in three places, in this order: the ring, `pending` (appended by the
-- owner without the ring) and `detached` (a tail that was received before the close).
-- An atomic member is a field. A notification is an entry of the log `events`; its consumers are
-- coroutines of another library. What the environment decides in a call is its `Env`.
pub mod State
pub mod Notify
pub mod Write
pub mod Read
pub mod Observe
pub mod Laws
pub mod Flush
pub mod ReadLaws
pub mod PopLaws
pub mod WriteLaws
pub mod LockedLaws
mod Tests
