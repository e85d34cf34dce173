-- ===== src/Http/Pool.antt =====
-- bbt/infra/http/detail/Pool.hpp and impl/PoolImpl.hpp: the bounded pool of connections, its queue of
-- waiting calls and its life cycle. Each definition is a section under the pool's mutex.
pub mod State
pub mod Locked
pub mod Acquire
pub mod Owners
pub mod Passing
pub mod System
pub mod Sections
pub mod Sound
pub mod Steps
pub mod Reachable
pub mod LifeCycle
mod Tests
