-- ===== src/Net.antt =====
-- bbt/infra/net: the network foundation's bounded buffers, connection state and selection logic.
pub mod Errors
pub mod LoadBalancing
pub mod Options
pub mod Circular
pub mod EventRing
pub mod Outbound
pub mod Receive
pub mod Connection
pub mod Handle
