-- ===== src/Rpc.antt =====
-- bbt/infra/rpc/RpcWire.{hpp,cc} with the error type of bbt/infra/Result.hpp: the envelope of an RPC
-- call, its checks, and its passage through the generated protobuf messages.
pub mod Text
pub mod Errors
pub mod Message
pub mod Checks
pub mod Wire
pub mod Enums
pub mod Guards
pub mod RoundTrip
pub mod Verdict
pub mod Decode
mod Tests
