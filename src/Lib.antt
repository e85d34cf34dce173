-- ===== src/Lib.antt =====
-- bbtools-infra: the state of a network connection with its buffers, the choice of its event loop,
-- the check of an engine's options, the connection pool of the HTTP client, and the wire profile of
-- an RPC envelope.
--
-- The program. A connection of bbt/infra/net has a receiving and a sending side. On the receiving
-- side the connection's owner appends what the socket gave to a `ReceiveRing`, and readers take it;
-- the ring keeps its bytes in an `EventRingBuffer`, which grows by doubling up to a limit, behind
-- it the bytes that were appended without the ring (`pending`), and behind those a tail that was
-- received before the close (`detached`). On the sending side an `OutboundQueue` keeps the bytes in
-- a static ring and then in spill segments, shows them to `sendmsg` and drops what was sent.
-- `ConnectionState` holds both: it accepts writes, each with a record, pumps the queue into the
-- socket, credits the bytes sent to the writes in order, puts the completion of each write that is
-- over into a bounded buffer, and closes in two stages. The HTTP client's `ConnectionPool` lends
-- connections out, each to one call, queues calls where its budget is used up, and is closed or
-- drained for good. `LoadBalancer` chooses the loop of a new connection and `NormalizeOptions`
-- checks and completes an engine's options. bbt/infra/rpc/RpcWire checks an envelope and carries it
-- through protobuf messages; its errors are those of bbt/infra/Result.hpp.
--
-- The files.
--   Common, Common/       names of the libraries, Boolean tests, lists over the native numbers,
--                         `std::size_t` arithmetic with its wrap-around, integers.
--   Net/Errors            bbt/infra/net/Error.hpp: NetErrc, and `std::error_code` as category and value.
--   Net/Circular          boost::circular_buffer as an interface (`CircularBuffer`), with an instance.
--   Net/EventRing         bbt/infra/net/detail/EventRingBuffer.hpp and its Impl: `append`, `reserve`,
--                         `peek`, `discard`, `consume`, `take_snapshot`, `take_storage`, `clear`;
--                         Net/EventRing/Snapshot is the class EventSnapshot.
--   Net/Outbound          bbt/infra/net/detail/OutboundQueue.hpp and its Impl: `append`,
--                         `gather_views`, `consume_sent`, `segment_count`, construction and move. The
--                         ring is the vector of the source with its head and size.
--   Net/Receive           bbt/infra/net/detail/ReceiveRing.hpp and its Impl. State holds the members,
--                         Notify the notifications and terminal marks, Write the owner's side
--                         (`stage_detached`, `try_reserve_for_append`, `try_append`,
--                         `append_deferred`), Read the readers' side (`try_read`, `try_pop_all`,
--                         `try_access_attempt` and what runs under its lock), Observe the accessors.
--   Net/Connection        bbt/infra/net/detail/ConnectionState.hpp and its Impl. State holds the
--                         members, Write `accept_write` and `can_accept_write`, Pump `pump_writes`
--                         with the attribution of bytes, `try_pop_terminal` and `drain_terminal`,
--                         Close `request_close` and `mark_closed`. The records that the handles of
--                         writes share stay in `settled` when they leave the deque. Runs is the
--                         relation of all sequences of these operations.
--   Net/Handle            bbt/infra/net/Connection.cc, Buffer.cc and WriteOperation.hpp: `query`,
--                         `async_write`, `try_read_buffer`, the buffer and the observers.
--   Net/LoadBalancing     bbt/infra/net/LoadBalancing.hpp and LoadBalancing.cc.
--   Net/Options           bbt/infra/net/Options.hpp and detail/OptionsNormalize.{hpp,cc}.
--   Http/Pool             bbt/infra/http/detail/Pool.hpp and its Impl. State holds the entries and
--                         waiters, Locked the helpers under the mutex, Acquire each section of a call,
--                         of a lease's return and of the life cycle; System is the step relation of
--                         all interleavings of these sections. An access to an entry that was freed
--                         is `none`.
--   Rpc/Text              IsValidUtf8 of bbt/infra/impl/ResultImpl.hpp.
--   Rpc/Errors            bbt/infra/Result.hpp: ErrorCode, RequestPhase, Error, ValidateErrorDetails.
--   Rpc/Message           proto/bbt/infra/rpc/v1/rpc_envelope.proto as records, and the protobuf runtime
--                         as an interface (`Protobuf`).
--   Rpc/Checks, Rpc/Wire  bbt/infra/rpc/RpcWire.{hpp,cc}: the enumeration maps and validations, and
--                         `fill_proto`, `from_proto`, the encoder, the decoders, and the passage to and
--                         from the public envelope.
-- The other modules hold proofs and are named for what they prove; Tests holds runs and instances.
--
-- How it is modelled. A class is a record and a member function a function from the state to its
-- answer and the new state. A byte is a number. A function that may throw `std::bad_alloc` returns
-- an Option whose `none` is the exception; whether an allocation succeeds is an argument
-- (`allocates`, or a field of `Env`), as is whether `try_lock` gets the mutex and whether a
-- notification throws. The sink of a pump and what a sweep sees of the network and the clock are
-- functions. A critical section is one step. `std::size_t` sums and differences are taken modulo 2
-- ^ 64, and the invariants show that none of them wraps. A `std::int64_t` is an integer, with its
-- bound as a hypothesis. An input of `Append` is bytes of the caller or a view of the ring, and
-- what stands in memory that a growth frees is an argument. A section of the pool that throws ends
-- as `throws`; `DrainTerminal` and the ring's `Consume` have an argument for each allocation.
--
-- Bounds and fuel. The doubling loop of `GrowTarget` has the missing bytes as fuel, since each
-- round adds one at least. The loop of `DrainTerminal` has the count of completions, since each
-- round takes one; the pump has the rounds that its caller allows. The UTF-8 loop has the count of
-- bytes. All other loops are recursions on a list.
--
-- Not modelled. The waiters and the wake-up hubs (coroutines of another library): a notification
-- is an entry of the log `events`. Message texts of error categories, test hooks, and reservations
-- that only allocate. The exceptions of copies that change nothing else (`TakeSnapshot`, the
-- consume of a snapshot, a buffer's copy), of the texts of errors, and of the pool's sections
-- after a wait or a release. The waits and accesses of handles, the engine, the HTTP client and
-- server, the RPC runtime, MCP, Mongo, Redis, Consul and config. Parameters are the CRC-32 of
-- Boost, boost::circular_buffer and the protobuf runtime.
pub mod Common
pub mod Http
pub mod Net
pub mod Rpc
