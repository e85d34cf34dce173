-- ===== src/Net/Handle.antt =====
-- bbt/infra/net/Connection.cc, Buffer.cc and the outcome types of Types.hpp: the handles of a
-- connection and of a write, and the buffer that a read hands over. No state is an invalid handle.
pub mod Laws
mod Tests
use bbtools_infra.Common.{
  ℕ, ◌+◌, Bool, true, false, not, Option, none, some, List, [], ◌∷◌, ◌++◌, ◌==◌, if◌then◌else◌,
  length, add_size, flatten,
}
use bbtools_infra.Net.Circular.{CircularBuffer}
use bbtools_infra.Net.Errors.{ErrorCode, no_error, net, NetErrc, is_error}
use bbtools_infra.Net.Receive.State.{Env, ReadStatus, ReadResult, ok, would_block, busy, eof, error}
use bbtools_infra.Net.Receive.Read.{PopAllResult, try_read, try_pop_all, result}
use bbtools_infra.Net.Receive.Observe.{logical_size}
use bbtools_infra.Net.Connection.State.{
  AcceptanceState, closed, WriteOpRecord, CompletedWrite, ConnectionState, is_closed,
}
use bbtools_infra.Net.Connection.Write.{Fault, accept_write}
use bbtools_infra.Net.Connection.Close.{request_close}

pub data WritePhase : Type 0 where
  in_flight done rejected unknown : WritePhase

pub record WriteOutcome : Type 0 where
  pub phase : WritePhase
  pub sent : ℕ
  pub code : ErrorCode

-- The record that the handle shares is the one with its id. The connection that it keeps for a wait
-- is left out.
pub record WriteOperation : Type 0 where
  pub record_id : Option ℕ
  pub rejection : ErrorCode

abbrev pub no_operation : WriteOperation
no_operation = record { record_id = none; rejection = no_error }

abbrev pub find_record : ℕ → List WriteOpRecord → Option WriteOpRecord
find_record n [] = none
find_record n (o ∷ os) = if o.id == n then some o else find_record n os

abbrev pub no_outcome : WriteOutcome
no_outcome = record { phase = unknown; sent = 0; code = no_error }

abbrev pub outcome_of : Option WriteOpRecord → WriteOutcome
outcome_of none = no_outcome
outcome_of (some o) =
    if not o.terminal
    then record { phase = in_flight; sent = o.sent; code = no_error }
    else record { phase = done; sent = o.sent; code = o.error }

-- `Buffer`, as the bytes of its segments.
abbrev pub buffer_size : List (List ℕ) → ℕ
buffer_size [] = 0
buffer_size (s ∷ ss) = add_size (length s) (buffer_size ss)

abbrev pub append_to : List (List ℕ) → List ℕ → List ℕ
append_to [] out = out
append_to (s ∷ ss) out = append_to ss (out ++ s)

abbrev pub copy_to : List (List ℕ) → List ℕ
copy_to ss = append_to ss []

-- The error that a read into a buffer gives for a status.
abbrev pub read_code : PopAllResult → ErrorCode
read_code a = elim a.status [
  | ok ↦ no_error
  | would_block ↦ net NetErrc.would_block
  | busy ↦ net NetErrc.busy
  | eof ↦ net NetErrc.eof
  | error ↦ a.code
]

module _ {C : CircularBuffer ℕ} {D : CircularBuffer CompletedWrite} where
  abbrev pub by_id : Option ℕ → ConnectionState C D → WriteOutcome
  by_id none c = no_outcome
  by_id (some n) c = outcome_of (find_record n (c.ops ++ c.settled))

  unfoldable pub query : WriteOperation → ConnectionState C D → WriteOutcome
  query op c =
      if is_error op.rejection
      then record { phase = rejected; sent = 0; code = op.rejection }
      else by_id op.record_id c

  abbrev pub operation_of : ErrorCode × Option ℕ × ConnectionState C D → WriteOperation
  operation_of (e, id, c) =
      if is_error e then no_operation else record { record_id = id; rejection = no_error }

  unfoldable pub async_write :
      Bool
      → Fault
      → Option (ConnectionState C D)
      → List ℕ
      → ErrorCode × WriteOperation × Option (ConnectionState C D)
  async_write sealed f none bytes = (net NetErrc.closed, no_operation, none)
  async_write sealed f (some c) bytes =
      let r = accept_write sealed f c bytes in (r.0, operation_of r, some r.2)

  -- `TryRead` into a `Buffer`: the error, the segments and the connection. A failure leaves `out`.
  unfoldable pub try_read_buffer :
      Env
      → Option (ConnectionState C D)
      → List (List ℕ)
      → ErrorCode × List (List ℕ) × Option (ConnectionState C D)
  try_read_buffer env none out = (net NetErrc.closed, out, none)
  try_read_buffer env (some c) out =
      let (a, ring) = try_pop_all C env c.ring in
      (read_code a, (elim a.status [ ok ↦ a.segments | _ ↦ out ]), some (record c { ring = ring }))

  abbrev pub readable_bytes : Option (ConnectionState C D) → ℕ
  readable_bytes none = 0
  readable_bytes (some c) = logical_size C c.ring

  abbrev pub write_acceptance : Option (ConnectionState C D) → AcceptanceState
  write_acceptance none = closed
  write_acceptance (some c) = c.acceptance

  abbrev pub closed_handle : Option (ConnectionState C D) → Bool
  closed_handle none = true
  closed_handle (some c) = is_closed c.acceptance

  abbrev pub close_reason : Option (ConnectionState C D) → ErrorCode
  close_reason none = net NetErrc.closed
  close_reason (some c) = c.close_reason

  abbrev pub request_close_handle :
      Env → ErrorCode → Option (ConnectionState C D) → Option (ConnectionState C D)
  request_close_handle env reason none = none
  request_close_handle env reason (some c) = some (request_close env reason c)
