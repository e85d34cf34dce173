-- ===== src/Net/Connection/Write.antt =====
-- `AcceptWrite` and `CanAcceptWrite`, and the handle of a write.
use bbtools_infra.Common.{
  ℕ, Bool, true, false, ◌&&◌, ◌||◌, not, Option, none, some, List, [], ◌∷◌, ◌++◌, ltb, leb,
  if◌then◌else◌, is_empty, length, add_size, sub_size,
}
use bbtools_infra.Net.Circular.{CircularBuffer, push_back}
use bbtools_infra.Net.Errors.{
  ErrorCode, no_error, generic, net, closed, write_settling, no_buffer_space, not_enough_memory,
  is_error,
}
use bbtools_infra.Net.Outbound.{OutboundQueue, append, total_bytes}
use bbtools_infra.Net.Connection.State.{
  AcceptanceState, WriteOpRecord, CompletedWrite, ConnectionState, pending_count, log,
  writers_notified, wake_owner, is_closed, is_open,
}

-- The allocation that fails in the call, if any: of the record, of its place in the deque, or of the
-- queue's segment.
pub data Fault : Type 0 where
  no_fault record_fails place_fails segment_fails : Fault

abbrev pub record_made : Fault → Bool
record_made record_fails = false
record_made _ = true

abbrev pub place_made : Fault → Bool
place_made place_fails = false
place_made _ = true

abbrev pub segment_made : Fault → Bool
segment_made segment_fails = false
segment_made _ = true

-- The guards before the two kinds of write.
abbrev pub gate : Bool → Bool → AcceptanceState → ErrorCode
gate sealed requested acceptance =
    if sealed
    then net closed
    else if requested
    then net closed
    else if is_closed acceptance
    then net closed
    else if is_open acceptance
    then no_error
    else net write_settling

abbrev pub caught : Option ErrorCode → ErrorCode
caught none = generic not_enough_memory
caught (some e) = e

module _ {C : CircularBuffer ℕ} {D : CircularBuffer CompletedWrite} where
  abbrev pub is_full : ConnectionState C D → Bool
  is_full c = leb c.max_ops (add_size (length c.ops) (pending_count c))

  abbrev pub next_id : ConnectionState C D → ℕ
  next_id c = add_size c.next_op 1

  abbrev pub empty_op : ConnectionState C D → WriteOpRecord
  empty_op c = record {
    id = c.next_op;
    total = 0;
    terminal = true;
    sent = 0;
    remaining = 0;
    error = no_error;
  }

  -- A write of no bytes is over at once.
  abbrev pub accept_empty : Fault → ConnectionState C D → ErrorCode × Option ℕ × ConnectionState C D
  accept_empty f c = if not (record_made f) then (generic not_enough_memory, none, c) else (
    no_error,
    some c.next_op,
    wake_owner (
        log writers_notified (record c {
          next_op = next_id c;
          pending_terminal =
              push_back D (record { id = c.next_op; sent = 0; error = no_error })
                c.pending_terminal;
          settled = c.settled ++ empty_op c ∷ [];
        })),
  )

  abbrev pub new_op : ConnectionState C D → List ℕ → WriteOpRecord
  new_op c bytes = record {
    id = c.next_op;
    total = length bytes;
    terminal = false;
    sent = 0;
    remaining = length bytes;
    error = no_error;
  }

  -- The operation stands in the deque while the queue takes the bytes, and leaves it where the queue
  -- refuses them; the id stays used.
  abbrev pub appended :
      ConnectionState C D
      → List ℕ
      → Option ErrorCode × OutboundQueue
      → ErrorCode × Option ℕ × ConnectionState C D
  appended c bytes (e, queue) =
      if is_error (caught e)
      then (caught e, none, record c { queue = queue; next_op = next_id c })
      else (
        no_error,
        some c.next_op,
        wake_owner
            (record c { queue = queue; next_op = next_id c; ops = c.ops ++ new_op c bytes ∷ [] }),
      )

  abbrev pub accept_bytes :
      Fault → ConnectionState C D → List ℕ → ErrorCode × Option ℕ × ConnectionState C D
  accept_bytes f c bytes =
      if ltb (sub_size c.outbound_max (total_bytes c.queue)) (length bytes)
      then (generic no_buffer_space, none, c)
      else if not (record_made f)
      then (generic not_enough_memory, none, c)
      else if not (place_made f)
      then (generic not_enough_memory, none, record c { next_op = next_id c })
      else appended c bytes (append (segment_made f) c.queue bytes)

  -- The error, the id of the write's record where it was accepted, and the state.
  unfoldable pub accept_write :
      Bool → Fault → ConnectionState C D → List ℕ → ErrorCode × Option ℕ × ConnectionState C D
  accept_write sealed f c bytes =
      let refusal = gate sealed c.close_requested c.acceptance in
      if is_error refusal
      then (refusal, none, c)
      else if is_full c
      then (generic no_buffer_space, none, c)
      else if is_empty bytes
      then accept_empty f c
      else accept_bytes f c bytes

  unfoldable pub can_accept_write : Bool → ConnectionState C D → ℕ → Bool
  can_accept_write sealed c bytes =
      if sealed
      then false
      else if c.close_requested || not (is_open c.acceptance)
      then false
      else ltb (add_size (length c.ops) (pending_count c)) c.max_ops
        && leb bytes (sub_size c.outbound_max (total_bytes c.queue))
