-- ===== src/Net/Connection/State.antt =====
-- The members of ConnectionState, the records of its write operations, and its observers.
use bbtools_infra.Common.{
  ℕ, ◌≡◌, Bool, true, false, not, List, [], ◌∷◌, ◌++◌, ltb, if◌then◌else◌, is_empty, length,
}
use bbtools_infra.Net.Circular.{CircularBuffer, contents, size}
use bbtools_infra.Net.Errors.{ErrorCode, no_error}
use bbtools_infra.Net.Outbound.{OutboundQueue, outbound_queue}
use bbtools_infra.Net.Receive.State.{ReceiveRing, receive_ring}

pub data AcceptanceState : Type 0 where
  open_for_writes settling closed : AcceptanceState

pub record WriteOpRecord : Type 0 where
  pub id : ℕ
  pub total : ℕ
  pub terminal : Bool
  pub sent : ℕ
  pub remaining : ℕ
  pub error : ErrorCode

pub record CompletedWrite : Type 0 where
  pub id : ℕ
  pub sent : ℕ
  pub error : ErrorCode

-- The write hub, the close hub, and the owner's callback.
pub data ConnectionEvent : Type 0 where
  writers_notified closers_notified owner_woken : ConnectionEvent

-- The buffer of the receive ring's bytes, and that of the completed writes.
module _ (C : CircularBuffer ℕ) (D : CircularBuffer CompletedWrite) where
  pub record ConnectionState : Type 0 where
    pub id : ℕ
    pub ring : ReceiveRing C
    -- `owner_dirty` is set.
    pub has_owner : Bool
    pub ops : List WriteOpRecord
    pub queue : OutboundQueue
    pub outbound_max : ℕ
    pub max_ops : ℕ
    pub next_op : ℕ
    pub acceptance : AcceptanceState
    pub close_requested : Bool
    pub read_closed_published : Bool
    pub last_error : ErrorCode
    pub last_error_op : ℕ
    pub close_reason : ErrorCode
    pub pending_terminal : D.Buf
    -- The records that have left `ops`, oldest first: the handles of their writes still hold them.
    pub settled : List WriteOpRecord
    pub events : List ConnectionEvent

-- What `WakeOwner` adds to the events.
abbrev pub woken : Bool → List ConnectionEvent → List ConnectionEvent
woken has_owner events = if has_owner then events ++ owner_woken ∷ [] else events

module _ {C : CircularBuffer ℕ} {D : CircularBuffer CompletedWrite} where
  abbrev pub pending : ConnectionState C D → List CompletedWrite
  pending c = contents D c.pending_terminal

  abbrev pub pending_count : ConnectionState C D → ℕ
  pending_count c = size D c.pending_terminal

  abbrev pub log : ConnectionEvent → ConnectionState C D → ConnectionState C D
  log e c = record c { events = c.events ++ e ∷ [] }

  abbrev pub wake_owner : ConnectionState C D → ConnectionState C D
  wake_owner c = record c { events = woken c.has_owner c.events }

  abbrev pub has_pending_writes : ConnectionState C D → Bool
  has_pending_writes c = not (is_empty c.ops)

  abbrev pub active_op_count : ConnectionState C D → ℕ
  active_op_count c = length c.ops

  abbrev pub last_write_error : ConnectionState C D → ErrorCode × ℕ
  last_write_error c = (c.last_error, c.last_error_op)

-- The close intent and its reason.
abbrev pub SameIntent :
    {C : CircularBuffer ℕ} {D : CircularBuffer CompletedWrite}
    → ConnectionState C D
    → ConnectionState C D
    → Type 0
SameIntent c c' = (c'.close_requested ≡ c.close_requested) × (c'.close_reason ≡ c.close_reason)

abbrev pub is_closed : AcceptanceState → Bool
is_closed closed = true
is_closed _ = false

abbrev pub is_open : AcceptanceState → Bool
is_open open_for_writes = true
is_open _ = false

-- The constructor. The ring of the queue takes 64 KiB at most.
unfoldable pub connection_state :
    (C : CircularBuffer ℕ) (D : CircularBuffer CompletedWrite)
    → ℕ
    → ℕ
    → ℕ
    → ℕ
    → Bool
    → ConnectionState C D
connection_state C D id inbound_max outbound_max max_ops has_owner = record {
  id = id;
  ring = receive_ring C inbound_max;
  has_owner = has_owner;
  ops = [];
  queue =
      outbound_queue (if ltb outbound_max 65536 then outbound_max else 65536) outbound_max max_ops;
  outbound_max = outbound_max;
  max_ops = max_ops;
  next_op = 1;
  acceptance = open_for_writes;
  close_requested = false;
  read_closed_published = false;
  last_error = no_error;
  last_error_op = 0;
  close_reason = no_error;
  pending_terminal = D.set_capacity (if ltb 1 max_ops then max_ops else 1) (D.make 0);
  settled = [];
  events = [];
}
