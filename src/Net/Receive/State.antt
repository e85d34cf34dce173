-- ===== src/Net/Receive/State.antt =====
-- The state of the receive ring and what the environment decides in a call.
use bbtools_infra.Common.{ℕ, Bool, false, List, [], ◌++◌}
use bbtools_infra.Net.Circular.{CircularBuffer}
use bbtools_infra.Net.EventRing.{EventRing, event_ring, ring_bytes}
use bbtools_infra.Net.Errors.{ErrorCode}

pub data ReadStatus : Type 0 where
  ok busy would_block eof error : ReadStatus

pub record ReadResult : Type 0 where
  pub status : ReadStatus
  pub bytes : ℕ
  pub code : ErrorCode

-- A notification: to the data waiters, to the release waiters, or to the owner's callback.
pub data Event : Type 0 where
  data_notified release_notified owner_woken : Event

pub record Env : Type 0 where
  -- `try_lock` gets the ring's mutex.
  pub lock_free : Bool
  -- The ring's growth, the append to or from `detached`, and the copy to the caller get memory.
  pub ring_allocates : Bool
  pub tail_allocates : Bool
  pub copy_allocates : Bool
  -- The notification of the call, and the retry of an earlier one, do not throw.
  pub hub_notifies : Bool
  pub owner_wakes : Bool
  pub hub_retries : Bool
  pub owner_retries : Bool

-- The members of ReceiveRing that wake others up.
pub record Signals : Type 0 where
  pub access_generation : ℕ
  pub raw_retry : Bool
  pub has_owner : Bool
  pub notify_pending : Bool
  pub wake_pending : Bool
  pub events : List Event

abbrev pub quiet : Signals
quiet = record {
  access_generation = 0;
  raw_retry = false;
  has_owner = false;
  notify_pending = false;
  wake_pending = false;
  events = [];
}

-- The other members, and the signals.
pub record ReceiveRing (C : CircularBuffer ℕ) : Type 0 where
  pub ring : EventRing C
  pub max_bytes : ℕ
  pub size : ℕ
  pub eof : Bool
  pub closed : Bool
  -- (kind << 32) | value; 0 is no error.
  pub error : ℕ
  pub pending : List ℕ
  pub pending_size : ℕ
  pub detached : List ℕ
  pub detached_size : ℕ
  pub signals : Signals

module _ (C : CircularBuffer ℕ) where
  unfoldable pub receive_ring : ℕ → ReceiveRing C
  receive_ring limit = record {
    ring = event_ring C limit;
    max_bytes = limit;
    size = 0;
    eof = false;
    closed = false;
    error = 0;
    pending = [];
    pending_size = 0;
    detached = [];
    detached_size = 0;
    signals = quiet;
  }

  -- Every received byte that no reader has taken yet, oldest first.
  abbrev pub stream : ReceiveRing C → List ℕ
  stream r = ring_bytes C r.ring ++ (r.pending ++ r.detached)
