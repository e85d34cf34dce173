-- ===== src/Net/Receive/Observe.antt =====
-- What ReceiveRing tells without a lock, and what its access guard sees under it.
use bbtools_infra.Common.{ℕ, ◌/◌, ◌^◌, Bool, not, List, ◌==◌, add_size}
use bbtools_infra.Net.Circular.{CircularBuffer}
use bbtools_infra.Net.EventRing.{ring_size, peek}
use bbtools_infra.Net.Receive.State.{ReceiveRing}

module _ (C : CircularBuffer ℕ) where
  unfoldable pub logical_size : ReceiveRing C → ℕ
  logical_size r = add_size r.size r.detached_size

  unfoldable pub is_drained : ReceiveRing C → Bool
  unfolding logical_size
  is_drained r = logical_size r == 0

  abbrev pub pending_count : ReceiveRing C → ℕ
  pending_count r = r.pending_size

  abbrev pub access_generation : ReceiveRing C → ℕ
  access_generation r = r.signals.access_generation

  abbrev pub has_read_error : ReceiveRing C → Bool
  has_read_error r = not (r.error / 2 ^ 32 == 0)

  abbrev pub locked_size : ReceiveRing C → ℕ
  locked_size r = ring_size C r.ring

  unfoldable pub locked_peek : ReceiveRing C → List ℕ
  locked_peek r = peek C r.ring
