-- ===== src/Net/Receive/Laws.antt =====
-- The invariant of ReceiveRing and its packed error.
use bbtools_infra.Common.{
  ℕ, ◌+◌, ◌/◌, ◌%◌, ◌^◌, ◌≤◌, ◌<◌, ◌≡◌, refl, ap, ◌∙◌, [], ◌++◌, append-nil, arith, length,
  length-append, IsSize,
}
use bbtools_infra.Net.Circular.{CircularBuffer}
use bbtools_infra.Net.Errors.{
  ErrorCode, NetErrc, Errc, no_error, generic, net, system, net_value, net_of_value, errc_value,
}
use bbtools_infra.Net.EventRing.{event_ring, ring_bytes, ring_size}
use bbtools_infra.Net.EventRing.Laws
use bbtools_infra.Net.Receive.State.{Env, ReceiveRing, receive_ring, stream, Signals, ReadStatus}
use bbtools_infra.Net.Receive.Notify.{pack_error, mark_error, read_error, terminal}

pub record IsValid (C : CircularBuffer ℕ) (r : ReceiveRing C) : Type 0 where
  pub ring_valid : Laws.IsValid C r.ring
  pub same_limit : r.ring.max_bytes ≡ r.max_bytes
  pub bounded : length (stream C r) ≤ r.max_bytes
  pub pending_counted : r.pending_size ≡ length r.pending
  pub detached_counted : r.detached_size ≡ length r.detached
  pub size_counted : r.size ≡ ring_size C r.ring + length r.pending

module _ (C : CircularBuffer ℕ) where
  pub length-stream :
      (r : ReceiveRing C)
      → length (stream C r) ≡ ring_size C r.ring + length r.pending + length r.detached
  length-stream r = omega (
    arith,
    length-append (ring_bytes C r.ring) (r.pending ++ r.detached),
    length-append r.pending r.detached,
  )

  pub receive_ring-IsValid :
      (limit : ℕ)
      → IsSize limit
      → IsValid C (receive_ring C limit) × (stream C (receive_ring C limit) ≡ [])
  unfolding receive_ring event_ring
  receive_ring-IsValid limit h = (
    record {
      ring_valid = Laws.event_ring-IsValid C limit h;
      same_limit = refl;
      bounded = omega (arith, ap length empty);
      pending_counted = refl;
      detached_counted = refl;
      size_counted = omega (arith, ap length (C.contents-make 0));
    },
    empty,
  )
    where
      empty : ring_bytes C (event_ring C limit) ++ ([] ++ []) ≡ []
      empty = append-nil _ ∙ C.contents-make 0

-- The signals are no part of the invariant.
pub IsValid-signals :
    (C : CircularBuffer ℕ) (r : ReceiveRing C) (s : Signals)
    → IsValid C r
    → IsValid C (record r { signals = s })
IsValid-signals C r s v = record {
  ring_valid = v.ring_valid;
  same_limit = v.same_limit;
  bounded = v.bounded;
  pending_counted = v.pending_counted;
  detached_counted = v.detached_counted;
  size_counted = v.size_counted;
}

-- An error code that a reader can be given: a code of the net category under a named value, or one of
-- the system category.
abbrev pub IsReadable : ErrorCode → Type 0
IsReadable (net (NetErrc.unnamed n)) = ⊥
IsReadable (net e) = Unit {0}
IsReadable (system n) = n < 2 ^ 31
IsReadable _ = ⊥

-- An error that `MarkError` is given and that the packing can hold (`IsReadable`: a named code of the
-- net category, or a code of the system category from 0 to 2 ^ 31 - 1; no other category, no unnamed
-- value and no negative one) is the one that the readers get back, and a reader that finds no bytes
-- is told of it whatever the other marks say. The bytes that wait are as they were.
pub read_error-mark_error :
    (C : CircularBuffer ℕ) (env : Env) (r : ReceiveRing C) (e : ErrorCode)
    → IsReadable e
    → let r' = mark_error C env r e in
      (read_error C r' ≡ e)
      × (terminal C r' ≡ record { status = ReadStatus.error; bytes = 0; code = e })
      × (stream C r' ≡ stream C r)
unfolding mark_error read_error terminal pack_error net_value net_of_value
read_error-mark_error C env r (net NetErrc.eof) h = (refl, refl, refl)
read_error-mark_error C env r (net NetErrc.would_block) h = (refl, refl, refl)
read_error-mark_error C env r (net NetErrc.busy) h = (refl, refl, refl)
read_error-mark_error C env r (net NetErrc.write_settling) h = (refl, refl, refl)
read_error-mark_error C env r (net NetErrc.rejected) h = (refl, refl, refl)
read_error-mark_error C env r (net NetErrc.closed) h = (refl, refl, refl)
read_error-mark_error C env r (net (NetErrc.unnamed n)) h = absurd h
read_error-mark_error C env r (system n) h =
    let k : (2 ^ 32 + n % 2 ^ 32) / 2 ^ 32 ≡ 1 = omega arith in
    let v : (2 ^ 32 + n % 2 ^ 32) % 2 ^ 32 ≡ n = omega arith in (rw (k, v), rw (k, v), refl)
read_error-mark_error C env r no_error h = absurd h
read_error-mark_error C env r (generic e) h = absurd h

-- A code of the generic category does not come back as itself: readers get the system category's
-- code of the same value.
pub read_error-mark_error_generic :
    (C : CircularBuffer ℕ) (env : Env) (r : ReceiveRing C) (e : Errc)
    → read_error C (mark_error C env r (generic e)) ≡ system (errc_value e)
unfolding mark_error read_error pack_error errc_value
read_error-mark_error_generic C env r Errc.invalid_argument = refl
read_error-mark_error_generic C env r Errc.result_out_of_range = refl
read_error-mark_error_generic C env r Errc.no_buffer_space = refl
read_error-mark_error_generic C env r Errc.not_enough_memory = refl
read_error-mark_error_generic C env r Errc.operation_canceled = refl
