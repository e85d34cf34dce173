-- ===== src/Net/Receive/Write.antt =====
-- The owner's side of ReceiveRing: grants, appends and the staged tail.
use bbtools_infra.Common.{
  ℕ, Bool, true, false, not, Option, none, some, List, ◌++◌, ltb, ◌==◌, if◌then◌else◌, is_empty,
  length, add_size, sub_size,
}
use bbtools_infra.Net.Circular.{CircularBuffer}
use bbtools_infra.Net.Errors.{
  ErrorCode, no_error, generic, no_buffer_space, not_enough_memory, is_error,
}
use bbtools_infra.Net.EventRing.{EventRing, append_bytes, reserve, ring_size}
use bbtools_infra.Net.Receive.State.{Env, ReceiveRing, ReadStatus, ReadResult, busy, would_block}
use bbtools_infra.Net.Receive.Notify.{notify_release, notify_data_changed}

pub record AppendGrant : Type 0 where
  pub status : ReadStatus
  pub granted : ℕ
  pub code : ErrorCode

abbrev pub result : ReadStatus → ℕ → ErrorCode → ReadResult
result s n e = record { status = s; bytes = n; code = e }

module _ (C : CircularBuffer ℕ) where
  -- `StageDetached`; false leaves the bytes with the caller.
  unfoldable pub stage_detached : Env → ReceiveRing C → List ℕ → Bool × ReceiveRing C
  stage_detached env r bytes =
      if is_empty bytes then (true, r) else if not env.tail_allocates then (false, r) else (
        true,
        notify_data_changed C env (record r {
          detached = r.detached ++ bytes;
          detached_size = length (r.detached ++ bytes);
        }),
      )

  abbrev pub used_bytes : ReceiveRing C → ℕ
  used_bytes r = add_size (add_size (ring_size C r.ring) (length r.pending)) r.detached_size

  abbrev pub granted_bytes : ReceiveRing C → ℕ → ℕ
  granted_bytes r want =
      let used = used_bytes r in
      let available = if ltb used r.max_bytes then sub_size r.max_bytes used else 0 in
      if ltb want available then want else available

  -- The answer from the outcome of the reservation. A reservation that throws leaves by its
  -- exception, without the notification.
  abbrev pub grant_of :
      ℕ → ReceiveRing C → Option ErrorCode × EventRing C → Option AppendGrant × ReceiveRing C
  grant_of granted r (none, ring) = (none, record r { ring = ring })
  grant_of granted r (some e, ring) =
      let r' = notify_release C (record r { ring = ring }) in
      if is_error e
      then (some (record { status = would_block; granted = 0; code = e }), r')
      else (some (record { status = ReadStatus.ok; granted = granted; code = no_error }), r')

  -- `TryReserveForAppend`; `none` is `std::bad_alloc`.
  unfoldable pub try_reserve_for_append :
      Env → ReceiveRing C → ℕ → Option AppendGrant × ReceiveRing C
  try_reserve_for_append env r want =
      if not env.lock_free
      then (some (record { status = busy; granted = 0; code = no_error }), r)
      else let granted = granted_bytes r want in
        if granted == 0
        then grant_of granted r (some (generic no_buffer_space), r.ring)
        else grant_of granted r
            (reserve C env.ring_allocates r.ring (add_size (used_bytes r) granted))

  abbrev pub caught : Option ErrorCode → ErrorCode
  caught none = generic not_enough_memory
  caught (some e) = e

  abbrev pub appended :
      Env → ReceiveRing C → List ℕ → Option ErrorCode × EventRing C → ReadResult × ReceiveRing C
  appended env r bytes (e, ring) =
      if is_error (caught e)
      then (result would_block 0 (caught e), notify_release C (record r { ring = ring }))
      else (
        result ReadStatus.ok (length bytes) no_error,
        notify_data_changed C env (
            notify_release C
              (record r { ring = ring; size = add_size (ring_size C ring) (length r.pending) })),
      )

  unfoldable pub try_append : Env → ReceiveRing C → List ℕ → ReadResult × ReceiveRing C
  try_append env r bytes =
      if is_empty bytes
      then (result ReadStatus.ok 0 no_error, r)
      else if not env.lock_free
      then (result busy 0 no_error, r)
      else appended env r bytes (append_bytes C env.ring_allocates r.ring bytes)

  -- `AppendDeferred`; false leaves the bytes with the owner.
  unfoldable pub append_deferred : Env → ReceiveRing C → List ℕ → Bool × ReceiveRing C
  append_deferred env r bytes =
      if is_empty bytes
      then (true, r)
      else if not env.lock_free
      then (false, r)
      else if not env.tail_allocates
      then (false, r)
      else (
        true,
        notify_data_changed C env (record r {
          pending = r.pending ++ bytes;
          pending_size = length (r.pending ++ bytes);
          size = add_size (ring_size C r.ring) (length (r.pending ++ bytes));
        }),
      )
