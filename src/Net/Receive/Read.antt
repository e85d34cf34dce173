-- ===== src/Net/Receive/Read.antt =====
-- The readers' side of ReceiveRing: reads, the pop of everything and the protected access.
use bbtools_infra.Common.{
  ℕ, Bool, false, not, ◌&&◌, Option, none, some, List, [], ◌∷◌, ◌++◌, ◌==◌, if◌then◌else◌, is_empty,
  length, add_size,
}
use bbtools_infra.Net.Circular.{CircularBuffer}
use bbtools_infra.Net.Errors.{ErrorCode, no_error, generic, not_enough_memory, is_error}
use bbtools_infra.Net.EventRing.{
  EventRing, append_bytes, ring_size, take_snapshot, discard, take_storage,
}
use bbtools_infra.Net.Receive.State.{Env, ReceiveRing, ReadStatus, ReadResult, busy}
use bbtools_infra.Net.Receive.Notify.{
  notify_release, notify_data_changed, retry_pending_notification, request_raw_retry,
  wake_owner_only, terminal,
}

abbrev pub result : ReadStatus → ℕ → ErrorCode → ReadResult
result s n e = record { status = s; bytes = n; code = e }

abbrev pub succeeds : Option ErrorCode → Bool
succeeds none = false
succeeds (some e) = not (is_error e)

-- The segments of `PopAllTakeout`; each shows one of the backings that the takeout owns.
pub record PopAllResult : Type 0 where
  pub status : ReadStatus
  pub code : ErrorCode
  pub segments : List (List ℕ)

abbrev pub segment : List ℕ → List (List ℕ)
segment bytes = if is_empty bytes then [] else bytes ∷ []

abbrev pub popped : ReadResult → PopAllResult
popped a = record { status = a.status; code = a.code; segments = [] }

module _ (C : CircularBuffer ℕ) where
  -- The sizes that `FlushPendingLocked` publishes at its end.
  abbrev pub published : ReceiveRing C → ReceiveRing C
  published r = record r {
    pending_size = length r.pending;
    size = add_size (ring_size C r.ring) (length r.pending);
  }

  -- The second half: the tail behind the pending bytes; its exception is caught.
  abbrev pub flushed_tail : ReceiveRing C → Option ErrorCode × EventRing C → ReceiveRing C
  flushed_tail r (e, ring) =
      if succeeds e
      then record r { ring = ring; detached = []; detached_size = 0 }
      else record r { ring = ring }

  unfoldable pub flush_tail : Env → ReceiveRing C → ReceiveRing C
  flush_tail env r =
      if not (r.detached_size == 0) && not (is_empty r.detached)
      then flushed_tail r (append_bytes C env.tail_allocates r.ring r.detached)
      else r

  -- The first half; its `std::bad_alloc` leaves the function.
  abbrev pub flushed_pending :
      ReceiveRing C → Option ErrorCode × EventRing C → Option (ReceiveRing C)
  flushed_pending r (none, ring) = none
  flushed_pending r (some e, ring) =
      if is_error e
      then some (record r { ring = ring })
      else some (record r { ring = ring; pending = [] })

  unfoldable pub flush_head : Env → ReceiveRing C → Option (ReceiveRing C)
  flush_head env r =
      if is_empty r.pending
      then some r
      else flushed_pending r (append_bytes C env.ring_allocates r.ring r.pending)

  abbrev pub flush_rest : Env → Option (ReceiveRing C) → Option (ReceiveRing C)
  flush_rest env none = none
  flush_rest env (some r) = some (published (flush_tail env r))

  -- `FlushPendingLocked`; `none` is `std::bad_alloc` with the ring as it was.
  unfoldable pub flush_pending : Env → ReceiveRing C → Option (ReceiveRing C)
  flush_pending env r = flush_rest env (flush_head env r)

  -- `CopyConsumeLocked` under the handler of its callers: the error, the bytes consumed, `out` and
  -- the ring.
  unfoldable pub copy_consume : Env → EventRing C → List ℕ → ErrorCode × ℕ × List ℕ × EventRing C
  copy_consume env ring out =
      if not env.copy_allocates
      then (generic not_enough_memory, 0, out, ring)
      else let available = ring_size C ring in
        let (e, ring') = discard C ring available in
        (e, (if is_error e then 0 else available), out ++ take_snapshot C ring, ring')

  abbrev pub copied :
      Env
      → ReceiveRing C
      → ErrorCode × ℕ × List ℕ × EventRing C
      → ReadResult × List ℕ × ReceiveRing C
  copied env r (e, consumed, out, ring) =
      if is_error e
      then (
        result ReadStatus.error 0 e,
        out,
        wake_owner_only C env (notify_release C (record r { ring = ring })),
      )
      else (
        result ReadStatus.ok consumed no_error,
        out,
        notify_data_changed C env (
            notify_release C
              (record r { ring = ring; size = add_size (ring_size C ring) r.pending_size })),
      )

  -- A read with the lock held and the pending bytes in the ring.
  abbrev pub read_locked : Env → ReceiveRing C → List ℕ → ReadResult × List ℕ × ReceiveRing C
  read_locked env r out =
      if ring_size C r.ring == 0
      then (terminal C r, out, wake_owner_only C env (notify_release C r))
      else copied env r (copy_consume env r.ring out)

  abbrev pub read_flushed :
      Env
      → ReceiveRing C
      → List ℕ
      → Option (ReceiveRing C)
      → Option ReadResult × List ℕ × ReceiveRing C
  read_flushed env r out none = (none, out, r)
  read_flushed env r out (some r') =
      let (a, out', r'') = read_locked env r' out in (some a, out', r'')

  -- `TryRead`; `none` is `std::bad_alloc` from the growth of the ring.
  unfoldable pub try_read :
      Env → ReceiveRing C → List ℕ → Option ReadResult × List ℕ × ReceiveRing C
  try_read env r out =
      let r' = retry_pending_notification C env r in
      if not env.lock_free
      then (some (result busy 0 no_error), out, request_raw_retry C r')
      else read_flushed env r' out (flush_pending env r')

  abbrev pub ring_segments : EventRing C → List (List ℕ)
  ring_segments ring =
      if ring_size C ring == 0
      then []
      else let (backing, ring') = take_storage C ring in
        segment (C.array_one backing) ++ segment (C.array_two backing)

  abbrev pub emptied : EventRing C → EventRing C
  emptied ring = if ring_size C ring == 0 then ring else (take_storage C ring).1

  -- `BuildTakeoutLocked`. A moved-from `std::string` is empty.
  abbrev pub build_takeout : ReceiveRing C → List (List ℕ) × ReceiveRing C
  build_takeout r = (
    ring_segments r.ring ++ (segment r.pending ++ segment r.detached),
    record r {
      ring = emptied r.ring;
      pending = [];
      pending_size = 0;
      detached = [];
      detached_size = if is_empty r.detached then r.detached_size else 0;
      size = 0;
    },
  )

  abbrev pub pop_locked : Env → ReceiveRing C → PopAllResult × ReceiveRing C
  pop_locked env r =
      if add_size (add_size (ring_size C r.ring) (length r.pending)) r.detached_size == 0
      then (popped (terminal C r), wake_owner_only C env (notify_release C r))
      else if not env.copy_allocates
      then (
        record { status = ReadStatus.error; code = generic not_enough_memory; segments = [] },
        wake_owner_only C env (notify_release C r),
      )
      else let (segments, r') = build_takeout r in
        (
          record { status = ReadStatus.ok; code = no_error; segments = segments },
          notify_data_changed C env (notify_release C r'),
        )

  unfoldable pub try_pop_all : Env → ReceiveRing C → PopAllResult × ReceiveRing C
  try_pop_all env r =
      let r' = retry_pending_notification C env r in
      if not env.lock_free
      then (popped (result busy 0 no_error), request_raw_retry C r')
      else pop_locked env r'

  abbrev pub access_flushed :
      Env → ReceiveRing C → Option (ReceiveRing C) → Option ReadResult × ReceiveRing C
  access_flushed env r none = (none, r)
  access_flushed env r (some r') =
      if ring_size C r'.ring == 0
      then (some (terminal C r'), wake_owner_only C env (notify_release C r'))
      else (some (result ReadStatus.ok 0 no_error), r')

  -- `TryAccessAttempt`: the status `ok` comes with the lock held.
  unfoldable pub try_access_attempt : Env → ReceiveRing C → Option ReadResult × ReceiveRing C
  try_access_attempt env r =
      let r' = retry_pending_notification C env r in
      if not env.lock_free
      then (some (result busy 0 no_error), r')
      else access_flushed env r' (flush_pending env r')

  -- The operations under the lock.
  abbrev pub discarded : ReceiveRing C → ErrorCode × EventRing C → ErrorCode × ReceiveRing C
  discarded r (e, ring) =
      if is_error e
      then (e, record r { ring = ring })
      else (e, record r { ring = ring; size = add_size (ring_size C ring) r.pending_size })

  unfoldable pub locked_discard : ReceiveRing C → ℕ → ErrorCode × ReceiveRing C
  locked_discard r count = discarded r (discard C r.ring count)

  unfoldable pub locked_copy_all : ReceiveRing C → List ℕ → ErrorCode × List ℕ
  locked_copy_all r out = (no_error, out ++ take_snapshot C r.ring)

  unfoldable pub locked_consume_into :
      Env → ReceiveRing C → List ℕ → ErrorCode × List ℕ × ReceiveRing C
  locked_consume_into env r out =
      let (e, consumed, out', ring) = copy_consume env r.ring out in
      if is_error e
      then (e, out', record r { ring = ring })
      else (e, out', record r { ring = ring; size = add_size (ring_size C ring) r.pending_size })

  pub after_protection_release : Env → ReceiveRing C → Bool → ReceiveRing C
  after_protection_release env r changed =
      if changed
      then notify_release C (notify_data_changed C env r)
      else notify_release C (wake_owner_only C env r)
