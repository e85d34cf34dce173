-- ===== src/Net/EventRing.antt =====
-- bbt/infra/net/detail/EventRingBuffer.hpp and impl/EventRingBufferImpl.hpp: the bounded elastic
-- ring of received bytes, and its independent snapshots. A byte is a number that is only moved.
pub mod Grow
pub mod Laws
pub mod Aliasing
pub mod Reads
pub mod Snapshot
mod Tests
use bbtools_infra.Common.{
  ℕ, zero, suc, ◌+◌, ◌-◌, ◌*◌, ◌/◌, Bool, true, false, not, Option, none, some, List, [], ◌∷◌, ◌++◌,
  ltb, leb, ◌==◌, if◌then◌else◌, is_empty, length, take, drop, add_size, sub_size,
}
use bbtools_infra.Net.Errors.{ErrorCode, no_error, generic, no_buffer_space, result_out_of_range}
use bbtools_infra.Net.Circular.{CircularBuffer, contents, size}

pub record EventRing (C : CircularBuffer ℕ) : Type 0 where
  pub storage : C.Buf
  pub max_bytes : ℕ

abbrev pub initial_capacity : ℕ
initial_capacity = 1024

-- The loop of `GrowTarget`. Its fuel is what is still missing: each round doubles the target.
unfoldable pub grow_loop : ℕ → ℕ → ℕ → ℕ → ℕ
grow_loop zero limit need target = target
grow_loop (suc fuel) limit need target =
    let next = grow_loop fuel limit need (target * 2) in
    if ltb target need then (if ltb (limit / 2) target then limit else next) else target

-- What `Append` is given: bytes of the caller, or a view of the ring's own bytes, by its start and its
-- size.
pub data Input : Type 0 where
  outside : List ℕ → Input
  inside : ℕ → ℕ → Input

abbrev pub overlaps : Input → Bool
overlaps (outside bytes) = false
overlaps (inside start count) = true

-- The copy of `Consume`: `n` bytes of the first segment and then of the second, behind `out`. The first
-- and the second append find memory or not; whether both were done, and `out`.
abbrev pub copy_segments : Bool → Bool → ℕ → List ℕ → List ℕ → List ℕ → Bool × List ℕ
copy_segments first_fits second_fits n one two out =
    let first = if ltb n (length one) then n else length one in
    let out' = out ++ take first one in
    if not first_fits
    then (false, out)
    else if ltb first n
    then (if second_fits then (true, out' ++ take (n - first) two) else (false, out'))
    else (true, out')

module _ (C : CircularBuffer ℕ) where
  abbrev pub ring_bytes : EventRing C → List ℕ
  ring_bytes r = contents C r.storage

  abbrev pub ring_size : EventRing C → ℕ
  ring_size r = size C r.storage

  abbrev pub ring_capacity : EventRing C → ℕ
  ring_capacity r = C.capacity r.storage

  unfoldable pub event_ring : ℕ → EventRing C
  event_ring limit = record { storage = C.make 0; max_bytes = limit }

  unfoldable pub grow_target : EventRing C → ℕ → ℕ
  grow_target r need = grow_loop need r.max_bytes need (
      if ring_capacity r == 0
      then (if ltb r.max_bytes initial_capacity then r.max_bytes else initial_capacity)
      else ring_capacity r)

  -- `none` is `std::bad_alloc`, thrown where `set_capacity` allocates and `allocates` is false.
  abbrev grow : Bool → EventRing C → ℕ → Option (EventRing C)
  grow allocates r need =
      if allocates
      then some (record r { storage = C.set_capacity (grow_target r need) r.storage })
      else none

  abbrev insert : EventRing C → List ℕ → EventRing C
  insert r bytes = record r { storage = C.insert_end bytes r.storage }

  abbrev pub view : EventRing C → Input → List ℕ
  view r (outside bytes) = bytes
  view r (inside start count) = take count (drop start (ring_bytes r))

  abbrev insert_grown : EventRing C → List ℕ → Option (EventRing C) → Option ErrorCode × EventRing C
  insert_grown r bytes none = (none, r)
  insert_grown r bytes (some grown) = (some no_error, insert grown bytes)

  -- What a read through the input gives once the storage has been replaced: for a view of the old
  -- storage, whatever stands in the freed memory.
  abbrev read_moved : List ℕ → Input → List ℕ
  read_moved freed (outside bytes) = bytes
  read_moved freed (inside start count) = freed

  abbrev insert_within : List ℕ → Bool → EventRing C → Input → ℕ → Option ErrorCode × EventRing C
  insert_within freed allocates r i need =
      if ltb (ring_capacity r) need
      then insert_grown r (read_moved freed i) (grow allocates r need)
      else (some no_error, insert r (view r i))

  -- A view of the ring is copied first; `copies` is false where the copy finds no memory.
  unfoldable pub owned_input : Bool → EventRing C → Input → Option Input
  owned_input copies r i =
      if overlaps i then (if copies then some (outside (view r i)) else none) else some i

  abbrev insert_owned :
      List ℕ → Bool → EventRing C → Option Input → ℕ → Option ErrorCode × EventRing C
  insert_owned freed allocates r none need = (none, r)
  insert_owned freed allocates r (some i) need = insert_within freed allocates r i need

  -- `Append`: the error, or `none` for `std::bad_alloc`, and the ring after the call.
  unfoldable pub append :
      List ℕ → Bool → Bool → EventRing C → Input → Option ErrorCode × EventRing C
  unfolding owned_input
  append freed copies allocates r i =
      if is_empty (view r i)
      then (some no_error, r)
      else if ltb (sub_size r.max_bytes (ring_size r)) (length (view r i))
      then (some (generic no_buffer_space), r)
      else insert_owned freed allocates r (owned_input copies r i)
          (add_size (ring_size r) (length (view r i)))

  -- `Append` of bytes that are not the ring's own, as all callers in the library give it.
  abbrev pub append_bytes : Bool → EventRing C → List ℕ → Option ErrorCode × EventRing C
  append_bytes allocates r bytes = append [] true allocates r (outside bytes)

  abbrev reserved : EventRing C → Option (EventRing C) → Option ErrorCode × EventRing C
  reserved r none = (none, r)
  reserved r (some grown) = (some no_error, grown)

  pub reserve : Bool → EventRing C → ℕ → Option ErrorCode × EventRing C
  reserve allocates r total =
      if leb total (ring_capacity r)
      then (some no_error, r)
      else if ltb r.max_bytes total
      then (some (generic no_buffer_space), r)
      else reserved r (grow allocates r total)

  unfoldable pub peek : EventRing C → List ℕ
  peek r = if is_empty (ring_bytes r) then [] else C.array_one r.storage

  unfoldable pub discard : EventRing C → ℕ → ErrorCode × EventRing C
  discard r n =
      if ltb (ring_size r) n
      then (generic result_out_of_range, r)
      else (no_error, record r { storage = C.erase_begin n r.storage })

  abbrev consumed : EventRing C → ℕ → Bool × List ℕ → Option ErrorCode × List ℕ × EventRing C
  consumed r n (true, out) = (some no_error, out, record r { storage = C.erase_begin n r.storage })
  consumed r n (false, out) = (none, out, r)

  -- The error, or `none` for `std::bad_alloc`, `out` after the call, and the ring after it.
  pub consume : Bool → Bool → EventRing C → ℕ → List ℕ → Option ErrorCode × List ℕ × EventRing C
  consume first_fits second_fits r n out =
      if ltb (ring_size r) n
      then (some (generic result_out_of_range), out, r)
      else if n == 0
      then (some no_error, out, r)
      else consumed r n (
          copy_segments first_fits second_fits n (C.array_one r.storage) (C.array_two r.storage)
            out)

  unfoldable pub take_snapshot : EventRing C → List ℕ
  take_snapshot r =
      let one = C.array_one r.storage in
      let two = C.array_two r.storage in
      let read = if is_empty one then [] else one in if is_empty two then read else read ++ two

  -- The storage handed over, and the ring left empty with capacity 0 and its limit.
  unfoldable pub take_storage : EventRing C → C.Buf × EventRing C
  take_storage r = (r.storage, record r { storage = C.make 0 })

  pub clear : EventRing C → EventRing C
  clear r = record r { storage = C.clear r.storage }

  -- The move constructor, and the move assignment, to itself or from another ring: the target, and
  -- what is left of the source.
  pub move : EventRing C → EventRing C × EventRing C
  move r = (r, record r { storage = C.make 0 })

  pub assign : Bool → EventRing C → EventRing C → EventRing C × EventRing C
  assign to_itself target source =
      if to_itself then (target, target) else (source, record source { storage = C.make 0 })
