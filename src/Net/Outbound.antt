-- ===== src/Net/Outbound.antt =====
-- bbt/infra/net/detail/OutboundQueue.hpp and impl/OutboundQueueImpl.hpp: the owner's queue of bytes to
-- send, a static ring followed by a bounded list of spill segments.
pub mod Window
pub mod Invariant
pub mod Append
pub mod Consume
pub mod Gather
mod Tests
use bbtools_infra.Common.{
  ℕ, zero, suc, ◌+◌, ◌-◌, ◌%◌, Bool, true, false, ◌&&◌, not, Option, none, some, List, [], ◌∷◌,
  ◌++◌, ltb, leb, ◌==◌, if◌then◌else◌, is_empty, length, take, drop, replicate, add_size, sub_size,
}
use bbtools_infra.Net.Errors.{ErrorCode, no_error, generic, no_buffer_space, result_out_of_range}

pub record OutboundQueue : Type 0 where
  pub ring : List ℕ
  pub ring_head : ℕ
  pub ring_size : ℕ
  pub spill : List (List ℕ)
  pub list_bytes : ℕ
  pub max_total_bytes : ℕ
  pub max_segments : ℕ
  pub geometry_valid : Bool

abbrev pub max_merged_segment_bytes : ℕ
max_merged_segment_bytes = 4096

unfoldable pub outbound_queue : ℕ → ℕ → ℕ → OutboundQueue
outbound_queue ring_bytes total segments =
    let valid =
      not (ring_bytes == 0)
      && (not (total == 0) && (not (segments == 0) && leb ring_bytes total)) in
    record {
      ring = if valid then replicate ring_bytes 0 else [];
      ring_head = 0;
      ring_size = 0;
      spill = [];
      list_bytes = 0;
      max_total_bytes = total;
      max_segments = segments;
      geometry_valid = valid;
    }

-- The move constructor: the new queue, and the source that it leaves.
pub move : OutboundQueue → OutboundQueue × OutboundQueue
move q = (q, record q { ring = []; ring_head = 0; ring_size = 0; spill = []; list_bytes = 0 })

-- What the move assignment leaves in its target.
pub assign : Bool → OutboundQueue → OutboundQueue → OutboundQueue
assign to_itself target source = if to_itself then target else source

abbrev pub total_bytes : OutboundQueue → ℕ
total_bytes q = add_size q.ring_size q.list_bytes

pub segment_count : OutboundQueue → ℕ
segment_count q = add_size (if not (q.ring_size == 0) then 1 else 0) (length q.spill)

-- `memcpy(v + pos, bytes)`; what would lie behind the end of `v` is not written.
unfoldable pub write_at : ℕ → List ℕ → List ℕ → List ℕ
write_at pos bytes [] = []
write_at (suc pos) bytes (x ∷ xs) = x ∷ write_at pos bytes xs
write_at zero [] (x ∷ xs) = x ∷ xs
write_at zero (b ∷ bytes) (x ∷ xs) = b ∷ write_at zero bytes xs

-- `spill_.back().size()`, and `spill_.back().append(part)`.
abbrev pub last_size : List (List ℕ) → ℕ
last_size [] = 0
last_size (s ∷ []) = length s
last_size (s ∷ t ∷ ss) = last_size (t ∷ ss)

abbrev pub append_last : List ℕ → List (List ℕ) → List (List ℕ)
append_last part [] = []
append_last part (s ∷ []) = (s ++ part) ∷ []
append_last part (s ∷ t ∷ ss) = s ∷ append_last part (t ∷ ss)

abbrev can_merge : OutboundQueue → List ℕ → Bool
can_merge q part =
    not (is_empty part)
    && (not (is_empty q.spill)
        && leb (add_size (last_size q.spill) (length part)) max_merged_segment_bytes)

-- The spill part goes to the last segment or into a new one.
abbrev spill_bytes : OutboundQueue → List ℕ → OutboundQueue
spill_bytes q part = if is_empty part then q else record q {
  spill = if can_merge q part then append_last part q.spill else q.spill ++ part ∷ [];
  list_bytes = add_size q.list_bytes (length part);
}

-- The ring part goes behind the ring's bytes, in one copy or in two round the end.
abbrev ring_write : List ℕ → ℕ → ℕ → List ℕ → List ℕ
ring_write ring head size bytes =
    let write_pos = add_size head size % length ring in
    let tail_space = sub_size (length ring) write_pos in
    let first = if ltb (length bytes) tail_space then length bytes else tail_space in
    let once = write_at write_pos (take first bytes) ring in
    if ltb first (length bytes) then write_at 0 (drop first bytes) once else once

abbrev ring_bytes : OutboundQueue → List ℕ → OutboundQueue
ring_bytes q bytes = if is_empty bytes then q else record q {
  ring = ring_write q.ring q.ring_head q.ring_size bytes;
  ring_size = add_size q.ring_size (length bytes);
}

abbrev ring_space : OutboundQueue → ℕ
ring_space q = if is_empty q.spill then sub_size (length q.ring) q.ring_size else 0

abbrev to_ring : OutboundQueue → List ℕ → ℕ
to_ring q bytes = if ltb (length bytes) (ring_space q) then length bytes else ring_space q

-- The guard on the segment count.
abbrev is_crowded : OutboundQueue → List ℕ → Bool
is_crowded q part =
    not (is_empty part) && (not (can_merge q part) && leb q.max_segments (length q.spill))

-- The commit; the spill part is stored first, and only it allocates.
abbrev commit : Bool → OutboundQueue → List ℕ → List ℕ → Option ErrorCode × OutboundQueue
commit allocates q front part =
    if not (is_empty part) && not allocates
    then (none, q)
    else (some no_error, ring_bytes (spill_bytes q part) front)

-- `Append`: the error, or `none` for `std::bad_alloc` where `allocates` is false.
unfoldable pub append : Bool → OutboundQueue → List ℕ → Option ErrorCode × OutboundQueue
append allocates q bytes =
    if is_empty bytes
    then (some no_error, q)
    else if not q.geometry_valid
    then (some (generic no_buffer_space), q)
    else if ltb (sub_size q.max_total_bytes (total_bytes q)) (length bytes)
    then (some (generic no_buffer_space), q)
    else if is_crowded q (drop (to_ring q bytes) bytes)
    then (some (generic no_buffer_space), q)
    else commit allocates q (take (to_ring q bytes) bytes) (drop (to_ring q bytes) bytes)

abbrev pub contiguous : OutboundQueue → ℕ
contiguous q =
    let tail = sub_size (length q.ring) q.ring_head in
    if ltb q.ring_size tail then q.ring_size else tail

-- The stretch up to the ring's end, and the one from its start.
abbrev first_view : OutboundQueue → List ℕ
first_view q = take (contiguous q) (drop q.ring_head q.ring)

abbrev second_view : OutboundQueue → List ℕ
second_view q = take (sub_size q.ring_size (contiguous q)) q.ring

-- The views of the ring, at most `room` of them.
unfoldable pub ring_views : ℕ → OutboundQueue → List (List ℕ)
ring_views room q =
    if not (q.ring_size == 0) && ltb 0 room
    then first_view q
      ∷ (if ltb (contiguous q) q.ring_size && ltb 1 room then second_view q ∷ [] else [])
    else []

-- `GatherViews`: the views, each as the bytes that it shows.
unfoldable pub gather_views : OutboundQueue → ℕ → List (List ℕ)
gather_views q room = let views = ring_views room q in views ++ take (room - length views) q.spill

-- One round on the ring: `step` bytes leave its front.
abbrev pub advance : OutboundQueue → ℕ → OutboundQueue
advance q step = record q {
  ring_head = add_size q.ring_head step % length q.ring;
  ring_size = sub_size q.ring_size step;
}

-- The two `if` blocks on the ring: what is left to consume, and the queue.
abbrev pub consume_first : OutboundQueue → ℕ → ℕ × OutboundQueue
consume_first q n =
    if not (n == 0) && not (q.ring_size == 0)
    then (let first = if ltb n (contiguous q) then n else contiguous q in
        (sub_size n first, advance q first))
    else (n, q)

abbrev pub consume_second : OutboundQueue → ℕ → ℕ × OutboundQueue
consume_second q n =
    if not (n == 0) && not (q.ring_size == 0)
    then (let second = if ltb n q.ring_size then n else q.ring_size in
        (sub_size n second, advance q second))
    else (n, q)

-- The loop on the spill. A segment that is used up is popped; one that is not ends the loop, since
-- then nothing is left to consume. On no segment, which the guard rules out, nothing changes.
unfoldable pub consume_spill : List (List ℕ) → ℕ → ℕ → List (List ℕ) × ℕ
consume_spill [] lb n = ([], lb)
consume_spill (s ∷ ss) lb n =
    let rest = consume_spill ss (sub_size lb (length s)) (sub_size n (length s)) in
    if n == 0
    then (s ∷ ss, lb)
    else if ltb n (length s)
    then (drop n s ∷ ss, sub_size lb n)
    else rest

abbrev pub consume_list : ℕ × OutboundQueue → OutboundQueue
consume_list (n, q) =
    let (ss, lb) = consume_spill q.spill q.list_bytes n in record q { spill = ss; list_bytes = lb }

unfoldable pub consume_sent : OutboundQueue → ℕ → ErrorCode × OutboundQueue
consume_sent q n =
    if ltb (total_bytes q) n
    then (generic result_out_of_range, q)
    else (let (left, once) = consume_first q n in
        (no_error, consume_list (consume_second once left)))
