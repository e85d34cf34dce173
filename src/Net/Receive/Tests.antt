-- ===== src/Net/Receive/Tests.antt =====
-- Runs of the receive ring over the plain buffer, and the laws at concrete rings.
use bbtools_infra.Common.{
  ℕ, ◌≤◌, ◌<◌, ◌≡◌, refl, ◌⊎◌, true, false, some, none, [], ◌∷◌, arith, length, flatten, All,
}
use bbtools_infra.Net.Errors.{
  no_error, generic, net, system, closed, operation_canceled, errc_value,
}
use bbtools_infra.Net.Circular.Plain.{Held, plain}
use bbtools_infra.Net.EventRing.{
  append, grow_target, grow_loop, discard, take_snapshot, take_storage,
}
use bbtools_infra.Net.Receive.State.{Env, quiet, ReceiveRing, stream, ok, busy, eof, error}
use bbtools_infra.Common.{◌+◌}
use bbtools_infra.Net.Errors.{result_out_of_range}
use bbtools_infra.Net.Receive.LockedLaws.{locked_discard_cases, try_append_cases}
use bbtools_infra.Net.Receive.Write.{try_append}
use bbtools_infra.Net.Receive.Read.{locked_discard}
use bbtools_infra.Net.Receive.Notify.{mark_error, read_error, terminal}
use bbtools_infra.Net.Receive.Write.{stage_detached, append_deferred, try_reserve_for_append}
use bbtools_infra.Net.Receive.Read.{
  try_read, try_pop_all, flush_pending, flush_head, flush_tail, copy_consume, popped, result,
}
use bbtools_infra.Net.Receive.Laws.{IsValid, read_error-mark_error, read_error-mark_error_generic}
use bbtools_infra.Net.Receive.Flush.{flush_pending_lem}
use bbtools_infra.Net.Receive.ReadLaws.{ReadOutcome, try_read-ReadOutcome}
use bbtools_infra.Net.Receive.PopLaws.{try_pop_all_cases}
use bbtools_infra.Net.Outbound.Invariant.{NonEmpty}
use bbtools_infra.Net.Receive.WriteLaws.{
  Answered, append_deferred_cases, stage_detached_cases, try_reserve_cases, try_read_early_eof,
}

abbrev calm : Env
calm = record {
  lock_free = true;
  ring_allocates = true;
  tail_allocates = true;
  copy_allocates = true;
  hub_notifies = true;
  owner_wakes = true;
  hub_retries = true;
  owner_retries = true;
}

abbrev two_bytes : Held ℕ
two_bytes = record { items = 1 ∷ 2 ∷ []; room = 2; fits = omega arith }

-- 1 and 2 in the ring, 3 pending, 4 in the tail.
abbrev spread : ReceiveRing (plain ℕ)
spread = record {
  ring = record { storage = two_bytes; max_bytes = 8 };
  max_bytes = 8;
  size = 3;
  eof = false;
  closed = false;
  error = 0;
  pending = 3 ∷ [];
  pending_size = 1;
  detached = 4 ∷ [];
  detached_size = 1;
  signals = quiet;
}

try_read-spread : (try_read (plain ℕ) calm spread (0 ∷ [])).1 ≡ 0 ∷ 1 ∷ 2 ∷ 3 ∷ 4 ∷ []
unfolding try_read flush_pending flush_head flush_tail copy_consume append discard grow_target
    grow_loop take_snapshot
try_read-spread = refl

try_pop_all-spread :
    (try_pop_all (plain ℕ) calm spread).0.segments ≡ (1 ∷ []) ∷ (2 ∷ []) ∷ (3 ∷ []) ∷ (4 ∷ []) ∷ []
unfolding try_pop_all take_storage
try_pop_all-spread = refl

spread-IsValid : IsValid (plain ℕ) spread
spread-IsValid = omega arith

flush_pending_lem_example :
    ((flush_pending (plain ℕ) calm spread ≡ none) × (true ≡ false))
    ⊎ ((r' : ReceiveRing (plain ℕ)) × (flush_pending (plain ℕ) calm spread ≡ some r')
        × IsValid (plain ℕ) r'
        × (stream (plain ℕ) r' ≡ 1 ∷ 2 ∷ 3 ∷ 4 ∷ [])
        × (r'.pending ≡ [])
        × ((r'.detached ≡ []) ⊎ ((true ≡ false) × (r'.detached ≡ 4 ∷ [])))
        × (r'.eof ≡ false)
        × (r'.closed ≡ false)
        × (r'.error ≡ 0))
flush_pending_lem_example = flush_pending_lem (plain ℕ) calm spread spread-IsValid

try_read-ReadOutcome_example :
    ReadOutcome (plain ℕ) calm spread (0 ∷ []) (try_read (plain ℕ) calm spread (0 ∷ []))
try_read-ReadOutcome_example = try_read-ReadOutcome (plain ℕ) calm spread (0 ∷ []) spread-IsValid

try_pop_all_cases_example :
    let (a, r') = try_pop_all (plain ℕ) calm spread in
    IsValid (plain ℕ) r'
    × (((a.status ≡ ok)
          × (flatten a.segments ≡ 1 ∷ 2 ∷ 3 ∷ 4 ∷ [])
          × All NonEmpty a.segments
          × (length a.segments ≤ 4)
          × (stream (plain ℕ) r' ≡ [])
          × (0 < 4))
        ⊎ ((stream (plain ℕ) r' ≡ 1 ∷ 2 ∷ 3 ∷ 4 ∷ [])
            × (((stream (plain ℕ) spread ≡ []) × (a ≡ popped (terminal (plain ℕ) spread)))
                ⊎ ((true ≡ false) × (a ≡ popped (result busy 0 no_error)))
                ⊎ ((true ≡ false) × (a.status ≡ error)))))
try_pop_all_cases_example = try_pop_all_cases (plain ℕ) calm spread spread-IsValid

append_deferred_cases_example :
    let (taken, r') = append_deferred (plain ℕ) calm spread (5 ∷ []) in
    IsValid (plain ℕ) r'
    × (((taken ≡ true)
          × (r'.ring ≡ spread.ring)
          × (r'.pending ≡ 3 ∷ 5 ∷ [])
          × (r'.detached ≡ 4 ∷ []))
        ⊎ ((taken ≡ false) × (r' ≡ spread) × ((true ≡ false) ⊎ (true ≡ false))))
append_deferred_cases_example =
    append_deferred_cases (plain ℕ) calm spread (5 ∷ []) spread-IsValid (omega arith)

stage_detached_cases_example :
    let (taken, r') = stage_detached (plain ℕ) calm spread (5 ∷ []) in
    IsValid (plain ℕ) r'
    × (((taken ≡ true) × (stream (plain ℕ) r' ≡ 1 ∷ 2 ∷ 3 ∷ 4 ∷ 5 ∷ []))
        ⊎ ((taken ≡ false) × (r' ≡ spread) × (true ≡ false)))
stage_detached_cases_example =
    stage_detached_cases (plain ℕ) calm spread (5 ∷ []) spread-IsValid (omega arith)

try_reserve_cases_example :
    Answered (plain ℕ) calm spread 3 (try_reserve_for_append (plain ℕ) calm spread 3)
try_reserve_cases_example = try_reserve_cases (plain ℕ) calm spread 3 spread-IsValid

read_error-mark_error_example :
    let r' = mark_error (plain ℕ) calm spread (net closed) in
    (read_error (plain ℕ) r' ≡ net closed)
    × (terminal (plain ℕ) r' ≡ record { status = error; bytes = 0; code = net closed })
    × (stream (plain ℕ) r' ≡ 1 ∷ 2 ∷ 3 ∷ 4 ∷ [])
read_error-mark_error_example = read_error-mark_error (plain ℕ) calm spread (net closed) tt

read_error-mark_error_generic_example :
    read_error (plain ℕ) (mark_error (plain ℕ) calm spread (generic operation_canceled))
    ≡ system 125
unfolding errc_value
read_error-mark_error_generic_example =
    read_error-mark_error_generic (plain ℕ) calm spread operation_canceled

abbrev short_of_memory : Env
short_of_memory = record calm { tail_allocates = false }

abbrev nothing_stored : Held ℕ
nothing_stored = record { items = []; room = 0; fits = omega arith }

-- Closed with two bytes in the tail.
abbrev closed_with_tail : ReceiveRing (plain ℕ)
closed_with_tail = record {
  ring = record { storage = nothing_stored; max_bytes = 8 };
  max_bytes = 8;
  size = 0;
  eof = false;
  closed = true;
  error = 0;
  pending = [];
  pending_size = 0;
  detached = 4 ∷ 5 ∷ [];
  detached_size = 2;
  signals = quiet;
}

closed_with_tail-IsValid : IsValid (plain ℕ) closed_with_tail
closed_with_tail-IsValid = omega arith

try_read_early_eof_example :
    let (answer, out', r') = try_read (plain ℕ) short_of_memory closed_with_tail [] in
    (answer ≡ some (result eof 0 no_error))
    × (out' ≡ [])
    × (stream (plain ℕ) r' ≡ 4 ∷ 5 ∷ [])
    × (0 < length (stream (plain ℕ) r'))
try_read_early_eof_example =
    try_read_early_eof (plain ℕ) short_of_memory closed_with_tail [] closed_with_tail-IsValid refl
      refl refl refl (omega arith) refl refl

abbrev drained_behind : ReceiveRing (plain ℕ)
drained_behind = record spread {
  size = 2;
  pending = [];
  pending_size = 0;
  detached = [];
  detached_size = 0;
}

drained_behind-IsValid : IsValid (plain ℕ) drained_behind
drained_behind-IsValid = omega arith

locked_discard_cases_example :
    let (e, r') = locked_discard (plain ℕ) spread 1 in
    IsValid (plain ℕ) r'
    × (((e ≡ no_error) × (1 ≤ 2) × (stream (plain ℕ) r' ≡ 2 ∷ 3 ∷ 4 ∷ []))
        ⊎ ((e ≡ generic result_out_of_range) × (2 < 1) × (r' ≡ spread)))
locked_discard_cases_example = locked_discard_cases (plain ℕ) spread 1 spread-IsValid

try_append_cases_example :
    let (a, r') = try_append (plain ℕ) calm drained_behind (3 ∷ []) in
    IsValid (plain ℕ) r'
    × (((a ≡ result ok 1 no_error) × (stream (plain ℕ) r' ≡ 1 ∷ 2 ∷ 3 ∷ []))
        ⊎ ((stream (plain ℕ) r' ≡ 1 ∷ 2 ∷ [])
            × (a.bytes ≡ 0)
            × ((true ≡ false) ⊎ (true ≡ false) ⊎ (8 < 2 + 1))))
try_append_cases_example =
    try_append_cases (plain ℕ) calm drained_behind (3 ∷ []) drained_behind-IsValid refl refl
