-- ===== src/Http/Pool/Acquire.antt =====
-- `Acquire` with `AcquireBody` and `DialReserved`, the return of a lease, and the life cycle: each
-- section under the mutex as one step on the pool.
use bbtools_infra.Common.{
  ℕ, ◌+◌, Bool, true, false, ◌||◌, not, Option, none, some, List, [], ◌∷◌, ◌++◌, map, ◌==◌, ltb,
  leb, if◌then◌else◌, length, add_size, sub_size,
}
use Prim.Native.String.{String}
use bbtools_infra.Rpc.Text.{codes}
use bbtools_infra.Rpc.Errors.{Error, ErrorCode, make_error}
use bbtools_infra.Http.Pool.State.{
  Origin, dialing, active, Entry, Waiter, open_pool, draining, closed, is_open, is_closed, Pool,
  closed_error, is_some, from_option, find_first, change_first, queued,
}
use bbtools_infra.Http.Pool.Locked.{
  Sight, retired, at_place, take_idle, given, returned, retire_other_idle, sweep,
}

abbrev pub pool_error : ErrorCode → String → Error
pool_error e text = make_error e (codes text)

abbrev pub queue_full : Error
queue_full = pool_error ErrorCode.overloaded "http pool: queue full"

abbrev pub in_progress : Error
in_progress = pool_error ErrorCode.overloaded "http pool: shutdown already in progress"

-- The message is that of the exception, here that of `std::bad_alloc`.
abbrev pub no_http : Error
no_http = pool_error ErrorCode.internal_error "std::bad_alloc"

-- How a section of an acquiring call ends: with a connection, at an entry to dial, at a waiter to
-- wait on, with an error, with the next section, or with an exception.
pub data Section : Type 0 where
  leased : ℕ → Section
  dials : ℕ → Section
  waits : ℕ → Section
  fails : Error → Section
  goes_on : Section
  throws : Section

-- The admission of a call.
unfoldable pub admit : Pool → Option Error × Pool
admit p =
    if not (is_open p.phase)
    then (some (closed_error p), p)
    else (none, record p { inflight = add_size p.inflight 1 })

-- The exit of a call that failed.
unfoldable pub settle_failure : Pool → Pool
settle_failure p = record p { inflight = sub_size p.inflight 1 }

abbrev pub or_else : (Pool → Section × Pool) → Option ℕ × Pool → Section × Pool
or_else next (some id, p) = (leased id, p)
or_else next (none, p) = next p

unfoldable pub fast_section : Sight → Origin → Pool → Section × Pool
fast_section s origin p =
    if not (is_open p.phase)
    then (fails (closed_error p), p)
    else or_else (λ q. (goes_on, q)) (take_idle origin (sweep s p))

abbrev pub new_entry : ℕ → Origin → Entry
new_entry place origin = record {
  place = place;
  phase = dialing;
  origin = origin;
  connection = none;
  reclaim = none;
  expire_at = none;
  close_asked = false;
}

abbrev pub with_entry : Origin → Pool → Pool
with_entry origin p = record p {
  entries = p.entries ++ new_entry p.next_place origin ∷ [];
  next_place = p.next_place + 1;
}

-- An entry is reserved where the budget has room. The allocation of the entry, or of its place in the
-- deque, throws where `allocates` is false.
unfoldable pub reserve : Bool → (Pool → Section × Pool) → Origin → Pool → Section × Pool
reserve allocates next origin p =
    if ltb (length p.entries) p.limits.max_connections
    then (if allocates then (dials p.next_place, with_entry origin p) else (throws, p))
    else next p

abbrev pub reserve_section : Bool → Origin → Pool → Section × Pool
reserve_section allocates origin p =
    if not (is_open p.phase)
    then (fails (closed_error p), p)
    else reserve allocates (λ q. (goes_on, q)) origin p

abbrev pub new_waiter : ℕ → Origin → Waiter
new_waiter place origin = record {
  place = place;
  origin = origin;
  handed = none;
  in_queue = true;
  notified = false;
}

abbrev pub with_waiter : Origin → Pool → Pool
with_waiter origin p = record p {
  waiters = p.waiters ++ new_waiter p.next_place origin ∷ [];
  next_place = p.next_place + 1;
}

-- The place in the deque of waiters is allocated where `allocates` is true; else this throws, after
-- the idle connections of other origins were retired.
unfoldable pub enqueue : Bool → Origin → Pool → Section × Pool
enqueue allocates origin p =
    let p' = retire_other_idle origin p in
    if leb p'.limits.max_queue (queued p'.waiters)
    then (fails queue_full, p')
    else if allocates
    then (waits p'.next_place, with_waiter origin p')
    else (throws, p')

-- The section of a call that has a waiter; one of the two allocations is met at most.
unfoldable pub queue_section : Bool → Sight → Origin → Pool → Section × Pool
queue_section allocates s origin p =
    if not (is_open p.phase)
    then (fails (closed_error p), p)
    else or_else (reserve allocates (enqueue allocates origin) origin)
        (take_idle origin (sweep s p))

abbrev pub notified : Waiter → Waiter
notified w = record w { notified = true }

abbrev pub notify : ℕ → Pool → Pool
notify place p = record p { waiters = change_first (at_place place) notified p.waiters }

abbrev pub handed_over : ℕ → Option ℕ × Pool → Pool
handed_over place (some id, p) = record p {
  waiters = change_first (at_place place) (given id) p.waiters;
}
handed_over place (none, p) =
    if ltb (length p.entries) p.limits.max_connections then notify place p else p

abbrev pub has_handed : Waiter → Bool
has_handed w = is_some w.handed

-- The callback that runs when the wait is registered, on the call's own waiter.
unfoldable pub registered : Sight → Waiter → Pool → Pool
registered s w p =
    if has_handed w || not (is_open p.phase)
    then notify w.place p
    else handed_over w.place (take_idle w.origin (sweep s p))

-- The list without the first waiter of the place: its call is done with it.
abbrev pub without : ℕ → List Waiter → List Waiter
without place [] = []
without place (w ∷ ws) = if at_place place w then ws else w ∷ without place ws

-- The section after the wait. A connection that was handed over and is not used goes back.
unfoldable pub after_wait : Bool → ℕ → Waiter → Pool → Section × Pool
after_wait completed now w p =
    let p' = record p { waiters = without w.place p.waiters } in
    elim w.handed [
      | none ↦ (goes_on, p')
      | some id ↦ if completed then (leased id, p') else (goes_on, returned true now id p')
    ]

abbrev pub is_at : ℕ → Entry → Bool
is_at place e = e.place == place

abbrev pub failed_dial : Option ℕ → Entry → Entry
failed_dial receipt e = retired (record e { reclaim = receipt })

abbrev pub connected : ℕ → Option ℕ → Entry → Entry
connected id receipt e = record e { connection = some id; reclaim = receipt }

abbrev pub at_work : ℕ → Option ℕ → Entry → Entry
at_work id receipt e = record (connected id receipt e) { phase = active }

-- The section after a dial that failed. `none` is an access to an entry that is freed.
unfoldable pub dial_failed : ℕ → Option ℕ → Pool → Option Pool
dial_failed place receipt p =
    if is_some (find_first (is_at place) p.entries)
    then some (record p { entries = change_first (is_at place) (failed_dial receipt) p.entries })
    else none

-- The section after a dial that gave the connection `id`; `made` is false where the HTTP connection
-- cannot be allocated.
unfoldable pub dial_done : Bool → ℕ → ℕ → Option ℕ → Pool → Option (Section × Pool)
dial_done made place id receipt p =
    if not (is_some (find_first (is_at place) p.entries))
    then none
    else if not (is_open p.phase)
    then some (
      fails (closed_error p),
      record p {
        entries = change_first (is_at place) (λ e. retired (connected id receipt e)) p.entries;
      },
    )
    else if made
    then some (
      leased id,
      record p { entries = change_first (is_at place) (at_work id receipt) p.entries },
    )
    else some (
      fails no_http,
      record p {
        entries = change_first (is_at place) (λ e. retired (connected id receipt e)) p.entries;
      },
    )

-- `Lease::Release` of a lease that still has its responsibility.
unfoldable pub release : Bool → ℕ → ℕ → Pool → Pool
release healthy now id p = returned healthy now id (settle_failure p)

abbrev pub sent_away : Waiter → Waiter
sent_away w = record w { in_queue = false; notified = w.notified || w.in_queue }

unfoldable pub close : Error → Pool → Pool
close reason p =
    let p' = record p { close_reason = some (from_option reason p.close_reason) } in
    if is_closed p.phase then p' else record p' {
      phase = closed;
      entries = map retired p.entries;
      waiters = map sent_away p.waiters;
    }

-- The first section of `Shutdown`: its answer, if it has one at once.
unfoldable pub shutdown : Pool → Option (Option Error) × Pool
shutdown p = elim p.phase [
  | closed ↦ (some (some (closed_error p)), p)
  | draining ↦ if p.inflight == 0 then (some none, p) else (some (some in_progress), p)
  | open_pool ↦ (none, record p { phase = draining; waiters = map sent_away p.waiters })
]

-- A round of the wait of `Shutdown`: its answer, if it ends.
unfoldable pub shutdown_round : Bool → Pool → Option (Option Error)
shutdown_round expired p = if p.inflight == 0 then some none else elim p.close_reason [
  | some e ↦ some (some e)
  | none ↦
      if expired
      then some (some (pool_error ErrorCode.timed_out "http pool: shutdown deadline expired"))
      else none
]
