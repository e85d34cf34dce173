-- ===== src/Http/Pool/Reachable.antt =====
-- Closing and releasing keep the invariant of the pool, and so does every run.
use bbtools_infra.Common.{
  ℕ, ◌<◌, ◌≡◌, refl, ap, Bool, Option, none, some, List, [], ◌∷◌, map, arith, ◌==◌, if◌then◌else◌,
  length, if_rule, sub_size,
}
use bbtools_infra.Rpc.Errors.{Error}
use bbtools_infra.Http.Pool.State.{
  Entry, Waiter, PoolLimits, Phase, open_pool, draining, closed, is_closed, Pool, pool,
  closed_error, from_option, queued,
}
use bbtools_infra.Http.Pool.Locked.{retired, sweep}
use bbtools_infra.Http.Pool.Acquire.{
  throws, settle_failure, fast_section, reserve_section, queue_section, registered, release,
  sent_away, close, shutdown, in_progress,
}
use bbtools_infra.Http.Pool.Owners.{idle_count, handed_count, Change, nothing, Change-refl}
use bbtools_infra.Http.Pool.Passing.{Change-returned, Change-sweep}
use bbtools_infra.Http.Pool.Sections.{
  fast_section-Ends, reserve_section-Ends, queue_section-Ends, registered-Change, breaks,
}
use bbtools_infra.Http.Pool.System.{
  System, new_system, times, minus, started, Step, admits, gives_up, looks, reserves, queues,
  breaks_off, dial_breaks_off, registers, wakes, dial_fails, dial_succeeds, releases, closes,
  shuts_down, observes, Reach, here, next,
}
use bbtools_infra.Http.Pool.Sound.{
  IsSound, Change-IsSound, settled-IsSound, after-IsSound, started-IsSound, minus_lem,
}
use bbtools_infra.Http.Pool.Steps.{
  admits-IsSound, wakes-IsSound, undialed, failed_pool, done-IsSound,
}

idle_count-retired :
    (n : ℕ) (es : List Entry)
    → (idle_count n (map retired es) ≡ 0) × (length (map retired es) ≡ length es)
idle_count-retired n [] = (refl, refl)
idle_count-retired n (e ∷ es) =
    let ih = idle_count-retired n es in (omega (arith, ih.0), omega (arith, ih.1))

sent_away_lem :
    (n : ℕ) (ws : List Waiter)
    → (queued (map sent_away ws) ≡ 0)
      × (handed_count n (map sent_away ws) ≡ handed_count n ws)
      × (length (map sent_away ws) ≡ length ws)
sent_away_lem n [] = (refl, refl, refl)
sent_away_lem n (w ∷ ws) =
    let ih = sent_away_lem n ws in (omega (arith, ih.0), omega (arith, ih.1), omega (arith, ih.2))

Change-shut :
    (p : Pool) (phase : Phase)
    → Change nothing p (record p { phase = phase; waiters = map sent_away p.waiters })
Change-shut p phase = record {
  same_limits = refl;
  same_inflight = refl;
  entries_le = omega arith;
  same_waiters = (sent_away_lem 0 p.waiters).2;
  queue_le = omega (arith, (sent_away_lem 0 p.waiters).0);
  owned_le = λ n. omega (arith, (sent_away_lem n p.waiters).1);
}

pub Change-close : (reason : Error) (p : Pool) → Change nothing p (close reason p)
unfolding close
Change-close reason p =
    let p' = record p { close_reason = some (from_option reason p.close_reason) } in
    let q = record p' {
      phase = closed;
      entries = map retired p.entries;
      waiters = map sent_away p.waiters;
    } in
    if_rule (Change nothing p) (is_closed p.phase) p' q
      (λ _. record {
        same_limits = refl;
        same_inflight = refl;
        entries_le = omega arith;
        same_waiters = refl;
        queue_le = omega arith;
        owned_le = λ n. omega arith;
      })
      (λ _. record {
        same_limits = refl;
        same_inflight = refl;
        entries_le = omega (arith, (idle_count-retired 0 p.entries).1);
        same_waiters = (sent_away_lem 0 p.waiters).2;
        queue_le = omega (arith, (sent_away_lem 0 p.waiters).0);
        owned_le =
            λ n. omega (arith, (sent_away_lem n p.waiters).1, (idle_count-retired n p.entries).0);
      })

shutdown_by :
    (p : Pool) (phase : Phase)
    → Change nothing p
        (elim phase as (λ _. Option (Option Error) × Pool) [
          | closed ↦ (some (some (closed_error p)), p)
          | draining ↦ if p.inflight == 0 then (some none, p) else (some (some in_progress), p)
          | open_pool ↦ (none, record p { phase = draining; waiters = map sent_away p.waiters })
        ]).1
shutdown_by p open_pool = Change-shut p draining
shutdown_by p draining =
    if_rule (λ (r : Option (Option Error) × Pool). Change nothing p r.1) (p.inflight == 0)
      (some none, p) (some (some in_progress), p) (λ _. Change-refl p) (λ _. Change-refl p)
shutdown_by p closed = Change-refl p

Change-shutdown : (p : Pool) → Change nothing p (shutdown p).1
unfolding shutdown
Change-shutdown p = shutdown_by p p.phase

releases-IsSound :
    (s : System) (healthy : Bool) (now id : ℕ)
    → IsSound s
    → 0 < times id s.leases
    → IsSound (record s { pool = release healthy now id s.pool; leases = minus id s.leases })
unfolding release settle_failure
releases-IsSound s healthy now id v h =
    let m = minus_lem id s.leases h in
    let p = record s.pool { inflight = sub_size s.pool.inflight 1 } in
    let c = Change-returned healthy now id p in
    let l = c.same_limits in
    record {
      budget = omega (arith, v.budget, c.entries_le, ap (λ (x : PoolLimits). x.max_connections) l);
      short = omega (arith, v.short, c.queue_le, ap (λ (x : PoolLimits). x.max_queue) l);
      sized = omega (arith, c.same_inflight);
      accounted = omega (arith, v.accounted, v.sized, c.same_inflight, c.same_waiters, m.0);
      exclusive = λ n. omega (arith, v.exclusive n, c.owned_le n, m.1 n);
    }

pub Step-IsSound : {s t : System} → Step s t → IsSound s → IsSound t
Step-IsSound {s} (admits h z) v = admits-IsSound s v h z
Step-IsSound {s} (gives_up h) v = settled-IsSound 0 (started s) (started-IsSound s v h)
Step-IsSound {s} (looks sight origin h) v =
    after-IsSound (started s) (fast_section sight origin s.pool) (started-IsSound s v h)
      (fast_section-Ends sight origin s.pool)
Step-IsSound {s} (reserves allocates origin h) v =
    after-IsSound (started s) (reserve_section allocates origin s.pool) (started-IsSound s v h)
      (reserve_section-Ends allocates origin s.pool)
Step-IsSound {s} (queues allocates sight origin h) v =
    after-IsSound (started s) (queue_section allocates sight origin s.pool) (started-IsSound s v h)
      (queue_section-Ends allocates sight origin s.pool)
Step-IsSound {s} (breaks_off h) v =
    after-IsSound (started s) (throws, s.pool) (started-IsSound s v h)
      (breaks s.pool (Change-refl s.pool))
Step-IsSound {s} (dial_breaks_off place h) v =
    after-IsSound (record s { dialing = minus place s.dialing }) (throws, s.pool)
      (undialed s place v h) (breaks s.pool (Change-refl s.pool))
Step-IsSound {s} (registers sight place w h) v =
    Change-IsSound 0 s (registered sight w s.pool) v (registered-Change sight w s.pool)
Step-IsSound {s} (wakes completed now place w h) v = wakes-IsSound s completed now place w v h
Step-IsSound {s} (dial_fails place receipt p h e) v =
    let u = record s { dialing = minus place s.dialing } in
    settled-IsSound 0 (record u { pool = p })
      (Change-IsSound 1 u p (undialed s place v h) (failed_pool place receipt s.pool p e))
Step-IsSound {s} (dial_succeeds made place id receipt r h fresh e) v =
    done-IsSound (record s { dialing = minus place s.dialing }) made place id receipt r
      (undialed s place v h) fresh e
Step-IsSound {s} (releases healthy now id h) v = releases-IsSound s healthy now id v h
Step-IsSound {s} (closes reason) v =
    Change-IsSound 0 s (close reason s.pool) v (Change-close reason s.pool)
Step-IsSound {s} shuts_down v = Change-IsSound 0 s (shutdown s.pool).1 v (Change-shutdown s.pool)
Step-IsSound {s} (observes sight) v =
    Change-IsSound 0 s (sweep sight s.pool) v (Change-sweep sight s.pool)

new_system-IsSound : (limits : PoolLimits) → IsSound (new_system limits)
unfolding pool
new_system-IsSound limits = record {
  budget = omega arith;
  short = omega arith;
  sized = omega arith;
  accounted = omega arith;
  exclusive = λ n. omega arith;
}

-- In every interleaving of the sections of calls, dials, leases, sweeps and closes from a new pool,
-- where an allocation of a reservation, of a queue place, between sections or during a dial may throw:
-- the entries keep to `max_connections` and the queue to `max_queue`; `inflight` counts exactly the
-- calls in progress, the leases, and the calls that an exception has ended, whose unit stays; and no connection has two holders among the leases, the waiters
-- it was handed to and the idle entries.
pub Reach-IsSound : (limits : PoolLimits) {s : System} → Reach (new_system limits) s → IsSound s
Reach-IsSound limits here = new_system-IsSound limits
Reach-IsSound limits (next r st) = Step-IsSound st (Reach-IsSound limits r)
