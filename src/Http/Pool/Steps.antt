-- ===== src/Http/Pool/Steps.antt =====
-- Each step of the pool keeps the invariant.
use bbtools_infra.Common.{
  ℕ, ◌+◌, ◌≤◌, ◌<◌, ◌≡◌, refl, ap, inl, inr, Bool, true, not, Option, none, some, ◌∷◌, arith, ◌==◌,
  if◌then◌else◌, length, Bool-cases, if_rule, ==_iff, IsSize,
}
use mathlib.Core.Path.{subst}
use bbtools_infra.Http.Pool.State.{
  Waiter, PoolLimits, is_open, Pool, closed_error, is_some, from_option, find_first, change_first,
  queued,
}
use bbtools_infra.Http.Pool.Locked.{retired, at_place, returned}
use bbtools_infra.Http.Pool.Acquire.{
  Section, leased, fails, goes_on, admit, without, after_wait, is_at, failed_dial, connected,
  at_work, dial_failed, dial_done, no_http,
}
use bbtools_infra.Http.Pool.Owners.{
  one, handed, handed_count, owned, Change, nothing, Change-refl, Change-entries,
}
use bbtools_infra.Http.Pool.Passing.{Change-returned}
use bbtools_infra.Http.Pool.Sections.{stops, continues}
use bbtools_infra.Http.Pool.System.{System, times, minus, after}
use bbtools_infra.Http.Pool.Sound.{
  IsSoundWith, IsSound, Change-IsSound, after-IsSound, minus_lem, without_lem,
}

pub admits-IsSound :
    (s : System)
    → IsSound s
    → (admit s.pool).0 ≡ none
    → IsSize (s.pool.inflight + 1)
    → IsSound (record s { pool = (admit s.pool).1; starting = s.starting + 1 })
unfolding admit
admits-IsSound s v h z = elim (Bool-cases (not (is_open s.pool.phase))) [
  | inl k ↦ let e = rw k at h in cc
  | inr k ↦ rw k (record {
    budget = v.budget;
    short = v.short;
    sized = omega (arith, z);
    accounted = omega (arith, v.accounted, z);
    exclusive = v.exclusive;
  })
]

-- The waiter leaves with what it holds, and its call goes on.
waiter_gone :
    (s : System) (place : ℕ) (w : Waiter)
    → IsSound s
    → find_first (at_place place) s.pool.waiters ≡ some w
    → let p = record s.pool { waiters = without w.place s.pool.waiters } in
      IsSoundWith 1 (record s { pool = p })
      × ((n : ℕ) → times n s.leases + owned n p + handed n w ≤ 1)
waiter_gone s place w v h =
    let g = without_lem place s.pool.waiters w h in
    let p = record s.pool { waiters = without w.place s.pool.waiters } in
    let e : without w.place s.pool.waiters ≡ without place s.pool.waiters =
      ap (λ (k : ℕ). without k s.pool.waiters) g.0 in
    let lost : (n : ℕ) → times n s.leases + owned n p + handed n w ≤ 1 =
      λ n. omega (arith, v.exclusive n, g.3 n, ap (handed_count n) e) in
    (
      record {
        budget = v.budget;
        short = omega (arith, v.short, g.2, ap queued e);
        sized = v.sized;
        accounted = omega (arith, v.accounted, g.1, ap length e);
        exclusive = λ n. omega (arith, lost n);
      },
      lost,
    )

wakes_with :
    (s : System) (completed : Bool) (now : ℕ) (w : Waiter) (p : Pool) (o : Option ℕ)
    → IsSoundWith 1 (record s { pool = p })
    → ((n : ℕ) → times n s.leases + owned n p + (elim o [ none ↦ 0 | some id ↦ one id n ]) ≤ 1)
    → IsSound (
        after
          (elim o [
            | none ↦ (goes_on, p)
            | some id ↦ if completed then (leased id, p) else (goes_on, returned true now id p)
          ])
          s)
wakes_with s completed now w p none v lost =
    after-IsSound (record s { pool = p }) (goes_on, p) v (continues p (Change-refl p))
wakes_with s completed now w p (some id) v lost =
    let q = returned true now id p in
    if_rule (λ r. IsSound (after r s)) completed (leased id, p) (goes_on, q)
      (λ _. record {
        budget = v.budget;
        short = v.short;
        sized = v.sized;
        accounted = omega (arith, v.accounted);
        exclusive = λ n. omega (arith, lost n);
      })
      (λ _.
        let c = Change-returned true now id p in
        let l = c.same_limits in
        record {
          budget =
              omega (arith, v.budget, c.entries_le, ap (λ (x : PoolLimits). x.max_connections) l);
          short = omega (arith, v.short, c.queue_le, ap (λ (x : PoolLimits). x.max_queue) l);
          sized = omega (arith, v.sized, c.same_inflight);
          accounted = omega (arith, v.accounted, c.same_inflight, c.same_waiters);
          exclusive = λ n. omega (arith, lost n, c.owned_le n);
        })

pub wakes-IsSound :
    (s : System) (completed : Bool) (now place : ℕ) (w : Waiter)
    → IsSound s
    → find_first (at_place place) s.pool.waiters ≡ some w
    → IsSound (after (after_wait completed now w s.pool) s)
unfolding after_wait
wakes-IsSound s completed now place w v h =
    let g = waiter_gone s place w v h in
    wakes_with s completed now w (record s.pool { waiters = without w.place s.pool.waiters })
      w.handed g.0 g.1

-- A dial ends: its place is listed no more.
pub undialed :
    (s : System) (place : ℕ)
    → IsSound s
    → 0 < times place s.dialing
    → IsSoundWith 1 (record s { dialing = minus place s.dialing })
undialed s place v h = record {
  budget = v.budget;
  short = v.short;
  sized = v.sized;
  accounted = omega (arith, v.accounted, (minus_lem place s.dialing h).0);
  exclusive = v.exclusive;
}

pub failed_pool :
    (place : ℕ) (receipt : Option ℕ) (p p' : Pool)
    → dial_failed place receipt p ≡ some p'
    → Change nothing p p'
unfolding dial_failed
failed_pool place receipt p p' h =
    elim (Bool-cases (is_some (find_first (is_at place) p.entries))) [
      | inl k ↦
          subst (Change nothing p) (ap (from_option p) (rw k at h))
            (Change-entries p (is_at place) (failed_dial receipt) (λ e. refl))
      | inr k ↦ let e = rw k at h in cc
    ]

-- A fresh connection that is lent out has no other holder.
fresh_one :
    (id n : ℕ) (s : System) (p : Pool)
    → times id s.leases + owned id s.pool ≡ 0
    → times n s.leases + owned n p ≤ 1
    → owned id p ≤ owned id s.pool + 0
    → times n (id ∷ s.leases) + owned n p ≤ 1
fresh_one id n s p fresh e i = elim (Bool-cases (id == n)) [
  | inl k ↦
      let same = (==_iff id n).0 k in
      let f : times n s.leases + owned n p ≡ 0 =
        subst (λ m. times m s.leases + owned m p ≡ 0) same (omega (arith, fresh, i)) in
      rw k (omega (arith, f))
  | inr k ↦ rw k (omega (arith, e))
]

-- What a dial that gave a connection makes of the pool.
pub done-IsSound :
    (s : System) (made : Bool) (place id : ℕ) (receipt : Option ℕ) (r : Section × Pool)
    → IsSoundWith 1 s
    → times id s.leases + owned id s.pool ≡ 0
    → dial_done made place id receipt s.pool ≡ some r
    → IsSound (after r s)
unfolding dial_done
done-IsSound s made place id receipt r v fresh h =
    let p = s.pool in
    let gone = record p {
      entries = change_first (is_at place) (λ e. retired (connected id receipt e)) p.entries;
    } in
    let works = record p { entries = change_first (is_at place) (at_work id receipt) p.entries } in
    let c = Change-entries p (is_at place) (λ e. retired (connected id receipt e)) (λ e. refl) in
    let d = Change-entries p (is_at place) (at_work id receipt) (λ e. refl) in
    elim (Bool-cases (not (is_some (find_first (is_at place) p.entries)))) [
      | inl k ↦ let e = rw k at h in cc
      | inr k ↦ elim (Bool-cases (not (is_open p.phase))) [
        | inl m ↦
            subst (λ q. IsSound (after q s)) (ap (from_option r) (rw (k, m) at h))
              (after-IsSound s (fails (closed_error p), gone) v (stops (closed_error p) gone c))
        | inr m ↦ elim (Bool-cases made) [
          | inl x ↦
              let w = Change-IsSound 1 s works v d in
              subst (λ q. IsSound (after q s)) (ap (from_option r) (rw (k, m, x) at h))
                (record {
                  budget = w.budget;
                  short = w.short;
                  sized = w.sized;
                  accounted = omega (arith, w.accounted);
                  exclusive = λ n. fresh_one id n s works fresh (w.exclusive n) (d.owned_le id);
                })
          | inr x ↦
              subst (λ q. IsSound (after q s)) (ap (from_option r) (rw (k, m, x) at h))
                (after-IsSound s (fails no_http, gone) v (stops no_http gone c))
        ]
      ]
    ]
