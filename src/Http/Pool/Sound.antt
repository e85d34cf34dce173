-- ===== src/Http/Pool/Sound.antt =====
-- The invariant of the pool with its calls, and that each step keeps it.
use bbtools_infra.Common.{
  ℕ, suc, ◌+◌, ◌≤◌, ◌<◌, ◌≡◌, sym, ap, ◌∙◌, inl, inr, some, List, [], ◌∷◌, arith, ◌==◌, length,
  Bool-cases, ==_iff, IsSize,
}
use bbtools_infra.Http.Pool.State.{Waiter, PoolLimits, Pool, from_option, find_first, queued}
use bbtools_infra.Http.Pool.Locked.{at_place}
use bbtools_infra.Http.Pool.Acquire.{Section, settle_failure, without}
use bbtools_infra.Http.Pool.Owners.{one, handed, handed_count, owned, Change, nothing}
use bbtools_infra.Http.Pool.Sections.{
  Ends, lends, adds_entry, adds_waiter, stops, continues, breaks,
}
use bbtools_infra.Http.Pool.System.{System, times, minus, after, started}

-- The invariant, with `more` calls that `s` does not list. The budget of entries and the bound of the
-- queue hold; `inflight` has a unit for every call in progress, every lease and every call that an
-- exception has ended; and a connection
-- has one holder at most: a lease, a waiter it was handed to, or the idle entries.
pub record IsSoundWith (more : ℕ) (s : System) : Type 0 where
  pub budget : length s.pool.entries ≤ s.pool.limits.max_connections
  pub short : queued s.pool.waiters ≤ s.pool.limits.max_queue
  pub sized : IsSize s.pool.inflight
  pub accounted :
      s.pool.inflight
      ≡ more + s.starting + length s.dialing + length s.pool.waiters + length s.leases + s.thrown
  pub exclusive : (n : ℕ) → times n s.leases + owned n s.pool ≤ 1

abbrev pub IsSound : System → Type 0
IsSound = IsSoundWith 0

-- A change of the pool that gains nothing.
pub Change-IsSound :
    (more : ℕ) (s : System) (p : Pool)
    → IsSoundWith more s
    → Change nothing s.pool p
    → IsSoundWith more (record s { pool = p })
Change-IsSound more s p v c =
    let l = c.same_limits in
    record {
      budget = omega (arith, v.budget, c.entries_le, ap (λ (x : PoolLimits). x.max_connections) l);
      short = omega (arith, v.short, c.queue_le, ap (λ (x : PoolLimits). x.max_queue) l);
      sized = omega (arith, v.sized, c.same_inflight);
      accounted = omega (arith, v.accounted, c.same_inflight, c.same_waiters);
      exclusive = λ n. omega (arith, v.exclusive n, c.owned_le n);
    }

-- A call that failed gives its unit back.
pub settled-IsSound :
    (more : ℕ) (s : System)
    → IsSoundWith (suc more) s
    → IsSoundWith more (record s { pool = settle_failure s.pool })
unfolding settle_failure
settled-IsSound more s v = record {
  budget = v.budget;
  short = v.short;
  sized = omega arith;
  accounted = omega (arith, v.accounted, v.sized);
  exclusive = v.exclusive;
}

-- A section of a call that `s` does not list ends.
pub after-IsSound :
    (s : System) (r : Section × Pool) → IsSoundWith 1 s → Ends s.pool r → IsSound (after r s)
after-IsSound s r v (lends id p' c loss) =
    let w = Change-IsSound 1 s p' v c in
    record {
      budget = w.budget;
      short = w.short;
      sized = w.sized;
      accounted = omega (arith, w.accounted);
      exclusive = λ n. omega (arith, v.exclusive n, loss n);
    }
after-IsSound s r v (adds_entry place q p' c fits l i ws o) =
    let w = Change-IsSound 1 s q v c in
    record {
      budget = omega (arith, fits, ap (λ (x : PoolLimits). x.max_connections) (l ∙ c.same_limits));
      short = omega (arith, w.short, ap queued ws, ap (λ (x : PoolLimits). x.max_queue) l);
      sized = omega (arith, w.sized, i);
      accounted = omega (arith, w.accounted, i, ap length ws);
      exclusive = λ n. omega (arith, w.exclusive n, o n);
    }
after-IsSound s r v (adds_waiter place q p' c fits l i es ws o) =
    let w = Change-IsSound 1 s q v c in
    record {
      budget = omega (arith, w.budget, ap length es, ap (λ (x : PoolLimits). x.max_connections) l);
      short = omega (arith, fits, ap (λ (x : PoolLimits). x.max_queue) (l ∙ c.same_limits));
      sized = omega (arith, w.sized, i);
      accounted = omega (arith, w.accounted, i, ws);
      exclusive = λ n. omega (arith, w.exclusive n, o n);
    }
after-IsSound s r v (stops e p' c) =
    settled-IsSound 0 (record s { pool = p' }) (Change-IsSound 1 s p' v c)
after-IsSound s r v (continues p' c) =
    let w = Change-IsSound 1 s p' v c in
    record {
      budget = w.budget;
      short = w.short;
      sized = w.sized;
      accounted = omega (arith, w.accounted);
      exclusive = w.exclusive;
    }
after-IsSound s r v (breaks p' c) =
    let w = Change-IsSound 1 s p' v c in
    record {
      budget = w.budget;
      short = w.short;
      sized = w.sized;
      accounted = omega (arith, w.accounted);
      exclusive = w.exclusive;
    }

pub started-IsSound : (s : System) → IsSound s → 0 < s.starting → IsSoundWith 1 (started s)
started-IsSound s v h = record {
  budget = v.budget;
  short = v.short;
  sized = v.sized;
  accounted = omega (arith, v.accounted);
  exclusive = v.exclusive;
}

pub minus_lem :
    (n : ℕ) (xs : List ℕ)
    → 0 < times n xs
    → (length (minus n xs) + 1 ≡ length xs)
      × ((m : ℕ) → times m (minus n xs) + one n m ≡ times m xs)
minus_lem n [] h = absurd (omega arith)
minus_lem n (x ∷ xs) h = elim (Bool-cases (x == n)) [
  | inl k ↦ let same = (==_iff x n).0 k in rw k (omega arith, λ m. rw same (omega arith))
  | inr k ↦
      let ih = minus_lem n xs (ground (arith, h, k)) in
      rw k (omega (arith, ih.0), λ m. omega (arith, ih.1 m))
]

-- The waiter found leaves with what it holds.
pub without_lem :
    (place : ℕ) (ws : List Waiter) (w : Waiter)
    → find_first (at_place place) ws ≡ some w
    → (w.place ≡ place)
      × (length (without place ws) + 1 ≡ length ws)
      × (queued (without place ws) ≤ queued ws)
      × ((n : ℕ) → handed_count n (without place ws) + handed n w ≡ handed_count n ws)
without_lem place [] w h = cc
without_lem place (v ∷ ws) w h = elim (Bool-cases (at_place place v)) [
  | inl k ↦
      let same : v ≡ w = ap (from_option v) (rw k at h) in
      let place_of = (==_iff v.place place).0 k in
      rw k (
        ap (λ (x : Waiter). x.place) (sym same) ∙ place_of,
        omega arith,
        omega arith,
        λ n. omega (arith, ap (handed n) same),
      )
  | inr k ↦
      let ih = without_lem place ws w (rw k at h) in
      rw k (ih.0, omega (arith, ih.1), omega (arith, ih.2), λ n. omega (arith, ih.3 n))
]
