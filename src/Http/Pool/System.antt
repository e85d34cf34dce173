-- ===== src/Http/Pool/System.antt =====
-- The pool with the calls in progress, as a step relation: any interleaving of the sections.
use bbtools_infra.Common.{
  ℕ, ◌+◌, ◌-◌, ◌<◌, ◌≡◌, Bool, Option, none, some, List, [], ◌∷◌, if◌then◌else◌, ◌==◌, IsSize,
}
use bbtools_infra.Rpc.Errors.{Error}
use bbtools_infra.Http.Pool.State.{Origin, Waiter, Pool, PoolLimits, pool, find_first}
use bbtools_infra.Http.Pool.Locked.{Sight, at_place, sweep}
use bbtools_infra.Http.Pool.Acquire.{
  Section, leased, dials, waits, fails, goes_on, throws, admit, settle_failure, fast_section,
  reserve_section, queue_section, registered, after_wait, dial_failed, dial_done, release, close,
  shutdown,
}
use bbtools_infra.Http.Pool.Owners.{owned}

-- `starting` calls stand between two sections, `dialing` holds the places that calls dial at, and
-- `leases` the connections lent out. A call that waits is its waiter in the pool. `thrown` counts the
-- calls that an exception has ended.
pub record System : Type 0 where
  pub pool : Pool
  pub starting : ℕ
  pub dialing : List ℕ
  pub leases : List ℕ
  pub thrown : ℕ

abbrev pub new_system : PoolLimits → System
new_system limits = record {
  pool = pool limits;
  starting = 0;
  dialing = [];
  leases = [];
  thrown = 0;
}

abbrev pub times : ℕ → List ℕ → ℕ
times n [] = 0
times n (x ∷ xs) = (if x == n then 1 else 0) + times n xs

-- The list without the first `n`.
abbrev pub minus : ℕ → List ℕ → List ℕ
minus n [] = []
minus n (x ∷ xs) = if x == n then xs else x ∷ minus n xs

-- What a section makes of the call that ran it.
abbrev pub after : Section × Pool → System → System
after (leased id, p) s = record s { pool = p; leases = id ∷ s.leases }
after (dials place, p) s = record s { pool = p; dialing = place ∷ s.dialing }
after (waits place, p) s = record s { pool = p }
after (fails e, p) s = record s { pool = settle_failure p }
after (goes_on, p) s = record s { pool = p; starting = s.starting + 1 }
after (throws, p) s = record s { pool = p; thrown = s.thrown + 1 }

abbrev pub started : System → System
started s = record s { starting = s.starting - 1 }

pub data Step (s : System) : System → Type 0 where
  admits :
      (admit s.pool).0 ≡ none
      → IsSize (s.pool.inflight + 1)
      → Step s (record s { pool = (admit s.pool).1; starting = s.starting + 1 })
  -- The call ends with an error outside the sections: its deadline, a cancellation.
  gives_up :
      0 < s.starting → Step s (record s { pool = settle_failure s.pool; starting = s.starting - 1 })
  looks :
      (sight : Sight) (origin : Origin)
      → 0 < s.starting
      → Step s (after (fast_section sight origin s.pool) (started s))
  reserves :
      (allocates : Bool) (origin : Origin)
      → 0 < s.starting
      → Step s (after (reserve_section allocates origin s.pool) (started s))
  queues :
      (allocates : Bool) (sight : Sight) (origin : Origin)
      → 0 < s.starting
      → Step s (after (queue_section allocates sight origin s.pool) (started s))
  -- An allocation between the sections throws, such as that of the waiter: `Acquire` has no handler,
  -- and its exit section does not run.
  breaks_off : 0 < s.starting → Step s (after (throws, s.pool) (started s))
  dial_breaks_off :
      (place : ℕ)
      → 0 < times place s.dialing
      → Step s (after (throws, s.pool) (record s { dialing = minus place s.dialing }))
  registers :
      (sight : Sight) (place : ℕ) (w : Waiter)
      → find_first (at_place place) s.pool.waiters ≡ some w
      → Step s (record s { pool = registered sight w s.pool })
  wakes :
      (completed : Bool) (now place : ℕ) (w : Waiter)
      → find_first (at_place place) s.pool.waiters ≡ some w
      → Step s (after (after_wait completed now w s.pool) s)
  dial_fails :
      (place : ℕ) (receipt : Option ℕ) (p : Pool)
      → 0 < times place s.dialing
      → dial_failed place receipt s.pool ≡ some p
      → Step s (record s { pool = settle_failure p; dialing = minus place s.dialing })
  -- The network gives each connection a new id.
  dial_succeeds :
      (made : Bool) (place id : ℕ) (receipt : Option ℕ) (r : Section × Pool)
      → 0 < times place s.dialing
      → times id s.leases + owned id s.pool ≡ 0
      → dial_done made place id receipt s.pool ≡ some r
      → Step s (after r (record s { dialing = minus place s.dialing }))
  releases :
      (healthy : Bool) (now id : ℕ)
      → 0 < times id s.leases
      → Step s (record s { pool = release healthy now id s.pool; leases = minus id s.leases })
  closes : (reason : Error) → Step s (record s { pool = close reason s.pool })
  shuts_down : Step s (record s { pool = (shutdown s.pool).1 })
  observes : (sight : Sight) → Step s (record s { pool = sweep sight s.pool })

pub data Reach (s : System) : System → Type 0 where
  here : Reach s s
  next : {t u : System} → Reach s t → Step t u → Reach s u
