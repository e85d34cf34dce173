-- ===== src/Http/Pool/Tests.antt =====
-- Runs of the pool, and the laws at concrete pools.
use bbtools_infra.Common.{◌+◌, ◌≡◌, refl, inr, true, false, none, some, arith, All}
use bbtools_infra.Rpc.Text.{codes}
use bbtools_infra.Rpc.Errors.{Error, ErrorCode}
use bbtools_infra.Http.Pool.State.{Origin, PoolLimits, Pool, pool, is_closed}
use bbtools_infra.Http.Pool.Locked.{
  Sight, sweep, sweep_entries, take_idle, returned, pass_on, admit_to_idle,
}
use bbtools_infra.Http.Pool.Acquire.{
  Section, leased, admit, reserve, reserve_section, fast_section, is_at, at_work, dial_done,
  dial_failed, release, settle_failure, close, pool_error,
}
use bbtools_infra.Http.Pool.State.{change_first}
use bbtools_infra.Http.Pool.System.{
  System, new_system, after, started, minus, admits, reserves, dial_succeeds, here, next, Reach,
}
use bbtools_infra.Http.Pool.Sound.{IsSound}
use bbtools_infra.Http.Pool.Reachable.{Reach-IsSound}
use bbtools_infra.Http.Pool.LifeCycle.{AtDial, dial-sweep-close}

abbrev limits : PoolLimits
limits = record {
  max_connections = 2;
  max_keepalive_connections = 1;
  keepalive_expiry = some 100;
  max_queue = 1;
}

abbrev origin : Origin
origin = record { scheme = codes "http"; host = codes "h"; port = 80 }

abbrev done : Error
done = pool_error ErrorCode.cancelled "client done"

abbrev quiet : Sight
quiet = record {
  now = 5;
  connection_released = λ id. false;
  receipt_released = λ r. false;
  connection_closed = λ id. false;
  connection_stale = λ id. false;
}

abbrev admitted : System
admitted = record (new_system limits) {
  pool = (admit (new_system limits).pool).1;
  starting = 0 + 1;
}

abbrev dialed : System
dialed = after (reserve_section true origin admitted.pool) (started admitted)

-- The connection 9 is at work, and lent out.
abbrev connection_made : Section × Pool
connection_made = (
  leased 9,
  record (dialed.pool) { entries = change_first (is_at 0) (at_work 9 none) dialed.pool.entries },
)

abbrev lent : System
lent = after connection_made (record dialed { dialing = minus 0 dialed.dialing })

lent_run : Reach (new_system limits) lent
unfolding pool admit reserve dial_done
lent_run =
    next (next (next here (admits refl (omega arith))) (reserves true origin (omega arith)))
      (dial_succeeds true 0 9 none connection_made (omega arith) refl refl)

-- A healthy lease that is given back lies idle; the next look takes it.
given_back : (fast_section quiet origin (release true 5 9 lent.pool)).0 ≡ leased 9
unfolding pool admit reserve dial_done release returned pass_on admit_to_idle settle_failure
    fast_section take_idle sweep_entries
given_back = refl

Reach-IsSound_example : IsSound lent
Reach-IsSound_example = Reach-IsSound limits lent_run

dialed_open : is_closed dialed.pool.phase ≡ false
unfolding pool admit reserve
dialed_open = refl

dialed_entries : All (AtDial 0) dialed.pool.entries
unfolding pool admit reserve
dialed_entries = (inr (refl, refl), tt)

dial-sweep-close_example :
    let p' = sweep quiet (close done dialed.pool) in
    (dial_failed 0 none p' ≡ none) × (dial_done true 0 9 none p' ≡ none)
dial-sweep-close_example =
    dial-sweep-close done dialed.pool quiet 0 9 none true dialed_open dialed_entries
