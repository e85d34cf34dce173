-- ===== src/Net/LoadBalancing.antt =====
-- bbt/infra/net/LoadBalancing.hpp and LoadBalancing.cc. The CRC-32 of Boost is the parameter
-- `crc32`; the remote address enters as the bytes of its `ToString`.
pub mod Laws
mod Tests
use bbtools_infra.Common.{
  ℕ, zero, suc, ◌+◌, ◌-◌, ◌%◌, Bool, true, false, List, ltb, ◌==◌, not, if◌then◌else◌, get_or,
  length,
}
use bbtools_infra.Net.Errors.{ErrorCode, Errc, no_error, generic, invalid_argument}

-- `enum class LoadBalancing : int`; `other` is an `int` that names no enumerator.
pub data Mode : Type 0 where
  round_robin least_connections source_addr_hash : Mode
  other : ℕ → Mode

pub record LoadBalancer : Type 0 where
  pub mode : Mode
  pub loop_count : ℕ
  pub next_offset : ℕ

abbrev unusable : LoadBalancer
unusable = record { mode = round_robin; loop_count = 0; next_offset = 0 }

abbrev is_defined : Mode → Bool
is_defined (other n) = false
is_defined _ = true

-- The constructor, with the error that it leaves in its out parameter.
pub load_balancer : Mode → ℕ → LoadBalancer × ErrorCode
load_balancer m count =
    if not (is_defined m)
    then (unusable, generic invalid_argument)
    else if count == 0
    then (unusable, generic invalid_argument)
    else (record { mode = m; loop_count = count; next_offset = 0 }, no_error)

-- `for (i = 1; i < loop_count_; ++i)` with the rounds left.
pub least_loop : List ℕ → ℕ → ℕ → ℕ → ℕ
least_loop counts zero i best = best
least_loop counts (suc rounds) i best =
    least_loop counts rounds (i + 1)
      (if ltb (get_or counts i 0) (get_or counts best 0) then i else best)

abbrev next_round_robin : LoadBalancer → ℕ × ErrorCode × LoadBalancer
next_round_robin b =
    (b.next_offset, no_error, record b { next_offset = (b.next_offset + 1) % b.loop_count })

abbrev next_least : LoadBalancer → List ℕ → ℕ × ErrorCode × LoadBalancer
next_least b counts =
    if not (length counts == b.loop_count)
    then (b.loop_count, generic invalid_argument, b)
    else (least_loop counts (b.loop_count - 1) 1 0, no_error, b)

abbrev dispatch :
    (List ℕ → ℕ) → Mode → LoadBalancer → List ℕ → List ℕ → ℕ × ErrorCode × LoadBalancer
dispatch crc32 round_robin b remote counts = next_round_robin b
dispatch crc32 least_connections b remote counts = next_least b counts
dispatch crc32 source_addr_hash b remote counts = (crc32 remote % b.loop_count, no_error, b)
dispatch crc32 (other n) b remote counts = (b.loop_count, generic invalid_argument, b)

-- The chosen index, the error and the balancer after the call.
pub next : (List ℕ → ℕ) → LoadBalancer → List ℕ → List ℕ → ℕ × ErrorCode × LoadBalancer
next crc32 b remote counts =
    if b.loop_count == 0
    then (b.loop_count, generic invalid_argument, b)
    else dispatch crc32 b.mode b remote counts
