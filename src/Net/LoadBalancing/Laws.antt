-- ===== src/Net/LoadBalancing/Laws.antt =====
-- What the three strategies of LoadBalancing.cc guarantee.
use bbtools_infra.Common.{
  ℕ, zero, suc, ◌+◌, ◌-◌, ◌%◌, ◌≤◌, ◌<◌, ◌≡◌, refl, ◌⊎◌, inl, inr, List, arith, get_or, length, ltb,
  Bool-cases,
}
use bbtools_infra.Net.Errors.{no_error, generic, invalid_argument}
use bbtools_infra.Net.LoadBalancing.{
  Mode, round_robin, least_connections, source_addr_hash, other, LoadBalancer, load_balancer,
  least_loop, next,
}
use native.Mathlib.Nat.{mod-lt, mod-add-mod, mod-eq_of_lt}
use native.Mathlib.Decide.{dec_lt}
use mathlib.Core.Path.{subst}
use bbtools_infra.Common.{ltb→lt, ltb→le}

-- The cursor stands in range once the balancer was built without an error.
pub record IsValid (b : LoadBalancer) : Type 0 where
  pub some_loop : 0 < b.loop_count
  pub in_range : b.next_offset < b.loop_count

-- `i` is the first index below `n` at which the counts are least.
abbrev pub IsFirstMin : List ℕ → ℕ → ℕ → Type 0
IsFirstMin counts n i =
    (i < n)
    × ((j : ℕ) → j < n → get_or counts i 0 ≤ get_or counts j 0)
    × ((j : ℕ) → j < i → get_or counts i 0 < get_or counts j 0)

module _ (counts : List ℕ) (n best : ℕ) (m : IsFirstMin counts n best) where
  keep_best : get_or counts best 0 ≤ get_or counts n 0 → IsFirstMin counts (n + 1) best
  keep_best h = (omega arith, below, m.2)
    where
      below : (j : ℕ) → j < n + 1 → get_or counts best 0 ≤ get_or counts j 0
      below j hj = elim (dec_lt j n) [
        | yes p ↦ m.1 j p
        | no p ↦ let e : j ≡ n = omega arith in rw e h
      ]

  take_new : get_or counts n 0 < get_or counts best 0 → IsFirstMin counts (n + 1) n
  take_new h = (omega arith, below, λ j hj. omega (arith, m.1 j hj))
    where
      below : (j : ℕ) → j < n + 1 → get_or counts n 0 ≤ get_or counts j 0
      below j hj = elim (dec_lt j n) [
        | yes p ↦ omega (arith, m.1 j p)
        | no p ↦ let e : j ≡ n = omega arith in rw e (omega arith)
      ]

least_loop-IsFirstMin_from :
    (counts : List ℕ) (rounds i best n : ℕ)
    → i + rounds ≡ n
    → IsFirstMin counts i best
    → IsFirstMin counts n (least_loop counts rounds i best)
unfolding least_loop
least_loop-IsFirstMin_from counts zero i best n e m = let e' : i ≡ n = omega arith in rw (← e') m
least_loop-IsFirstMin_from counts (suc rounds) i best n e m =
    elim (Bool-cases (ltb (get_or counts i 0) (get_or counts best 0))) [
      | inl h ↦ rw h (
          least_loop-IsFirstMin_from counts rounds (i + 1) i n (omega arith)
            (take_new counts i best m (ltb→lt _ _ h)))
      | inr h ↦ rw h (
          least_loop-IsFirstMin_from counts rounds (i + 1) best n (omega arith)
            (keep_best counts i best m (ltb→le _ _ h)))
    ]

first_is_min : (counts : List ℕ) → IsFirstMin counts 1 0
first_is_min counts = (
  omega arith,
  λ j h. let e : j ≡ 0 = omega arith in rw e (omega arith),
  λ j h. absurd (omega arith),
)

least_loop-IsFirstMin :
    (counts : List ℕ) (n : ℕ) → 0 < n → IsFirstMin counts n (least_loop counts (n - 1) 1 0)
least_loop-IsFirstMin counts n h =
    least_loop-IsFirstMin_from counts (n - 1) 1 0 n (omega arith) (first_is_min counts)

least_loop-lt : (counts : List ℕ) (n : ℕ) → 0 < n → least_loop counts (n - 1) 1 0 < n
least_loop-lt counts n h = (least_loop-IsFirstMin counts n h).0

-- The constructor succeeds exactly on a defined strategy and a count above 0, and then the
-- balancer is valid; a balancer built with an error refuses each call of `Next`.
pub load_balancer_cases :
    (crc32 : List ℕ → ℕ) (m : Mode) (count : ℕ) (remote counts : List ℕ)
    → let (b, e) = load_balancer m count in
      ((e ≡ no_error) × IsValid b × (b.loop_count ≡ count) × (b.mode ≡ m) × (0 < count))
      ⊎ ((e ≡ generic invalid_argument)
          × (next crc32 b remote counts ≡ (0, generic invalid_argument, b))
          × ((count ≡ 0) ⊎ ((n : ℕ) × (m ≡ other n))))
unfolding load_balancer next
load_balancer_cases crc32 round_robin count remote counts = ground arith
load_balancer_cases crc32 least_connections count remote counts = ground arith
load_balancer_cases crc32 source_addr_hash count remote counts = ground arith
load_balancer_cases crc32 (other n) count remote counts = inr (refl, refl, inr (n, refl))

-- `Next` on a valid balancer: the index is in range exactly when there is no error; an error
-- returns the count as the sentinel and moves nothing; and the balancer stays valid.
pub next_in_range :
    (crc32 : List ℕ → ℕ) (b : LoadBalancer) (remote counts : List ℕ)
    → IsValid b
    → let (i, e, b') = next crc32 b remote counts in
      IsValid b'
      × (b'.loop_count ≡ b.loop_count)
      × (((e ≡ no_error) × (i < b.loop_count))
          ⊎ ((e ≡ generic invalid_argument) × (i ≡ b.loop_count) × (b' ≡ b)))
unfolding next
next_in_range crc32 b remote counts v = ground (
  arith,
  mod-lt (b.next_offset + 1) v.some_loop,
  mod-lt (crc32 remote) v.some_loop,
  least_loop-lt counts b.loop_count v.some_loop,
)

-- Least connections: with one count for each loop, the choice is the first of the least counts.
pub next_least-IsFirstMin :
    (crc32 : List ℕ → ℕ) (b : LoadBalancer) (remote counts : List ℕ)
    → IsValid b
    → b.mode ≡ least_connections
    → length counts ≡ b.loop_count
    → IsFirstMin counts b.loop_count (next crc32 b remote counts).0
unfolding next
next_least-IsFirstMin crc32 b remote counts v m e =
    subst (IsFirstMin counts b.loop_count) chosen
      (least_loop-IsFirstMin counts b.loop_count v.some_loop)
  where
    chosen : least_loop counts (b.loop_count - 1) 1 0 ≡ (next crc32 b remote counts).0
    chosen = ground arith

next_round_robin_lem :
    (crc32 : List ℕ → ℕ) (b : LoadBalancer) (remote counts : List ℕ)
    → IsValid b
    → b.mode ≡ round_robin
    → (next crc32 b remote counts).2 ≡ record b { next_offset = (b.next_offset + 1) % b.loop_count }
unfolding next
next_round_robin_lem crc32 b remote counts v m = ground arith

-- The `k`-th of a row of calls.
pub nth_next : (List ℕ → ℕ) → LoadBalancer → List ℕ → List ℕ → ℕ → ℕ
nth_next crc32 b remote counts zero = (next crc32 b remote counts).0
nth_next crc32 b remote counts (suc k) =
    nth_next crc32 (next crc32 b remote counts).2 remote counts k

-- Round robin: the `k`-th call of a row chooses the index `k` places after the cursor, cyclically.
pub nth_next_cyclic :
    (crc32 : List ℕ → ℕ) (b : LoadBalancer) (remote counts : List ℕ) (k : ℕ)
    → IsValid b
    → b.mode ≡ round_robin
    → nth_next crc32 b remote counts k ≡ (b.next_offset + k) % b.loop_count
unfolding nth_next
nth_next_cyclic crc32 b remote counts zero v m =
    unfold next in ground (arith, mod-eq_of_lt {n = b.next_offset} {m = b.loop_count})
nth_next_cyclic crc32 b remote counts (suc k) v m = ground (
  arith,
  next_round_robin_lem crc32 b remote counts v m,
  nth_next_cyclic crc32 (next crc32 b remote counts).2 remote counts k,
  mod-lt (b.next_offset + 1) v.some_loop,
  mod-add-mod (b.next_offset + 1) b.loop_count k,
)
