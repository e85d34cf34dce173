-- ===== src/Net/EventRing/Grow.antt =====
-- `GrowTarget`: the capacity that it chooses is enough and within the limit.
use bbtools_infra.Common.{ℕ, zero, suc, ◌+◌, ◌*◌, ◌≤◌, ◌<◌, ◌≡◌, ◌⊎◌, arith, inl, inr}
use bbtools_infra.Net.Circular.{CircularBuffer}
use bbtools_infra.Net.EventRing.{EventRing, ring_capacity, grow_loop, grow_target}

grow_loop_bounds :
    (fuel limit need target : ℕ)
    → 0 < target
    → target ≤ limit
    → need ≤ limit
    → need ≤ target + fuel
    → (need ≤ grow_loop fuel limit need target)
      × (grow_loop fuel limit need target ≤ limit)
      × (target ≤ grow_loop fuel limit need target)
unfolding grow_loop
grow_loop_bounds zero limit need target p t n f = omega arith
grow_loop_bounds (suc fuel) limit need target p t n f =
    ground (arith, grow_loop_bounds fuel limit need (target * 2))

grow_loop_done : (fuel limit target : ℕ) → grow_loop fuel limit 0 target ≡ target
unfolding grow_loop
grow_loop_done zero limit target = ground arith
grow_loop_done (suc fuel) limit target = ground arith

-- For a need within the limit the chosen capacity holds it, respects the limit and is no smaller
-- than the present one.
pub grow_target_bounds :
    (C : CircularBuffer ℕ) (r : EventRing C) (need : ℕ)
    → ring_capacity C r ≤ r.max_bytes
    → need ≤ r.max_bytes
    → (need ≤ grow_target C r need)
      × (grow_target C r need ≤ r.max_bytes)
      × (ring_capacity C r ≤ grow_target C r need)
unfolding grow_target
grow_target_bounds C r need c n = from_start _ (ground arith) (ground arith) (ground arith)
  where
    from_start :
        (start : ℕ)
        → ring_capacity C r ≤ start
        → start ≤ r.max_bytes
        → (need ≡ 0) ⊎ (0 < start)
        → (need ≤ grow_loop need r.max_bytes need start)
          × (grow_loop need r.max_bytes need start ≤ r.max_bytes)
          × (ring_capacity C r ≤ grow_loop need r.max_bytes need start)
    from_start start lo hi (inl z) = rw z (omega (arith, grow_loop_done 0 r.max_bytes start))
    from_start start lo hi (inr p) =
        omega (arith, grow_loop_bounds need r.max_bytes need start p hi n (omega arith))
