-- ===== src/Net/LoadBalancing/Tests.antt =====
-- Runs of the balancer, and the laws at concrete balancers.
use bbtools_infra.Common.{ℕ, ◌%◌, ◌+◌, ◌≡◌, refl, List, [], ◌∷◌, arith}
use bbtools_infra.Net.Errors.{no_error, generic, invalid_argument}
use bbtools_infra.Net.LoadBalancing.{
  round_robin, least_connections, source_addr_hash, LoadBalancer, next, least_loop,
}
use bbtools_infra.Net.LoadBalancing.Laws.{
  IsValid, IsFirstMin, next_least-IsFirstMin, nth_next, nth_next_cyclic,
}

abbrev sum_bytes : List ℕ → ℕ
sum_bytes [] = 0
sum_bytes (x ∷ xs) = x + sum_bytes xs

abbrev rotating : LoadBalancer
rotating = record { mode = round_robin; loop_count = 3; next_offset = 2 }

abbrev hashing : LoadBalancer
hashing = record { mode = source_addr_hash; loop_count = 3; next_offset = 0 }

abbrev leveling : LoadBalancer
leveling = record { mode = least_connections; loop_count = 4; next_offset = 0 }

abbrev loops : ℕ
loops = 3

abbrev loads : List ℕ
loads = 7 ∷ 4 ∷ 9 ∷ 4 ∷ []

next-rotating : next sum_bytes rotating [] [] ≡ (2, no_error, record rotating { next_offset = 0 })
unfolding next
next-rotating = refl

next-hashing : (next sum_bytes hashing (5 ∷ 6 ∷ []) []).0 ≡ 2
unfolding next
next-hashing = refl

next-leveling : (next sum_bytes leveling [] loads).0 ≡ 1
unfolding next least_loop
next-leveling = refl

next-leveling_short : next sum_bytes leveling [] (7 ∷ []) ≡ (4, generic invalid_argument, leveling)
unfolding next least_loop
next-leveling_short = refl

hashing-IsValid : IsValid hashing
hashing-IsValid = omega arith

leveling-IsValid : IsValid leveling
leveling-IsValid = omega arith

rotating-IsValid : IsValid rotating
rotating-IsValid = omega arith

next_least-IsFirstMin_example : IsFirstMin loads 4 (next sum_bytes leveling [] loads).0
next_least-IsFirstMin_example =
    next_least-IsFirstMin sum_bytes leveling [] loads leveling-IsValid refl refl

nth_next_cyclic_example : nth_next sum_bytes rotating [] [] 5 ≡ (2 + 5) % 3
nth_next_cyclic_example = nth_next_cyclic sum_bytes rotating [] [] 5 rotating-IsValid refl
