-- ===== src/Net/EventRing/Tests.antt =====
-- Runs of the ring over the plain buffer, and the laws at concrete rings.
use bbtools_infra.Common.{ℕ, ◌≤◌, ◌<◌, ◌≡◌, refl, ◌⊎◌, true, false, none, some, [], ◌∷◌, arith}
use bbtools_infra.Net.Errors.{no_error, generic, no_buffer_space, result_out_of_range}
use bbtools_infra.Net.Circular.Plain.{Held, plain}
use bbtools_infra.Net.EventRing.{
  EventRing, ring_bytes, append, append_bytes, owned_input, inside, reserve, consume, grow_target,
  grow_loop,
}
use bbtools_infra.Net.EventRing.Laws.{IsValid, Appended}
use bbtools_infra.Net.EventRing.Aliasing.{ring_append-Appended}
use bbtools_infra.Net.EventRing.Reads.{Consumed, consume_cases}
use bbtools_infra.Net.EventRing.Snapshot.{EventSnapshot, unread, snapshot_consume_cases}
use bbtools_infra.Net.EventRing.Snapshot

abbrev three : Held ℕ
three = record { items = 1 ∷ 2 ∷ 3 ∷ []; room = 4; fits = omega arith }

abbrev half_full : EventRing (plain ℕ)
half_full = record { storage = three; max_bytes = 6 }

grow_target_limits :
    (grow_target (plain ℕ) half_full 5 ≡ 6) × (grow_target (plain ℕ) half_full 4 ≡ 4)
unfolding grow_target grow_loop
grow_target_limits = (refl, refl)

append_grows :
    ring_bytes (plain ℕ) (append_bytes (plain ℕ) true half_full (4 ∷ 5 ∷ [])).1
    ≡ 1 ∷ 2 ∷ 3 ∷ 4 ∷ 5 ∷ []
unfolding append owned_input grow_target grow_loop
append_grows = refl

append_refuses :
    (append_bytes (plain ℕ) true half_full (4 ∷ 5 ∷ 6 ∷ 7 ∷ [])).0 ≡ some (generic no_buffer_space)
unfolding append
append_refuses = refl

-- A view of the ring's own bytes is copied before the storage grows.
append_own_bytes :
    ring_bytes (plain ℕ) (append (plain ℕ) (7 ∷ 7 ∷ []) true true half_full (inside 1 2)).1
    ≡ 1 ∷ 2 ∷ 3 ∷ 2 ∷ 3 ∷ []
unfolding append owned_input grow_target grow_loop
append_own_bytes = refl

consume_both_segments : (consume (plain ℕ) true true half_full 2 (9 ∷ [])).1 ≡ 9 ∷ 1 ∷ 2 ∷ []
unfolding consume
consume_both_segments = refl

half_full-IsValid : IsValid (plain ℕ) half_full
half_full-IsValid = omega arith

ring_append-Appended_example :
    let out = append (plain ℕ) (7 ∷ 7 ∷ []) true true half_full (inside 1 2) in
    Appended (plain ℕ) true half_full (2 ∷ 3 ∷ []) out
    ⊎ ((out ≡ (none, half_full)) × (true ≡ false) × (true ≡ true) × (5 ≤ 6))
ring_append-Appended_example =
    ring_append-Appended (plain ℕ) (7 ∷ 7 ∷ []) true true half_full (inside 1 2) half_full-IsValid

reserved_ok : (reserve (plain ℕ) true half_full 6).0 ≡ some no_error
unfolding reserve
reserved_ok = refl

consume_cases_example :
    Consumed
      (plain ℕ)
      true
      false
      half_full
      2
      (9 ∷ [])
      (consume (plain ℕ) true false half_full 2 (9 ∷ []))
consume_cases_example = consume_cases (plain ℕ) true false half_full 2 (9 ∷ []) half_full-IsValid

abbrev begun : EventSnapshot
begun = record { bytes = 1 ∷ 2 ∷ 3 ∷ []; cursor = 1 }

begun-IsValid : Snapshot.IsValid begun
begun-IsValid = omega arith

snapshot_consume_cases_example :
    let (e, out', s') = Snapshot.consume begun 1 [] in
    ((1 ≤ 2) × (e ≡ no_error) × (out' ≡ 2 ∷ []) × (unread s' ≡ 3 ∷ []) × Snapshot.IsValid s')
    ⊎ ((2 < 1) × (e ≡ generic result_out_of_range) × (out' ≡ []) × (s' ≡ begun))
snapshot_consume_cases_example = snapshot_consume_cases begun 1 [] begun-IsValid
