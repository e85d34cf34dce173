-- ===== src/Net/Outbound/Tests.antt =====
-- Runs of the outbound queue, and the laws at concrete queues.
use bbtools_infra.Common.{◌≤◌, ◌<◌, ◌≡◌, refl, ◌⊎◌, inl, true, some, [], ◌∷◌, arith}
use bbtools_infra.Net.Errors.{no_error, generic, no_buffer_space, result_out_of_range}
use bbtools_infra.Net.Outbound.{
  OutboundQueue, append, consume_sent, consume_spill, gather_views, ring_views,
}
use bbtools_infra.Net.Outbound.Invariant.{contents, IsValid}
use bbtools_infra.Net.Outbound.Append.{Appended, append-Appended}
use bbtools_infra.Net.Outbound.Consume.{consume_sent_cases}
use bbtools_infra.Net.Outbound.Gather.{Shows, gather_views-Shows}

-- 1, 2, 3 round the end of a ring of four, then 4 and 5 in a segment.
abbrev wrapped : OutboundQueue
wrapped = record {
  ring = 2 ∷ 3 ∷ 0 ∷ 1 ∷ [];
  ring_head = 3;
  ring_size = 3;
  spill = (4 ∷ 5 ∷ []) ∷ [];
  list_bytes = 2;
  max_total_bytes = 8;
  max_segments = 2;
  geometry_valid = true;
}

contents-wrapped : contents wrapped ≡ 1 ∷ 2 ∷ 3 ∷ 4 ∷ 5 ∷ []
contents-wrapped = refl

append_behind_spill : contents (append true wrapped (6 ∷ 7 ∷ [])).1 ≡ 1 ∷ 2 ∷ 3 ∷ 4 ∷ 5 ∷ 6 ∷ 7 ∷ []
unfolding append
append_behind_spill = refl

append_over_limit :
    append true wrapped (6 ∷ 7 ∷ 8 ∷ 9 ∷ []) ≡ (some (generic no_buffer_space), wrapped)
unfolding append
append_over_limit = refl

consume_into_spill : contents (consume_sent wrapped 4).1 ≡ 5 ∷ []
unfolding consume_sent consume_spill
consume_into_spill = refl

gather_three : gather_views wrapped 8 ≡ (1 ∷ []) ∷ (2 ∷ 3 ∷ []) ∷ (4 ∷ 5 ∷ []) ∷ []
unfolding gather_views ring_views
gather_three = refl

wrapped-IsValid : IsValid wrapped
wrapped-IsValid = record {
  ring_sized = omega arith;
  max_sized = omega arith;
  held = omega arith;
  head_in = inl (omega arith);
  counted = refl;
  filled = (omega arith, tt);
  bounded = omega arith;
  few = omega arith;
}

append-Appended_example : Appended true wrapped (6 ∷ 7 ∷ []) (append true wrapped (6 ∷ 7 ∷ []))
append-Appended_example = append-Appended true wrapped (6 ∷ 7 ∷ []) wrapped-IsValid

consume_sent_cases_example :
    let (e, q') = consume_sent wrapped 4 in
    IsValid q'
    × (q'.max_total_bytes ≡ 8)
    × (((e ≡ no_error) × (4 ≤ 5) × (contents q' ≡ 5 ∷ []))
        ⊎ ((e ≡ generic result_out_of_range) × (5 < 4) × (q' ≡ wrapped)))
consume_sent_cases_example = consume_sent_cases wrapped 4 wrapped-IsValid

gather_views-Shows_example : Shows 2 (1 ∷ 2 ∷ 3 ∷ 4 ∷ 5 ∷ []) (gather_views wrapped 2)
gather_views-Shows_example = gather_views-Shows wrapped 2 wrapped-IsValid
