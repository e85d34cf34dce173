-- ===== src/Net/Outbound/Gather.antt =====
-- `OutboundQueue::GatherViews`: the views show a front part of what waits, in order.
use bbtools_infra.Common.{
  nil_of_length, ℕ, zero, suc, ◌+◌, ◌-◌, ◌≤◌, ◌<◌, ◌≡◌, refl, sym, ap, ◌∙◌, ◌⊎◌, inl, inr, List, [],
  ◌∷◌, ◌++◌, append_assoc, arith, length, flatten, take, drop, length-take, length-drop, sub_size,
  All,
}
use mathlib.Core.Path.{subst}
use bbtools_infra.Net.Outbound.{
  OutboundQueue, contiguous, first_view, second_view, ring_views, gather_views,
}
use bbtools_infra.Net.Outbound.Window.{window, window-two}
use bbtools_infra.Net.Outbound.Invariant.{contents, IsValid, NonEmpty}

-- The two stretches of the ring, and that the first is not empty where the ring is not.
record Stretches (q : OutboundQueue) : Type 0 where
  shown : window q.ring q.ring_head q.ring_size ≡ first_view q ++ second_view q
  left : sub_size q.ring_size (contiguous q) ≡ q.ring_size - contiguous q
  short : contiguous q ≤ q.ring_size
  first : length (first_view q) ≡ contiguous q
  second : length (second_view q) ≡ q.ring_size - contiguous q
  some_first : 0 < contiguous q

ring-Stretches : (q : OutboundQueue) → IsValid q → 0 < q.ring_size → Stretches q
ring-Stretches q v some_bytes = record {
  shown = rw left (
      window-two q.ring q.ring_head q.ring_size (contiguous q) inside v.held short
        (ground (arith, tail)) (ground (arith, tail)));
  left = left;
  short = short;
  first = omega (
    arith,
    length-take (contiguous q) (drop q.ring_head q.ring),
    length-drop q.ring_head q.ring,
    fits,
  );
  second = omega (arith, length-take (sub_size q.ring_size (contiguous q)) q.ring, left, v.held);
  some_first = ground (arith, tail, inside);
}
  where
    inside : q.ring_head < length q.ring
    inside = elim v.head_in [ inl h ↦ h | inr (h, _) ↦ absurd (omega (arith, v.held)) ]

    tail : sub_size (length q.ring) q.ring_head ≡ length q.ring - q.ring_head
    tail = omega (arith, v.ring_sized, inside)

    short : contiguous q ≤ q.ring_size
    short = ground arith

    fits : q.ring_head + contiguous q ≤ length q.ring
    fits = ground (arith, tail)

    left : sub_size q.ring_size (contiguous q) ≡ q.ring_size - contiguous q
    left = omega (arith, v.held, v.ring_sized, short)

-- Views of the front of `bytes`, at most `room` of them; with fewer than `room` they show it all.
pub record Shows (room : ℕ) (bytes : List ℕ) (views : List (List ℕ)) : Type 0 where
  pub rest : List ℕ
  pub front : flatten views ++ rest ≡ bytes
  pub bounded : length views ≤ room
  pub filled : All NonEmpty views
  pub complete : (rest ≡ []) ⊎ (length views ≡ room)

spill_views-Shows :
    (ss : List (List ℕ)) (room : ℕ) → All NonEmpty ss → Shows room (flatten ss) (take room ss)
spill_views-Shows ss zero a = record {
  rest = flatten ss;
  front = refl;
  bounded = omega arith;
  filled = tt;
  complete = inr refl;
}
spill_views-Shows [] (suc room) a = record {
  rest = [];
  front = refl;
  bounded = omega arith;
  filled = tt;
  complete = inl refl;
}
spill_views-Shows (s ∷ ss) (suc room) a =
    let r = spill_views-Shows ss room a.1 in
    record {
      rest = r.rest;
      front = append_assoc s (flatten (take room ss)) r.rest ∙ ap (◌++◌ s) r.front;
      bounded = omega (arith, r.bounded);
      filled = (a.0, r.filled);
      complete = elim r.complete [ inl e ↦ inl e | inr e ↦ inr (ap suc e) ];
    }

-- A view put before others.
cons-Shows :
    (room : ℕ) (view bytes : List ℕ) (views : List (List ℕ))
    → NonEmpty view
    → Shows room bytes views
    → Shows (suc room) (view ++ bytes) (view ∷ views)
cons-Shows room view bytes views h r = record {
  rest = r.rest;
  front = append_assoc view (flatten views) r.rest ∙ ap (◌++◌ view) r.front;
  bounded = omega (arith, r.bounded);
  filled = (h, r.filled);
  complete = elim r.complete [ inl e ↦ inl e | inr e ↦ inr (ap suc e) ];
}

none-Shows : (bytes : List ℕ) → Shows 0 bytes []
none-Shows bytes = record {
  rest = bytes;
  front = refl;
  bounded = omega arith;
  filled = tt;
  complete = inr refl;
}

-- Which stretches of the ring come back.
ring_views-cases :
    (q : OutboundQueue) (room : ℕ)
    → IsValid q
    → ((ring_views room q ≡ []) × ((room ≡ 0) ⊎ (q.ring_size ≡ 0)))
      ⊎ ((ring_views room q ≡ first_view q ∷ [])
          × (0 < room)
          × (0 < q.ring_size)
          × ((contiguous q ≡ q.ring_size) ⊎ (room ≡ 1)))
      ⊎ ((ring_views room q ≡ first_view q ∷ second_view q ∷ [])
          × (1 < room)
          × (0 < q.ring_size)
          × (contiguous q < q.ring_size))
unfolding ring_views
ring_views-cases q room v = ground arith

module _ (q : OutboundQueue) (v : IsValid q) where
  no_view :
      (room : ℕ) → (room ≡ 0) ⊎ (q.ring_size ≡ 0) → Shows room (contents q) (take room q.spill)
  no_view room (inl e) = rw e (none-Shows (contents q))
  no_view room (inr e) =
      subst (λ bs. Shows room bs (take room q.spill)) flat (spill_views-Shows q.spill room v.filled)
    where
      flat : flatten q.spill ≡ contents q
      flat = rw e

  one_view :
      (room : ℕ)
      → 0 < q.ring_size
      → (contiguous q ≡ q.ring_size) ⊎ (suc room ≡ 1)
      → Shows (suc room) (contents q) (first_view q ∷ take room q.spill)
  one_view room h d =
      let s = ring-Stretches q v h in
      let split : first_view q ++ (second_view q ++ flatten q.spill) ≡ contents q =
        sym (append_assoc (first_view q) (second_view q) (flatten q.spill))
        ∙ ap (λ w. w ++ flatten q.spill) (sym s.shown) in
      subst (λ bs. Shows (suc room) bs (first_view q ∷ take room q.spill)) split
        (cons-Shows room (first_view q) _ _ (omega (arith, s.first, s.some_first))
          (behind s.second d))
    where
      behind :
          length (second_view q) ≡ q.ring_size - contiguous q
          → (contiguous q ≡ q.ring_size) ⊎ (suc room ≡ 1)
          → Shows room (second_view q ++ flatten q.spill) (take room q.spill)
      behind e (inl k) =
          subst (λ w. Shows room (w ++ flatten q.spill) (take room q.spill))
            (sym (nil_of_length (second_view q) (omega arith)))
            (spill_views-Shows q.spill room v.filled)
      behind e (inr k) = let z : room ≡ 0 = omega arith in rw z (none-Shows _)

  two_views :
      (room : ℕ)
      → 0 < q.ring_size
      → contiguous q < q.ring_size
      → Shows (suc (suc room)) (contents q) (first_view q ∷ second_view q ∷ take room q.spill)
  two_views room h k =
      let s = ring-Stretches q v h in
      let split : first_view q ++ (second_view q ++ flatten q.spill) ≡ contents q =
        sym (append_assoc (first_view q) (second_view q) (flatten q.spill))
        ∙ ap (λ w. w ++ flatten q.spill) (sym s.shown) in
      subst (λ bs. Shows (suc (suc room)) bs (first_view q ∷ second_view q ∷ take room q.spill))
        split
        (cons-Shows (suc room) (first_view q) _ _ (omega (arith, s.first, s.some_first)) (
          cons-Shows room (second_view q) _ _ (omega (arith, s.second))
            (spill_views-Shows q.spill room v.filled)))

abbrev Gathered : OutboundQueue → ℕ → List (List ℕ) → Type 0
Gathered q room views = Shows room (contents q) (views ++ take (room - length views) q.spill)

gather-Shows : (q : OutboundQueue) (room : ℕ) → IsValid q → Gathered q room (ring_views room q)
gather-Shows q room v = elim (ring_views-cases q room v) [
  | inl (e, d) ↦
      subst (Gathered q room) (sym e)
        (subst (λ k. Shows room (contents q) (take k q.spill)) (omega arith) (no_view q v room d))
  | inr (inl (e, h, some_bytes, d)) ↦ subst (Gathered q room) (sym e) (
      subst (λ k. Shows k (contents q) (first_view q ∷ take (room - 1) q.spill)) (omega arith)
        (one_view q v (room - 1) some_bytes (elim d [ inl k ↦ inl k | inr k ↦ inr (omega arith) ])))
  | inr (inr (e, h, some_bytes, k)) ↦ subst (Gathered q room) (sym e) (
      subst (λ k. Shows k (contents q) (first_view q ∷ second_view q ∷ take (room - 2) q.spill))
        (omega arith) (two_views q v (room - 2) some_bytes k))
]

-- `GatherViews` on a valid queue gives at most `room` views, none of them empty. They show the bytes
-- from the front of the queue in order of sending, and all of them where fewer than `room` came back.
pub gather_views-Shows :
    (q : OutboundQueue) (room : ℕ) → IsValid q → Shows room (contents q) (gather_views q room)
unfolding gather_views
gather_views-Shows q room v = gather-Shows q room v
