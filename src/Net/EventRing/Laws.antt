-- ===== src/Net/EventRing/Laws.antt =====
-- What each operation of the ring of received bytes does to its contents, its limit and its storage.
use bbtools_infra.Common.{
  ℕ, suc, ◌+◌, ◌≤◌, ◌<◌, ◌≡◌, refl, sym, ap, ◌∙◌, ◌⊎◌, inl, inr, Bool, true, false, Option, none,
  some, List, [], ◌∷◌, ◌++◌, append-nil, arith, ltb, leb, length, sub_size, IsSize, add_size_of_lt,
  sub_size_of_le, Bool-cases, ltb→lt, ltb→le, le→ltb, lt→ltb, leb→le,
}
use bbtools_infra.Net.Errors.{ErrorCode, no_error, generic, no_buffer_space}
use bbtools_infra.Net.Circular.{CircularBuffer}
use bbtools_infra.Net.EventRing.{
  EventRing, ring_bytes, ring_size, ring_capacity, event_ring, grow_target, grow, insert,
  insert_grown, insert_within, append, append_bytes, owned_input, outside, reserve, reserved,
}
use bbtools_infra.Net.EventRing.Grow.{grow_target_bounds}

pub record IsValid (C : CircularBuffer ℕ) (r : EventRing C) : Type 0 where
  pub sized : IsSize r.max_bytes
  pub within : ring_capacity C r ≤ r.max_bytes

module _ (C : CircularBuffer ℕ) where
  pub event_ring-IsValid : (limit : ℕ) → IsSize limit → IsValid C (event_ring C limit)
  unfolding event_ring
  event_ring-IsValid limit h = record { sized = h; within = omega (arith, C.capacity-make 0) }

  pub ring_size-le : (r : EventRing C) → IsValid C r → ring_size C r ≤ r.max_bytes
  ring_size-le r v = omega (arith, C.size-le-capacity r.storage, v.within)

  -- The ring after a growth to hold `need`, and what a growth keeps.
  abbrev grown : EventRing C → ℕ → EventRing C
  grown r need = record r { storage = C.set_capacity (grow_target C r need) r.storage }

  record Grows (r : EventRing C) (need : ℕ) : Type 0 where
    bytes : ring_bytes C (grown r need) ≡ ring_bytes C r
    enough : need ≤ ring_capacity C (grown r need)
    within : ring_capacity C (grown r need) ≤ r.max_bytes
    kept : ring_capacity C r ≤ ring_capacity C (grown r need)

  grown-Grows : (r : EventRing C) (need : ℕ) → IsValid C r → need ≤ r.max_bytes → Grows r need
  grown-Grows r need v h =
      let b = grow_target_bounds C r need v.within h in
      let c = C.capacity-set_capacity (grow_target C r need) r.storage in
      record {
        bytes =
            C.contents-set_capacity (grow_target C r need) r.storage
              (omega (arith, C.size-le-capacity r.storage, b));
        enough = omega (arith, b, c);
        within = omega (arith, b, c);
        kept = omega (arith, b, c);
      }

  -- The outcomes of `Append`.
  pub data Appended (allocates : Bool) (r : EventRing C) (bytes : List ℕ)
      : Option ErrorCode × EventRing C → Type 0 where
    taken :
        (r' : EventRing C)
        → ring_size C r + length bytes ≤ r.max_bytes
        → ring_bytes C r' ≡ ring_bytes C r ++ bytes
        → r'.max_bytes ≡ r.max_bytes
        → ring_capacity C r ≤ ring_capacity C r'
        → IsValid C r'
        → Appended allocates r bytes (some no_error, r')
    refused :
        r.max_bytes < ring_size C r + length bytes
        → Appended allocates r bytes (some (generic no_buffer_space), r)
    no_memory :
        allocates ≡ false
        → ring_size C r + length bytes ≤ r.max_bytes
        → ring_capacity C r < ring_size C r + length bytes
        → Appended allocates r bytes (none, r)

  module _ (allocates : Bool) (r : EventRing C) (bytes : List ℕ) (v : IsValid C r) where
    insert-Appended :
        (s : EventRing C)
        → ring_bytes C s ≡ ring_bytes C r
        → s.max_bytes ≡ r.max_bytes
        → ring_capacity C r ≤ ring_capacity C s
        → ring_capacity C s ≤ r.max_bytes
        → ring_size C r + length bytes ≤ ring_capacity C s
        → Appended allocates r bytes (some no_error, insert C s bytes)
    insert-Appended s same limit kept within room =
        taken (insert C s bytes) (omega arith)
          (C.contents-insert_end bytes s.storage (rw same room) ∙ ap (λ xs. xs ++ bytes) same) limit
          (omega (arith, C.capacity-insert_end bytes s.storage))
          (record {
            sized = rw limit v.sized;
            within = omega (arith, C.capacity-insert_end bytes s.storage, limit);
          })

    grown-Appended :
        (b : Bool)
        → b ≡ allocates
        → ring_size C r + length bytes ≤ r.max_bytes
        → ring_capacity C r < ring_size C r + length bytes
        → Appended allocates r bytes
            (insert_grown C r bytes (grow C b r (ring_size C r + length bytes)))
    grown-Appended true e fits short =
        let g = grown-Grows r (ring_size C r + length bytes) v fits in
        insert-Appended (grown r (ring_size C r + length bytes)) g.bytes refl g.kept g.within
          g.enough
    grown-Appended false e fits short = no_memory (sym e) fits short

    fitting :
        (need : ℕ)
        → need ≡ ring_size C r + length bytes
        → ring_size C r + length bytes ≤ r.max_bytes
        → Appended allocates r bytes (insert_within C [] allocates r (outside bytes) need)
    fitting need e fits =
        rw e (elim (Bool-cases (ltb (ring_capacity C r) (ring_size C r + length bytes))) [
          | inl h ↦ rw h (grown-Appended allocates refl fits (ltb→lt _ _ h))
          | inr h ↦ rw h (insert-Appended r refl refl (omega arith) v.within (ltb→le _ _ h))
        ])

  -- Bytes that are not the ring's own.
  pub append_bytes-Appended :
      (allocates : Bool) (r : EventRing C) (bytes : List ℕ)
      → IsValid C r
      → Appended allocates r bytes (append_bytes C allocates r bytes)
  unfolding append owned_input
  append_bytes-Appended allocates r [] v =
      taken r (omega (arith, ring_size-le r v)) (sym (append-nil (ring_bytes C r))) refl
        (omega arith) v
  append_bytes-Appended allocates r (x ∷ xs) v =
      let left = sub_size_of_le r.max_bytes (ring_size C r) v.sized (ring_size-le r v) in
      elim (Bool-cases (ltb (sub_size r.max_bytes (ring_size C r)) (suc (length xs)))) [
        | inl h ↦ rw h (refused (omega (arith, ltb→lt _ _ h, left, ring_size-le r v)))
        | inr h ↦
            let fits : ring_size C r + suc (length xs) ≤ r.max_bytes =
              omega (arith, ltb→le _ _ h, left, ring_size-le r v) in
            rw h (
              fitting allocates r (x ∷ xs) v _ (add_size_of_lt _ _ (omega (arith, v.sized, fits)))
                fits)
      ]

  -- Where the storage must grow and cannot, `Append` throws.
  pub append_no_memory :
      (r : EventRing C) (bytes : List ℕ)
      → IsValid C r
      → ring_size C r + length bytes ≤ r.max_bytes
      → ring_capacity C r < ring_size C r + length bytes
      → append_bytes C false r bytes ≡ (none, r)
  unfolding append owned_input
  append_no_memory r [] v fits short = absurd (omega (arith, C.size-le-capacity r.storage))
  append_no_memory r (x ∷ xs) v fits short =
      let left = sub_size_of_le r.max_bytes (ring_size C r) v.sized (ring_size-le r v) in
      let sum = add_size_of_lt (ring_size C r) (suc (length xs)) (omega (arith, v.sized)) in
      rw (le→ltb (sub_size r.max_bytes (ring_size C r)) (suc (length xs)) (omega (arith, left)))
        (rw (sum, lt→ltb _ _ short) refl)

  -- `Reserve` on a valid ring keeps the bytes and the limit. It succeeds with a storage that holds
  -- `total`, refuses a total above the limit, or meets a failed allocation; both of the latter leave
  -- the ring as it was.
  pub reserve_cases :
      (allocates : Bool) (r : EventRing C) (total : ℕ)
      → IsValid C r
      → let (e, r') = reserve C allocates r total in
        IsValid C r'
        × (ring_bytes C r' ≡ ring_bytes C r)
        × (r'.max_bytes ≡ r.max_bytes)
        × (((e ≡ some no_error) × (total ≤ ring_capacity C r'))
            ⊎ ((e ≡ some (generic no_buffer_space)) × (r.max_bytes < total) × (r' ≡ r))
            ⊎ ((e ≡ none) × (allocates ≡ false) × (r' ≡ r)))
  unfolding reserve
  reserve_cases allocates r total v = elim (Bool-cases (leb total (ring_capacity C r))) [
    | inl h ↦ rw h (v, refl, refl, inl (refl, leb→le _ _ h))
    | inr h ↦ rw h (elim (Bool-cases (ltb r.max_bytes total)) [
      | inl k ↦ rw k (v, refl, refl, inr (inl (refl, ltb→lt _ _ k, refl)))
      | inr k ↦ rw k (grow_cases allocates refl (ltb→le _ _ k))
    ])
  ]
    where
      grow_cases :
          (b : Bool)
          → b ≡ allocates
          → total ≤ r.max_bytes
          → let (e, r') = reserved C r (grow C b r total) in
            IsValid C r'
            × (ring_bytes C r' ≡ ring_bytes C r)
            × (r'.max_bytes ≡ r.max_bytes)
            × (((e ≡ some no_error) × (total ≤ ring_capacity C r'))
                ⊎ ((e ≡ some (generic no_buffer_space)) × (r.max_bytes < total) × (r' ≡ r))
                ⊎ ((e ≡ none) × (allocates ≡ false) × (r' ≡ r)))
      grow_cases true e h =
          let g = grown-Grows r total v h in
          (record { sized = v.sized; within = g.within }, g.bytes, refl, inl (refl, g.enough))
      grow_cases false e h = (v, refl, refl, inr (inr (refl, sym e, refl)))

  -- After a reservation has succeeded, bytes that bring the ring up to the reserved total are taken
  -- without any allocation.
  pub append-reserve :
      (allocates : Bool) (r : EventRing C) (total : ℕ) (bytes : List ℕ)
      → IsValid C r
      → (reserve C allocates r total).0 ≡ some no_error
      → total ≤ r.max_bytes
      → ring_size C r + length bytes ≤ total
      → let r' = (reserve C allocates r total).1 in
        ((append_bytes C false r' bytes).0 ≡ some no_error)
        × (ring_bytes C (append_bytes C false r' bytes).1 ≡ ring_bytes C r ++ bytes)
  append-reserve allocates r total bytes v ok fits room =
      let (e, r') = reserve C allocates r total in
      let c = reserve_cases allocates r total v in
      let same : ring_size C r' ≡ ring_size C r = ap length c.1 in
      go r' c.1 c.2
        (elim c.3 [ inl (_, h) ↦ h | inr (inl (h, _, _)) ↦ cc | inr (inr (h, _, _)) ↦ cc ]) _
        (append_bytes-Appended false r' bytes c.0)
    where
      go :
          (r' : EventRing C)
          → ring_bytes C r' ≡ ring_bytes C r
          → r'.max_bytes ≡ r.max_bytes
          → total ≤ ring_capacity C r'
          → (out : Option ErrorCode × EventRing C) → Appended false r' bytes out
          → (out.0 ≡ some no_error) × (ring_bytes C out.1 ≡ ring_bytes C r ++ bytes)
      go r' same limit h out (taken s _ e _ _ _) = (refl, e ∙ ap (λ xs. xs ++ bytes) same)
      go r' same limit h out (refused k) = absurd (omega (arith, ap length same))
      go r' same limit h out (no_memory _ _ k) = absurd (omega (arith, ap length same))

  -- Bytes that fit are taken, unless memory runs out.
  pub append_fits :
      (allocates : Bool) (r : EventRing C) (bytes : List ℕ)
      → IsValid C r
      → ring_size C r + length bytes ≤ r.max_bytes
      → ((r' : EventRing C) × (append_bytes C allocates r bytes ≡ (some no_error, r'))
          × (ring_bytes C r' ≡ ring_bytes C r ++ bytes)
          × (r'.max_bytes ≡ r.max_bytes)
          × IsValid C r')
        ⊎ ((append_bytes C allocates r bytes ≡ (none, r)) × (allocates ≡ false))
  append_fits allocates r bytes v fits = go _ (append_bytes-Appended allocates r bytes v)
    where
      go :
          (out : Option ErrorCode × EventRing C)
          → Appended allocates r bytes out
          → ((r' : EventRing C) × (out ≡ (some no_error, r'))
              × (ring_bytes C r' ≡ ring_bytes C r ++ bytes)
              × (r'.max_bytes ≡ r.max_bytes)
              × IsValid C r')
            ⊎ ((out ≡ (none, r)) × (allocates ≡ false))
      go out (taken r' _ e l _ w) = inl (r', refl, e, l, w)
      go out (refused h) = absurd (omega arith)
      go out (no_memory h _ _) = inr (refl, h)
