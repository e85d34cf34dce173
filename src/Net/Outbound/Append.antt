-- ===== src/Net/Outbound/Append.antt =====
-- `OutboundQueue::Append`: bytes go behind all others or nothing changes.
use bbtools_infra.Common.{
  ℕ, ◌+◌, ◌-◌, ◌≤◌, ◌<◌, ◌≡◌, refl, sym, ap, ◌∙◌, ◌⊎◌, inl, inr, Bool, true, false, not, ◌&&◌,
  Option, none, some, List, [], ◌∷◌, ◌++◌, append-nil, append_assoc, arith, length, flatten, take,
  drop, is_empty, ltb, ltb→lt, ltb→le, leb→lt, length-append, length-take, length-drop,
  take-append-drop, Bool-cases, add_size, sub_size,
}
use mathlib.Core.Path.{ap₂, subst}
use bbtools_infra.Net.Errors.{ErrorCode, no_error, generic, no_buffer_space}
use bbtools_infra.Net.Outbound.{
  OutboundQueue, append, spill_bytes, ring_bytes, to_ring, is_crowded, can_merge, commit,
  append_last, total_bytes, ring_write,
}
use bbtools_infra.Net.Outbound.Window.{window, window-ring_write, length-ring_write}
use bbtools_infra.Net.Outbound.Invariant.{
  contents, IsValid, length-contents, total_bytes_lem, flatten-append, All-snoc,
  flatten-append_last, length-append_last, All-append_last,
}

-- Why a non-empty input is refused.
pub data Refusal (q : OutboundQueue) (bytes : List ℕ) : Type 0 where
  bad_geometry : q.geometry_valid ≡ false → Refusal q bytes
  over_total : q.max_total_bytes < length (contents q) + length bytes → Refusal q bytes
  over_segments :
      q.max_segments ≤ length q.spill
      → length q.ring < q.ring_size + length bytes ⊎ (0 < length q.spill)
      → Refusal q bytes

pub data Appended (allocates : Bool) (q : OutboundQueue) (bytes : List ℕ)
    : Option ErrorCode × OutboundQueue → Type 0 where
  taken :
      (q' : OutboundQueue)
      → IsValid q'
      → contents q' ≡ contents q ++ bytes
      → q'.max_total_bytes ≡ q.max_total_bytes
      → Appended allocates q bytes (some no_error, q')
  refused :
      0 < length bytes
      → Refusal q bytes
      → Appended allocates q bytes (some (generic no_buffer_space), q)
  no_memory : allocates ≡ false → Appended allocates q bytes (none, q)

module _ (q : OutboundQueue) (v : IsValid q) where
  -- The spill part: it goes to the end, and the ring is not touched.
  record Spilled (part : List ℕ) (q' : OutboundQueue) : Type 0 where
    valid : IsValid q'
    flat : flatten q'.spill ≡ flatten q.spill ++ part
    same_ring : (q'.ring ≡ q.ring) × (q'.ring_head ≡ q.ring_head) × (q'.ring_size ≡ q.ring_size)
    same_max : q'.max_total_bytes ≡ q.max_total_bytes
    counted : q'.list_bytes ≡ q.list_bytes + length part

  merged :
      (part : List ℕ)
      → q.ring_size + q.list_bytes + length part ≤ q.max_total_bytes
      → is_empty q.spill ≡ false
      → Spilled part (record q {
        spill = append_last part q.spill;
        list_bytes = add_size q.list_bytes (length part);
      })
  merged part room h =
      let flat = flatten-append_last part q.spill h in
      let sum : add_size q.list_bytes (length part) ≡ q.list_bytes + length part =
        omega (arith, v.max_sized) in
      record {
        valid = record {
          ring_sized = v.ring_sized;
          max_sized = v.max_sized;
          held = v.held;
          head_in = v.head_in;
          counted =
              omega (arith, sum, ap length flat, length-append (flatten q.spill) part, v.counted);
          filled = All-append_last part q.spill v.filled;
          bounded = omega (arith, sum);
          few = omega (arith, length-append_last part q.spill, v.few);
        };
        flat = flat;
        same_ring = (refl, refl, refl);
        same_max = refl;
        counted = sum;
      }

  fresh :
      (part : List ℕ)
      → q.ring_size + q.list_bytes + length part ≤ q.max_total_bytes
      → 0 < length part
      → length q.spill < q.max_segments
      → Spilled part (record q {
        spill = q.spill ++ part ∷ [];
        list_bytes = add_size q.list_bytes (length part);
      })
  fresh part room filled few =
      let flat : flatten (q.spill ++ part ∷ []) ≡ flatten q.spill ++ part =
        flatten-append q.spill (part ∷ []) ∙ ap (◌++◌ (flatten q.spill)) (append-nil part) in
      let sum : add_size q.list_bytes (length part) ≡ q.list_bytes + length part =
        omega (arith, v.max_sized) in
      record {
        valid = record {
          ring_sized = v.ring_sized;
          max_sized = v.max_sized;
          held = v.held;
          head_in = v.head_in;
          counted =
              omega (arith, sum, ap length flat, length-append (flatten q.spill) part, v.counted);
          filled = All-snoc q.spill part v.filled filled;
          bounded = omega (arith, sum);
          few = omega (arith, length-append q.spill (part ∷ []));
        };
        flat = flat;
        same_ring = (refl, refl, refl);
        same_max = refl;
        counted = sum;
      }

  spill_bytes-Spilled :
      (part : List ℕ)
      → q.ring_size + q.list_bytes + length part ≤ q.max_total_bytes
      → is_crowded q part ≡ false
      → Spilled part (spill_bytes q part)
  spill_bytes-Spilled [] room h = record {
    valid = v;
    flat = sym (append-nil (flatten q.spill));
    same_ring = (refl, refl, refl);
    same_max = refl;
    counted = omega arith;
  }
  spill_bytes-Spilled (x ∷ xs) room h = elim (Bool-cases (can_merge q (x ∷ xs))) [
    | inl m ↦ rw m (merged (x ∷ xs) room (ground arith))
    | inr m ↦ rw m (fresh (x ∷ xs) room (omega arith) (leb→lt _ _ (ground arith)))
  ]

-- The ring part: it goes behind the ring's bytes.
record Ringed (q : OutboundQueue) (front : List ℕ) (q' : OutboundQueue) : Type 0 where
  valid : IsValid q'
  shown : window q'.ring q'.ring_head q'.ring_size ≡ window q.ring q.ring_head q.ring_size ++ front
  same_spill : q'.spill ≡ q.spill
  same_max : q'.max_total_bytes ≡ q.max_total_bytes

ring_bytes-Ringed :
    (q : OutboundQueue) (front : List ℕ)
    → IsValid q
    → q.ring_size + length front ≤ length q.ring
    → q.ring_size + q.list_bytes + length front ≤ q.max_total_bytes
    → Ringed q front (ring_bytes q front)
ring_bytes-Ringed q [] v fits total = record {
  valid = v;
  shown = sym (append-nil (window q.ring q.ring_head q.ring_size));
  same_spill = refl;
  same_max = refl;
}
ring_bytes-Ringed q (x ∷ xs) v fits total = record {
  valid = record {
    ring_sized = omega (arith, same_length);
    max_sized = v.max_sized;
    held = omega (arith, same_length, sum);
    head_in = inl (omega (arith, same_length, inside));
    counted = v.counted;
    filled = v.filled;
    bounded = omega (arith, sum);
    few = v.few;
  };
  shown =
      rw sum (window-ring_write q.ring (x ∷ xs) q.ring_head q.ring_size v.ring_sized inside fits);
  same_spill = refl;
  same_max = refl;
}
  where
    inside : q.ring_head < length q.ring
    inside = elim v.head_in [ inl h ↦ h | inr (h, _) ↦ absurd (omega arith) ]

    same_length : length (ring_write q.ring q.ring_head q.ring_size (x ∷ xs)) ≡ length q.ring
    same_length = length-ring_write q.ring (x ∷ xs) q.ring_head q.ring_size v.ring_sized inside fits

    sum : add_size q.ring_size (length (x ∷ xs)) ≡ q.ring_size + length (x ∷ xs)
    sum = omega (arith, v.ring_sized)

-- New bytes enter the ring only where no earlier byte waits in the spill.
in_order :
    (w front flat part : List ℕ)
    → (front ≡ []) ⊎ (flat ≡ [])
    → (w ++ front) ++ (flat ++ part) ≡ (w ++ flat) ++ (front ++ part)
in_order w front flat part (inl e) = rw e (rw (append-nil w) (sym (append_assoc w flat part)))
in_order w front flat part (inr e) = rw e (rw (append-nil w) (append_assoc w front part))

module _ (q : OutboundQueue) (v : IsValid q) where
  both-Appended :
      (allocates : Bool) (front part : List ℕ) (q' q'' : OutboundQueue)
      → Spilled q v part q'
      → Ringed q' front q''
      → (front ≡ []) ⊎ (flatten q.spill ≡ [])
      → Appended allocates q (front ++ part) (some no_error, q'')
  both-Appended allocates front part q' q'' s r order =
      taken q'' r.valid whole (r.same_max ∙ s.same_max)
    where
      same_window : window q'.ring q'.ring_head q'.ring_size ≡ window q.ring q.ring_head q.ring_size
      same_window = rw (s.same_ring.0, s.same_ring.1, s.same_ring.2)

      whole : contents q'' ≡ contents q ++ (front ++ part)
      whole =
          ap₂ ◌++◌ (r.shown ∙ ap (λ w. w ++ front) same_window) (ap flatten r.same_spill ∙ s.flat)
          ∙ in_order (window q.ring q.ring_head q.ring_size) front (flatten q.spill) part order

  commit-Appended :
      (allocates : Bool) (front part : List ℕ)
      → q.ring_size + length front ≤ length q.ring
      → q.ring_size + q.list_bytes + (length front + length part) ≤ q.max_total_bytes
      → (front ≡ []) ⊎ (flatten q.spill ≡ [])
      → is_crowded q part ≡ false
      → Appended allocates q (front ++ part) (commit allocates q front part)
  commit-Appended allocates front part fits total order h =
      elim (Bool-cases (not (is_empty part) && not allocates)) [
        | inl k ↦ rw k (no_memory (ground arith))
        | inr k ↦
            let s = spill_bytes-Spilled q v part (omega arith) h in
            rw k (
              both-Appended allocates front part _ _ s
                (ring_bytes-Ringed (spill_bytes q part) front s.valid
                  (omega (arith, s.same_ring.2, ap length s.same_ring.0))
                  (omega (arith, s.same_ring.2, s.counted, s.same_max)))
                order)
      ]

  -- Where the bytes are split.
  split_at :
      (bytes : List ℕ)
      → (q.ring_size + to_ring q bytes ≤ length q.ring)
        × (to_ring q bytes ≤ length bytes)
        × ((to_ring q bytes ≡ 0) ⊎ (flatten q.spill ≡ []))
        × ((to_ring q bytes ≡ length bytes)
            ⊎ (length q.ring < q.ring_size + length bytes)
            ⊎ (0 < length q.spill))
  split_at bytes = split (q.spill) refl
    where
      left : sub_size (length q.ring) q.ring_size ≡ length q.ring - q.ring_size
      left = omega (arith, v.ring_sized, v.held)

      split :
          (ss : List (List ℕ))
          → ss ≡ q.spill
          → (q.ring_size + to_ring q bytes ≤ length q.ring)
            × (to_ring q bytes ≤ length bytes)
            × ((to_ring q bytes ≡ 0) ⊎ (flatten q.spill ≡ []))
            × ((to_ring q bytes ≡ length bytes)
                ⊎ (length q.ring < q.ring_size + length bytes)
                ⊎ (0 < length q.spill))
      split [] e = rw (← e) (ground (arith, left, v.held))
      split (s ∷ ss) e = rw (← e) (ground (arith, left, v.held))

  -- The guard on the segments fires only where a new segment would be one too many.
  crowded-Refusal :
      (bytes : List ℕ) → is_crowded q (drop (to_ring q bytes) bytes) ≡ true → Refusal q bytes
  crowded-Refusal bytes h = over_segments (ground arith) (elim (split_at bytes).3 [
    | inl e ↦ absurd (
        some_part (drop (to_ring q bytes) bytes) h
          (omega (arith, length-drop (to_ring q bytes) bytes)))
    | inr d ↦ d
  ])
    where
      some_part : (part : List ℕ) → is_crowded q part ≡ true → length part ≡ 0 → ⊥
      some_part [] k e = cc
      some_part (x ∷ xs) k e = omega arith

  split-Appended :
      (allocates : Bool) (bytes : List ℕ)
      → length (contents q) + length bytes ≤ q.max_total_bytes
      → is_crowded q (drop (to_ring q bytes) bytes) ≡ false
      → Appended allocates q bytes
          (commit allocates q (take (to_ring q bytes) bytes) (drop (to_ring q bytes) bytes))
  split-Appended allocates bytes room h =
      subst
        (λ bs.
          Appended allocates q bs
            (commit allocates q (take (to_ring q bytes) bytes) (drop (to_ring q bytes) bytes)))
        (take-append-drop (to_ring q bytes) bytes)
        (commit-Appended allocates _ _ (omega (arith, front, s.0))
          (omega (arith, front, back, s.1, length-contents q v))
          (elim s.2 [ inl e ↦ inl (rw e) | inr e ↦ inr e ]) h)
    where
      s :
          (q.ring_size + to_ring q bytes ≤ length q.ring)
          × (to_ring q bytes ≤ length bytes)
          × ((to_ring q bytes ≡ 0) ⊎ (flatten q.spill ≡ []))
          × ((to_ring q bytes ≡ length bytes)
              ⊎ (length q.ring < q.ring_size + length bytes)
              ⊎ (0 < length q.spill))
      s = split_at bytes

      front : length (take (to_ring q bytes) bytes) ≡ to_ring q bytes
      front = omega (arith, length-take (to_ring q bytes) bytes, s.1)

      back : length (drop (to_ring q bytes) bytes) ≡ length bytes - to_ring q bytes
      back = length-drop (to_ring q bytes) bytes

-- Every call of `Append` on a valid queue: it puts the bytes behind all others and keeps the queue
-- valid; or it refuses them with the queue unchanged, because the geometry is bad, the total would
-- pass its limit, or a new segment would pass the segment limit; or allocation failed, with the
-- queue unchanged.
pub append-Appended :
    (allocates : Bool) (q : OutboundQueue) (bytes : List ℕ)
    → IsValid q
    → Appended allocates q bytes (append allocates q bytes)
unfolding append
append-Appended allocates q [] v = taken q v (sym (append-nil (contents q))) refl
append-Appended allocates q (x ∷ xs) v = elim (Bool-cases (not q.geometry_valid)) [
  | inl g ↦ rw g (refused (omega arith) (bad_geometry (ground arith)))
  | inr g ↦
      rw g (elim (Bool-cases (ltb (sub_size q.max_total_bytes (total_bytes q)) (length (x ∷ xs)))) [
        | inl t ↦ rw t (refused (omega arith) (over_total (omega (arith, ltb→lt _ _ t, left))))
        | inr t ↦ rw t (elim (Bool-cases (is_crowded q (drop (to_ring q (x ∷ xs)) (x ∷ xs)))) [
          | inl c ↦ rw c (refused (omega arith) (crowded-Refusal q v (x ∷ xs) c))
          | inr c ↦ rw c (
              split-Appended q v allocates (x ∷ xs)
                (omega (arith, ltb→le _ _ t, left, length-contents q v, v.bounded)) c)
        ])
      ])
]
  where
    left : sub_size q.max_total_bytes (total_bytes q) ≡ q.max_total_bytes - length (contents q)
    left = omega (arith, total_bytes_lem q v, length-contents q v, v.max_sized, v.bounded)
