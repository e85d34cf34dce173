-- ===== src/Net/EventRing/Aliasing.antt =====
-- `Append` of bytes that the ring itself holds.
use bbtools_infra.Common.{
  is_empty, if◌then◌else◌, ℕ, suc, ◌+◌, ◌≤◌, ◌≡◌, refl, sym, ◌⊎◌, inl, inr, Bool, true, false,
  Option, none, some, List, [], ◌∷◌, append-nil, arith, ltb, length, sub_size, sub_size_of_le,
  Bool-cases, ltb→lt, ltb→le,
}
use mathlib.Core.Path.{subst}
use bbtools_infra.Net.Errors.{ErrorCode, no_error, generic, no_buffer_space}
use bbtools_infra.Net.Circular.{CircularBuffer}
use bbtools_infra.Net.EventRing.{
  EventRing, ring_bytes, ring_size, append, append_bytes, owned_input, Input, outside, inside,
  overlaps, view,
}
use bbtools_infra.Net.EventRing.Laws.{
  IsValid, Appended, taken, refused, ring_size-le, append_bytes-Appended,
}

module _ (C : CircularBuffer ℕ) where
  -- A view of the ring's own bytes, once copied, is appended like bytes of the caller.
  inside_lem :
      (freed : List ℕ) (allocates : Bool) (r : EventRing C) (start count : ℕ)
      → append C freed true allocates r (inside start count)
        ≡ append_bytes C allocates r (view C r (inside start count))
  unfolding append owned_input
  inside_lem freed allocates r start count = refl

  outside_lem :
      (freed : List ℕ) (copies allocates : Bool) (r : EventRing C) (bytes : List ℕ)
      → append C freed copies allocates r (outside bytes) ≡ append_bytes C allocates r bytes
  unfolding append owned_input
  outside_lem freed copies allocates r bytes = refl

  -- Without memory for the copy, the outcome is that of the guards before it, or an exception.
  uncopied :
      (freed : List ℕ) (allocates : Bool) (r : EventRing C) (start count : ℕ)
      → IsValid C r
      → let i = inside start count in
        let out = append C freed false allocates r i in
        Appended C allocates r (view C r i) out
        ⊎ ((out ≡ (none, r)) × (ring_size C r + length (view C r i) ≤ r.max_bytes))
  unfolding append owned_input
  uncopied freed allocates r start count v = by_view (view C r (inside start count))
    where
      by_view :
          (bytes : List ℕ)
          → let out : Option ErrorCode × EventRing C =
              if is_empty bytes
              then (some no_error, r)
              else if ltb (sub_size r.max_bytes (ring_size C r)) (length bytes)
              then (some (generic no_buffer_space), r)
              else (none, r) in
            Appended C allocates r bytes out
            ⊎ ((out ≡ (none, r)) × (ring_size C r + length bytes ≤ r.max_bytes))
      by_view [] = inl (
          taken r (omega (arith, ring_size-le C r v)) (sym (append-nil (ring_bytes C r))) refl
            (omega arith) v)
      by_view (x ∷ xs) =
          let left = sub_size_of_le r.max_bytes (ring_size C r) v.sized (ring_size-le C r v) in
          elim (Bool-cases (ltb (sub_size r.max_bytes (ring_size C r)) (suc (length xs)))) [
            | inl h ↦ rw h (inl (refused (omega (arith, ltb→lt _ _ h, left, ring_size-le C r v))))
            | inr h ↦ rw h (inr (refl, omega (arith, ltb→le _ _ h, left, ring_size-le C r v)))
          ]

  -- Every call of `Append` on a valid ring, with bytes of the caller or with a view of the ring's own
  -- bytes, whatever the memory holds that a growth frees: bytes that fit under the limit go behind
  -- the others, as they were at the call, the storage only grows and the ring stays valid; bytes that
  -- do not fit are refused. It throws only where the storage must grow or a view must be copied and
  -- there is no memory. A refusal and an exception leave the ring unchanged.
  pub ring_append-Appended :
      (freed : List ℕ) (copies allocates : Bool) (r : EventRing C) (i : Input)
      → IsValid C r
      → let out = append C freed copies allocates r i in
        Appended C allocates r (view C r i) out
        ⊎ ((out ≡ (none, r))
            × (copies ≡ false)
            × (overlaps i ≡ true)
            × (ring_size C r + length (view C r i) ≤ r.max_bytes))
  ring_append-Appended freed copies allocates r (outside bytes) v = inl (
      subst (Appended C allocates r bytes) (sym (outside_lem freed copies allocates r bytes))
        (append_bytes-Appended C allocates r bytes v))
  ring_append-Appended freed true allocates r (inside start count) v =
      let bytes = view C r (inside start count) in
      inl (
        subst (Appended C allocates r bytes) (sym (inside_lem freed allocates r start count))
          (append_bytes-Appended C allocates r bytes v))
  ring_append-Appended freed false allocates r (inside start count) v =
      elim (uncopied freed allocates r start count v) [
        | inl a ↦ inl a
        | inr (e, h) ↦ inr (e, refl, refl, h)
      ]
