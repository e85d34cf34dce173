-- ===== src/Net/EventRing/Reads.antt =====
-- The reads of the ring of received bytes: discard, consume and snapshot.
use bbtools_infra.Common.{
  ℕ, ◌-◌, ◌≤◌, ◌<◌, ◌≡◌, refl, sym, ◌∙◌, ◌⊎◌, inl, inr, ap, Bool, true, false, Option, none, some,
  List, [], ◌∷◌, ◌++◌, append-nil, append_assoc, arith, ltb, ◌==◌, ==_iff, if◌then◌else◌, is_empty,
  length, take, drop, Bool-cases, ltb→lt, ltb→le, le→ltb, drop_all, take-append_le, take-append_ge,
  take_all,
}
use mathlib.Core.Path.{subst}
use bbtools_infra.Net.Errors.{ErrorCode, no_error, generic, result_out_of_range}
use bbtools_infra.Net.Circular.{CircularBuffer}
use bbtools_infra.Net.EventRing.{
  EventRing, consumed, copy_segments, ring_bytes, ring_size, discard, consume, take_snapshot,
}
use bbtools_infra.Net.EventRing.Laws.{IsValid}

take_nothing : (n : ℕ) (xs : List ℕ) → n ≡ 0 → take n xs ≡ []
take_nothing n xs e = rw e

-- The copy is whole, or an append has found no memory: the first, with `out` as it was, or the second,
-- behind all of the first segment.
Copied : Bool → Bool → ℕ → List ℕ → List ℕ → List ℕ → Bool × List ℕ → Type 0
Copied first_fits second_fits n one two out r =
    ((r.0 ≡ true) × (r.1 ≡ out ++ take n (one ++ two)))
    ⊎ ((r.0 ≡ false) × (first_fits ≡ false) × (r.1 ≡ out))
    ⊎ ((r.0 ≡ false) × (second_fits ≡ false) × (length one < n) × (r.1 ≡ out ++ one))

copy_segments_lem :
    (first_fits second_fits : Bool) (n : ℕ) (one two out : List ℕ)
    → Copied first_fits second_fits n one two out
        (copy_segments first_fits second_fits n one two out)
unfolding Copied
copy_segments_lem first_fits second_fits n one two out = ground (
  arith,
  take-append_le n one two,
  take-append_ge n one two,
  take_all (length one) one,
  append_assoc out one (take (n - length one) two),
  take_nothing (n - length one) two,
  append-nil one,
)

module _ (C : CircularBuffer ℕ) where
  erased-IsValid :
      (r : EventRing C) (n : ℕ)
      → IsValid C r
      → IsValid C (record r { storage = C.erase_begin n r.storage })
  erased-IsValid r n v = record {
    sized = v.sized;
    within = omega (arith, C.capacity-erase_begin n r.storage, v.within);
  }

  -- `Discard` drops exactly the first `n` bytes, or refuses without a change.
  pub discard_cases :
      (r : EventRing C) (n : ℕ)
      → IsValid C r
      → let (e, r') = discard C r n in
        IsValid C r'
        × (r'.max_bytes ≡ r.max_bytes)
        × (((e ≡ no_error) × (n ≤ ring_size C r) × (ring_bytes C r' ≡ drop n (ring_bytes C r)))
            ⊎ ((e ≡ generic result_out_of_range) × (ring_size C r < n) × (r' ≡ r)))
  unfolding discard
  discard_cases r n v = elim (Bool-cases (ltb (ring_size C r) n)) [
    | inl h ↦ rw h (v, refl, inr (refl, ltb→lt _ _ h, refl))
    | inr h ↦ rw h (
      erased-IsValid r n v,
      refl,
      inl (refl, ltb→le _ _ h, C.contents-erase_begin n r.storage (ltb→le _ _ h)),
    )
  ]

  -- A discard of the whole size empties the ring.
  pub discard_all :
      (r : EventRing C)
      → IsValid C r
      → (discard C r (ring_size C r)
          ≡ (no_error, record r { storage = C.erase_begin (ring_size C r) r.storage }))
        × (ring_bytes C (record r { storage = C.erase_begin (ring_size C r) r.storage }) ≡ [])
        × IsValid C (record r { storage = C.erase_begin (ring_size C r) r.storage })
  unfolding discard
  discard_all r v = (
    rw (le→ltb (ring_size C r) (ring_size C r) (omega arith)) refl,
    C.contents-erase_begin (ring_size C r) r.storage (omega arith)
        ∙ drop_all (ring_size C r) (ring_bytes C r) (omega arith),
    erased-IsValid r (ring_size C r) v,
  )

  -- `TakeSnapshot` copies every readable byte in order, across both segments.
  pub take_snapshot_lem : (r : EventRing C) → take_snapshot C r ≡ ring_bytes C r
  unfolding take_snapshot
  take_snapshot_lem r = both (C.array_one r.storage) (C.array_two r.storage)
    where
      both :
          (one two : List ℕ)
          → (let read = if is_empty one then [] else one in
              if is_empty two then read else read ++ two)
            ≡ one ++ two
      both [] [] = refl
      both [] (y ∷ ys) = refl
      both (x ∷ xs) [] = sym (append-nil (x ∷ xs))
      both (x ∷ xs) (y ∷ ys) = refl

  -- The outcomes of `Consume`, with an exception as `none`.
  pub data Consumed (first_fits second_fits : Bool) (r : EventRing C) (n : ℕ) (out : List ℕ)
      : Option ErrorCode × List ℕ × EventRing C → Type 0 where
    moved :
        (r' : EventRing C)
        → n ≤ ring_size C r
        → ring_bytes C r' ≡ drop n (ring_bytes C r)
        → r'.max_bytes ≡ r.max_bytes
        → IsValid C r'
        → Consumed first_fits second_fits r n out
            (some no_error, out ++ take n (ring_bytes C r), r')
    beyond :
        ring_size C r < n
        → Consumed first_fits second_fits r n out (some (generic result_out_of_range), out, r)
    first_throws :
        first_fits ≡ false
        → 1 ≤ n
        → n ≤ ring_size C r
        → Consumed first_fits second_fits r n out (none, out, r)
    second_throws :
        second_fits ≡ false
        → length (C.array_one r.storage) < n
        → n ≤ ring_size C r
        → Consumed first_fits second_fits r n out (none, out ++ C.array_one r.storage, r)

  consumed-Consumed :
      (first_fits second_fits : Bool) (r : EventRing C) (n : ℕ) (out : List ℕ) (c : Bool × List ℕ)
      → IsValid C r
      → 1 ≤ n
      → n ≤ ring_size C r
      → Copied first_fits second_fits n (C.array_one r.storage) (C.array_two r.storage) out c
      → Consumed first_fits second_fits r n out (consumed C r n c)
  unfolding Copied
  consumed-Consumed first_fits second_fits r n out c v some_bytes h (inl (e, k)) =
      subst (λ d. Consumed first_fits second_fits r n out (consumed C r n d))
        (sym (ap (λ b. (b, c.1)) e ∙ ap (λ xs. (true, xs)) k))
        (moved (record r { storage = C.erase_begin n r.storage }) h
          (C.contents-erase_begin n r.storage h) refl (erased-IsValid r n v))
  consumed-Consumed first_fits second_fits r n out c v some_bytes h (inr (inl (e, f, k))) =
      subst (λ d. Consumed first_fits second_fits r n out (consumed C r n d))
        (sym (ap (λ b. (b, c.1)) e ∙ ap (λ xs. (false, xs)) k)) (first_throws f some_bytes h)
  consumed-Consumed first_fits second_fits r n out c v some_bytes h (inr (inr (e, f, m, k))) =
      subst (λ d. Consumed first_fits second_fits r n out (consumed C r n d))
        (sym (ap (λ b. (b, c.1)) e ∙ ap (λ xs. (false, xs)) k)) (second_throws f m h)

  -- `Consume` on a valid ring moves exactly the next `n` bytes behind `out`, also where they lie in
  -- both segments; beyond the size it refuses and changes neither. It throws only where an append to
  -- `out` finds no memory: then the ring is as it was, and if it is the second append, `out` already
  -- has the bytes of the first segment, which a second call appends again.
  pub consume_cases :
      (first_fits second_fits : Bool) (r : EventRing C) (n : ℕ) (out : List ℕ)
      → IsValid C r
      → Consumed first_fits second_fits r n out (consume C first_fits second_fits r n out)
  unfolding consume
  consume_cases first_fits second_fits r n out v = elim (Bool-cases (ltb (ring_size C r) n)) [
    | inl h ↦ rw h (beyond (ltb→lt _ _ h))
    | inr h ↦ rw h (elim (Bool-cases (n == 0)) [
      | inl z ↦ rw z (
          subst (λ xs. Consumed first_fits second_fits r n out (some no_error, xs, r))
            (sym (nothing_taken z)) (moved r (ltb→le _ _ h) (nothing_dropped z) refl v))
      | inr nz ↦ rw nz (
          consumed-Consumed first_fits second_fits r n out _ v (ground (arith, nz)) (ltb→le _ _ h)
            (copy_segments_lem first_fits second_fits n _ _ out))
    ])
  ]
    where
      nothing_taken : (n == 0) ≡ true → out ≡ out ++ take n (ring_bytes C r)
      nothing_taken z = let e : n ≡ 0 = (==_iff n 0).0 z in rw e (sym (append-nil out))

      nothing_dropped : (n == 0) ≡ true → ring_bytes C r ≡ drop n (ring_bytes C r)
      nothing_dropped z = let e : n ≡ 0 = (==_iff n 0).0 z in rw e
