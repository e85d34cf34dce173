-- ===== src/Net/Receive/PopLaws.antt =====
-- `TryPopAll`: the whole stream is handed over in at most four segments, without a copy.
use bbtools_infra.Common.{
  nil_of_length, ℕ, ◌+◌, ◌≤◌, ◌<◌, ◌≡◌, refl, sym, ap, ◌∙◌, ◌⊎◌, inl, inr, false, not, List, [],
  ◌∷◌, ◌++◌, append-nil, append_assoc, arith, length, length-append, flatten, All, Bool-cases,
  if◌then◌else◌, ◌==◌, ==_iff, add_size, is_empty,
}
use bbtools_infra.Net.Circular.{CircularBuffer}
use bbtools_infra.Net.Errors.{no_error}
use bbtools_infra.Net.EventRing.{EventRing, ring_bytes, ring_size, take_storage}
use bbtools_infra.Net.EventRing.Laws
use bbtools_infra.Net.Receive.State.{Env, ReceiveRing, stream, busy, error, ok}
use bbtools_infra.Net.Receive.Notify.{terminal, retry_pending_notification}
use bbtools_infra.Net.Receive.Read.{
  try_pop_all, build_takeout, ring_segments, emptied, segment, popped, result,
}
use bbtools_infra.Net.Receive.Laws.{IsValid, IsValid-signals, length-stream}

abbrev NonEmpty : List ℕ → Type 0
NonEmpty xs = 0 < length xs

-- Segments that show `bytes`, none of them empty.
record Covers (bytes : List ℕ) (limit : ℕ) (segments : List (List ℕ)) : Type 0 where
  shown : flatten segments ≡ bytes
  filled : All NonEmpty segments
  few : length segments ≤ limit

Covers-append :
    (bs cs : List ℕ) (m n : ℕ) (xs ys : List (List ℕ))
    → Covers bs m xs
    → Covers cs n ys
    → Covers (bs ++ cs) (m + n) (xs ++ ys)
Covers-append bs cs m n xs ys c d = record {
  shown = joined xs c.shown;
  filled = both xs c.filled;
  few = omega (arith, length-append xs ys, c.few, d.few);
}
  where
    flat : (zs : List (List ℕ)) → flatten (zs ++ ys) ≡ flatten zs ++ flatten ys
    flat [] = refl
    flat (z ∷ zs) = ap (◌++◌ z) (flat zs) ∙ sym (append_assoc z (flatten zs) (flatten ys))

    joined : (zs : List (List ℕ)) → flatten zs ≡ bs → flatten (zs ++ ys) ≡ bs ++ cs
    joined zs e = flat zs ∙ (rw (e, d.shown))

    both : (zs : List (List ℕ)) → All NonEmpty zs → All NonEmpty (zs ++ ys)
    both [] a = d.filled
    both (z ∷ zs) a = (a.0, both zs a.1)

segment-Covers : (bytes : List ℕ) → Covers bytes 1 (segment bytes)
segment-Covers [] = record { shown = refl; filled = tt; few = omega arith }
segment-Covers (x ∷ xs) = record {
  shown = append-nil (x ∷ xs);
  filled = (omega arith, tt);
  few = omega arith;
}

module _ (C : CircularBuffer ℕ) where
  ring_segments-Covers : (g : EventRing C) → Covers (ring_bytes C g) 2 (ring_segments C g)
  unfolding take_storage
  ring_segments-Covers g = elim (Bool-cases (ring_size C g == 0)) [
    | inl z ↦ rw z (record {
      shown = sym (nil_of_length (ring_bytes C g) ((==_iff _ 0).0 z));
      filled = tt;
      few = omega arith;
    })
    | inr z ↦ rw z (
        Covers-append _ _ 1 1 _ _ (segment-Covers (C.array_one g.storage))
          (segment-Covers (C.array_two g.storage)))
  ]

  emptied_lem :
      (g : EventRing C)
      → Laws.IsValid C g
      → Laws.IsValid C (emptied C g)
        × (ring_bytes C (emptied C g) ≡ [])
        × ((emptied C g).max_bytes ≡ g.max_bytes)
  unfolding take_storage
  emptied_lem g w = elim (Bool-cases (ring_size C g == 0)) [
    | inl z ↦ rw z (w, nil_of_length (ring_bytes C g) ((==_iff _ 0).0 z), refl)
    | inr z ↦ rw z (
      record { sized = w.sized; within = omega (arith, C.capacity-make 0) },
      C.contents-make 0,
      refl,
    )
  ]

  -- The takeout of a valid ring shows the whole stream, oldest first, and leaves a valid empty one.
  takeout :
      (r : ReceiveRing C)
      → IsValid C r
      → let (segments, r') = build_takeout C r in
        Covers (stream C r) 4 segments × IsValid C r' × (stream C r' ≡ [])
  takeout r v =
      let (w, none_left, limit) = emptied_lem r.ring v.ring_valid in
      (
        Covers-append _ _ 2 2 _ _ (ring_segments-Covers r.ring)
            (Covers-append _ _ 1 1 _ _ (segment-Covers r.pending) (segment-Covers r.detached)),
        record {
          ring_valid = w;
          same_limit = limit ∙ v.same_limit;
          bounded =
              omega (arith, ap length (append-nil (ring_bytes C (emptied C r.ring)) ∙ none_left));
          pending_counted = refl;
          detached_counted = no_tail r.detached v.detached_counted;
          size_counted = omega (arith, ap length none_left);
        },
        append-nil _ ∙ none_left,
      )
    where
      no_tail :
          (xs : List ℕ)
          → r.detached_size ≡ length xs
          → (if is_empty xs then r.detached_size else 0) ≡ 0
      no_tail [] e = e
      no_tail (x ∷ xs) e = refl

  -- Every `TryPopAll` on a valid ring: it hands over the whole stream in order, in at most four
  -- non-empty segments, and empties the ring; or the stream stays as it is, and the answer is how
  -- things stand where no byte waits, that the lock is taken, or that memory ran out.
  pub try_pop_all_cases :
      (env : Env) (r : ReceiveRing C)
      → IsValid C r
      → let (a, r') = try_pop_all C env r in
        IsValid C r'
        × (((a.status ≡ ok)
              × (flatten a.segments ≡ stream C r)
              × All NonEmpty a.segments
              × (length a.segments ≤ 4)
              × (stream C r' ≡ [])
              × (0 < length (stream C r)))
            ⊎ ((stream C r' ≡ stream C r)
                × (((stream C r ≡ []) × (a ≡ popped (terminal C r)))
                    ⊎ ((env.lock_free ≡ false) × (a ≡ popped (result busy 0 no_error)))
                    ⊎ ((env.copy_allocates ≡ false) × (a.status ≡ error)))))
  unfolding try_pop_all terminal
  try_pop_all_cases env r v = elim (Bool-cases (not env.lock_free)) [
    | inl h ↦ rw h (IsValid-signals C r _ v, inr (refl, inr (inl (ground arith, refl))))
    | inr h ↦ rw h (elim (Bool-cases (total == 0)) [
      | inl z ↦ rw z (
        IsValid-signals C r _ v,
        inr (
          refl,
          inl (nil_of_length (stream C r) (omega (arith, (==_iff total 0).0 z, sum)), refl),
        ),
      )
      | inr z ↦ rw z (elim (Bool-cases (not env.copy_allocates)) [
        | inl k ↦ rw k (IsValid-signals C r _ v, inr (refl, inr (inr (ground arith, refl))))
        | inr k ↦ rw k (
            let (c, w, e) =
              takeout (retry_pending_notification C env r) (IsValid-signals C r _ v) in
            (IsValid-signals C _ _ w, inl (refl, c.shown, c.filled, c.few, e, ground (arith, sum))))
      ])
    ])
  ]
    where
      total : ℕ
      total = add_size (add_size (ring_size C r.ring) (length r.pending)) r.detached_size

      sum : total ≡ length (stream C r)
      sum = omega (
        arith,
        length-stream C r,
        v.detached_counted,
        v.bounded,
        v.same_limit,
        v.ring_valid.sized,
      )
