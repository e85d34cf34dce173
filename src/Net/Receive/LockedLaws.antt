-- ===== src/Net/Receive/LockedLaws.antt =====
-- The observers, the operations under the access guard, and the append into the ring.
use bbtools_infra.Common.{
  ℕ, ◌+◌, ◌≤◌, ◌<◌, ◌≡◌, refl, sym, ap, ◌∙◌, ◌⊎◌, inl, inr, true, false, not, Option, List, [], ◌∷◌,
  ◌++◌, append-nil, arith, length, length-append, length-drop, drop, drop-append_le, Bool-cases,
  if◌then◌else◌, is_empty, ==_iff, add_size, ◌↔◌,
}
use bbtools_infra.Net.Circular.{CircularBuffer}
use bbtools_infra.Net.Errors.{ErrorCode, no_error, generic, result_out_of_range}
use bbtools_infra.Net.EventRing.{EventRing, peek, ring_bytes, ring_size}
use bbtools_infra.Net.EventRing.Laws
use bbtools_infra.Net.EventRing.Laws.{taken, refused, no_memory}
use bbtools_infra.Net.EventRing.Reads.{discard_cases}
use bbtools_infra.Net.Receive.State.{Env, ReceiveRing, stream, ReadResult, ok}
use bbtools_infra.Net.Receive.Observe.{logical_size, is_drained, locked_size, locked_peek}
use bbtools_infra.Net.Receive.Write.{try_append, appended, result}
use bbtools_infra.Net.Receive.Read.{discarded, locked_discard}
use bbtools_infra.Net.Receive.Laws.{IsValid, IsValid-signals, length-stream}

module _ (C : CircularBuffer ℕ) where
  -- `Size` of a valid ring is the number of bytes that wait, wherever they wait, and `Empty` says
  -- whether there are none.
  logical_size_lem :
      (r : ReceiveRing C)
      → IsValid C r
      → (logical_size C r ≡ length (stream C r))
        × ((is_drained C r ≡ true) ↔ (length (stream C r) ≡ 0))
  unfolding logical_size is_drained
  logical_size_lem r v =
      let e : add_size r.size r.detached_size ≡ length (stream C r) = omega (
        arith,
        length-stream C r,
        v.detached_counted,
        v.size_counted,
        v.bounded,
        v.same_limit,
        v.ring_valid.sized,
      ) in
      (e, ((λ h. sym e ∙ (==_iff _ 0).0 h), (λ h. (==_iff _ 0).1 (e ∙ h))))

  -- What the guard peeks at are the oldest bytes, and some of them whenever the ring holds any.
  pub locked_peek_lem :
      (r : ReceiveRing C)
      → (rest : List ℕ) × (ring_bytes C r.ring ≡ locked_peek C r ++ rest)
        × ((locked_size C r ≡ 0) ⊎ (0 < length (locked_peek C r)))
  unfolding locked_peek peek
  locked_peek_lem r =
      go (C.array_one r.ring.storage) (C.array_two r.ring.storage)
        (C.array_two_after_one r.ring.storage)
    where
      go :
          (one two : List ℕ)
          → (one ≡ [] → two ≡ [])
          → let seen = if is_empty (one ++ two) then [] else one in
            (rest : List ℕ) × (one ++ two ≡ seen ++ rest)
            × ((length (one ++ two) ≡ 0) ⊎ (0 < length seen))
      go [] [] h = ([], refl, inl refl)
      go [] (y ∷ ys) h = absurd (cc (h refl))
      go (x ∷ xs) two h = (two, refl, inr (omega arith))

  -- `LockedDiscard` on a valid ring drops exactly the first `n` waiting bytes where the ring part holds
  -- as many, and otherwise refuses without a change.
  pub locked_discard_cases :
      (r : ReceiveRing C) (n : ℕ)
      → IsValid C r
      → let (e, r') = locked_discard C r n in
        IsValid C r'
        × (((e ≡ no_error) × (n ≤ locked_size C r) × (stream C r' ≡ drop n (stream C r)))
            ⊎ ((e ≡ generic result_out_of_range) × (locked_size C r < n) × (r' ≡ r)))
  unfolding locked_discard
  locked_discard_cases r n v = go _ _ (discard_cases C r.ring n v.ring_valid)
    where
      go :
          (e : ErrorCode) (g : EventRing C)
          → Laws.IsValid C g
            × (g.max_bytes ≡ r.ring.max_bytes)
            × (((e ≡ no_error)
                  × (n ≤ ring_size C r.ring)
                  × (ring_bytes C g ≡ drop n (ring_bytes C r.ring)))
                ⊎ ((e ≡ generic result_out_of_range) × (ring_size C r.ring < n) × (g ≡ r.ring)))
          → let (e', r') = discarded C r (e, g) in
            IsValid C r'
            × (((e' ≡ no_error) × (n ≤ locked_size C r) × (stream C r' ≡ drop n (stream C r)))
                ⊎ ((e' ≡ generic result_out_of_range) × (locked_size C r < n) × (r' ≡ r)))
      go e g (w, limit, inl (x, fits, dropped)) =
          let behind : List ℕ = r.pending ++ r.detached in
          let e' : stream C (record r { ring = g }) ≡ drop n (stream C r) =
            ap (λ xs. xs ++ behind) dropped
            ∙ sym (drop-append_le n (ring_bytes C r.ring) behind fits) in
          rw x (
            record {
              ring_valid = w;
              same_limit = limit ∙ v.same_limit;
              bounded = omega (arith, ap length e', length-drop n (stream C r), v.bounded);
              pending_counted = v.pending_counted;
              detached_counted = v.detached_counted;
              size_counted = omega (
                arith,
                ap length dropped,
                length-drop n (ring_bytes C r.ring),
                v.pending_counted,
                v.bounded,
                v.same_limit,
                v.ring_valid.sized,
                length-stream C r,
              );
            },
            inl (refl, fits, e'),
          )
      go e g (w, limit, inr (x, over, same)) = rw (x, same) (v, inr (refl, over, refl))

  -- `TryAppend` on a valid ring with nothing pending and no tail: bytes that fit go behind all others,
  -- bytes that do not are refused; a taken lock or a failed allocation changes no byte either.
  pub try_append_cases :
      (env : Env) (r : ReceiveRing C) (bytes : List ℕ)
      → IsValid C r
      → r.pending ≡ []
      → r.detached ≡ []
      → let (a, r') = try_append C env r bytes in
        IsValid C r'
        × (((a ≡ result ok (length bytes) no_error) × (stream C r' ≡ stream C r ++ bytes))
            ⊎ ((stream C r' ≡ stream C r)
                × (a.bytes ≡ 0)
                × ((env.lock_free ≡ false)
                    ⊎ (env.ring_allocates ≡ false)
                    ⊎ (r.max_bytes < length (stream C r) + length bytes))))
  unfolding try_append
  try_append_cases env r [] v p t = (v, inl (refl, sym (append-nil (stream C r))))
  try_append_cases env r (x ∷ xs) v p t = elim (Bool-cases (not env.lock_free)) [
    | inl k ↦ rw k (v, inr (refl, refl, inl (ground arith)))
    | inr k ↦
        rw k (go _ (Laws.append_bytes-Appended C env.ring_allocates r.ring (x ∷ xs) v.ring_valid))
  ]
    where
      Outcome : ReadResult × ReceiveRing C → Type 0
      Outcome (a, r') =
          IsValid C r'
          × (((a ≡ result ok (length (x ∷ xs)) no_error) × (stream C r' ≡ stream C r ++ x ∷ xs))
              ⊎ ((stream C r' ≡ stream C r)
                  × (a.bytes ≡ 0)
                  × ((env.lock_free ≡ false)
                      ⊎ (env.ring_allocates ≡ false)
                      ⊎ (r.max_bytes < length (stream C r) + length (x ∷ xs)))))

      nothing_behind : r.pending ++ r.detached ≡ []
      nothing_behind = rw (p, t) refl

      whole : stream C r ≡ ring_bytes C r.ring
      whole = ap (λ ys. ring_bytes C r.ring ++ ys) nothing_behind ∙ append-nil (ring_bytes C r.ring)

      go :
          (out : Option ErrorCode × EventRing C)
          → Laws.Appended C env.ring_allocates r.ring (x ∷ xs) out
          → Outcome (appended C env r (x ∷ xs) out)
      go out (taken g fits bytes limit kept w) =
          let e : ring_bytes C g ++ (r.pending ++ r.detached) ≡ stream C r ++ x ∷ xs =
            ap (λ ys. ring_bytes C g ++ ys) nothing_behind
            ∙ append-nil (ring_bytes C g)
            ∙ bytes
            ∙ ap (λ ys. ys ++ x ∷ xs) (sym whole) in
          (
            IsValid-signals C
                (record r { ring = g; size = add_size (ring_size C g) (length r.pending) }) _
                (record {
                  ring_valid = w;
                  same_limit = limit ∙ v.same_limit;
                  bounded = omega (
                    arith,
                    ap length e,
                    length-append (stream C r) (x ∷ xs),
                    ap length whole,
                    v.same_limit,
                  );
                  pending_counted = v.pending_counted;
                  detached_counted = v.detached_counted;
                  size_counted = omega (
                    arith,
                    ap length bytes,
                    length-append (ring_bytes C r.ring) (x ∷ xs),
                    ap length p,
                    v.ring_valid.sized,
                  );
                }),
            inl (refl, e),
          )
      go out (refused over) = (
        IsValid-signals C r _ v,
        inr (refl, refl, inr (inr (omega (arith, ap length whole, v.same_limit)))),
      )
      go out (no_memory a _ _) = (IsValid-signals C r _ v, inr (refl, refl, inr (inl a)))
