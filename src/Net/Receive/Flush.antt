-- ===== src/Net/Receive/Flush.antt =====
-- `FlushPendingLocked` and `CopyConsumeLocked`: the waiting bytes enter the ring in order, none is
-- lost, and a copy takes the whole ring.
use bbtools_infra.Common.{
  nil_of_is_empty, ℕ, ◌≤◌, ◌≡◌, refl, sym, ap, ◌∙◌, ◌⊎◌, inl, inr, true, false, not, ◌&&◌, none,
  some, List, [], ◌∷◌, ◌++◌, append-nil, append_assoc, arith, length, Bool-cases, is_empty, ◌==◌,
}
use bbtools_infra.Net.Circular.{CircularBuffer}
use bbtools_infra.Net.Errors.{no_error, generic, not_enough_memory}
use bbtools_infra.Net.EventRing.{EventRing, ring_bytes, ring_size}
use bbtools_infra.Net.EventRing.Laws
use bbtools_infra.Net.EventRing.Reads.{discard_all, take_snapshot_lem}
use bbtools_infra.Net.Receive.State.{Env, ReceiveRing, stream}
use bbtools_infra.Net.Receive.Read.{flush_head, flush_tail, flush_pending, copy_consume, published}
use bbtools_infra.Net.Receive.Laws.{IsValid, length-stream}

module _ (C : CircularBuffer ℕ) where
  -- What a flush keeps; the sizes are published later.
  pub record Keeps (r r' : ReceiveRing C) : Type 0 where
    pub ring_valid : Laws.IsValid C r'.ring
    pub same_limit : r'.ring.max_bytes ≡ r.ring.max_bytes
    pub same_stream : stream C r' ≡ stream C r
    pub counted : r'.detached_size ≡ length r'.detached
    pub marks : (r'.eof ≡ r.eof) × (r'.closed ≡ r.closed) × (r'.error ≡ r.error)
    pub same_max : r'.max_bytes ≡ r.max_bytes

  Keeps-refl : (r : ReceiveRing C) → IsValid C r → Keeps r r
  Keeps-refl r v = record {
    ring_valid = v.ring_valid;
    same_limit = refl;
    same_stream = refl;
    counted = v.detached_counted;
    marks = (refl, refl, refl);
    same_max = refl;
  }

  flush_head_lem :
      (env : Env) (r : ReceiveRing C)
      → IsValid C r
      → ((flush_head C env r ≡ none) × (env.ring_allocates ≡ false))
        ⊎ ((r' : ReceiveRing C) × (flush_head C env r ≡ some r')
            × Keeps r r'
            × (r'.pending ≡ [])
            × (r'.detached ≡ r.detached))
  unfolding flush_head
  flush_head_lem env r v = elim (Bool-cases (is_empty r.pending)) [
    | inl h ↦ rw h (inr (r, refl, Keeps-refl r v, nil_of_is_empty r.pending h, refl))
    | inr h ↦
        rw h
          (elim (Laws.append_fits C env.ring_allocates r.ring r.pending v.ring_valid
            (omega (arith, v.bounded, v.same_limit, length-stream C r))) [
              | inl (g, e, bytes, limit, w) ↦ rw e (
                  inr (
                    record r { ring = g; pending = [] },
                    refl,
                    record {
                      ring_valid = w;
                      same_limit = limit;
                      same_stream =
                          ap (λ xs. xs ++ r.detached) bytes
                          ∙ append_assoc (ring_bytes C r.ring) r.pending r.detached;
                      counted = v.detached_counted;
                      marks = (refl, refl, refl);
                      same_max = refl;
                    },
                    refl,
                    refl,
                  ))
              | inr (e, a) ↦ rw e (inl (refl, a))
            ])
  ]

  -- The tail follows once nothing is pending.
  flush_tail_lem :
      (env : Env) (r : ReceiveRing C)
      → Laws.IsValid C r.ring
      → length (stream C r) ≤ r.ring.max_bytes
      → r.detached_size ≡ length r.detached
      → r.pending ≡ []
      → let r' = flush_tail C env r in
        Keeps r r'
        × (r'.pending ≡ [])
        × ((r'.detached ≡ []) ⊎ ((env.tail_allocates ≡ false) × (r' ≡ r)))
  unfolding flush_tail
  flush_tail_lem env r w b c p =
      elim (Bool-cases (not (r.detached_size == 0) && not (is_empty r.detached))) [
        | inl h ↦
            rw h
              (elim (Laws.append_fits C env.tail_allocates r.ring r.detached w
                (omega (arith, b, length-stream C r))) [
                  | inl (g, e, bytes, limit, u) ↦ rw e (
                    record {
                      ring_valid = u;
                      same_limit = limit;
                      same_stream = moved g bytes;
                      counted = refl;
                      marks = (refl, refl, refl);
                      same_max = refl;
                    },
                    p,
                    inl refl,
                  )
                  | inr (e, a) ↦ rw e (kept, p, inr (a, refl))
                ])
        | inr h ↦ rw h (kept, p, inl (none_there r.detached (ground arith)))
      ]
    where
      kept : Keeps r r
      kept = record {
        ring_valid = w;
        same_limit = refl;
        same_stream = refl;
        counted = c;
        marks = (refl, refl, refl);
        same_max = refl;
      }

      none_there : (xs : List ℕ) → (length xs ≡ 0) ⊎ (is_empty xs ≡ true) → xs ≡ []
      none_there [] d = refl
      none_there (x ∷ xs) (inl e) = absurd (omega arith)
      none_there (x ∷ xs) (inr e) = cc

      moved :
          (g : EventRing C)
          → ring_bytes C g ≡ ring_bytes C r.ring ++ r.detached
          → ring_bytes C g ++ (r.pending ++ []) ≡ stream C r
      moved g e = rw p (append-nil _ ∙ e)

  -- A flush of a valid ring keeps every waiting byte in its order and ends with nothing pending. It
  -- ends with nothing detached too, unless memory ran out on the tail; it is broken off only where
  -- memory runs out on the ring.
  pub flush_pending_lem :
      (env : Env) (r : ReceiveRing C)
      → IsValid C r
      → ((flush_pending C env r ≡ none) × (env.ring_allocates ≡ false))
        ⊎ ((r' : ReceiveRing C) × (flush_pending C env r ≡ some r')
            × IsValid C r'
            × (stream C r' ≡ stream C r)
            × (r'.pending ≡ [])
            × ((r'.detached ≡ []) ⊎ ((env.tail_allocates ≡ false) × (r'.detached ≡ r.detached)))
            × (r'.eof ≡ r.eof)
            × (r'.closed ≡ r.closed)
            × (r'.error ≡ r.error))
  unfolding flush_pending
  flush_pending_lem env r v = elim (flush_head_lem env r v) [
    | inl (e, a) ↦ rw e (inl (refl, a))
    | inr (s, e, k, p, d) ↦
        let t =
          flush_tail_lem env s k.ring_valid
            (omega (arith, ap length k.same_stream, v.bounded, k.same_limit, v.same_limit))
            k.counted p in
        rw e (
          inr (
            published C (flush_tail C env s),
            refl,
            done s k t.0,
            t.0.same_stream ∙ k.same_stream,
            t.1,
            tail s d t.2,
            t.0.marks.0 ∙ k.marks.0,
            t.0.marks.1 ∙ k.marks.1,
            t.0.marks.2 ∙ k.marks.2,
          ))
  ]
    where
      tail :
          (s : ReceiveRing C)
          → s.detached ≡ r.detached
          → ((flush_tail C env s).detached ≡ [])
            ⊎ ((env.tail_allocates ≡ false) × (flush_tail C env s ≡ s))
          → ((flush_tail C env s).detached ≡ [])
            ⊎ ((env.tail_allocates ≡ false) × ((flush_tail C env s).detached ≡ r.detached))
      tail s d (inl e) = inl e
      tail s d (inr (a, e)) = inr (a, ap (λ t. t.detached) e ∙ d)

      done :
          (s : ReceiveRing C)
          → Keeps r s
          → Keeps s (flush_tail C env s)
          → IsValid C (published C (flush_tail C env s))
      done s k t = record {
        ring_valid = t.ring_valid;
        same_limit = t.same_limit ∙ k.same_limit ∙ v.same_limit ∙ sym (t.same_max ∙ k.same_max);
        bounded = omega (
          arith,
          ap length t.same_stream,
          ap length k.same_stream,
          v.bounded,
          t.same_max,
          k.same_max,
        );
        pending_counted = refl;
        detached_counted = t.counted;
        size_counted = omega (
          arith,
          t.ring_valid.sized,
          length-stream C (flush_tail C env s),
          ap length t.same_stream,
          ap length k.same_stream,
          v.bounded,
          v.same_limit,
          v.ring_valid.sized,
        );
      }

  -- A copy takes the whole ring, or nothing where memory runs out.
  pub copy_consume_lem :
      (env : Env) (g : EventRing C) (out : List ℕ)
      → Laws.IsValid C g
      → ((copy_consume C env g out ≡ (generic not_enough_memory, 0, out, g))
          × (env.copy_allocates ≡ false))
        ⊎ ((g' : EventRing C) × (copy_consume C env g out
              ≡ (no_error, ring_size C g, out ++ ring_bytes C g, g'))
            × Laws.IsValid C g'
            × (ring_bytes C g' ≡ [])
            × (g'.max_bytes ≡ g.max_bytes))
  unfolding copy_consume
  copy_consume_lem env g out w = elim (Bool-cases (not env.copy_allocates)) [
    | inl h ↦ rw h (inl (refl, ground arith))
    | inr h ↦
        let (e, empty, valid) = discard_all C g w in
        rw h (rw e (inr (_, (rw (take_snapshot_lem C g)), valid, empty, refl)))
  ]
