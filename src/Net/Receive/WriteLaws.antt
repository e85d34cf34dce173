-- ===== src/Net/Receive/WriteLaws.antt =====
-- The owner's side: what a grant promises, and that every append keeps the order of the bytes.
use bbtools_infra.Common.{
  ℕ, suc, ◌+◌, ◌≤◌, ◌<◌, ◌≡◌, refl, sym, ap, ◌∙◌, ◌⊎◌, inl, inr, true, false, not, Option, none,
  some, List, [], ◌∷◌, ◌++◌, append-nil, append_assoc, arith, length, length-append, Bool-cases,
  ◌==◌, ==_iff, add_size,
}
use bbtools_infra.Net.Circular.{CircularBuffer}
use bbtools_infra.Net.Errors.{ErrorCode, no_error, generic, no_buffer_space}
use bbtools_infra.Net.EventRing.{EventRing, ring_bytes, ring_size, ring_capacity}
use bbtools_infra.Net.EventRing.Laws
use bbtools_infra.Net.Receive.State.{Env, ReceiveRing, stream, eof, ok}
use bbtools_infra.Net.Receive.Notify.{terminal}
use bbtools_infra.Net.Receive.Write.{
  AppendGrant, stage_detached, append_deferred, try_reserve_for_append, used_bytes, granted_bytes,
  grant_of,
}
use bbtools_infra.Net.Receive.Read.{try_read, flush_pending, flush_head, flush_tail, result}
use bbtools_infra.Net.Receive.Laws.{IsValid, IsValid-signals, length-stream}

module _ (C : CircularBuffer ℕ) where
  used_bytes_lem : (r : ReceiveRing C) → IsValid C r → used_bytes C r ≡ length (stream C r)
  used_bytes_lem r v =
      omega
        (arith, length-stream C r, v.detached_counted, v.bounded, v.same_limit, v.ring_valid.sized)

  granted_bytes_lem :
      (r : ReceiveRing C) (want : ℕ)
      → IsValid C r
      → (granted_bytes C r want ≤ want)
        × (length (stream C r) + granted_bytes C r want ≤ r.max_bytes)
        × ((granted_bytes C r want ≡ 0) → (want ≡ 0) ⊎ (length (stream C r) ≡ r.max_bytes))
  granted_bytes_lem r want v =
      let used = used_bytes_lem r v in
      let size = v.ring_valid.sized in
      (
        ground arith,
        ground (arith, used, v.bounded, v.same_limit, size),
        λ z. ground (arith, used, v.bounded, v.same_limit, size),
      )

  -- `AppendDeferred` of bytes that the limit has room for: true means that they wait behind the ring
  -- and the pending bytes, false that nothing changed and the owner still holds them.
  pub append_deferred_cases :
      (env : Env) (r : ReceiveRing C) (bytes : List ℕ)
      → IsValid C r
      → length (stream C r) + length bytes ≤ r.max_bytes
      → let (taken, r') = append_deferred C env r bytes in
        IsValid C r'
        × (((taken ≡ true)
              × (r'.ring ≡ r.ring)
              × (r'.pending ≡ r.pending ++ bytes)
              × (r'.detached ≡ r.detached))
            ⊎ ((taken ≡ false)
                × (r' ≡ r)
                × ((env.lock_free ≡ false) ⊎ (env.tail_allocates ≡ false))))
  unfolding append_deferred
  append_deferred_cases env r [] v h = (v, inl (refl, refl, sym (append-nil r.pending), refl))
  append_deferred_cases env r (x ∷ xs) v h = elim (Bool-cases (not env.lock_free)) [
    | inl k ↦ rw k (v, inr (refl, refl, inl (ground arith)))
    | inr k ↦ rw k (elim (Bool-cases (not env.tail_allocates)) [
      | inl a ↦ rw a (v, inr (refl, refl, inr (ground arith)))
      | inr a ↦ rw a (
        record {
          ring_valid = v.ring_valid;
          same_limit = v.same_limit;
          bounded = omega (arith, longer, h);
          pending_counted = refl;
          detached_counted = v.detached_counted;
          size_counted = omega (arith, longer, h, v.same_limit, v.ring_valid.sized, parts);
        },
        inl (refl, refl, refl, refl),
      )
    ])
  ]
    where
      parts :
          length (ring_bytes C r.ring ++ ((r.pending ++ x ∷ xs) ++ r.detached))
          ≡ ring_size C r.ring + length (r.pending ++ x ∷ xs) + length r.detached
      parts = omega (
        arith,
        length-append (ring_bytes C r.ring) ((r.pending ++ x ∷ xs) ++ r.detached),
        length-append (r.pending ++ x ∷ xs) r.detached,
      )

      longer :
          length (ring_bytes C r.ring ++ ((r.pending ++ x ∷ xs) ++ r.detached))
          ≡ length (stream C r) + suc (length xs)
      longer = omega (arith, parts, length-stream C r, length-append r.pending (x ∷ xs))

  -- `StageDetached` of bytes that the limit has room for: true means that they wait behind all
  -- others, false that nothing changed and the owner still holds them.
  pub stage_detached_cases :
      (env : Env) (r : ReceiveRing C) (bytes : List ℕ)
      → IsValid C r
      → length (stream C r) + length bytes ≤ r.max_bytes
      → let (taken, r') = stage_detached C env r bytes in
        IsValid C r'
        × (((taken ≡ true) × (stream C r' ≡ stream C r ++ bytes))
            ⊎ ((taken ≡ false) × (r' ≡ r) × (env.tail_allocates ≡ false)))
  unfolding stage_detached
  stage_detached_cases env r [] v h = (v, inl (refl, sym (append-nil (stream C r))))
  stage_detached_cases env r (x ∷ xs) v h = elim (Bool-cases (not env.tail_allocates)) [
    | inl a ↦ rw a (v, inr (refl, refl, ground arith))
    | inr a ↦ rw a (
      record {
        ring_valid = v.ring_valid;
        same_limit = v.same_limit;
        bounded = omega (arith, ap length longer, length-append (stream C r) (x ∷ xs), h);
        pending_counted = v.pending_counted;
        detached_counted = refl;
        size_counted = v.size_counted;
      },
      inl (refl, longer),
    )
  ]
    where
      longer : ring_bytes C r.ring ++ (r.pending ++ (r.detached ++ x ∷ xs)) ≡ stream C r ++ x ∷ xs
      longer = simp append_assoc

  -- The answers to a request for room.
  abbrev pub Answered : Env → ReceiveRing C → ℕ → Option AppendGrant × ReceiveRing C → Type 0
  Answered env r want (answer, r') =
      IsValid C r'
      × (stream C r' ≡ stream C r)
      × (((g : AppendGrant) × (answer ≡ some g)
            × (g.status ≡ ok)
            × (0 < g.granted)
            × (g.granted ≤ want)
            × (length (stream C r) + g.granted ≤ ring_capacity C r'.ring)
            × (length (stream C r) + g.granted ≤ r.max_bytes))
          ⊎ ((g : AppendGrant) × (answer ≡ some g)
              × (g.granted ≡ 0)
              × ((env.lock_free ≡ false) ⊎ (want ≡ 0) ⊎ (length (stream C r) ≡ r.max_bytes)))
          ⊎ ((answer ≡ none) × (env.ring_allocates ≡ false)))

  module _ (env : Env) (r : ReceiveRing C) (want n : ℕ) (v : IsValid C r) (some_room : 0 < n)
      (wanted : n ≤ want) (fits : length (stream C r) + n ≤ r.max_bytes) where
    -- The ring after a reservation is as before but for its storage.
    with_ring :
        (g : EventRing C)
        → Laws.IsValid C g
        → ring_bytes C g ≡ ring_bytes C r.ring
        → g.max_bytes ≡ r.ring.max_bytes
        → IsValid C (record r { ring = g }) × (stream C (record r { ring = g }) ≡ stream C r)
    with_ring g w same limit =
        let e : stream C (record r { ring = g }) ≡ stream C r =
          ap (λ xs. xs ++ (r.pending ++ r.detached)) same in
        (
          record {
            ring_valid = w;
            same_limit = limit ∙ v.same_limit;
            bounded = omega (arith, ap length e, v.bounded);
            pending_counted = v.pending_counted;
            detached_counted = v.detached_counted;
            size_counted = omega (arith, ap length same, v.size_counted);
          },
          e,
        )

    reserved :
        (total : ℕ)
        → total ≡ length (stream C r) + n
        → (e : Option ErrorCode) (g : EventRing C) → Laws.IsValid C g
        → ring_bytes C g ≡ ring_bytes C r.ring
        → g.max_bytes ≡ r.ring.max_bytes
        → ((e ≡ some no_error) × (total ≤ ring_capacity C g))
          ⊎ ((e ≡ some (generic no_buffer_space)) × (r.ring.max_bytes < total) × (g ≡ r.ring))
          ⊎ ((e ≡ none) × (env.ring_allocates ≡ false) × (g ≡ r.ring))
        → Answered env r want (grant_of C n r (e, g))
    reserved total k e g w same limit (inl (x, room)) =
        let (u, kept) = with_ring g w same limit in
        rw x
          (IsValid-signals C _ _ u, kept, inl (_, refl, refl, some_room, wanted, omega arith, fits))
    reserved total k e g w same limit (inr (inl (x, over, y))) =
        absurd (omega (arith, v.same_limit))
    reserved total k e g w same limit (inr (inr (x, a, y))) =
        let (u, kept) = with_ring g w same limit in rw x (u, kept, inr (inr (refl, a)))

  -- A grant on a valid ring asks for no more than was wanted and leaves the waiting bytes as they
  -- are; the granted bytes fit under the limit, and the ring's storage already holds all of them.
  -- Nothing is granted only while the lock is taken, or where nothing is wanted or nothing is left;
  -- and the call throws only where memory runs out on the ring.
  pub try_reserve_cases :
      (env : Env) (r : ReceiveRing C) (want : ℕ)
      → IsValid C r
      → Answered env r want (try_reserve_for_append C env r want)
  unfolding try_reserve_for_append
  try_reserve_cases env r want v = elim (Bool-cases (not env.lock_free)) [
    | inl k ↦ rw k (v, refl, inr (inl (_, refl, refl, inl (ground arith))))
    | inr k ↦ rw k (elim (Bool-cases (granted_bytes C r want == 0)) [
      | inl z ↦ rw z (
        IsValid-signals C r _ v,
        refl,
        inr (inl (_, refl, refl, inr (bounds.2 ((==_iff _ 0).0 z)))),
      )
      | inr z ↦
          let c =
            Laws.reserve_cases C env.ring_allocates r.ring
              (add_size (used_bytes C r) (granted_bytes C r want)) v.ring_valid in
          rw z (
            reserved env r want (granted_bytes C r want) v (ground arith) bounds.0 bounds.1
              (add_size (used_bytes C r) (granted_bytes C r want))
              (omega (arith, used_bytes_lem r v, bounds.1, v.same_limit, v.ring_valid.sized)) _ _
              c.0 c.1 c.2 c.3)
    ])
  ]
    where
      bounds :
          (granted_bytes C r want ≤ want)
          × (length (stream C r) + granted_bytes C r want ≤ r.max_bytes)
          × ((granted_bytes C r want ≡ 0) → (want ≡ 0) ⊎ (length (stream C r) ≡ r.max_bytes))
      bounds = granted_bytes_lem r want v

-- Where memory runs out on the detached tail of a closed ring whose other bytes are used up, a
-- reader is told of the end although the tail still waits.
pub try_read_early_eof :
    (C : CircularBuffer ℕ) (env : Env) (r : ReceiveRing C) (out : List ℕ)
    → IsValid C r
    → env.lock_free ≡ true
    → env.tail_allocates ≡ false
    → ring_bytes C r.ring ≡ []
    → r.pending ≡ []
    → ring_capacity C r.ring < length r.detached
    → r.closed ≡ true
    → r.error ≡ 0
    → let (answer, out', r') = try_read C env r out in
      (answer ≡ some (result eof 0 no_error))
      × (out' ≡ out)
      × (stream C r' ≡ stream C r)
      × (0 < length (stream C r'))
unfolding try_read flush_pending flush_head flush_tail terminal
try_read_early_eof C env r out v free short none_held idle waits closed fine = ground (
  arith,
  Laws.append_no_memory C r.ring r.detached v.ring_valid
      (omega (arith, ap length none_held, v.bounded, v.same_limit, length-stream C r))
      (omega (arith, ap length none_held)),
  v.detached_counted,
  ap length none_held,
  length-stream C r,
)
