-- ===== src/Net/Receive/ReadLaws.antt =====
-- `TryRead`: what a reader gets, in order and without loss, and when it is told of the end.
use bbtools_infra.Common.{
  nil_of_length, ℕ, ◌<◌, ◌≡◌, refl, sym, ap, ◌∙◌, ◌⊎◌, inl, inr, true, false, not, Option, none,
  some, List, [], ◌++◌, append-nil, arith, length, Bool-cases, ◌==◌, ==_iff, add_size,
}
use mathlib.Core.Path.{subst}
use bbtools_infra.Net.Circular.{CircularBuffer}
use bbtools_infra.Net.Errors.{ErrorCode, no_error, generic, not_enough_memory}
use bbtools_infra.Net.EventRing.{EventRing, ring_bytes, ring_size}
use bbtools_infra.Net.EventRing.Laws
use bbtools_infra.Net.Receive.State.{Env, ReceiveRing, ReadResult, stream, busy, error, ok}
use bbtools_infra.Net.Receive.Notify.{
  terminal, retry_pending_notification, notify_release, notify_data_changed, wake_owner_only,
  request_raw_retry,
}
use bbtools_infra.Net.Receive.Read.{try_read, read_locked, copied, result}
use bbtools_infra.Net.Receive.Laws.{IsValid, IsValid-signals, length-stream}
use bbtools_infra.Net.Receive.Flush.{flush_pending_lem, copy_consume_lem}

module _ (C : CircularBuffer ℕ) where
  -- The outcomes of a read that starts at `r` with the bytes `out` read before.
  pub data ReadOutcome (env : Env) (r : ReceiveRing C) (out : List ℕ)
      : Option ReadResult × List ℕ × ReceiveRing C → Type 0 where
    -- Bytes came: the oldest ones, all of them unless the tail met a failed allocation.
    took :
        (r' : ReceiveRing C) (taken : List ℕ)
        → IsValid C r'
        → 0 < length taken
        → stream C r ≡ taken ++ stream C r'
        → (stream C r' ≡ []) ⊎ (env.tail_allocates ≡ false)
        → ReadOutcome env r out (some (result ok (length taken) no_error), out ++ taken, r')
    -- The reader is told how things stand; no byte waits unless the tail met a failed allocation.
    ended :
        (r' : ReceiveRing C)
        → IsValid C r'
        → stream C r' ≡ stream C r
        → (stream C r ≡ []) ⊎ (env.tail_allocates ≡ false)
        → ReadOutcome env r out (some (terminal C r), out, r')
    contended :
        (r' : ReceiveRing C)
        → IsValid C r'
        → stream C r' ≡ stream C r
        → env.lock_free ≡ false
        → r'.signals.raw_retry ≡ true
        → ReadOutcome env r out (some (result busy 0 no_error), out, r')
    no_copy :
        (r' : ReceiveRing C)
        → IsValid C r'
        → stream C r' ≡ stream C r
        → env.copy_allocates ≡ false
        → ReadOutcome env r out (some (result error 0 (generic not_enough_memory)), out, r')
    thrown :
        (r' : ReceiveRing C)
        → IsValid C r'
        → stream C r' ≡ stream C r
        → env.ring_allocates ≡ false
        → ReadOutcome env r out (none, out, r')

  terminal_congr :
      (r s : ReceiveRing C)
      → s.eof ≡ r.eof
      → s.closed ≡ r.closed
      → s.error ≡ r.error
      → terminal C s ≡ terminal C r
  unfolding terminal
  terminal_congr r s a b c = rw (a, b, c)

  -- A read with the lock held, after the flush.
  module _ (env : Env) (r : ReceiveRing C) (out : List ℕ) (s : ReceiveRing C) (v : IsValid C s)
      (same : stream C s ≡ stream C r) (idle : s.pending ≡ [])
      (tail : (s.detached ≡ []) ⊎ (env.tail_allocates ≡ false))
      (mark : terminal C s ≡ terminal C r) where
    behind_ring : stream C s ≡ ring_bytes C s.ring ++ s.detached
    behind_ring = ap (λ p. ring_bytes C s.ring ++ (p ++ s.detached)) idle

    read_empty :
        ring_size C s.ring ≡ 0
        → ReadOutcome env r out
            (some (terminal C s), out, wake_owner_only C env (notify_release C s))
    read_empty e =
        subst (λ t. ReadOutcome env r out (some t, out, wake_owner_only C env (notify_release C s)))
          (sym mark)
          (ended _ (IsValid-signals C s _ v) same (elim tail [
            | inl d ↦ inl (
                sym same
                ∙ behind_ring
                ∙ ap (λ t. ring_bytes C s.ring ++ t) d
                ∙ append-nil _
                ∙ nil_of_length _ e)
            | inr a ↦ inr a
          ]))

    read_some :
        0 < ring_size C s.ring
        → (c : ErrorCode × ℕ × List ℕ × EventRing C)
        → ((c ≡ (generic not_enough_memory, 0, out, s.ring)) × (env.copy_allocates ≡ false))
          ⊎ ((g' : EventRing C) × (c
                ≡ (no_error, ring_size C s.ring, out ++ ring_bytes C s.ring, g'))
              × Laws.IsValid C g'
              × (ring_bytes C g' ≡ [])
              × (g'.max_bytes ≡ s.ring.max_bytes))
        → let (a, out', r') = copied C env s c in ReadOutcome env r out (some a, out', r')
    read_some h c (inl (e, m)) = rw e (no_copy _ (IsValid-signals C s _ v) same m)
    read_some h c (inr (g, e, w, empty, limit)) = rw e (
        took
          (notify_data_changed C env (
            notify_release C
              (record s { ring = g; size = add_size (ring_size C g) s.pending_size })))
          (ring_bytes C s.ring)
          (record {
            ring_valid = w;
            same_limit = limit ∙ v.same_limit;
            bounded = omega (arith, ap length left, v.bounded, length-stream C s);
            pending_counted = v.pending_counted;
            detached_counted = v.detached_counted;
            size_counted = omega (arith, v.pending_counted, ap length empty, ap length idle);
          })
          h (sym same ∙ behind_ring ∙ ap (◌++◌ (ring_bytes C s.ring)) (sym left))
          (elim tail [ inl d ↦ inl (left ∙ d) | inr a ↦ inr a ]))
      where
        left : ring_bytes C g ++ (s.pending ++ s.detached) ≡ s.detached
        left = rw (empty, idle)

    read_locked-ReadOutcome :
        let (a, out', r') = read_locked C env s out in ReadOutcome env r out (some a, out', r')
    read_locked-ReadOutcome = elim (Bool-cases (ring_size C s.ring == 0)) [
      | inl z ↦ rw z (read_empty ((==_iff _ 0).0 z))
      | inr z ↦ rw z (read_some (ground arith) _ (copy_consume_lem C env s.ring out v.ring_valid))
    ]

  -- Every `TryRead` on a valid ring ends in one of the outcomes above: what it takes is the oldest
  -- bytes in order, appended to the output; no other outcome moves a byte; a reader is told of the
  -- end, of an error or to wait only when no byte waits, unless memory ran out on the detached tail;
  -- and the ring stays valid.
  pub try_read-ReadOutcome :
      (env : Env) (r : ReceiveRing C) (out : List ℕ)
      → IsValid C r
      → ReadOutcome env r out (try_read C env r out)
  unfolding try_read terminal
  try_read-ReadOutcome env r out v = elim (Bool-cases (not env.lock_free)) [
    | inl h ↦ rw h (
        contended (request_raw_retry C (retry_pending_notification C env r)) requested refl
          (ground arith) refl)
    | inr h ↦ rw h (elim (flush_pending_lem C env (retry_pending_notification C env r) retried) [
      | inl (e, a) ↦ rw e (thrown _ retried refl a)
      | inr (s, e, w, same, idle, tail, x, y, z) ↦ rw e (
          read_locked-ReadOutcome env r out s w same idle
            (elim tail [ inl d ↦ inl d | inr (a, _) ↦ inr a ]) (terminal_congr r s x y z))
    ])
  ]
    where
      retried : IsValid C (retry_pending_notification C env r)
      retried = IsValid-signals C r _ v

      requested : IsValid C (request_raw_retry C (retry_pending_notification C env r))
      requested = IsValid-signals C r _ v
