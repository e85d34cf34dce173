-- ===== src/Net/Connection/CloseLaws.antt =====
-- `MarkClosed`, `RequestClose` and the delivery of completions.
use bbtools_infra.Common.{
  nil_of_length, nil_of_is_empty, ℕ, ◌≡◌, refl, sym, ap, ◌∙◌, inl, inr, true, ◌&&◌, List, [], ◌∷◌,
  ◌++◌, map, arith, is_empty, length, Bool-cases,
}
use mathlib.Core.Path.{subst}
use bbtools_infra.Net.Circular.{CircularBuffer}
use bbtools_infra.Net.Errors.{ErrorCode, is_error}
use bbtools_infra.Net.Receive.State.{Env}
use bbtools_infra.Net.Receive.Notify
use bbtools_infra.Net.Outbound.Invariant as Queue
use bbtools_infra.Net.Connection.State.{
  CompletedWrite, ConnectionEvent, writers_notified, closers_notified, ConnectionState, closed,
  is_closed, woken,
}
use bbtools_infra.Net.Connection.Close.{
  canceled_with, settle_error, reason_of, close_writes, publish_closed, mark_closed,
}
use bbtools_infra.Net.Connection.Invariant.{
  remaining_sum, Books-Split, Split-all, IsValid, discard-Discarded,
}
use bbtools_infra.Net.Connection.Settling.{Settles, Settles-refl, noted-IsValid}

settle_error-is_error : (e : ErrorCode) → is_error (settle_error e) ≡ true
settle_error-is_error e = elim (Bool-cases (is_error e)) [ inl k ↦ rw k k | inr k ↦ rw k refl ]

module _ {C : CircularBuffer ℕ} {D : CircularBuffer CompletedWrite} where
  -- The final state of a connection: closed for writes and for reads, with nothing under way.
  pub record IsFinal (c : ConnectionState C D) : Type 0 where
    pub closed_writes : c.acceptance ≡ closed
    pub closed_reads : c.ring.closed ≡ true
    pub published : c.read_closed_published ≡ true
    pub requested : c.close_requested ≡ true
    pub idle : c.ops ≡ []
    pub emptied : Queue.contents c.queue ≡ []

  published_lem :
      (env : Env) (c : ConnectionState C D) → IsValid c → (publish_closed env c).ring.closed ≡ true
  published_lem env c v = elim (Bool-cases c.read_closed_published) [
    | inl k ↦ elim v.final [ inl e ↦ cc | inr f ↦ rw k (f.0) ]
    | inr k ↦ rw k (unfold Notify.mark_closed in refl)
  ]

  -- Every unfinished write ends with an error, and the final state is reached.
  closed_now :
      (env : Env) (reason : ErrorCode) (c : ConnectionState C D)
      → IsValid c
      → let c' = publish_closed env (close_writes reason c) in
        IsValid c' × Settles c c' (map (canceled_with (settle_error reason)) c.ops) × IsFinal c'
  closed_now env reason c v =
      let e = settle_error reason in
      let q = discard-Discarded c.queue v.queue_valid in
      let s =
        Split-all (canceled_with e) (λ o a. ((refl, inr (settle_error-is_error reason)), refl))
          c.ops v.books.active in
      let b =
        Books-Split D c.max_ops c.ops [] (map (canceled_with e) c.ops) c.pending_terminal c.settled
          v.books s in
      let shut = published_lem env c v in
      (
        record {
          queue_valid = q.valid;
          same_max = q.same_max ∙ v.same_max;
          backed = ap length q.emptied;
          books = b.0;
          closed_idle = inr refl;
          final = inr (shut, refl, refl);
        },
        record { recorded = refl; announced = b.1; in_order = s.in_order },
        record {
          closed_writes = refl;
          closed_reads = shut;
          published = refl;
          requested = refl;
          idle = refl;
          emptied = q.emptied;
        },
      )

  -- What `MarkClosed` makes of `c`.
  abbrev pub Closes : ErrorCode → ConnectionState C D → ConnectionState C D → Type 0
  Closes reason c c' =
      IsValid c'
      × Settles c c' (map (canceled_with (settle_error (reason_of reason c))) c.ops)
      × IsFinal c'
      × (c'.close_reason ≡ reason_of reason c)

  -- On a connection in its final state nothing changes.
  pub final_stays :
      (reason : ErrorCode) (c : ConnectionState C D)
      → IsValid c
      → c.ops ≡ []
      → c.read_closed_published ≡ true
      → Closes reason c c
  final_stays reason c v e p = elim v.final [
    | inl k ↦ cc
    | inr f ↦ (
      v,
      subst (Settles c c) (sym (ap (map (canceled_with (settle_error (reason_of reason c)))) e))
          (Settles-refl c),
      record {
        closed_writes = f.2;
        closed_reads = f.0;
        published = p;
        requested = f.1;
        idle = e;
        emptied = nil_of_length (Queue.contents c.queue) (v.backed ∙ ap remaining_sum e);
      },
      rw (f.1) refl,
    )
  ]

  late :
      (env : Env) (reason : ErrorCode) (c : ConnectionState C D) (events : List ConnectionEvent)
      → IsValid c
      → Closes reason c
          (record (publish_closed env (close_writes (reason_of reason c) c)) { events = events })
  late env reason c events v =
      let r = closed_now env (reason_of reason c) c v in
      let c' = publish_closed env (close_writes (reason_of reason c) c) in
      let n =
        noted-IsValid c c' (map (canceled_with (settle_error (reason_of reason c))) c.ops)
          c'.last_error c'.last_error_op events (r.0, r.1) in
      (
        n.0,
        n.1,
        record {
          closed_writes = refl;
          closed_reads = r.2.closed_reads;
          published = refl;
          requested = refl;
          idle = refl;
          emptied = r.2.emptied;
        },
        refl,
      )

  -- `MarkClosed` on a valid connection reaches the final state: closed for writes and for reads,
  -- nothing under way and nothing waiting. Every unfinished write has left the deque with an error
  -- and with its completion, in order, the connection is valid, and the first request's reason
  -- stands.
  pub mark_closed-IsFinal :
      (env : Env) (reason : ErrorCode) (c : ConnectionState C D)
      → IsValid c
      → Closes reason c (mark_closed env reason c)
  unfolding mark_closed
  mark_closed-IsFinal env reason c v =
      elim (Bool-cases (is_closed c.acceptance && (is_empty c.ops && c.read_closed_published))) [
        | inl k ↦
            rw k (
              final_stays reason c v (nil_of_is_empty c.ops (ground (arith, k)))
                (ground (arith, k)))
        | inr k ↦ rw k (
            late env reason c
              (woken c.has_owner ((c.events ++ writers_notified ∷ []) ++ closers_notified ∷ [])) v)
      ]
