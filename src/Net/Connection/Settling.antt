-- ===== src/Net/Connection/Settling.antt =====
-- Operations that leave the deque, and the invariant.
use bbtools_infra.Common.{
  ℕ, ◌≡◌, refl, sym, ap, ◌∙◌, ◌⊎◌, inl, inr, false, List, [], ◌++◌, map, append-nil, append_assoc,
  length,
}
use bbtools_infra.Net.Circular.{CircularBuffer}
use bbtools_infra.Net.Errors.{ErrorCode}
use bbtools_infra.Net.Outbound.{OutboundQueue}
use bbtools_infra.Net.Outbound.Invariant as Queue
use bbtools_infra.Net.Connection.State.{
  WriteOpRecord, CompletedWrite, ConnectionEvent, ConnectionState, AcceptanceState, pending,
  is_closed,
}
use bbtools_infra.Net.Connection.Pump.{completion_of, settle}
use bbtools_infra.Net.Connection.Invariant.{
  remaining_sum, ids, Split, Books-Split, IsValid, map-append,
}

module _ {C : CircularBuffer ℕ} {D : CircularBuffer CompletedWrite} where
  -- From `c` to `c'` the operations `over` have left the deque, from its front, each with its
  -- completion.
  pub record Settles (c c' : ConnectionState C D) (over : List WriteOpRecord) : Type 0 where
    pub recorded : c'.settled ≡ c.settled ++ over
    pub announced : pending c' ≡ pending c ++ map completion_of over
    pub in_order : ids over ++ ids c'.ops ≡ ids c.ops

  pub Settles-refl : (c : ConnectionState C D) → Settles c c []
  Settles-refl c = record {
    recorded = sym (append-nil c.settled);
    announced = sym (append-nil (pending c));
    in_order = refl;
  }

  pub Settles-trans :
      (a b c : ConnectionState C D) (xs ys : List WriteOpRecord)
      → Settles a b xs
      → Settles b c ys
      → Settles a c (xs ++ ys)
  Settles-trans a b c xs ys s t = record {
    recorded = t.recorded ∙ ap (λ zs. zs ++ ys) s.recorded ∙ append_assoc a.settled xs ys;
    announced =
        t.announced
        ∙ ap (λ zs. zs ++ map completion_of ys) s.announced
        ∙ append_assoc (pending a) (map completion_of xs) (map completion_of ys)
        ∙ ap (◌++◌ (pending a)) (sym (map-append completion_of xs ys));
    in_order =
        ap (λ zs. zs ++ ids c.ops) (map-append (λ (o : WriteOpRecord). o.id) xs ys)
        ∙ append_assoc (ids xs) (ids ys) (ids c.ops)
        ∙ ap (◌++◌ (ids xs)) t.in_order
        ∙ s.in_order;
  }

  -- The operations that are over leave the deque, and the queue has changed along.
  pub settle-IsValid :
      (c : ConnectionState C D) (q : OutboundQueue) (left over : List WriteOpRecord)
      (a : AcceptanceState)
      → IsValid c
      → Split c.ops left over
      → Queue.IsValid q
      → q.max_total_bytes ≡ c.queue.max_total_bytes
      → length (Queue.contents q) ≡ remaining_sum left
      → ((is_closed a ≡ false) ⊎ (left ≡ []))
      → ((c.read_closed_published ≡ false) ⊎ (a ≡ c.acceptance))
      → let c' = record (settle left over c) { queue = q; acceptance = a } in
        IsValid c' × Settles c c' over
  settle-IsValid c q left over a v s qv same backed idle kept =
      let b = Books-Split D c.max_ops c.ops left over c.pending_terminal c.settled v.books s in
      (
        record {
          queue_valid = qv;
          same_max = same ∙ v.same_max;
          backed = backed;
          books = b.0;
          closed_idle = idle;
          final = elim v.final [
            | inl e ↦ inl e
            | inr f ↦ elim kept [ inl e ↦ inl e | inr e ↦ inr (f.0, f.1, e ∙ f.2) ]
          ];
        },
        record { recorded = refl; announced = b.1; in_order = s.in_order },
      )

  -- The reports of errors and the events are no part of either.
  abbrev pub noted :
      ErrorCode → ℕ → List ConnectionEvent → ConnectionState C D → ConnectionState C D
  noted e op events c = record c { last_error = e; last_error_op = op; events = events }

  pub noted-IsValid :
      (c0 c : ConnectionState C D) (over : List WriteOpRecord) (e : ErrorCode) (op : ℕ)
      (events : List ConnectionEvent)
      → IsValid c × Settles c0 c over
      → IsValid (noted e op events c) × Settles c0 (noted e op events c) over
  noted-IsValid c0 c over e op events h = (
    record {
      queue_valid = h.0.queue_valid;
      same_max = h.0.same_max;
      backed = h.0.backed;
      books = h.0.books;
      closed_idle = h.0.closed_idle;
      final = h.0.final;
    },
    record { recorded = h.1.recorded; announced = h.1.announced; in_order = h.1.in_order },
  )
