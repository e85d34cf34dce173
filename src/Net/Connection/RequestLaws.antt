-- ===== src/Net/Connection/RequestLaws.antt =====
-- `RequestClose` keeps the invariant and fixes the first reason.
use bbtools_infra.Common.{
  ℕ, ◌≡◌, refl, sym, ap, ◌⊎◌, inl, inr, true, false, not, List, [], map, append-nil, arith,
  if◌then◌else◌, if_rule,
}
use bbtools_infra.Net.Circular.{CircularBuffer}
use bbtools_infra.Net.Errors.{ErrorCode}
use bbtools_infra.Net.Receive.State.{Env}
use bbtools_infra.Net.Connection.State.{
  WriteOpRecord, CompletedWrite, ConnectionState, pending, is_closed, woken, wake_owner,
}
use bbtools_infra.Net.Connection.Close.{
  canceled_with, settle_error, reason_of, mark_closed, intend_close, request_close,
}
use bbtools_infra.Net.Connection.Invariant.{IsValid}
use bbtools_infra.Net.Connection.Settling.{Settles, Settles-refl, noted-IsValid}
use bbtools_infra.Net.Connection.CloseLaws.{IsFinal, final_stays, mark_closed-IsFinal}

module _ {C : CircularBuffer ℕ} {D : CircularBuffer CompletedWrite} where
  intend_close-IsValid :
      (reason : ErrorCode) (c : ConnectionState C D)
      → IsValid c
      → c.read_closed_published ≡ false
      → IsValid (intend_close reason c)
  intend_close-IsValid reason c v h = record {
    queue_valid = v.queue_valid;
    same_max = v.same_max;
    backed = v.backed;
    books = v.books;
    closed_idle = elim v.closed_idle [ inl e ↦ inl (ground (arith, e)) | inr e ↦ inr e ];
    final = inl h;
  }

  -- What `RequestClose` makes of `c`: the intent stands, with the first reason. Either the final
  -- state is reached, or the owner has the operations, the completions and the bytes as they were.
  pub record Requested (reason : ErrorCode) (c c' : ConnectionState C D) : Type 0 where
    pub valid : IsValid c'
    pub over : List WriteOpRecord
    pub moved : Settles c c' over
    pub intent : c'.close_requested ≡ true
    pub first_reason : c'.close_reason ≡ reason_of reason c
    pub reached :
        (IsFinal c' × ((c.has_owner ≡ false) ⊎ (c'.settled ≡ c.settled)))
        ⊎ ((c'.ops ≡ c.ops) × (c'.queue ≡ c.queue) × (over ≡ []) × (c.has_owner ≡ true))

  published-Requested :
      (reason : ErrorCode) (c : ConnectionState C D)
      → IsValid c
      → c.read_closed_published ≡ true
      → Requested reason c c
  published-Requested reason c v p = elim v.final [
    | inl k ↦ cc
    | inr f ↦
        let idle : c.ops ≡ [] = elim v.closed_idle [
          | inl e ↦ (let h = ap is_closed (f.2) in cc)
          | inr e ↦ e
        ] in
        let s = final_stays reason c v idle p in
        record {
          valid = v;
          over = [];
          moved = Settles-refl c;
          intent = f.1;
          first_reason = s.3;
          reached = inl (s.2, inr refl);
        }
  ]

  owned-Requested :
      (reason : ErrorCode) (c : ConnectionState C D)
      → IsValid c
      → c.read_closed_published ≡ false
      → c.has_owner ≡ true
      → Requested reason c (wake_owner (intend_close reason c))
  owned-Requested reason c v h m =
      let i = intend_close-IsValid reason c v h in
      let n =
        noted-IsValid c (intend_close reason c) [] c.last_error c.last_error_op
          (woken c.has_owner c.events)
          (
            i,
            record {
              recorded = sym (append-nil c.settled);
              announced = sym (append-nil (pending c));
              in_order = refl;
            },
          ) in
      record {
        valid = n.0;
        over = [];
        moved = n.1;
        intent = refl;
        first_reason = refl;
        reached = inr (refl, refl, refl, m);
      }

  alone-Requested :
      (env : Env) (reason : ErrorCode) (c : ConnectionState C D)
      → IsValid c
      → c.read_closed_published ≡ false
      → c.has_owner ≡ false
      → Requested reason c (mark_closed env reason (intend_close reason c))
  alone-Requested env reason c v h m =
      let i = intend_close reason c in
      let r = mark_closed-IsFinal env reason i (intend_close-IsValid reason c v h) in
      record {
        valid = r.0;
        over = map (canceled_with (settle_error (reason_of reason i))) c.ops;
        moved = record {
          recorded = r.1.recorded;
          announced = r.1.announced;
          in_order = r.1.in_order;
        };
        intent = r.2.requested;
        first_reason = r.3;
        reached = inl (r.2, inl m);
      }

  pub request_close-Requested :
      (env : Env) (reason : ErrorCode) (c : ConnectionState C D)
      → IsValid c
      → Requested reason c (request_close env reason c)
  unfolding request_close
  request_close-Requested env reason c v =
      if_rule (Requested reason c) c.read_closed_published c
        (if not c.has_owner
          then mark_closed env reason (intend_close reason c)
          else wake_owner (intend_close reason c))
        (published-Requested reason c v)
        (λ h.
          if_rule (Requested reason c) (not c.has_owner)
            (mark_closed env reason (intend_close reason c)) (wake_owner (intend_close reason c))
            (λ m. alone-Requested env reason c v h (ground (arith, m)))
            (λ m. owned-Requested reason c v h (ground (arith, m))))
