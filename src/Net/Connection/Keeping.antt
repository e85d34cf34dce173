-- ===== src/Net/Connection/Keeping.antt =====
-- What a pump keeps, and its two ways to settle operations: after bytes sent, and after a failure.
use bbtools_infra.Common.{
  flatten, nil_of_length, nil_of_is_empty, ℕ, zero, suc, ◌+◌, ◌≤◌, ◌<◌, ◌≡◌, refl, ap, ◌∙◌, ◌⊎◌,
  inl, inr, Bool, true, false, List, [], ◌∷◌, ◌++◌, map, arith, is_empty, length, drop, All, IsSize,
  Bool-cases, length-drop,
}
use bbtools_infra.Net.Circular.{CircularBuffer}
use bbtools_infra.Net.Errors.{ErrorCode, system, is_error}
use bbtools_infra.Net.Outbound.{consume_sent}
use bbtools_infra.Net.Outbound.Invariant as Queue
use bbtools_infra.Net.Outbound.Consume.{consume_sent_cases}
use bbtools_infra.Net.Connection.State.{
  WriteOpRecord, CompletedWrite, ConnectionState, is_closed, SameIntent,
}
use bbtools_infra.Net.Connection.Pump.{
  attribute_loop, settle, attribute_sent, failed_with, fail_current, emptied_queue, after_failure,
  last_id, SinkAnswer, sent, refused, Sink, Round,
}
use bbtools_infra.Net.Connection.Invariant.{remaining_sum, Split-all, IsValid, discard-Discarded}
use bbtools_infra.Net.Connection.Settling.{Settles, Settles-refl, settle-IsValid, noted-IsValid}
use bbtools_infra.Net.Connection.Attribution.{sent_sum, IsClean, attribute_loop-Attributed}

-- What `sendmsg` documents of a call with some bytes: a count is at most what was allowed, and a call
-- that sends nothing has an `errno`.
abbrev pub Answers : ℕ → SinkAnswer → Type 0
Answers n (sent zero e) = 0 < e
Answers n (sent (suc k) e) = suc k ≤ n
Answers n (refused e) = 0 < e

-- A sink that answers so wherever one byte at least is shown and allowed. Nothing is asked of it
-- elsewhere.
abbrev pub IsSink : Sink → Type 0
IsSink sink =
    (i : ℕ) (views : List (List ℕ)) (n : ℕ)
    → suc n ≤ length (flatten views)
    → Answers (suc n) (sink i views (suc n))

-- What holds after each round of a pump from `c0` that has not failed.
module _ {C : CircularBuffer ℕ} {D : CircularBuffer CompletedWrite} where
  pub record Kept (c0 : ConnectionState C D) (budget : ℕ) (over : List WriteOpRecord)
      (round : Round C D) : Type 0 where
    pub valid : IsValid round.1
    pub counted : round.0.bytes ≡ length round.2
    pub within : round.0.bytes ≤ budget
    pub moved : Settles c0 round.1 over
    pub intent : SameIntent c0 round.1
    pub credited : sent_sum over + sent_sum round.1.ops ≡ sent_sum c0.ops + length round.2

  -- The operations that left the deque sent everything. The bytes that the sink took, and those
  -- that wait, are the bytes that waited before.
  pub record Live (c0 : ConnectionState C D) (budget : ℕ) (round : Round C D) : Type 0 where
    pub over : List WriteOpRecord
    pub kept : Kept c0 budget over round
    pub clean : All IsClean over
    pub in_order : round.2 ++ Queue.contents round.1.queue ≡ Queue.contents c0.queue

  -- After a failure nothing waits; what the sink took is the front of what waited before.
  pub record Failed (c0 : ConnectionState C D) (budget : ℕ) (round : Round C D) : Type 0 where
    pub over : List WriteOpRecord
    pub kept : Kept c0 budget over round
    pub emptied : Queue.contents round.1.queue ≡ []
    pub idle : round.1.ops ≡ []
    pub lost : List ℕ
    pub front : round.2 ++ lost ≡ Queue.contents c0.queue

  pub data Next (c0 : ConnectionState C D) (budget : ℕ) : Bool × Round C D → Type 0 where
    goes_on : (round : Round C D) → Live c0 budget round → Next c0 budget (true, round)
    stops : (round : Round C D) → Live c0 budget round → Next c0 budget (false, round)
    fails : (round : Round C D) → Failed c0 budget round → Next c0 budget (false, round)

sent_sum-failed :
    (e : ErrorCode) (os : List WriteOpRecord) → sent_sum (map (failed_with e) os) ≡ sent_sum os
sent_sum-failed e [] = refl
sent_sum-failed e (o ∷ os) = ap (◌+◌ o.sent) (sent_sum-failed e os)

pub sent_sum-append : (xs ys : List WriteOpRecord) → sent_sum (xs ++ ys) ≡ sent_sum xs + sent_sum ys
sent_sum-append [] ys = omega arith
sent_sum-append (x ∷ xs) ys = omega (arith, sent_sum-append xs ys)

pub is_error-system : (e : ℕ) → 0 < e → is_error (system e) ≡ true
is_error-system zero h = absurd (omega arith)
is_error-system (suc e) h = refl

module _ {C : CircularBuffer ℕ} {D : CircularBuffer CompletedWrite} where
  -- The state after a failed write.
  pub record Failure (c c' : ConnectionState C D) : Type 0 where
    pub valid : IsValid c'
    pub over : List WriteOpRecord
    pub moved : Settles c c' over
    pub intent : SameIntent c c'
    pub credited : sent_sum over + sent_sum c'.ops ≡ sent_sum c.ops
    pub emptied : Queue.contents c'.queue ≡ []
    pub idle : c'.ops ≡ []

  -- With operations under way the final state is not published.
  unpublished :
      (c : ConnectionState C D)
      → IsValid c
      → is_empty c.ops ≡ false
      → c.read_closed_published ≡ false
  unpublished c v k = elim v.final [
    | inl e ↦ e
    | inr f ↦ elim v.closed_idle [
      | inl e ↦ let h = ap is_closed f.2 in cc
      | inr e ↦ let h = ap is_empty e in cc
    ]
  ]

  pub fail_current-Failure :
      (sealed : Bool) (e : ErrorCode) (c : ConnectionState C D)
      → IsValid c
      → is_error e ≡ true
      → Failure c (fail_current sealed e c)
  unfolding fail_current
  fail_current-Failure sealed e c v h = elim (Bool-cases (is_empty c.ops)) [
    | inl k ↦
        let none = nil_of_is_empty c.ops k in
        rw k (record {
          valid = v;
          over = [];
          moved = Settles-refl c;
          intent = (refl, refl);
          credited = omega arith;
          emptied = nil_of_length (Queue.contents c.queue) (v.backed ∙ ap remaining_sum none);
          idle = none;
        })
    | inr k ↦
        let q = discard-Discarded c.queue v.queue_valid in
        let s = Split-all (failed_with e) (λ o a. ((refl, inr h), refl)) c.ops v.books.active in
        let r =
          noted-IsValid c
            (record (settle [] (map (failed_with e) c.ops) c) {
              queue = emptied_queue c.queue;
              acceptance = after_failure sealed c.close_requested;
            })
            (map (failed_with e) c.ops) e (last_id c.last_error_op c.ops) c.events
            (settle-IsValid c (emptied_queue c.queue) [] (map (failed_with e) c.ops)
              (after_failure sealed c.close_requested) v s q.valid q.same_max (ap length q.emptied)
              (inr refl) (inl (unpublished c v k))) in
        rw k (record {
          valid = r.0;
          over = map (failed_with e) c.ops;
          moved = r.1;
          intent = (refl, refl);
          credited = omega (arith, sent_sum-failed e c.ops);
          emptied = q.emptied;
          idle = refl;
        })
  ]

module _ {C : CircularBuffer ℕ} {D : CircularBuffer CompletedWrite} where
  -- `sent` bytes at the front of the queue are consumed and attributed.
  pub record Sent (c c' : ConnectionState C D) (n : ℕ) : Type 0 where
    pub valid : IsValid c'
    pub over : List WriteOpRecord
    pub moved : Settles c c' over
    pub intent : SameIntent c c'
    pub credited : sent_sum over + sent_sum c'.ops ≡ sent_sum c.ops + n
    pub clean : All IsClean over
    pub dropped : Queue.contents c'.queue ≡ drop n (Queue.contents c.queue)

  still_idle :
      (c : ConnectionState C D) (n : ℕ)
      → IsValid c
      → (is_closed c.acceptance ≡ false) ⊎ ((attribute_loop c.ops n).0 ≡ [])
  unfolding attribute_loop
  still_idle c n v = elim v.closed_idle [
    | inl k ↦ inl k
    | inr k ↦ inr (ap (λ os. (attribute_loop os n).0) k)
  ]

  pub attribute_sent-Sent :
      (c : ConnectionState C D) (n : ℕ)
      → IsValid c
      → n ≤ length (Queue.contents c.queue)
      → Sent c (attribute_sent n (record c { queue = (consume_sent c.queue n).1 })).1 n
  attribute_sent-Sent c n v h =
      let q = consume_sent_cases c.queue n v.queue_valid in
      let d : Queue.contents (consume_sent c.queue n).1 ≡ drop n (Queue.contents c.queue) =
        elim q.2 [ inl k ↦ k.2 | inr k ↦ absurd (omega (arith, k.1)) ] in
      let sized : IsSize n = omega (
        arith,
        Queue.length-contents c.queue v.queue_valid,
        v.queue_valid.bounded,
        v.queue_valid.max_sized,
      ) in
      let a = attribute_loop-Attributed c.ops n v.books.active sized (omega (arith, v.backed)) in
      let r =
        settle-IsValid c (consume_sent c.queue n).1 (attribute_loop c.ops n).0
          (attribute_loop c.ops n).1 c.acceptance v a.split q.0 q.1
          (omega (arith, ap length d, length-drop n (Queue.contents c.queue), a.spent, v.backed))
          (still_idle c n v) (inr refl) in
      record {
        valid = r.0;
        over = (attribute_loop c.ops n).1;
        moved = r.1;
        intent = (refl, refl);
        credited = a.credited;
        clean = a.clean;
        dropped = d;
      }
