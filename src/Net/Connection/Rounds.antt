-- ===== src/Net/Connection/Rounds.antt =====
-- A round of the loop of `PumpWrites`, by what the sink answers.
use bbtools_infra.Common.{
  All, [], ◌∷◌, false, ◌-◌, ℕ, zero, suc, ◌+◌, ◌≤◌, ◌<◌, ◌≡◌, refl, sym, ap, ◌∙◌, inl, inr, Bool,
  true, List, ◌++◌, append_assoc, arith, ◌==◌, is_empty, length, take, drop, flatten, IsSize,
  Bool-cases, length-append, length-take, take-append_le, take-append-drop,
}
use mathlib.Core.Path.{subst}
use bbtools_infra.Net.Circular.{CircularBuffer}
use bbtools_infra.Net.Errors.{system}
use bbtools_infra.Net.Outbound.{gather_views, consume_sent}
use bbtools_infra.Net.Outbound.Invariant as Queue
use bbtools_infra.Net.Outbound.Gather.{Shows, gather_views-Shows}
use bbtools_infra.Net.Connection.State.{CompletedWrite, ConnectionState}
use bbtools_infra.Net.Connection.Pump.{
  attribute_sent, fail_current, SinkAnswer, sent, refused, Sink, SendResult, not_sent, answered,
  one_round, allowed, offered, max_views, eagain, eintr,
}
use bbtools_infra.Net.Connection.Invariant.{All-append}
use bbtools_infra.Net.Connection.Settling.{Settles-trans}
use bbtools_infra.Net.Connection.Attribution.{IsClean}
use bbtools_infra.Net.Connection.Keeping.{
  Answers, IsSink, Live, Next, goes_on, stops, fails, is_error-system, fail_current-Failure,
  attribute_sent-Sent, sent_sum-append,
}

pub some_offered :
    (views : List (List ℕ)) → All Queue.NonEmpty views → is_empty views ≡ false → 0 < offered views
some_offered [] a h = cc
some_offered (v ∷ views) a h = omega (arith, a.0, length-append v (flatten views))

-- The sink is asked only where one byte at least is shown and allowed.
asked :
    (sink : Sink) (i budget : ℕ) (views : List (List ℕ)) (r : SendResult)
    → IsSink sink
    → IsSize budget
    → r.bytes < budget
    → 0 < offered views
    → Answers (allowed views budget r) (sink i views (allowed views budget r))
asked sink i budget views r works z h some =
    let n = allowed views budget r - 1 in
    let positive : suc n ≡ allowed views budget r = ground (arith, some, h, z) in
    let shown : suc n ≤ length (flatten views) = ground (arith, some, h, z) in
    subst (λ m. Answers m (sink i views m)) positive (works i views n shown)

module _ {C : CircularBuffer ℕ} {D : CircularBuffer CompletedWrite} where
  -- What the sink took, and what the views showed of the queue.
  sent_front :
      (c0 c c' : ConnectionState C D) (n : ℕ) (wire : List ℕ) (views : List (List ℕ))
      → Shows max_views (Queue.contents c.queue) views
      → n ≤ length (flatten views)
      → wire ++ Queue.contents c.queue ≡ Queue.contents c0.queue
      → Queue.contents c'.queue ≡ drop n (Queue.contents c.queue)
      → (wire ++ take n (flatten views)) ++ Queue.contents c'.queue ≡ Queue.contents c0.queue
  sent_front c0 c c' n wire views s h e d =
      let shown : take n (flatten views) ≡ take n (Queue.contents c.queue) =
        sym (take-append_le n (flatten views) s.rest h) ∙ ap (take n) s.front in
      append_assoc wire (take n (flatten views)) (Queue.contents c'.queue)
      ∙ ap (λ xs. wire ++ (xs ++ Queue.contents c'.queue)) shown
      ∙ ap (λ xs. wire ++ (take n (Queue.contents c.queue) ++ xs)) d
      ∙ ap (◌++◌ wire) (take-append-drop n (Queue.contents c.queue))
      ∙ e

  shown_le :
      (c : ConnectionState C D) (views : List (List ℕ))
      → Shows max_views (Queue.contents c.queue) views
      → length (flatten views) ≤ length (Queue.contents c.queue)
  shown_le c views s = omega (arith, ap length s.front, length-append (flatten views) s.rest)

  pub sent-Live :
      (sealed : Bool) (c0 : ConnectionState C D) (budget n e : ℕ) (views : List (List ℕ))
      (r : SendResult) (c : ConnectionState C D) (wire : List ℕ)
      → Live c0 budget (r, c, wire)
      → Shows max_views (Queue.contents c.queue) views
      → IsSize budget
      → suc n ≤ allowed views budget r
      → Live c0 budget (answered sealed (sent (suc n) e) views (r, c, wire)).1
        × (length wire < length (answered sealed (sent (suc n) e) views (r, c, wire)).1.2)
  sent-Live sealed c0 budget n e views r c wire l s z h =
      let w = l.kept.within in
      let offer : suc n ≤ length (flatten views) = ground (arith, h) in
      let fits : r.bytes + suc n ≤ budget = ground (arith, h, w, z) in
      let t =
        attribute_sent-Sent c (suc n) l.kept.valid (omega (arith, shown_le c views s, offer)) in
      let c' = (attribute_sent (suc n) (record c { queue = (consume_sent c.queue (suc n)).1 })).1 in
      let wire' = wire ++ take (suc n) (flatten views) in
      let len : length wire' ≡ length wire + suc n = omega (
        arith,
        length-append wire (take (suc n) (flatten views)),
        length-take (suc n) (flatten views),
        offer,
      ) in
      (
        record {
          over = l.over ++ t.over;
          kept = record {
            valid = t.valid;
            counted = omega (arith, len, l.kept.counted, fits, z);
            within = omega (arith, fits, z);
            moved = Settles-trans c0 c c' l.over t.over l.kept.moved t.moved;
            intent = (t.intent.0 ∙ l.kept.intent.0, t.intent.1 ∙ l.kept.intent.1);
            credited =
                omega (arith, sent_sum-append l.over t.over, t.credited, l.kept.credited, len);
          };
          clean = All-append IsClean l.over t.over l.clean t.clean;
          in_order = sent_front c0 c c' (suc n) wire views s offer l.in_order t.dropped;
        },
        omega (arith, len),
      )

  not_sent-Next :
      (sealed : Bool) (c0 : ConnectionState C D) (budget e : ℕ) (r : SendResult)
      (c : ConnectionState C D) (wire : List ℕ)
      → Live c0 budget (r, c, wire)
      → 0 < e
      → Next c0 budget (not_sent sealed e (r, c, wire))
  not_sent-Next sealed c0 budget e r c wire l h =
      let f = fail_current-Failure sealed (system e) c l.kept.valid (is_error-system e h) in
      fails (not_sent sealed e (r, c, wire)).1 (record {
        over = l.over ++ f.over;
        kept = record {
          valid = f.valid;
          counted = l.kept.counted;
          within = l.kept.within;
          moved =
              Settles-trans c0 c (fail_current sealed (system e) c) l.over f.over l.kept.moved
                f.moved;
          intent = (f.intent.0 ∙ l.kept.intent.0, f.intent.1 ∙ l.kept.intent.1);
          credited = omega (arith, sent_sum-append l.over f.over, f.credited, l.kept.credited);
        };
        emptied = f.emptied;
        idle = f.idle;
        lost = Queue.contents c.queue;
        front = l.in_order;
      })

  pub Live-result :
      (c0 : ConnectionState C D) (budget : ℕ) (r r' : SendResult) (c : ConnectionState C D)
      (wire : List ℕ)
      → r'.bytes ≡ r.bytes
      → Live c0 budget (r, c, wire)
      → Live c0 budget (r', c, wire)
  Live-result c0 budget r r' c wire e l = record {
    over = l.over;
    kept = record {
      valid = l.kept.valid;
      counted = e ∙ l.kept.counted;
      within = omega (arith, e, l.kept.within);
      moved = l.kept.moved;
      intent = l.kept.intent;
      credited = l.kept.credited;
    };
    clean = l.clean;
    in_order = l.in_order;
  }

  answered-Next :
      (sealed : Bool) (c0 : ConnectionState C D) (budget : ℕ) (a : SinkAnswer)
      (views : List (List ℕ)) (r : SendResult) (c : ConnectionState C D) (wire : List ℕ)
      → Live c0 budget (r, c, wire)
      → Shows max_views (Queue.contents c.queue) views
      → IsSize budget
      → Answers (allowed views budget r) a
      → Next c0 budget (answered sealed a views (r, c, wire))
  answered-Next sealed c0 budget (sent zero e) views r c wire l s z h =
      not_sent-Next sealed c0 budget e r c wire l h
  answered-Next sealed c0 budget (sent (suc n) e) views r c wire l s z h =
      goes_on (answered sealed (sent (suc n) e) views (r, c, wire)).1
        (sent-Live sealed c0 budget n e views r c wire l s z h).0
  answered-Next sealed c0 budget (refused e) views r c wire l s z h =
      elim (Bool-cases (e == eagain)) [
        | inl k ↦ rw k (
            stops (record r { need_write_wait = true }, c, wire)
              (Live-result c0 budget r (record r { need_write_wait = true }) c wire refl l))
        | inr k ↦ elim (Bool-cases (e == eintr)) [
          | inl m ↦ rw (k, m) (goes_on (r, c, wire) l)
          | inr m ↦ rw (k, m) (not_sent-Next sealed c0 budget e r c wire l h)
        ]
      ]

  pub one_round-Next :
      (sealed : Bool) (sink : Sink) (i : ℕ) (c0 : ConnectionState C D) (budget : ℕ) (r : SendResult)
      (c : ConnectionState C D) (wire : List ℕ)
      → IsSink sink
      → IsSize budget
      → r.bytes < budget
      → Live c0 budget (r, c, wire)
      → Next c0 budget (one_round sealed sink i budget (r, c, wire))
  one_round-Next sealed sink i c0 budget r c wire works z h l =
      let views = gather_views c.queue max_views in
      let s = gather_views-Shows c.queue max_views l.kept.valid.queue_valid in
      elim (Bool-cases (is_empty views)) [
        | inl k ↦ rw k (stops (r, c, wire) l)
        | inr k ↦ rw k (
            answered-Next sealed c0 budget (sink i views (allowed views budget r)) views r c wire l
              s z (asked sink i budget views r works z h (some_offered views s.filled k)))
      ]
