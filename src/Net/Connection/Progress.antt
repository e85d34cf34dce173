-- ===== src/Net/Connection/Progress.antt =====
-- The pump finishes: with a sink that always takes something, and rounds and budget enough.
use bbtools_infra.Common.{
  nil_of_is_empty, nil_of_length, ℕ, zero, suc, ◌+◌, ◌-◌, ◌≤◌, ◌<◌, ◌≡◌, sym, ap, ◌∙◌, inl, inr,
  Bool, true, false, not, List, [], ◌++◌, append-nil, arith, ltb, if◌then◌else◌, is_empty, length,
  flatten, All, IsSize, Bool-cases, length-append, if_rule,
}
use bbtools_infra.Net.Circular.{CircularBuffer}
use bbtools_infra.Net.Outbound.{gather_views}
use bbtools_infra.Net.Outbound.Invariant as Queue
use bbtools_infra.Net.Outbound.Gather.{Shows, gather_views-Shows}
use bbtools_infra.Net.Connection.State.{WriteOpRecord, CompletedWrite, ConnectionState}
use bbtools_infra.Net.Connection.Pump.{
  SinkAnswer, sent, Sink, SendResult, Round, answered, one_round, pump_loop, pump_writes, allowed,
  max_views, nothing_sent,
}
use bbtools_infra.Net.Connection.Invariant.{no_remaining, IsValid}
use bbtools_infra.Net.Connection.Settling.{Settles}
use bbtools_infra.Net.Connection.Attribution.{IsClean}
use bbtools_infra.Net.Connection.Keeping.{Live}
use bbtools_infra.Net.Connection.Rounds.{sent-Live, some_offered}
use bbtools_infra.Net.Connection.PumpLaws.{Live-start}

-- A sink that takes some of any bytes that are allowed.
abbrev pub IsGreedy : Sink → Type 0
IsGreedy sink =
    (i : ℕ) (views : List (List ℕ)) (n : ℕ)
    → (k : ℕ) × (e : ℕ) × (sink i views (suc n) ≡ sent (suc k) e) × (k ≤ n)

module _ {C : CircularBuffer ℕ} {D : CircularBuffer CompletedWrite} where
  -- A round that has sent something goes on; the loop ends only where nothing waits.
  data Advances (c0 : ConnectionState C D) (budget : ℕ) (wire : List ℕ)
      : Bool × Round C D → Type 0 where
    further :
        (round : Round C D)
        → Live c0 budget round
        → length wire < length round.2
        → Advances c0 budget wire (true, round)
    at_end :
        (round : Round C D)
        → Live c0 budget round
        → Queue.contents round.1.queue ≡ []
        → Advances c0 budget wire (false, round)

  greedy_answer :
      (sealed : Bool) (c0 : ConnectionState C D) (budget : ℕ) (a : SinkAnswer) (k e : ℕ)
      (views : List (List ℕ)) (r : SendResult) (c : ConnectionState C D) (wire : List ℕ)
      → a ≡ sent (suc k) e
      → suc k ≤ allowed views budget r
      → Live c0 budget (r, c, wire)
      → Shows max_views (Queue.contents c.queue) views
      → IsSize budget
      → Advances c0 budget wire (answered sealed a views (r, c, wire))
  greedy_answer sealed c0 budget a k e views r c wire eq h l s z =
      let t = sent-Live sealed c0 budget k e views r c wire l s z h in
      rw eq (further (answered sealed (sent (suc k) e) views (r, c, wire)).1 t.0 t.1)

  greedy_views :
      (sealed : Bool) (sink : Sink) (i : ℕ) (c0 : ConnectionState C D) (budget : ℕ)
      (views : List (List ℕ)) (r : SendResult) (c : ConnectionState C D) (wire : List ℕ) (n : ℕ)
      → allowed views budget r ≡ suc n
      → IsGreedy sink
      → IsSize budget
      → Live c0 budget (r, c, wire)
      → Shows max_views (Queue.contents c.queue) views
      → Advances c0 budget wire
          (answered sealed (sink i views (allowed views budget r)) views (r, c, wire))
  greedy_views sealed sink i c0 budget views r c wire n eq greedy z l s =
      let (k, e, answer, le) = greedy i views n in
      greedy_answer sealed c0 budget (sink i views (allowed views budget r)) k e views r c wire
        (ap (sink i views) eq ∙ answer) (omega (arith, eq, le)) l s z

  one_round-Advances :
      (sealed : Bool) (sink : Sink) (i : ℕ) (c0 : ConnectionState C D) (budget : ℕ) (r : SendResult)
      (c : ConnectionState C D) (wire : List ℕ)
      → IsGreedy sink
      → IsSize budget
      → r.bytes < budget
      → Live c0 budget (r, c, wire)
      → Advances c0 budget wire (one_round sealed sink i budget (r, c, wire))
  one_round-Advances sealed sink i c0 budget r c wire greedy z h l =
      let views = gather_views c.queue max_views in
      let s = gather_views-Shows c.queue max_views l.kept.valid.queue_valid in
      elim (Bool-cases (is_empty views)) [
        | inl k ↦
            let none = nil_of_is_empty views k in
            let no_rest : s.rest ≡ [] = elim s.complete [
              | inl e ↦ e
              | inr e ↦ absurd (omega (arith, e, ap length none))
            ] in
            rw k
              (at_end (r, c, wire) l (sym s.front ∙ ap (λ vs. flatten vs ++ s.rest) none ∙ no_rest))
        | inr k ↦
            let some = some_offered views s.filled k in
            let positive : allowed views budget r ≡ suc (allowed views budget r - 1) =
              ground (arith, some, h, z) in
            rw k (
              greedy_views sealed sink i c0 budget views r c wire (allowed views budget r - 1)
                positive greedy z l s)
      ]

  -- The last round of the loop has left nothing.
  record Finished (c0 : ConnectionState C D) (budget : ℕ) (round : Round C D) : Type 0 where
    live : Live c0 budget round
    emptied : Queue.contents round.1.queue ≡ []

  finish :
      (c0 : ConnectionState C D) (budget : ℕ) (wire : List ℕ) (next : Bool × Round C D)
      (rest : Round C D)
      → Advances c0 budget wire next
      → (Live c0 budget next.1 → length wire < length next.1.2 → Finished c0 budget rest)
      → Finished c0 budget (if next.0 then rest else next.1)
  finish c0 budget wire next rest (further round l h) ih = ih l h
  finish c0 budget wire next rest (at_end round l e) ih = record { live = l; emptied = e }

  length_left :
      (c0 : ConnectionState C D) (budget : ℕ) (round : Round C D)
      → Live c0 budget round
      → length round.2 + length (Queue.contents round.1.queue) ≡ length (Queue.contents c0.queue)
  length_left c0 budget round l =
      omega (arith, ap length l.in_order, length-append round.2 (Queue.contents round.1.queue))

  pump_loop-Finished :
      (sealed : Bool) (sink : Sink) (left i : ℕ) (c0 : ConnectionState C D) (budget : ℕ)
      (round : Round C D)
      → IsGreedy sink
      → IsSize budget
      → length (Queue.contents c0.queue) ≤ budget
      → length (Queue.contents c0.queue) ≤ length round.2 + left
      → Live c0 budget round
      → Finished c0 budget (pump_loop sealed sink left i budget round)
  unfolding pump_loop
  pump_loop-Finished sealed sink zero i c0 budget round greedy z h k l = record {
    live = l;
    emptied =
        nil_of_length (Queue.contents round.1.queue) (omega (arith, length_left c0 budget round l));
  }
  pump_loop-Finished sealed sink (suc left) i c0 budget round greedy z h k l =
      let next = one_round sealed sink i budget round in
      let rest = pump_loop sealed sink left (i + 1) budget next.1 in
      let ih = pump_loop-Finished sealed sink left (i + 1) c0 budget next.1 greedy z h in
      if_rule (Finished c0 budget) (not (ltb round.0.bytes budget)) round
        (if next.0 then rest else next.1)
        (λ full. record {
          live = l;
          emptied =
              nil_of_length (Queue.contents round.1.queue)
                (ground (arith, length_left c0 budget round l, l.kept.counted, full));
        })
        (λ open_budget.
          finish c0 budget round.2 next rest
            (one_round-Advances sealed sink i c0 budget round.0 round.1 round.2 greedy z
              (ground (arith, open_budget)) l)
            (λ l' grown. ih (omega (arith, k, grown)) l'))

  -- `PumpWrites` on a valid connection, with a sink that takes some of whatever it is allowed, and
  -- with as many rounds and as much budget as bytes wait: everything that waits is taken, in order,
  -- no operation is left, each that left has sent everything without an error, and the result counts
  -- all the bytes.
  pub pump_writes-finishes :
      (sealed : Bool) (sink : Sink) (max_rounds budget : ℕ) (c : ConnectionState C D)
      → IsGreedy sink
      → IsSize budget
      → length (Queue.contents c.queue) ≤ budget
      → length (Queue.contents c.queue) ≤ max_rounds
      → IsValid c
      → let (r, c', wire) = pump_writes sealed sink max_rounds budget c in
        (wire ≡ Queue.contents c.queue)
        × (c'.ops ≡ [])
        × (r.bytes ≡ length wire)
        × ((over : List WriteOpRecord) × Settles c c' over × All IsClean over)
  unfolding pump_writes
  pump_writes-finishes sealed sink max_rounds budget c greedy z h k v =
      let round = pump_loop sealed sink max_rounds 0 budget (nothing_sent, c, []) in
      let f =
        pump_loop-Finished sealed sink max_rounds 0 c budget (nothing_sent, c, []) greedy z h
          (omega (arith, k)) (Live-start c budget v) in
      let live = f.live in
      let valid = live.kept.valid in
      (
        sym (append-nil round.2) ∙ ap (◌++◌ round.2) (sym f.emptied) ∙ live.in_order,
        no_remaining round.1.ops valid.books.active
            (omega (arith, valid.backed, ap length f.emptied)),
        live.kept.counted,
        (
          live.over,
          record {
            recorded = live.kept.moved.recorded;
            announced = live.kept.moved.announced;
            in_order = live.kept.moved.in_order;
          },
          live.clean,
        ),
      )
