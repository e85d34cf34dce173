-- ===== src/Net/Connection/PumpLaws.antt =====
-- `PumpWrites`: the loop, and how it ends.
use bbtools_infra.Common.{
  ltb→lt, ℕ, zero, suc, ◌+◌, ◌≡◌, refl, ◌∙◌, ◌⊎◌, inl, inr, Bool, List, [], arith, ltb,
  if◌then◌else◌, IsSize, Bool-cases,
}
use bbtools_infra.Net.Circular.{CircularBuffer}
use bbtools_infra.Net.Connection.State.{
  WriteOpRecord, CompletedWrite, ConnectionEvent, ConnectionState,
}
use bbtools_infra.Net.Connection.Pump.{
  Sink, SendResult, Round, one_round, pump_loop, pump_writes, nothing_sent, pump_notified,
}
use bbtools_infra.Net.Connection.Invariant.{IsValid}
use bbtools_infra.Net.Connection.Settling.{Settles-refl, noted-IsValid}
use bbtools_infra.Net.Connection.Keeping.{IsSink, Kept, Live, Failed, Next, goes_on, stops, fails}
use bbtools_infra.Net.Connection.Rounds.{one_round-Next}

module _ {C : CircularBuffer ℕ} {D : CircularBuffer CompletedWrite} where
  -- How a pump ends.
  abbrev pub Pumped : ConnectionState C D → ℕ → Round C D → Type 0
  Pumped c0 budget round = Live c0 budget round ⊎ Failed c0 budget round

  pub Live-start :
      (c : ConnectionState C D) (budget : ℕ) → IsValid c → Live c budget (nothing_sent, c, [])
  Live-start c budget v = record {
    over = [];
    kept = record {
      valid = v;
      counted = refl;
      within = omega arith;
      moved = Settles-refl c;
      intent = (refl, refl);
      credited = omega arith;
    };
    clean = tt;
    in_order = refl;
  }

  -- A round that goes on is followed by the rest of the loop.
  follow :
      (c0 : ConnectionState C D) (budget : ℕ) (next : Bool × Round C D) (rest : Round C D)
      → Next c0 budget next
      → (Live c0 budget next.1 → Pumped c0 budget rest)
      → Pumped c0 budget (if next.0 then rest else next.1)
  follow c0 budget next rest (goes_on round l) h = h l
  follow c0 budget next rest (stops round l) h = inl l
  follow c0 budget next rest (fails round l) h = inr l

  pump_loop-Pumped :
      (sealed : Bool) (sink : Sink) (left i : ℕ) (c0 : ConnectionState C D) (budget : ℕ)
      (round : Round C D)
      → IsSink sink
      → IsSize budget
      → Live c0 budget round
      → Pumped c0 budget (pump_loop sealed sink left i budget round)
  unfolding pump_loop
  pump_loop-Pumped sealed sink zero i c0 budget round works z l = inl l
  pump_loop-Pumped sealed sink (suc left) i c0 budget round works z l =
      let next = one_round sealed sink i budget round in
      let ih = pump_loop-Pumped sealed sink left (i + 1) c0 budget next.1 works z in
      elim (Bool-cases (ltb round.0.bytes budget)) [
        | inr k ↦ rw k (inl l)
        | inl k ↦ rw k (
            follow c0 budget next (pump_loop sealed sink left (i + 1) budget next.1)
              (one_round-Next sealed sink i c0 budget round.0 round.1 round.2 works z (ltb→lt _ _ k)
                l)
              ih)
      ]

  -- Neither the other reports nor the events are part of what holds.
  Kept-noted :
      (c0 : ConnectionState C D) (budget : ℕ) (r r' : SendResult) (c : ConnectionState C D)
      (wire : List ℕ) (events : List ConnectionEvent) (over : List WriteOpRecord)
      → r'.bytes ≡ r.bytes
      → Kept c0 budget over (r, c, wire)
      → Kept c0 budget over (r', record c { events = events }, wire)
  Kept-noted c0 budget r r' c wire events over e l =
      let n = noted-IsValid c0 c over c.last_error c.last_error_op events (l.valid, l.moved) in
      record {
        valid = n.0;
        counted = e ∙ l.counted;
        within = omega (arith, e, l.within);
        moved = n.1;
        intent = l.intent;
        credited = l.credited;
      }

  Pumped-noted :
      (c0 : ConnectionState C D) (budget : ℕ) (r r' : SendResult) (c : ConnectionState C D)
      (wire : List ℕ) (events : List ConnectionEvent)
      → r'.bytes ≡ r.bytes
      → Pumped c0 budget (r, c, wire)
      → Pumped c0 budget (r', record c { events = events }, wire)
  Pumped-noted c0 budget r r' c wire events e (inl l) = inl (record {
    over = l.over;
    kept = Kept-noted c0 budget r r' c wire events l.over e l.kept;
    clean = l.clean;
    in_order = l.in_order;
  })
  Pumped-noted c0 budget r r' c wire events e (inr f) = inr (record {
    over = f.over;
    kept = Kept-noted c0 budget r r' c wire events f.over e f.kept;
    emptied = f.emptied;
    idle = f.idle;
    lost = f.lost;
    front = f.front;
  })

  -- `PumpWrites` on a valid connection, for any sink that, where a byte is shown and allowed,
  -- takes no more than is allowed or fails with an error number: the connection stays valid, the
  -- count is that of the bytes taken and within the budget, and just these bytes are credited to
  -- the operations. Operations leave the deque from its front, each with its completion. Either
  -- those that left have no error and sent everything, and what was taken and what still waits
  -- are, in order, the bytes that waited before; or a write has failed, nothing waits, no
  -- operation is left, and what was taken is the front of what waited before.
  pub pump_writes-Pumped :
      (sealed : Bool) (sink : Sink) (max_rounds budget : ℕ) (c : ConnectionState C D)
      → IsSink sink
      → IsSize budget
      → IsValid c
      → Pumped c budget (pump_writes sealed sink max_rounds budget c)
  unfolding pump_writes
  pump_writes-Pumped sealed sink max_rounds budget c works z v =
      let round = pump_loop sealed sink max_rounds 0 budget (nothing_sent, c, []) in
      let r' = (pump_writes sealed sink max_rounds budget c).0 in
      Pumped-noted c budget round.0 r' round.1 round.2 (pump_notified r' round.1).events refl (
        pump_loop-Pumped sealed sink max_rounds 0 c budget (nothing_sent, c, []) works z
          (Live-start c budget v))
