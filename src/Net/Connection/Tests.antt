-- ===== src/Net/Connection/Tests.antt =====
-- Runs of a connection over the plain buffers, and the laws at concrete connections.
use bbtools_infra.Common.{
  ℕ, zero, suc, ◌≡◌, refl, ap, ◌⊎◌, Bool, true, false, some, none, List, [], ◌∷◌, ◌++◌, map, arith,
  length, All,
}
use bbtools_infra.Net.Errors.{ErrorCode, no_error, net, system, closed}
use bbtools_infra.Net.Circular.Plain.{plain}
use bbtools_infra.Net.Receive.State.{Env}
use bbtools_infra.Net.Outbound.{
  outbound_queue, append, write_at, consume_sent, gather_views, ring_views, consume_spill,
}
use bbtools_infra.Net.Outbound.Invariant as Queue
use bbtools_infra.Net.Connection.State.{
  AcceptanceState, WriteOpRecord, CompletedWrite, ConnectionState, connection_state, pending,
}
use bbtools_infra.Net.Connection.Write.{Fault, accept_write, can_accept_write}
use bbtools_infra.Net.Connection.Pump.{
  completion_of, Sink, sent, refused, pump_writes, pump_loop, attribute_loop, fail_current,
  drain_terminal,
}
use bbtools_infra.Net.Connection.Close.{mark_closed}
use bbtools_infra.Net.Connection.Invariant.{IsHonest, IsValid}
use bbtools_infra.Net.Connection.Settling.{Settles}
use bbtools_infra.Net.Connection.Attribution.{IsClean}
use bbtools_infra.Net.Connection.Keeping.{IsSink}
use bbtools_infra.Net.Connection.WriteLaws.{accept_write-Accepted}
use bbtools_infra.Net.Connection.Outcomes.{Accepted}
use bbtools_infra.Net.Connection.Capacity.{RefusedWhole, Decided, can_accept_write-accept_write}
use bbtools_infra.Net.Connection.PumpLaws.{Pumped, pump_writes-Pumped}
use bbtools_infra.Net.Connection.Progress.{IsGreedy, pump_writes-finishes}
use bbtools_infra.Net.Connection.CloseLaws.{Closes, mark_closed-IsFinal}
use bbtools_infra.Net.Connection.Delivery.{Delivers, drain_terminal-Delivers}
use bbtools_infra.Net.Connection.Runs.{count, Run, start, accepts, pumps, Accounted, Run-Accounted}
use bbtools_infra.Net.Connection.Promises.{connection_state-Accounted, drain_terminal-mark_closed}

abbrev calm : Env
calm = record {
  lock_free = true;
  ring_allocates = true;
  tail_allocates = true;
  copy_allocates = true;
  hub_notifies = true;
  owner_wakes = true;
  hub_retries = true;
  owner_retries = true;
}

abbrev State : Type 0
State = ConnectionState (plain ℕ) (plain CompletedWrite)

-- No owner, room for eight bytes and three writes.
abbrev fresh : State
fresh = connection_state (plain ℕ) (plain CompletedWrite) 7 16 8 3 false

fresh-Accounted : Accounted [] [] fresh
fresh-Accounted =
    connection_state-Accounted (plain ℕ) (plain CompletedWrite) 7 16 8 3 false (omega arith)
      (omega arith)

-- A write of three bytes, one of none, one of two.
abbrev after_one : State
after_one = (accept_write false Fault.no_fault fresh (1 ∷ 2 ∷ 3 ∷ [])).2

abbrev after_two : State
after_two = (accept_write false Fault.no_fault after_one []).2

abbrev written : State
written = (accept_write false Fault.no_fault after_two (4 ∷ 5 ∷ [])).2

contents-written : Queue.contents written.queue ≡ 1 ∷ 2 ∷ 3 ∷ 4 ∷ 5 ∷ []
unfolding accept_write append write_at connection_state outbound_queue
contents-written = refl

-- Takes everything it is allowed.
abbrev whole_sink : Sink
whole_sink i views zero = sent 0 0
whole_sink i views (suc n) = sent (suc n) 0

whole_sink-IsGreedy : IsGreedy whole_sink
whole_sink-IsGreedy i views n = (n, 0, refl, omega arith)

-- Takes one byte in the first round, then fails with `EPIPE`.
abbrev broken_sink : Sink
broken_sink zero views zero = sent 0 0
broken_sink zero views (suc n) = sent 1 0
broken_sink (suc i) views n = refused 32

broken_sink-IsSink : IsSink broken_sink
broken_sink-IsSink zero views n h = omega arith
broken_sink-IsSink (suc i) views n h = omega arith

-- The first write is sent in full, and the third in part.
partly_sent :
    let (r, c, wire) = pump_writes false whole_sink 1 4 written in
    (wire ≡ 1 ∷ 2 ∷ 3 ∷ 4 ∷ [])
    × (map {B = ℕ × ℕ} (λ (w : CompletedWrite). (w.id, w.sent)) (pending c) ≡ (2, 0) ∷ (1, 3) ∷ [])
    × (length c.ops ≡ 1)
unfolding accept_write append write_at connection_state outbound_queue pump_writes pump_loop
    attribute_loop gather_views ring_views consume_sent consume_spill
partly_sent = (refl, refl, refl)

-- After a byte sent the sink fails: both writes of bytes are over, with what they sent.
broken :
    let (r, c, wire) = pump_writes false broken_sink 4 8 written in
    (wire ≡ 1 ∷ [])
    × (map {B = ℕ × ℕ × ErrorCode} (λ (w : CompletedWrite). (w.id, w.sent, w.error)) (pending c)
        ≡ (2, 0, no_error) ∷ (1, 1, system 32) ∷ (3, 0, system 32) ∷ [])
    × (c.last_error_op ≡ 3)
unfolding accept_write append write_at connection_state outbound_queue pump_writes pump_loop
    attribute_loop gather_views ring_views consume_sent consume_spill fail_current
broken = (refl, refl, refl)

abbrev three_writes : Run fresh (1 ∷ 2 ∷ 3 ∷ []) [] written
unfolding accept_write append write_at connection_state outbound_queue
three_writes =
    accepts false Fault.no_fault (4 ∷ 5 ∷ [])
      (accepts false Fault.no_fault [] (accepts false Fault.no_fault (1 ∷ 2 ∷ 3 ∷ []) start))

-- Then a pump that fails after a byte, on a budget of eight bytes.
abbrev after_pump : State
after_pump = (pump_writes false broken_sink 4 8 written).1

abbrev run_to_pump : Run fresh (1 ∷ 2 ∷ 3 ∷ []) [] after_pump
run_to_pump = pumps false broken_sink 4 8 broken_sink-IsSink (omega arith) three_writes

written-IsValid : IsValid written
written-IsValid = (Run-Accounted fresh-Accounted three_writes).valid

Run-Accounted_example : Accounted (1 ∷ 2 ∷ 3 ∷ []) [] after_pump
Run-Accounted_example = Run-Accounted fresh-Accounted run_to_pump

-- Memory for the first two completions only.
abbrev one_push : ℕ → Bool
one_push zero = false
one_push (suc n) = true

drain_terminal-mark_closed_example :
    let (answer, c') = drain_terminal one_push (mark_closed calm no_error written) in
    (popped : List CompletedWrite) × (((answer ≡ some popped) × (pending c' ≡ []))
      ⊎ ((answer ≡ none) × ((n : ℕ) × (one_push n ≡ false))))
    × (c'.ops ≡ [])
    × ((n : ℕ)
        → count n (map (λ (w : CompletedWrite). w.id) (([] ++ popped) ++ pending c'))
          ≡ count n (1 ∷ 2 ∷ 3 ∷ []))
    × (([] ++ popped) ++ pending c' ≡ map completion_of c'.settled)
    × All IsHonest c'.settled
drain_terminal-mark_closed_example =
    drain_terminal-mark_closed fresh written (1 ∷ 2 ∷ 3 ∷ []) [] calm no_error one_push
      fresh-Accounted three_writes

accept_write-Accepted_example :
    Accepted written (6 ∷ []) (accept_write false Fault.no_fault written (6 ∷ []))
accept_write-Accepted_example =
    accept_write-Accepted false Fault.no_fault written (6 ∷ []) written-IsValid

can_accept_write-accept_write_example :
    ((can_accept_write false after_two 2 ≡ false)
      × RefusedWhole after_two (accept_write false Fault.no_fault after_two (4 ∷ 5 ∷ [])))
    ⊎ ((can_accept_write false after_two 2 ≡ true)
        × Decided after_two (4 ∷ 5 ∷ []) (accept_write false Fault.no_fault after_two (4 ∷ 5 ∷ [])))
can_accept_write-accept_write_example =
    can_accept_write-accept_write false Fault.no_fault after_two (4 ∷ 5 ∷ [])

pump_writes-Pumped_example : Pumped written 8 (pump_writes false broken_sink 4 8 written)
pump_writes-Pumped_example =
    pump_writes-Pumped false broken_sink 4 8 written broken_sink-IsSink (omega arith)
      written-IsValid

pump_writes-finishes_example :
    let (r, c', wire) = pump_writes false whole_sink 5 8 written in
    (wire ≡ Queue.contents written.queue)
    × (c'.ops ≡ [])
    × (r.bytes ≡ length wire)
    × ((over : List WriteOpRecord) × Settles written c' over × All IsClean over)
pump_writes-finishes_example =
    pump_writes-finishes false whole_sink 5 8 written whole_sink-IsGreedy (omega arith)
      (omega (arith, ap length contents-written)) (omega (arith, ap length contents-written))
      written-IsValid

mark_closed-IsFinal_example : Closes no_error written (mark_closed calm no_error written)
mark_closed-IsFinal_example = mark_closed-IsFinal calm no_error written written-IsValid

drain_terminal-Delivers_example :
    let (answer, c') = drain_terminal one_push after_pump in
    (popped : List CompletedWrite) × Delivers after_pump c' popped
    × (((answer ≡ some popped) × (pending c' ≡ []) × (popped ≡ pending after_pump))
        ⊎ ((answer ≡ none) × ((n : ℕ) × (one_push n ≡ false))))
drain_terminal-Delivers_example =
    drain_terminal-Delivers one_push after_pump (Run-Accounted fresh-Accounted run_to_pump).valid

-- A connection whose close was requested before any write.
abbrev closing : State
closing = record fresh {
  close_requested = true;
  close_reason = net closed;
  acceptance = AcceptanceState.settling;
}
