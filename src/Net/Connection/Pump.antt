-- ===== src/Net/Connection/Pump.antt =====
-- `PumpWrites` with `AttributeSentLocked` and `FailCurrentLocked`, and the delivery of completions.
use bbtools_infra.Common.{
  ℕ, zero, suc, ◌+◌, Bool, true, false, ◌&&◌, ◌||◌, not, Option, none, some, List, [], ◌∷◌, ◌++◌,
  map, ltb, ◌==◌, if◌then◌else◌, is_empty, length, take, flatten, add_size, sub_size,
}
use bbtools_infra.Net.Circular.{CircularBuffer, push_back}
use bbtools_infra.Net.Errors.{ErrorCode, no_error, system}
use bbtools_infra.Net.Outbound.{OutboundQueue, gather_views, consume_sent, total_bytes}
use bbtools_infra.Net.Connection.State.{
  AcceptanceState, open_for_writes, settling, closed, WriteOpRecord, CompletedWrite,
  ConnectionState, pending, pending_count, log, writers_notified, woken,
}

abbrev pub completion_of : WriteOpRecord → CompletedWrite
completion_of o = record { id = o.id; sent = o.sent; error = o.error }

-- The share of `bytes` that the operation at the front gets.
abbrev pub share : ℕ → WriteOpRecord → ℕ
share bytes o = if ltb bytes o.remaining then bytes else o.remaining

abbrev pub credited : ℕ → WriteOpRecord → WriteOpRecord
credited n o = record o { remaining = sub_size o.remaining n; sent = add_size o.sent n }

abbrev pub finished : WriteOpRecord → WriteOpRecord
finished o = record o { terminal = true; error = no_error }

-- The loop of `AttributeSentLocked`: the operations left, and those that are complete. One that gets
-- less than it wants has used up the bytes, and the loop ends.
unfoldable pub attribute_loop : List WriteOpRecord → ℕ → List WriteOpRecord × List WriteOpRecord
attribute_loop [] bytes = ([], [])
attribute_loop (o ∷ os) bytes =
    let (left, done) = attribute_loop os (sub_size bytes (share bytes o)) in
    let o' = credited (share bytes o) o in
    if bytes == 0
    then (o ∷ os, [])
    else if o'.remaining == 0
    then (left, finished o' ∷ done)
    else (o' ∷ os, [])

-- `op->error = error; op->remaining = 0` of `FailCurrentLocked`.
abbrev pub failed_with : ErrorCode → WriteOpRecord → WriteOpRecord
failed_with e o = record o { terminal = true; error = e; remaining = 0 }

abbrev pub last_id : ℕ → List WriteOpRecord → ℕ
last_id d [] = d
last_id d (o ∷ os) = last_id o.id os

-- What a call of the sink answers: a count of bytes sent with the `errno` beside it, or -1 with it.
pub data SinkAnswer : Type 0 where
  sent : ℕ → ℕ → SinkAnswer
  refused : ℕ → SinkAnswer

abbrev pub eagain : ℕ
eagain = 11

abbrev pub eintr : ℕ
eintr = 4

-- The sink by the round, the views and the bytes allowed.
abbrev pub Sink : Type 0
Sink = ℕ → List (List ℕ) → ℕ → SinkAnswer

pub record SendResult : Type 0 where
  pub bytes : ℕ
  pub need_write_wait : Bool
  pub terminal_changed : Bool
  pub capacity_freed : Bool

abbrev pub nothing_sent : SendResult
nothing_sent = record {
  bytes = 0;
  need_write_wait = false;
  terminal_changed = false;
  capacity_freed = false;
}

-- The waiting bytes are thrown away.
abbrev pub emptied_queue : OutboundQueue → OutboundQueue
emptied_queue q = if not (total_bytes q == 0) then (consume_sent q (total_bytes q)).1 else q

-- The acceptance after a failed write: with a close requested it stays settling.
abbrev pub after_failure : Bool → Bool → AcceptanceState
after_failure sealed requested =
    if requested then settling else if sealed then closed else open_for_writes

abbrev pub max_views : ℕ
max_views = 4

abbrev pub offered : List (List ℕ) → ℕ
offered views = length (flatten views)

abbrev pub allowed : List (List ℕ) → ℕ → SendResult → ℕ
allowed views budget r =
    if ltb (offered views) (sub_size budget r.bytes) then offered views else sub_size budget r.bytes

abbrev pub push_all : (D : CircularBuffer CompletedWrite) → List CompletedWrite → D.Buf → D.Buf
push_all D [] b = b
push_all D (w ∷ ws) b = push_all D ws (push_back D w b)

-- The state of the loop: the result, the connection, and the bytes that the sink has taken so far.
abbrev pub Round : CircularBuffer ℕ → CircularBuffer CompletedWrite → Type 0
Round C D = SendResult × ConnectionState C D × List ℕ

module _ {C : CircularBuffer ℕ} {D : CircularBuffer CompletedWrite} where
  -- The records leave the deque one by one, each with its completion.
  abbrev pub settle :
      List WriteOpRecord → List WriteOpRecord → ConnectionState C D → ConnectionState C D
  settle left done c = record c {
    ops = left;
    pending_terminal = push_all D (map completion_of done) c.pending_terminal;
    settled = c.settled ++ done;
  }

  abbrev pub attribute_sent : ℕ → ConnectionState C D → Bool × ConnectionState C D
  attribute_sent bytes c =
      let (left, done) = attribute_loop c.ops bytes in (not (is_empty done), settle left done c)

  abbrev pub discard_queue : ConnectionState C D → ConnectionState C D
  discard_queue c = record c { queue = emptied_queue c.queue }

  unfoldable pub fail_current : Bool → ErrorCode → ConnectionState C D → ConnectionState C D
  fail_current sealed e c =
      if is_empty c.ops
      then c
      else discard_queue (record (settle [] (map (failed_with e) c.ops) c) {
        acceptance = after_failure sealed c.close_requested;
        last_error = e;
        last_error_op = last_id c.last_error_op c.ops;
      })

  -- The answer -1, or 0: whether the loop goes on, and its state.
  abbrev pub not_sent : Bool → ℕ → Round C D → Bool × Round C D
  not_sent sealed e (r, c, wire) =
      (false, (record r { terminal_changed = true }, fail_current sealed (system e) c, wire))

  abbrev pub answered : Bool → SinkAnswer → List (List ℕ) → Round C D → Bool × Round C D
  answered sealed (sent zero e) views round = not_sent sealed e round
  answered sealed (sent (suc n) e) views (r, c, wire) =
      let (changed, c') =
        attribute_sent (suc n) (record c { queue = (consume_sent c.queue (suc n)).1 }) in
      (
        true,
        (
          record r {
            terminal_changed = r.terminal_changed || changed;
            bytes = add_size r.bytes (suc n);
            capacity_freed = true;
          },
          c',
          wire ++ take (suc n) (flatten views),
        ),
      )
  answered sealed (refused e) views (r, c, wire) =
      if e == eagain
      then (false, (record r { need_write_wait = true }, c, wire))
      else if e == eintr
      then (true, (r, c, wire))
      else not_sent sealed e (r, c, wire)

  abbrev pub one_round : Bool → Sink → ℕ → ℕ → Round C D → Bool × Round C D
  one_round sealed sink i budget (r, c, wire) =
      let views = gather_views c.queue max_views in
      if is_empty views
      then (false, (r, c, wire))
      else answered sealed (sink i views (allowed views budget r)) views (r, c, wire)

  -- The loop with the rounds left and the number of the round.
  unfoldable pub pump_loop : Bool → Sink → ℕ → ℕ → ℕ → Round C D → Round C D
  pump_loop sealed sink zero i budget round = round
  pump_loop sealed sink (suc left) i budget round =
      let next =
        pump_loop sealed sink left (i + 1) budget (one_round sealed sink i budget round).1 in
      if not (ltb round.0.bytes budget)
      then round
      else if (one_round sealed sink i budget round).0
      then next
      else (one_round sealed sink i budget round).1

  abbrev pub pump_notified : SendResult → ConnectionState C D → ConnectionState C D
  pump_notified r c =
      let freed =
        if r.terminal_changed || r.capacity_freed
        then c.events ++ writers_notified ∷ []
        else c.events in
      record c { events = woken (r.terminal_changed && c.has_owner) freed }

  -- `PumpWrites`, with the bytes that the sink took.
  unfoldable pub pump_writes : Bool → Sink → ℕ → ℕ → ConnectionState C D → Round C D
  unfolding pump_loop
  pump_writes sealed sink max_rounds budget c =
      let (r, c', wire) = pump_loop sealed sink max_rounds 0 budget (nothing_sent, c, []) in
      let r' = record r { terminal_changed = r.terminal_changed || not (pending_count c' == 0) } in
      (r', pump_notified r' c', wire)

  abbrev pub pop_first :
      List CompletedWrite → ConnectionState C D → Option CompletedWrite × ConnectionState C D
  pop_first [] c = (none, c)
  pop_first (w ∷ ws) c = (
    some w,
    log writers_notified (record c { pending_terminal = D.erase_begin 1 c.pending_terminal }),
  )

  unfoldable pub try_pop_terminal :
      ConnectionState C D → Option CompletedWrite × ConnectionState C D
  try_pop_terminal c = pop_first (pending c) c

  -- A round of `DrainTerminal`: the completions popped from it on, whether the vector took them all,
  -- and the state. `pushes` is false where `push_back` throws, after the pop.
  abbrev pub drained :
      Bool
      → Option CompletedWrite × ConnectionState C D
      → List CompletedWrite × Bool × ConnectionState C D
      → List CompletedWrite × Bool × ConnectionState C D
  drained pushes (none, c) next = ([], true, c)
  drained true (some w, c) (ws, whole, c') = (w ∷ ws, whole, c')
  drained false (some w, c) next = (w ∷ [], false, c)

  -- The loop of `DrainTerminal`. Its fuel is the count of completions: each round takes one.
  unfoldable pub drain_loop :
      (ℕ → Bool) → ℕ → ConnectionState C D → List CompletedWrite × Bool × ConnectionState C D
  drain_loop pushes zero c = ([], true, c)
  drain_loop pushes (suc fuel) c =
      drained (pushes fuel) (try_pop_terminal c) (drain_loop pushes fuel (try_pop_terminal c).1)

  -- `none` is `std::bad_alloc`: the vector is gone with all that was popped.
  unfoldable pub drain_terminal :
      (ℕ → Bool) → ConnectionState C D → Option (List CompletedWrite) × ConnectionState C D
  drain_terminal pushes c =
      let (ws, whole, c') = drain_loop pushes (pending_count c) c in
      (if whole then some ws else none, c')
