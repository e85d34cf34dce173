-- ===== src/Net/Connection/Promises.antt =====
-- What a connection promises over a whole run.
use bbtools_infra.Common.{
  ℕ, ◌⊎◌, inr, some, none, false, ◌≡◌, refl, ap, ◌∙◌, inl, Bool, List, [], ◌∷◌, ◌++◌, map, arith,
  ltb, if◌then◌else◌, length, All, IsSize,
}
use bbtools_infra.Net.Circular.{CircularBuffer, contents}
use bbtools_infra.Net.Errors.{ErrorCode}
use bbtools_infra.Net.Receive.State.{Env}
use bbtools_infra.Net.Outbound.Invariant as Queue
use bbtools_infra.Net.Connection.State.{
  WriteOpRecord, CompletedWrite, ConnectionState, connection_state, pending,
}
use bbtools_infra.Net.Connection.Pump.{completion_of, drain_terminal}
use bbtools_infra.Net.Connection.Close.{mark_closed}
use bbtools_infra.Net.Connection.Invariant.{ids, IsHonest}
use bbtools_infra.Net.Connection.CloseLaws.{mark_closed-IsFinal}
use bbtools_infra.Net.Connection.Delivery.{drain_terminal-Delivers}
use bbtools_infra.Net.Connection.Runs.{
  count, Run, closes, Accounted, Run-Accounted, Accounted-Delivers,
}

-- A new connection of representable limits is valid, with no write and no completion.
pub connection_state-Accounted :
    (C : CircularBuffer ℕ) (D : CircularBuffer CompletedWrite)
    (id inbound_max outbound_max max_ops : ℕ) (has_owner : Bool)
    → IsSize outbound_max
    → IsSize max_ops
    → Accounted [] [] (connection_state C D id inbound_max outbound_max max_ops has_owner)
unfolding connection_state
connection_state-Accounted C D id inbound_max outbound_max max_ops has_owner h k =
    let ring = if ltb outbound_max 65536 then outbound_max else 65536 in
    let room = if ltb 1 max_ops then max_ops else 1 in
    let e : contents D (D.set_capacity room (D.make 0)) ≡ [] =
      D.contents-set_capacity room (D.make 0) (omega (arith, ap length (D.contents-make 0)))
      ∙ D.contents-make 0 in
    let cap = D.capacity-set_capacity room (D.make 0) in
    let q = Queue.outbound_queue-IsValid ring outbound_max max_ops (ground arith) h in
    record {
      valid = record {
        queue_valid = q.0;
        same_max = Queue.max-outbound_queue ring outbound_max max_ops;
        backed = ap length q.1;
        books = record {
          active = tt;
          few = omega (arith, ap length e);
          roomy = ground (arith, cap);
          max_sized = k;
          honest = tt;
        };
        closed_idle = inl refl;
        final = inl refl;
      };
      in_order = e;
      once = λ n. omega arith;
    }

ids-completions :
    (os : List WriteOpRecord) → map (λ (w : CompletedWrite). w.id) (map completion_of os) ≡ ids os
ids-completions [] = refl
ids-completions (o ∷ os) = ap (◌∷◌ o.id) (ids-completions os)

module _ {C : CircularBuffer ℕ} {D : CircularBuffer CompletedWrite} where
  -- After any run from a connection with no write before, `MarkClosed` and then `DrainTerminal`
  -- leave nothing under way. Where the drain answers, nothing is left to deliver: over the whole run
  -- each id has been delivered as often as a write was accepted under it. Where it throws, because a
  -- `push_back` finds no memory, the same holds of the completions delivered before, those that it
  -- popped and lost, and those that still wait. In both cases these are the completions of the
  -- records, in order, and each record is of a write that sent everything or has an error.
  pub drain_terminal-mark_closed :
      (c0 c : ConnectionState C D) (acc : List ℕ) (out : List CompletedWrite) (env : Env)
      (reason : ErrorCode) (pushes : ℕ → Bool)
      → Accounted [] [] c0
      → Run c0 acc out c
      → let (answer, c') = drain_terminal pushes (mark_closed env reason c) in
        (popped : List CompletedWrite) × (((answer ≡ some popped) × (pending c' ≡ []))
          ⊎ ((answer ≡ none) × ((n : ℕ) × (pushes n ≡ false))))
        × (c'.ops ≡ [])
        × ((n : ℕ)
            → count n (map (λ (w : CompletedWrite). w.id) ((out ++ popped) ++ pending c'))
              ≡ count n acc)
        × ((out ++ popped) ++ pending c' ≡ map completion_of c'.settled)
        × All IsHonest c'.settled
  drain_terminal-mark_closed c0 c acc out env reason pushes a r =
      let b = Run-Accounted a r in
      let m = mark_closed env reason c in
      let d = Run-Accounted a (closes env reason r) in
      let (popped, s, ends) = drain_terminal-Delivers pushes m d.valid in
      let f = (mark_closed-IsFinal env reason c b.valid).2 in
      let c' = (drain_terminal pushes m).1 in
      let e = Accounted-Delivers acc out popped m c' d s in
      let idle : c'.ops ≡ [] = s.same_ops ∙ f.idle in
      (
        popped,
        (elim ends [ inl (x, y, _) ↦ inl (x, y) | inr t ↦ inr t ]),
        idle,
        λ n. omega (
          arith,
          e.once n,
          ap (λ xs. count n (ids xs)) idle,
          ap (λ xs. count n (map (λ (w : CompletedWrite). w.id) xs)) e.in_order,
          ap (count n) (ids-completions c'.settled),
        ),
        e.in_order,
        e.valid.books.honest,
      )
