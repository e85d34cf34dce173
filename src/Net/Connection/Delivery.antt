-- ===== src/Net/Connection/Delivery.antt =====
-- `TryPopTerminal` and `DrainTerminal`: the delivery of completions, in order and once.
use bbtools_infra.Common.{
  nil_of_length, Bool, true, false, ◌⊎◌, inl, inr, ℕ, zero, suc, ◌≤◌, ◌≡◌, refl, sym, ap, ◌∙◌,
  Option, none, some, List, [], ◌∷◌, ◌++◌, arith, length, drop, append-nil,
}
use bbtools_infra.Net.Circular.{CircularBuffer, size}
use bbtools_infra.Net.Connection.State.{
  CompletedWrite, ConnectionState, SameIntent, pending, pending_count,
}
use bbtools_infra.Net.Connection.Pump.{
  pop_first, try_pop_terminal, drained, drain_loop, drain_terminal,
}
use bbtools_infra.Net.Connection.Invariant.{IsValid}

module _ {C : CircularBuffer ℕ} {D : CircularBuffer CompletedWrite} where
  -- `c'` is `c` less completions that are delivered: what is under way is as it was.
  pub record Delivers (c c' : ConnectionState C D) (out : List CompletedWrite) : Type 0 where
    pub valid : IsValid c'
    pub delivered : pending c ≡ out ++ pending c'
    pub same_ops : c'.ops ≡ c.ops
    pub same_settled : c'.settled ≡ c.settled
    pub same_queue : c'.queue ≡ c.queue
    pub same_intent : SameIntent c c'

  Delivers-nothing : (c : ConnectionState C D) → IsValid c → Delivers c c []
  Delivers-nothing c v = record {
    valid = v;
    delivered = refl;
    same_ops = refl;
    same_settled = refl;
    same_queue = refl;
    same_intent = (refl, refl);
  }

  Delivers-more :
      (a b c : ConnectionState C D) (w : CompletedWrite) (ws : List CompletedWrite)
      → Delivers a b (w ∷ [])
      → Delivers b c ws
      → Delivers a c (w ∷ ws)
  Delivers-more a b c w ws p q = record {
    valid = q.valid;
    delivered = p.delivered ∙ ap (◌∷◌ w) q.delivered;
    same_ops = q.same_ops ∙ p.same_ops;
    same_settled = q.same_settled ∙ p.same_settled;
    same_queue = q.same_queue ∙ p.same_queue;
    same_intent = (q.same_intent.0 ∙ p.same_intent.0, q.same_intent.1 ∙ p.same_intent.1);
  }

  -- The first completion leaves the buffer.
  popped-Delivers :
      (c : ConnectionState C D) (w : CompletedWrite) (ws : List CompletedWrite)
      → IsValid c
      → pending c ≡ w ∷ ws
      → Delivers c (pop_first (w ∷ ws) c).1 (w ∷ [])
  popped-Delivers c w ws v e =
      let some_left : 1 ≤ size D c.pending_terminal = omega (arith, ap length e) in
      let rest = D.contents-erase_begin 1 c.pending_terminal some_left in
      let tail = rest ∙ ap (drop 1) e in
      let b = v.books in
      record {
        valid = record {
          queue_valid = v.queue_valid;
          same_max = v.same_max;
          backed = v.backed;
          books = record {
            active = b.active;
            few = omega (arith, b.few, ap length tail, ap length e);
            roomy = omega (arith, b.roomy, D.capacity-erase_begin 1 c.pending_terminal);
            max_sized = b.max_sized;
            honest = b.honest;
          };
          closed_idle = v.closed_idle;
          final = v.final;
        };
        delivered = e ∙ ap (◌∷◌ w) (sym tail);
        same_ops = refl;
        same_settled = refl;
        same_queue = refl;
        same_intent = (refl, refl);
      }

  -- The two results of `TryPopTerminal`.
  pub data Popped (c : ConnectionState C D)
      : Option CompletedWrite × ConnectionState C D → Type 0 where
    nothing_waits : pending c ≡ [] → Popped c (none, c)
    one_popped :
        (w : CompletedWrite) (c' : ConnectionState C D)
        → Delivers c c' (w ∷ [])
        → Popped c (some w, c')

  pop_first-Popped :
      (c : ConnectionState C D) (ws : List CompletedWrite)
      → IsValid c
      → pending c ≡ ws
      → Popped c (pop_first ws c)
  pop_first-Popped c [] v e = nothing_waits e
  pop_first-Popped c (w ∷ ws) v e =
      one_popped w (pop_first (w ∷ ws) c).1 (popped-Delivers c w ws v e)

  -- `TryPopTerminal` gives the oldest completion, takes just it, and gives none only where none
  -- waits.
  pub try_pop_terminal-Popped :
      (c : ConnectionState C D) → IsValid c → Popped c (try_pop_terminal c)
  unfolding try_pop_terminal
  try_pop_terminal-Popped c v = pop_first-Popped c (pending c) v refl

  -- What a drain has popped: all that waited, or up to the completion that `push_back` threw on.
  record Drains (pushes : ℕ → Bool) (c : ConnectionState C D)
      (r : List CompletedWrite × Bool × ConnectionState C D) : Type 0 where
    popped : Delivers c r.2 r.0
    ended : ((r.1 ≡ true) × (pending r.2 ≡ [])) ⊎ ((r.1 ≡ false) × ((n : ℕ) × (pushes n ≡ false)))

  drained-Drains :
      (pushes : ℕ → Bool) (c : ConnectionState C D)
      (r : Option CompletedWrite × ConnectionState C D)
      (next : List CompletedWrite × Bool × ConnectionState C D) (fuel : ℕ) (b : Bool)
      → IsValid c
      → Popped c r
      → pushes fuel ≡ b
      → pending_count c ≤ suc fuel
      → (IsValid r.1 → pending_count r.1 ≤ fuel → Drains pushes r.1 next)
      → Drains pushes c (drained b r next)
  drained-Drains pushes c r next fuel b v (nothing_waits e) k h ih = record {
    popped = Delivers-nothing c v;
    ended = inl (refl, e);
  }
  drained-Drains pushes c r next fuel true v (one_popped w c' d) k h ih =
      let rest = ih d.valid (omega (arith, ap length d.delivered)) in
      record { popped = Delivers-more c c' next.2 w next.0 d rest.popped; ended = rest.ended }
  drained-Drains pushes c r next fuel false v (one_popped w c' d) k h ih = record {
    popped = d;
    ended = inr (refl, (fuel, k));
  }

  -- The loop pops everything that waits or throws, on any fuel from the count of completions on.
  drain_loop-Drains :
      (pushes : ℕ → Bool) (fuel : ℕ) (c : ConnectionState C D)
      → IsValid c
      → pending_count c ≤ fuel
      → Drains pushes c (drain_loop pushes fuel c)
  unfolding drain_loop
  drain_loop-Drains pushes zero c v h = record {
    popped = Delivers-nothing c v;
    ended = inl (refl, nil_of_length (pending c) (omega arith));
  }
  drain_loop-Drains pushes (suc fuel) c v h =
      drained-Drains pushes c (try_pop_terminal c) (drain_loop pushes fuel (try_pop_terminal c).1)
        fuel (pushes fuel) v (try_pop_terminal-Popped c v) refl h
        (drain_loop-Drains pushes fuel (try_pop_terminal c).1)

  -- `DrainTerminal` ends. Whatever it has popped left from the front, in order, with the operations,
  -- the records and the queue as they were. Where each `push_back` finds memory, it answers all that
  -- waited and leaves no completion; it throws only where one does not, and then what it has popped
  -- is lost.
  pub drain_terminal-Delivers :
      (pushes : ℕ → Bool) (c : ConnectionState C D)
      → IsValid c
      → let (answer, c') = drain_terminal pushes c in
        (popped : List CompletedWrite) × Delivers c c' popped
        × (((answer ≡ some popped) × (pending c' ≡ []) × (popped ≡ pending c))
            ⊎ ((answer ≡ none) × ((n : ℕ) × (pushes n ≡ false))))
  unfolding drain_terminal
  drain_terminal-Delivers pushes c v =
      let d = drain_loop-Drains pushes (pending_count c) c v (omega arith) in
      let r = drain_loop pushes (pending_count c) c in
      (
        r.0,
        d.popped,
        (elim d.ended [
          | inl (w, e) ↦
              inl (rw w refl, e, sym (d.popped.delivered ∙ ap (◌++◌ r.0) e ∙ append-nil r.0))
          | inr (w, f) ↦ inr (rw w refl, f)
        ]),
      )
