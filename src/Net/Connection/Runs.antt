-- ===== src/Net/Connection/Runs.antt =====
-- Runs of a connection: sequences of its operations, with the writes accepted and the completions
-- delivered on the way.
use bbtools_infra.Common.{
  ℕ, ◌+◌, ◌≡◌, sym, ap, ◌∙◌, inl, inr, Bool, Option, none, some, List, [], ◌∷◌, ◌++◌, map,
  append-nil, append_assoc, arith, ◌==◌, if◌then◌else◌, IsSize,
}
use mathlib.Core.Path.{subst}
use bbtools_infra.Net.Circular.{CircularBuffer}
use bbtools_infra.Net.Errors.{ErrorCode}
use bbtools_infra.Net.Receive.State.{Env}
use bbtools_infra.Net.Connection.State.{WriteOpRecord, CompletedWrite, ConnectionState, pending}
use bbtools_infra.Net.Connection.Write.{Fault, accept_write, new_op}
use bbtools_infra.Net.Connection.Pump.{completion_of, Sink, Round, pump_writes, try_pop_terminal}
use bbtools_infra.Net.Connection.Close.{
  canceled_with, settle_error, reason_of, mark_closed, request_close,
}
use bbtools_infra.Net.Connection.Invariant.{ids, IsValid, map-append}
use bbtools_infra.Net.Connection.Settling.{Settles}
use bbtools_infra.Net.Connection.Keeping.{IsSink}
use bbtools_infra.Net.Connection.WriteLaws.{accept_write-Accepted}
use bbtools_infra.Net.Connection.Outcomes.{Accepted, queued, at_once, turned_down}
use bbtools_infra.Net.Connection.PumpLaws.{Pumped, pump_writes-Pumped}
use bbtools_infra.Net.Connection.CloseLaws.{mark_closed-IsFinal}
use bbtools_infra.Net.Connection.RequestLaws.{request_close-Requested}
use bbtools_infra.Net.Connection.Delivery.{
  Delivers, Popped, nothing_waits, one_popped, try_pop_terminal-Popped,
}

abbrev pub count : ℕ → List ℕ → ℕ
count n [] = 0
count n (x ∷ xs) = (if x == n then 1 else 0) + count n xs

pub count-append : (n : ℕ) (xs ys : List ℕ) → count n (xs ++ ys) ≡ count n xs + count n ys
count-append n [] ys = omega arith
count-append n (x ∷ xs) ys = omega (arith, count-append n xs ys)

abbrev pub listed {ℓ} : {A : Type ℓ} → Option A → List A
listed none = []
listed (some a) = a ∷ []

module _ {C : CircularBuffer ℕ} {D : CircularBuffer CompletedWrite} where
  -- The ids of the writes accepted, and the completions delivered, in order.
  pub data Run (c0 : ConnectionState C D)
      : List ℕ → List CompletedWrite → ConnectionState C D → Type 0 where
    start : Run c0 [] [] c0
    accepts :
        {acc : List ℕ} {out : List CompletedWrite} {c : ConnectionState C D} (sealed : Bool)
        (f : Fault) (bytes : List ℕ)
        → Run c0 acc out c
        → Run c0
            (acc ++ listed (accept_write sealed f c bytes).1)
            out
            (accept_write sealed f c bytes).2
    pumps :
        {acc : List ℕ} {out : List CompletedWrite} {c : ConnectionState C D} (sealed : Bool)
        (sink : Sink) (max_rounds budget : ℕ)
        → IsSink sink
        → IsSize budget
        → Run c0 acc out c
        → Run c0 acc out (pump_writes sealed sink max_rounds budget c).1
    pops :
        {acc : List ℕ} {out : List CompletedWrite} {c : ConnectionState C D}
        → Run c0 acc out c
        → Run c0 acc (out ++ listed (try_pop_terminal c).0) (try_pop_terminal c).1
    requests :
        {acc : List ℕ} {out : List CompletedWrite} {c : ConnectionState C D} (env : Env)
        (reason : ErrorCode)
        → Run c0 acc out c
        → Run c0 acc out (request_close env reason c)
    closes :
        {acc : List ℕ} {out : List CompletedWrite} {c : ConnectionState C D} (env : Env)
        (reason : ErrorCode)
        → Run c0 acc out c
        → Run c0 acc out (mark_closed env reason c)

  -- The completions delivered and those that wait are, in order, those of the records settled, and
  -- each accepted write is either settled or under way.
  pub record Accounted (acc : List ℕ) (out : List CompletedWrite) (c : ConnectionState C D)
      : Type 0 where
    pub valid : IsValid c
    pub in_order : out ++ pending c ≡ map completion_of c.settled
    pub once : (n : ℕ) → count n acc ≡ count n (ids c.settled) + count n (ids c.ops)

  Accounted-Settles :
      (acc : List ℕ) (out : List CompletedWrite) (c c' : ConnectionState C D)
      (over : List WriteOpRecord)
      → Accounted acc out c
      → IsValid c'
      → Settles c c' over
      → Accounted acc out c'
  Accounted-Settles acc out c c' over a v s = record {
    valid = v;
    in_order =
        ap (◌++◌ out) s.announced
        ∙ sym (append_assoc out (pending c) (map completion_of over))
        ∙ ap (λ xs. xs ++ map completion_of over) a.in_order
        ∙ sym (map-append completion_of c.settled over)
        ∙ ap (map completion_of) (sym s.recorded);
    once = λ n. omega (
      arith,
      a.once n,
      ap (count n) s.in_order,
      count-append n (ids over) (ids c'.ops),
      ap (λ xs. count n (ids xs)) s.recorded,
      ap (count n) (map-append (λ (o : WriteOpRecord). o.id) c.settled over),
      count-append n (ids c.settled) (ids over),
    );
  }

  Accounted-Accepted :
      (acc : List ℕ) (out : List CompletedWrite) (c : ConnectionState C D) (bytes : List ℕ)
      (r : ErrorCode × Option ℕ × ConnectionState C D)
      → Accounted acc out c
      → Accepted c bytes r
      → Accounted (acc ++ listed r.1) out r.2
  Accounted-Accepted acc out c bytes r a (queued c' v some_bytes ops flat settled waits) = record {
    valid = v;
    in_order = ap (◌++◌ out) waits ∙ a.in_order ∙ ap (map completion_of) (sym settled);
    once = λ n. omega (
      arith,
      a.once n,
      count-append n acc (c.next_op ∷ []),
      ap (λ xs. count n (ids xs)) settled,
      ap (λ xs. count n (ids xs)) ops,
      ap (count n) (map-append (λ (o : WriteOpRecord). o.id) c.ops (new_op c bytes ∷ [])),
      count-append n (ids c.ops) (c.next_op ∷ []),
    );
  }
  Accounted-Accepted acc out c bytes r a (at_once c' o v e ops id settled waits) = record {
    valid = v;
    in_order =
        ap (◌++◌ out) waits
        ∙ sym (append_assoc out (pending c) (completion_of o ∷ []))
        ∙ ap (λ xs. xs ++ completion_of o ∷ []) a.in_order
        ∙ sym (map-append completion_of c.settled (o ∷ []))
        ∙ ap (map completion_of) (sym settled);
    once = λ n. omega (
      arith,
      a.once n,
      count-append n acc (c.next_op ∷ []),
      ap (λ i. count n (i ∷ [])) id,
      ap (λ xs. count n (ids xs)) settled,
      ap (λ xs. count n (ids xs)) ops,
      ap (count n) (map-append (λ (o : WriteOpRecord). o.id) c.settled (o ∷ [])),
      count-append n (ids c.settled) (o.id ∷ []),
    );
  }
  Accounted-Accepted acc out c bytes r a (turned_down e c' v h ops flat settled waits) = record {
    valid = v;
    in_order = ap (◌++◌ out) waits ∙ a.in_order ∙ ap (map completion_of) (sym settled);
    once = λ n. omega (
      arith,
      a.once n,
      ap (count n) (append-nil acc),
      ap (λ xs. count n (ids xs)) settled,
      ap (λ xs. count n (ids xs)) ops,
    );
  }

  pub Accounted-Delivers :
      (acc : List ℕ) (out more : List CompletedWrite) (c c' : ConnectionState C D)
      → Accounted acc out c
      → Delivers c c' more
      → Accounted acc (out ++ more) c'
  Accounted-Delivers acc out more c c' a d = record {
    valid = d.valid;
    in_order =
        append_assoc out more (pending c')
        ∙ ap (◌++◌ out) (sym d.delivered)
        ∙ a.in_order
        ∙ ap (map completion_of) (sym d.same_settled);
    once = λ n. omega (
      arith,
      a.once n,
      ap (λ xs. count n (ids xs)) d.same_settled,
      ap (λ xs. count n (ids xs)) d.same_ops,
    );
  }

  Accounted-Popped :
      (acc : List ℕ) (out : List CompletedWrite) (c : ConnectionState C D)
      (r : Option CompletedWrite × ConnectionState C D)
      → Accounted acc out c
      → Popped c r
      → Accounted acc (out ++ listed r.0) r.1
  Accounted-Popped acc out c r a (nothing_waits e) =
      subst (λ xs. Accounted acc xs c) (sym (append-nil out)) a
  Accounted-Popped acc out c r a (one_popped w c' d) = Accounted-Delivers acc out (w ∷ []) c c' a d

  Accounted-Pumped :
      (acc : List ℕ) (out : List CompletedWrite) (c : ConnectionState C D) (budget : ℕ)
      (round : Round C D)
      → Accounted acc out c
      → Pumped c budget round
      → Accounted acc out round.1
  Accounted-Pumped acc out c budget round a (inl l) =
      Accounted-Settles acc out c round.1 l.over a l.kept.valid l.kept.moved
  Accounted-Pumped acc out c budget round a (inr f) =
      Accounted-Settles acc out c round.1 f.over a f.kept.valid f.kept.moved

  -- In every run from an `Accounted` connection, with any faults and closes, budgets that fit a
  -- `size_t`, and sinks that, where a byte is shown and allowed, take no more than is allowed or
  -- give an error number other than 0 (`IsSink`): the connection is valid, the completions
  -- delivered and those that wait are, in the order of settling, exactly those of the writes that
  -- are over, and each accepted write is settled once or is under way.
  pub Run-Accounted :
      {c0 c : ConnectionState C D} {acc : List ℕ} {out : List CompletedWrite}
      → Accounted [] [] c0
      → Run c0 acc out c
      → Accounted acc out c
  Run-Accounted a start = a
  Run-Accounted a (accepts {acc} {out} {c} sealed f bytes r) =
      let b = Run-Accounted a r in
      Accounted-Accepted acc out c bytes (accept_write sealed f c bytes) b
        (accept_write-Accepted sealed f c bytes b.valid)
  Run-Accounted a (pumps {acc} {out} {c} sealed sink max_rounds budget works z r) =
      let b = Run-Accounted a r in
      Accounted-Pumped acc out c budget (pump_writes sealed sink max_rounds budget c) b
        (pump_writes-Pumped sealed sink max_rounds budget c works z b.valid)
  Run-Accounted a (pops {acc} {out} {c} r) =
      let b = Run-Accounted a r in
      Accounted-Popped acc out c (try_pop_terminal c) b (try_pop_terminal-Popped c b.valid)
  Run-Accounted a (requests {acc} {out} {c} env reason r) =
      let b = Run-Accounted a r in
      let q = request_close-Requested env reason c b.valid in
      Accounted-Settles acc out c (request_close env reason c) q.over b q.valid q.moved
  Run-Accounted a (closes {acc} {out} {c} env reason r) =
      let b = Run-Accounted a r in
      let q = mark_closed-IsFinal env reason c b.valid in
      Accounted-Settles acc out c (mark_closed env reason c)
        (map (canceled_with (settle_error (reason_of reason c))) c.ops) b q.0 q.1
