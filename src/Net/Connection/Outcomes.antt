-- ===== src/Net/Connection/Outcomes.antt =====
-- The outcomes of `AcceptWrite`, and the books with one write more.
use bbtools_infra.Common.{
  ℕ, ◌+◌, ◌<◌, ◌≡◌, refl, ap, Bool, true, false, Option, none, some, List, [], ◌∷◌, ◌++◌, arith,
  length, length-append,
}
use bbtools_infra.Net.Circular.{CircularBuffer, contents, size, push_back}
use bbtools_infra.Net.Errors.{ErrorCode, no_error, is_error}
use bbtools_infra.Net.Outbound.Invariant as Queue
use bbtools_infra.Net.Connection.State.{
  AcceptanceState, WriteOpRecord, CompletedWrite, ConnectionState, pending, is_closed,
}
use bbtools_infra.Net.Connection.Pump.{completion_of}
use bbtools_infra.Net.Connection.Write.{gate, next_id, new_op}
use bbtools_infra.Net.Connection.Invariant.{
  IsActive, IsHonest, Books, All-append, pushed_one, IsValid,
}

-- Which of the outcomes a call of `AcceptWrite` has, by what it answers and what it leaves.
module _ {C : CircularBuffer ℕ} {D : CircularBuffer CompletedWrite} where
  pub data Accepted (c : ConnectionState C D) (bytes : List ℕ)
      : ErrorCode × Option ℕ × ConnectionState C D → Type 0 where
    -- A write of bytes: one operation more, and its bytes wait at the end of the queue.
    queued :
        (c' : ConnectionState C D)
        → IsValid c'
        → 0 < length bytes
        → c'.ops ≡ c.ops ++ new_op c bytes ∷ []
        → Queue.contents c'.queue ≡ Queue.contents c.queue ++ bytes
        → c'.settled ≡ c.settled
        → pending c' ≡ pending c
        → Accepted c bytes (no_error, some c.next_op, c')
    -- A write of no bytes: it is over, and its completion waits.
    at_once :
        (c' : ConnectionState C D) (o : WriteOpRecord)
        → IsValid c'
        → bytes ≡ []
        → c'.ops ≡ c.ops
        → o.id ≡ c.next_op
        → c'.settled ≡ c.settled ++ o ∷ []
        → pending c' ≡ pending c ++ completion_of o ∷ []
        → Accepted c bytes (no_error, some c.next_op, c')
    -- A refusal: the operations, the completions and the waiting bytes are as before.
    turned_down :
        (e : ErrorCode) (c' : ConnectionState C D)
        → IsValid c'
        → is_error e ≡ true
        → c'.ops ≡ c.ops
        → Queue.contents c'.queue ≡ Queue.contents c.queue
        → c'.settled ≡ c.settled
        → pending c' ≡ pending c
        → Accepted c bytes (e, none, c')

  -- Neither the numbering nor the events are part of the invariant.
  pub IsValid-next :
      (c : ConnectionState C D) (n : ℕ) → IsValid c → IsValid (record c { next_op = n })
  IsValid-next c n v = record {
    queue_valid = v.queue_valid;
    same_max = v.same_max;
    backed = v.backed;
    books = v.books;
    closed_idle = v.closed_idle;
    final = v.final;
  }

  pub refused_whole :
      (c : ConnectionState C D) (bytes : List ℕ) (e : ErrorCode)
      → IsValid c
      → is_error e ≡ true
      → Accepted c bytes (e, none, c)
  refused_whole c bytes e v h = turned_down e c v h refl refl refl refl

  pub refused_numbered :
      (c : ConnectionState C D) (bytes : List ℕ) (e : ErrorCode)
      → IsValid c
      → is_error e ≡ true
      → Accepted c bytes (e, none, record c { next_op = next_id c })
  refused_numbered c bytes e v h =
      turned_down e (record c { next_op = next_id c }) (IsValid-next c (next_id c) v) h refl refl
        refl refl

pub gate_open :
    (sealed requested : Bool) (a : AcceptanceState)
    → is_error (gate sealed requested a) ≡ false
    → is_closed a ≡ false
gate_open s r a h = ground arith

-- One completion more, of an operation that never stood in the deque.
pub Books-empty :
    (D : CircularBuffer CompletedWrite) (m : ℕ) (ops : List WriteOpRecord) (b : D.Buf)
    (settled : List WriteOpRecord) (o : WriteOpRecord)
    → Books D m ops b settled
    → length ops + size D b < m
    → IsHonest o
    → Books D m ops (push_back D (completion_of o) b) (settled ++ o ∷ [])
Books-empty D m ops b settled o v room h =
    let p = pushed_one D (completion_of o) b (omega (arith, room, v.roomy)) in
    record {
      active = v.active;
      few = omega (arith, room, ap length p.0, length-append (contents D b) (completion_of o ∷ []));
      roomy = omega (arith, v.roomy, p.1);
      max_sized = v.max_sized;
      honest = All-append IsHonest settled (o ∷ []) v.honest (h, tt);
    }

-- One operation more.
pub Books-new :
    (D : CircularBuffer CompletedWrite) (m : ℕ) (ops : List WriteOpRecord) (b : D.Buf)
    (settled : List WriteOpRecord) (o : WriteOpRecord)
    → Books D m ops b settled
    → length ops + size D b < m
    → IsActive o
    → Books D m (ops ++ o ∷ []) b settled
Books-new D m ops b settled o v room h = record {
  active = All-append IsActive ops (o ∷ []) v.active (h, tt);
  few = omega (arith, room, length-append ops (o ∷ []));
  roomy = v.roomy;
  max_sized = v.max_sized;
  honest = v.honest;
}
