-- ===== src/Net/Connection/Invariant.antt =====
-- The invariant of ConnectionState: its books on the write operations, and the queue behind them.
use bbtools_infra.Common.{
  nil_of_length, ℕ, suc, ◌+◌, ◌≤◌, ◌<◌, ◌≡◌, refl, sym, ap, ◌∙◌, ◌⊎◌, inl, inr, true, false, List,
  [], ◌∷◌, ◌++◌, map, append-nil, append_assoc, arith, ◌==◌, length, All, IsSize, Bool-cases,
  length-append, drop_all,
}
use bbtools_infra.Net.Circular.{CircularBuffer, contents, size, push_back}
use bbtools_infra.Net.Errors.{is_error}
use bbtools_infra.Net.Outbound.{OutboundQueue, total_bytes}
use bbtools_infra.Net.Outbound.Invariant as Queue
use bbtools_infra.Net.Outbound.Consume.{consume_sent_cases}
use bbtools_infra.Net.Connection.State.{
  WriteOpRecord, CompletedWrite, ConnectionState, closed, is_closed,
}
use bbtools_infra.Net.Connection.Pump.{completion_of, push_all, emptied_queue}

abbrev pub remaining_sum : List WriteOpRecord → ℕ
remaining_sum [] = 0
remaining_sum (o ∷ os) = o.remaining + remaining_sum os

abbrev pub ids : List WriteOpRecord → List ℕ
ids = map (λ (o : WriteOpRecord). o.id)

-- An operation under way: bytes of it are still to send.
pub record IsActive (o : WriteOpRecord) : Type 0 where
  pub under_way : o.terminal ≡ false
  pub counted : o.sent + o.remaining ≡ o.total
  pub wanted : 0 < o.remaining
  pub sized : IsSize o.total

-- An operation that is over: it has sent everything, or it has an error.
abbrev pub IsHonest : WriteOpRecord → Type 0
IsHonest o = (o.terminal ≡ true) × ((o.sent ≡ o.total) ⊎ (is_error o.error ≡ true))

-- Active operations and undelivered completions share `max_ops` places; the buffer of the
-- completions has room for all of them.
pub record Books (D : CircularBuffer CompletedWrite) (max_ops : ℕ) (ops : List WriteOpRecord)
    (done : D.Buf) (settled : List WriteOpRecord) : Type 0 where
  pub active : All IsActive ops
  pub few : length ops + size D done ≤ max_ops
  pub roomy : max_ops ≤ D.capacity done
  pub max_sized : IsSize max_ops
  pub honest : All IsHonest settled

-- `ops` splits into the operations left and those that are over, which come first.
pub record Split (ops left over : List WriteOpRecord) : Type 0 where
  pub active : All IsActive left
  pub honest : All IsHonest over
  pub counted : length over + length left ≡ length ops
  pub in_order : ids over ++ ids left ≡ ids ops

pub All-append {ℓ κ} :
    {A : Type ℓ} (P : A → Type κ) (xs ys : List A) → All P xs → All P ys → All P (xs ++ ys)
All-append P [] ys a b = b
All-append P (x ∷ xs) ys a b = (a.0, All-append P xs ys a.1 b)

pub length-map {ℓ κ} :
    {A : Type ℓ} {B : Type κ} (f : A → B) (xs : List A) → length (map f xs) ≡ length xs
length-map f [] = refl
length-map f (x ∷ xs) = ap suc (length-map f xs)

pub map-append {ℓ κ} :
    {A : Type ℓ} {B : Type κ} (f : A → B) (xs ys : List A) → map f (xs ++ ys) ≡ map f xs ++ map f ys
map-append f [] ys = refl
map-append f (x ∷ xs) ys = ap (◌∷◌ (f x)) (map-append f xs ys)

pub pushed_one :
    (D : CircularBuffer CompletedWrite) (w : CompletedWrite) (b : D.Buf)
    → size D b < D.capacity b
    → (contents D (push_back D w b) ≡ contents D b ++ w ∷ [])
      × (D.capacity (push_back D w b) ≡ D.capacity b)
pushed_one D w b h =
    (D.contents-insert_end (w ∷ []) b (omega arith), D.capacity-insert_end (w ∷ []) b)

-- The completions go to the end of the buffer, none is overwritten.
pub push_all_lem :
    (D : CircularBuffer CompletedWrite) (ws : List CompletedWrite) (b : D.Buf)
    → size D b + length ws ≤ D.capacity b
    → (contents D (push_all D ws b) ≡ contents D b ++ ws)
      × (D.capacity (push_all D ws b) ≡ D.capacity b)
push_all_lem D [] b h = (sym (append-nil _), refl)
push_all_lem D (w ∷ ws) b h =
    let one = pushed_one D w b (omega arith) in
    let rest =
      push_all_lem D ws (push_back D w b)
        (omega (arith, ap length one.0, one.1, length-append (contents D b) (w ∷ []))) in
    (rest.0 ∙ ap (λ xs. xs ++ ws) one.0 ∙ append_assoc (contents D b) (w ∷ []) ws, rest.1 ∙ one.1)

module _ (D : CircularBuffer CompletedWrite) where
  -- Operations leave the deque, each with its completion.
  pub Books-Split :
      (m : ℕ) (ops left over : List WriteOpRecord) (b : D.Buf) (settled : List WriteOpRecord)
      → Books D m ops b settled
      → Split ops left over
      → Books D m left (push_all D (map completion_of over) b) (settled ++ over)
        × (contents D (push_all D (map completion_of over) b)
            ≡ contents D b ++ map completion_of over)
  Books-Split m ops left over b settled v s = (
    record {
      active = s.active;
      few = omega (
        arith,
        v.few,
        s.counted,
        len,
        ap length pushed.0,
        length-append (contents D b) (map completion_of over),
      );
      roomy = omega (arith, v.roomy, pushed.1);
      max_sized = v.max_sized;
      honest = All-append IsHonest settled over v.honest s.honest;
    },
    pushed.0,
  )
    where
      len : length (map completion_of over) ≡ length over
      len = length-map completion_of over

      pushed :
          (contents D (push_all D (map completion_of over) b)
            ≡ contents D b ++ map completion_of over)
          × (D.capacity (push_all D (map completion_of over) b) ≡ D.capacity b)
      pushed =
          push_all_lem D (map completion_of over) b (omega (arith, v.few, v.roomy, s.counted, len))

-- Every active operation ends with the error.
module _ (end : WriteOpRecord → WriteOpRecord) where
  pub Split-all :
      ((o : WriteOpRecord) → IsActive o → IsHonest (end o) × ((end o).id ≡ o.id))
      → (ops : List WriteOpRecord) → All IsActive ops
      → Split ops [] (map end ops)
  Split-all h [] a = record { active = tt; honest = tt; counted = refl; in_order = refl }
  Split-all h (o ∷ ops) a =
      let rest = Split-all h ops a.1 in
      let first = h o a.0 in
      record {
        active = tt;
        honest = (first.0, rest.honest);
        counted = omega (arith, rest.counted);
        in_order = rw first.1 (ap (◌∷◌ o.id) rest.in_order);
      }

-- Counts of bytes and of operations agree: no operation is active when nothing waits.
pub no_remaining : (ops : List WriteOpRecord) → All IsActive ops → remaining_sum ops ≡ 0 → ops ≡ []
no_remaining [] a h = refl
no_remaining (o ∷ ops) a h = absurd (omega (arith, a.0.wanted))

module _ {C : CircularBuffer ℕ} {D : CircularBuffer CompletedWrite} where
  pub record IsValid (c : ConnectionState C D) : Type 0 where
    pub queue_valid : Queue.IsValid c.queue
    pub same_max : c.queue.max_total_bytes ≡ c.outbound_max
    pub backed : length (Queue.contents c.queue) ≡ remaining_sum c.ops
    pub books : Books D c.max_ops c.ops c.pending_terminal c.settled
    pub closed_idle : (is_closed c.acceptance ≡ false) ⊎ (c.ops ≡ [])
    pub final :
        (c.read_closed_published ≡ false)
        ⊎ ((c.ring.closed ≡ true) × (c.close_requested ≡ true) × (c.acceptance ≡ closed))

-- Throwing the waiting bytes away leaves a valid, empty queue and the rest of the state.
pub record Discarded (q q' : OutboundQueue) : Type 0 where
  pub valid : Queue.IsValid q'
  pub same_max : q'.max_total_bytes ≡ q.max_total_bytes
  pub emptied : Queue.contents q' ≡ []

pub discard-Discarded : (q : OutboundQueue) → Queue.IsValid q → Discarded q (emptied_queue q)
discard-Discarded q v = elim (Bool-cases (total_bytes q == 0)) [
  | inl h ↦ rw h (record {
    valid = v;
    same_max = refl;
    emptied = nil_of_length (Queue.contents q) (ground (arith, Queue.total_bytes_lem q v, h));
  })
  | inr h ↦
      let r = consume_sent_cases q (total_bytes q) v in
      rw h (record {
        valid = r.0;
        same_max = r.1;
        emptied = elim (r.2) [
          | inl k ↦
              k.2
              ∙ drop_all (total_bytes q) (Queue.contents q)
                  (omega (arith, Queue.total_bytes_lem q v))
          | inr k ↦ absurd (omega (arith, k.1, Queue.total_bytes_lem q v))
        ];
      })
]
