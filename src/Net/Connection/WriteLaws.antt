-- ===== src/Net/Connection/WriteLaws.antt =====
-- `AcceptWrite` has one of its outcomes on a valid connection.
use bbtools_infra.Common.{
  ℕ, ◌+◌, ◌<◌, ◌≡◌, refl, ap, ◌∙◌, inl, inr, Bool, false, Option, List, [], ◌∷◌, ◌++◌, arith, ltb,
  if◌then◌else◌, is_empty, length, IsSize, add_size, sub_size, Bool-cases, length-append, ltb→le,
  leb→lt,
}
use bbtools_infra.Net.Circular.{CircularBuffer}
use bbtools_infra.Net.Errors.{ErrorCode, generic, no_buffer_space, not_enough_memory, is_error}
use bbtools_infra.Net.Outbound.{OutboundQueue, append, total_bytes}
use bbtools_infra.Net.Outbound.Invariant as Queue
use bbtools_infra.Net.Outbound.Append.{Appended, taken, refused, no_memory, append-Appended}
use bbtools_infra.Net.Connection.State.{
  WriteOpRecord, CompletedWrite, ConnectionState, pending_count, is_closed,
}
use bbtools_infra.Net.Connection.Pump.{completion_of}
use bbtools_infra.Net.Connection.Write.{
  Fault, gate, is_full, accept_empty, empty_op, new_op, appended, accept_bytes, accept_write,
  record_made, place_made, segment_made,
}
use bbtools_infra.Net.Connection.Invariant.{remaining_sum, pushed_one, IsValid}
use bbtools_infra.Net.Connection.Outcomes.{
  Accepted, queued, at_once, refused_whole, refused_numbered, gate_open, Books-empty, Books-new,
}

remaining_sum-append :
    (xs ys : List WriteOpRecord) → remaining_sum (xs ++ ys) ≡ remaining_sum xs + remaining_sum ys
remaining_sum-append [] ys = omega arith
remaining_sum-append (x ∷ xs) ys = omega (arith, remaining_sum-append xs ys)

module _ {C : CircularBuffer ℕ} {D : CircularBuffer CompletedWrite} where
  room_of :
      (c : ConnectionState C D)
      → IsValid c
      → is_full c ≡ false
      → length c.ops + pending_count c < c.max_ops
  room_of c v h =
      let few = v.books.few in
      let sized = v.books.max_sized in
      omega (arith, leb→lt c.max_ops (add_size (length c.ops) (pending_count c)) h)

  accept_empty_lem :
      (f : Fault) (c : ConnectionState C D)
      → IsValid c
      → is_full c ≡ false
      → Accepted c [] (accept_empty f c)
  accept_empty_lem f c v h = elim (Bool-cases (record_made f)) [
    | inl k ↦ rw k (
        at_once (accept_empty Fault.no_fault c).2 (empty_op c)
          (record {
            queue_valid = v.queue_valid;
            same_max = v.same_max;
            backed = v.backed;
            books =
                Books-empty D c.max_ops c.ops c.pending_terminal c.settled (empty_op c) v.books
                  (room_of c v h) (refl, inl refl);
            closed_idle = v.closed_idle;
            final = v.final;
          })
          refl refl refl refl
          (pushed_one D (completion_of (empty_op c)) c.pending_terminal
            (let room = room_of c v h in let roomy = v.books.roomy in omega arith)).0)
    | inr k ↦ rw k (refused_whole c [] (generic not_enough_memory) v refl)
  ]

  -- The queue has taken the bytes, or has not.
  appended_lem :
      (c : ConnectionState C D) (bytes : List ℕ) (r : Option ErrorCode × OutboundQueue)
      → IsValid c
      → is_closed c.acceptance ≡ false
      → is_full c ≡ false
      → 0 < length bytes
      → IsSize (length bytes)
      → (allocates : Bool) → Appended allocates c.queue bytes r
      → Accepted c bytes (appended c bytes r)
  appended_lem c bytes r v opened h some_bytes sized allocates (taken q' valid flat same) =
      queued (appended c bytes r).2
        (record {
          queue_valid = valid;
          same_max = same ∙ v.same_max;
          backed = omega (
            arith,
            v.backed,
            ap length flat,
            length-append (Queue.contents c.queue) bytes,
            remaining_sum-append c.ops (new_op c bytes ∷ []),
          );
          books =
              Books-new D c.max_ops c.ops c.pending_terminal c.settled (new_op c bytes) v.books
                (room_of c v h)
                (record {
                  under_way = refl;
                  counted = omega arith;
                  wanted = some_bytes;
                  sized = sized;
                });
          closed_idle = inl opened;
          final = v.final;
        })
        some_bytes refl flat refl refl
  appended_lem c bytes r v opened h some_bytes sized allocates (refused p q) =
      refused_numbered c bytes (generic no_buffer_space) v refl
  appended_lem c bytes r v opened h some_bytes sized allocates (no_memory p) =
      refused_numbered c bytes (generic not_enough_memory) v refl

  accept_bytes_lem :
      (f : Fault) (c : ConnectionState C D) (bytes : List ℕ)
      → IsValid c
      → is_closed c.acceptance ≡ false
      → is_full c ≡ false
      → 0 < length bytes
      → Accepted c bytes (accept_bytes f c bytes)
  accept_bytes_lem f c bytes v opened h some_bytes =
      elim (Bool-cases (ltb (sub_size c.outbound_max (total_bytes c.queue)) (length bytes))) [
        | inl k ↦ rw k (refused_whole c bytes (generic no_buffer_space) v refl)
        | inr k ↦ elim (Bool-cases (record_made f)) [
          | inr m ↦ rw (k, m) (refused_whole c bytes (generic not_enough_memory) v refl)
          | inl m ↦ elim (Bool-cases (place_made f)) [
            | inr n ↦ rw (k, m, n) (refused_numbered c bytes (generic not_enough_memory) v refl)
            | inl n ↦
                rw (k, m, n)
                  (appended_lem c bytes (append (segment_made f) c.queue bytes) v opened h
                    some_bytes
                    (omega (
                      arith,
                      ltb→le (sub_size c.outbound_max (total_bytes c.queue)) (length bytes) k,
                    ))
                    (segment_made f) (append-Appended (segment_made f) c.queue bytes v.queue_valid))
          ]
        ]
      ]

  -- Every outcome of `AcceptWrite` on a valid connection: a write of bytes is one active operation
  -- more, at the end, with its bytes at the end of the queue; a write of none is over and its
  -- completion waits last; a refusal changes no operation, no completion and no waiting byte. The
  -- connection stays valid.
  pub accept_write-Accepted :
      (sealed : Bool) (f : Fault) (c : ConnectionState C D) (bytes : List ℕ)
      → IsValid c
      → Accepted c bytes (accept_write sealed f c bytes)
  unfolding accept_write
  accept_write-Accepted sealed f c bytes v =
      elim (Bool-cases (is_error (gate sealed c.close_requested c.acceptance))) [
        | inl k ↦ rw k (refused_whole c bytes (gate sealed c.close_requested c.acceptance) v k)
        | inr k ↦ elim (Bool-cases (is_full c)) [
          | inl m ↦ rw (k, m) (refused_whole c bytes (generic no_buffer_space) v refl)
          | inr m ↦
              rw (k, m)
                (by_bytes sealed f c bytes v (gate_open sealed c.close_requested c.acceptance k) m)
        ]
      ]
    where
      by_bytes :
          (sealed : Bool) (f : Fault) (c : ConnectionState C D) (bytes : List ℕ)
          → IsValid c
          → is_closed c.acceptance ≡ false
          → is_full c ≡ false
          → Accepted c bytes (if is_empty bytes then accept_empty f c else accept_bytes f c bytes)
      by_bytes sealed f c [] v opened m = accept_empty_lem f c v m
      by_bytes sealed f c (x ∷ bytes) v opened m =
          accept_bytes_lem f c (x ∷ bytes) v opened m (omega arith)
