-- ===== src/Net/Outbound/Consume.antt =====
-- `OutboundQueue::ConsumeSent`: exactly the first `n` bytes leave, through the ring and the spill.
use bbtools_infra.Common.{
  ℕ, ◌+◌, ◌-◌, ◌%◌, ◌≤◌, ◌<◌, ◌≡◌, refl, sym, ap, ◌∙◌, ◌⊎◌, inl, inr, not, ◌&&◌, List, [], ◌∷◌,
  ◌++◌, arith, length, flatten, drop, ltb, ◌==◌, ==_iff, ltb→lt, ltb→le, length-append, length-drop,
  drop-drop, drop-append_le, drop-append_ge, length-tabulate, get_or, Bool-cases, add_size,
  sub_size, IsSize, All,
}
use mathlib.Core.Path.{ap₂}
use native.Mathlib.Nat.{mod-lt}
use bbtools_infra.Net.Errors.{no_error, generic, result_out_of_range}
use bbtools_infra.Net.Outbound.{
  OutboundQueue, contiguous, advance, consume_first, consume_second, consume_spill, consume_list,
  consume_sent, total_bytes,
}
use bbtools_infra.Net.Outbound.Window.{window, window-drop}
use bbtools_infra.Net.Outbound.Invariant.{
  contents, IsValid, NonEmpty, length-contents, total_bytes_lem,
}

-- Some rounds on the ring: what is still to consume, and the queue.
record Progress (q : OutboundQueue) (n : ℕ) (out : ℕ × OutboundQueue) : Type 0 where
  valid : IsValid out.1
  less : out.0 ≤ n
  gone : contents out.1 ≡ drop (n - out.0) (contents q)
  count : out.1.ring_size + (n - out.0) ≡ q.ring_size
  same : (out.1.spill ≡ q.spill) × (out.1.list_bytes ≡ q.list_bytes)
  limits : (out.1.max_total_bytes ≡ q.max_total_bytes) × (out.1.max_segments ≡ q.max_segments)

advance-Progress :
    (q : OutboundQueue) (n step : ℕ)
    → IsValid q
    → IsSize n
    → step ≤ n
    → step ≤ q.ring_size
    → 0 < q.ring_size
    → Progress q n (sub_size n step, advance q step)
advance-Progress q n step v sz hn hs some_bytes = record {
  valid = record {
    ring_sized = v.ring_sized;
    max_sized = v.max_sized;
    held = omega (arith, size);
    head_in = inl (mod-lt (add_size q.ring_head step) (omega arith));
    counted = v.counted;
    filled = v.filled;
    bounded = omega (arith, size);
    few = v.few;
  };
  less = omega (arith, left);
  gone = shown;
  count = omega (arith, size, left);
  same = (refl, refl);
  limits = (refl, refl);
}
  where
    inside : q.ring_head < length q.ring
    inside = elim v.head_in [ inl h ↦ h | inr (h, _) ↦ absurd (omega arith) ]

    left : sub_size n step ≡ n - step
    left = omega arith

    size : sub_size q.ring_size step ≡ q.ring_size - step
    size = omega (arith, v.held, v.ring_sized)

    head : add_size q.ring_head step ≡ q.ring_head + step
    head = omega (arith, inside, v.held, v.ring_sized)

    shown : contents (advance q step) ≡ drop (n - sub_size n step) (contents q)
    shown =
        ap (λ w. w ++ flatten q.spill)
          (ap₂ (λ h k. window q.ring (h % length q.ring) k) head size
            ∙ window-drop q.ring q.ring_head q.ring_size step hs)
        ∙ sym (
            drop-append_le step (window q.ring q.ring_head q.ring_size) (flatten q.spill) (
              omega (
                arith,
                length-tabulate q.ring_size
                    (λ (i : ℕ). get_or q.ring ((q.ring_head + i) % length q.ring) 0),
              )))
        ∙ ap (λ k. drop k (contents q)) (omega (arith, left))

Progress-refl : (q : OutboundQueue) (n : ℕ) → IsValid q → Progress q n (n, q)
Progress-refl q n v = record {
  valid = v;
  less = omega arith;
  gone = ap (λ k. drop k (contents q)) (let e : 0 ≡ n - n = omega arith in e);
  count = omega arith;
  same = (refl, refl);
  limits = (refl, refl);
}

Progress-trans :
    (q : OutboundQueue) (n : ℕ) (p r : ℕ × OutboundQueue)
    → Progress q n p
    → Progress p.1 p.0 r
    → Progress q n r
Progress-trans q n p r s t = record {
  valid = t.valid;
  less = omega (arith, s.less, t.less);
  gone =
      t.gone
      ∙ ap (drop (p.0 - r.0)) s.gone
      ∙ drop-drop (p.0 - r.0) (n - p.0) (contents q)
      ∙ ap (λ k. drop k (contents q)) (omega (arith, s.less, t.less));
  count = omega (arith, s.count, t.count, s.less, t.less);
  same = (t.same.0 ∙ s.same.0, t.same.1 ∙ s.same.1);
  limits = (t.limits.0 ∙ s.limits.0, t.limits.1 ∙ s.limits.1);
}

contiguous_lem : (q : OutboundQueue) → IsValid q → (contiguous q ≤ q.ring_size)
contiguous_lem q v = ground arith

consume_first-Progress :
    (q : OutboundQueue) (n : ℕ) → IsSize n → IsValid q → Progress q n (consume_first q n)
consume_first-Progress q n sz v = elim (Bool-cases (not (n == 0) && not (q.ring_size == 0))) [
  | inl h ↦ rw h (
      advance-Progress q n _ v sz (ground arith) (ground (arith, contiguous_lem q v))
        (ground arith))
  | inr h ↦ rw h (Progress-refl q n v)
]

-- After the second round nothing is left to consume, or the ring is empty.
consume_second-Progress :
    (q : OutboundQueue) (n : ℕ)
    → IsSize n
    → IsValid q
    → Progress q n (consume_second q n)
      × (((consume_second q n).0 ≡ 0) ⊎ ((consume_second q n).1.ring_size ≡ 0))
consume_second-Progress q n sz v = elim (Bool-cases (not (n == 0) && not (q.ring_size == 0))) [
  | inl h ↦ rw h (
    advance-Progress q n _ v sz (ground arith) (ground arith) (ground arith),
    ground (arith, v.ring_sized, v.held),
  )
  | inr h ↦ rw h (Progress-refl q n v, ground arith)
]

record Spent (ss : List (List ℕ)) (n : ℕ) (out : List (List ℕ) × ℕ) : Type 0 where
  flat : flatten out.0 ≡ drop n (flatten ss)
  counted : out.1 ≡ length (flatten out.0)
  filled : All NonEmpty out.0
  few : length out.0 ≤ length ss

consume_spill-Spent :
    (ss : List (List ℕ)) (lb n : ℕ)
    → lb ≡ length (flatten ss)
    → IsSize lb
    → n ≤ lb
    → All NonEmpty ss
    → Spent ss n (consume_spill ss lb n)
unfolding consume_spill
consume_spill-Spent [] lb n e sz h a =
    let z : n ≡ 0 = omega arith in
    rw z (record { flat = refl; counted = e; filled = tt; few = omega arith })
consume_spill-Spent (s ∷ ss) lb n e sz h a = elim (Bool-cases (n == 0)) [
  | inl z ↦
      let n0 : n ≡ 0 = (==_iff n 0).0 z in
      rw n0 (record { flat = refl; counted = e; filled = a; few = omega arith })
  | inr z ↦ rw z (elim (Bool-cases (ltb n (length s))) [
    | inl k ↦ rw k (record {
      flat = sym (drop-append_le n s (flatten ss) (omega (arith, ltb→lt _ _ k)));
      counted = omega (
        arith,
        ltb→lt _ _ k,
        length-append s (flatten ss),
        length-append (drop n s) (flatten ss),
        length-drop n s,
      );
      filled = (omega (arith, ltb→lt _ _ k, length-drop n s), a.1);
      few = omega arith;
    })
    | inr k ↦
        let le : length s ≤ n = ltb→le _ _ k in
        let left : sub_size n (length s) ≡ n - length s = omega arith in
        let rest : Spent ss (sub_size n (length s))
            (consume_spill ss (sub_size lb (length s)) (sub_size n (length s))) =
          consume_spill-Spent ss (sub_size lb (length s)) (sub_size n (length s))
            (omega (arith, length-append s (flatten ss))) (omega arith)
            (omega (arith, le, length-append s (flatten ss))) a.1 in
        rw k (record {
          flat =
              rest.flat
              ∙ ap (λ m. drop m (flatten ss)) left
              ∙ sym (drop-append_ge n s (flatten ss) le);
          counted = rest.counted;
          filled = rest.filled;
          few = omega (arith, rest.few);
        })
  ])
]

-- The spill loop behind a ring that is empty, or with nothing left to consume.
consume_list_lem :
    (q : OutboundQueue) (n : ℕ)
    → IsValid q
    → (n ≡ 0) ⊎ (q.ring_size ≡ 0)
    → n ≤ q.list_bytes
    → IsValid (consume_list (n, q)) × (contents (consume_list (n, q)) ≡ drop n (contents q))
consume_list_lem q n v d h = (
  record {
    ring_sized = v.ring_sized;
    max_sized = v.max_sized;
    held = v.held;
    head_in = v.head_in;
    counted = s.counted;
    filled = s.filled;
    bounded =
        omega (
          arith,
          s.counted,
          ap length s.flat,
          length-drop n (flatten q.spill),
          v.counted,
          v.bounded,
        );
    few = omega (arith, s.few, v.few);
  },
  ap (◌++◌ (window q.ring q.ring_head q.ring_size)) s.flat ∙ shown d,
)
  where
    s : Spent q.spill n (consume_spill q.spill q.list_bytes n)
    s =
        consume_spill-Spent q.spill q.list_bytes n v.counted (omega (arith, v.bounded, v.max_sized))
          h v.filled

    shown :
        (n ≡ 0) ⊎ (q.ring_size ≡ 0)
        → window q.ring q.ring_head q.ring_size ++ drop n (flatten q.spill) ≡ drop n (contents q)
    shown (inl e) = rw e
    shown (inr e) = rw e

consume_rounds :
    (q : OutboundQueue) (n : ℕ)
    → IsValid q
    → n ≤ length (contents q)
    → let (left, once) = consume_first q n in
      IsValid (consume_list (consume_second once left))
      × (contents (consume_list (consume_second once left)) ≡ drop n (contents q))
      × ((consume_list (consume_second once left)).max_total_bytes ≡ q.max_total_bytes)
consume_rounds q n v h = (
  spilled.0,
  spilled.1
      ∙ ap (drop both.0) p.gone
      ∙ drop-drop both.0 (n - both.0) (contents q)
      ∙ ap (λ k. drop k (contents q)) (omega (arith, p.less)),
  p.limits.0,
)
  where
    size : IsSize n
    size = omega (arith, length-contents q v, v.bounded, v.max_sized)

    once : ℕ × OutboundQueue
    once = consume_first q n

    first : Progress q n once
    first = consume_first-Progress q n size v

    both : ℕ × OutboundQueue
    both = consume_second once.1 once.0

    second : Progress once.1 once.0 both × ((both.0 ≡ 0) ⊎ (both.1.ring_size ≡ 0))
    second = consume_second-Progress once.1 once.0 (omega (arith, first.less, size)) first.valid

    p : Progress q n both
    p = Progress-trans q n once both first second.0

    enough : both.0 ≤ both.1.list_bytes
    enough = omega (arith, second.1, p.count, p.less, p.same.1, length-contents q v)

    spilled :
        IsValid (consume_list both) × (contents (consume_list both) ≡ drop both.0 (contents both.1))
    spilled = consume_list_lem both.1 both.0 p.valid second.1 enough

-- `ConsumeSent` on a valid queue drops exactly the first `n` of the waiting bytes, also where they
-- reach round the ring's end and into a spill segment, keeps the queue valid, and refuses an `n`
-- beyond what waits without a change.
pub consume_sent_cases :
    (q : OutboundQueue) (n : ℕ)
    → IsValid q
    → let (e, q') = consume_sent q n in
      IsValid q'
      × (q'.max_total_bytes ≡ q.max_total_bytes)
      × (((e ≡ no_error) × (n ≤ length (contents q)) × (contents q' ≡ drop n (contents q)))
          ⊎ ((e ≡ generic result_out_of_range) × (length (contents q) < n) × (q' ≡ q)))
unfolding consume_sent
consume_sent_cases q n v = elim (Bool-cases (ltb (total_bytes q) n)) [
  | inl h ↦ rw h (v, refl, inr (refl, omega (arith, ltb→lt _ _ h, total_bytes_lem q v), refl))
  | inr h ↦
      let fits : n ≤ length (contents q) = omega (arith, ltb→le _ _ h, total_bytes_lem q v) in
      let r = consume_rounds q n v fits in rw h (r.0, r.2, inl (refl, fits, r.1))
]
