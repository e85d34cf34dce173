-- ===== src/Net/Connection/Attribution.antt =====
-- `AttributeSentLocked`: the bytes sent go to the operations from the front.
use bbtools_infra.Common.{
  ℕ, ◌+◌, ◌-◌, ◌≤◌, ◌<◌, ◌≡◌, refl, ap, inl, inr, true, false, List, [], ◌∷◌, arith, ltb, ◌==◌, All,
  IsSize, add_size, sub_size, Bool-cases, ltb→lt, ltb→le,
}
use bbtools_infra.Net.Errors.{no_error}
use bbtools_infra.Net.Connection.State.{WriteOpRecord}
use bbtools_infra.Net.Connection.Pump.{credited, finished, attribute_loop}
use bbtools_infra.Net.Connection.Invariant.{remaining_sum, IsActive, Split}

-- Sum of the bytes that the operations have sent.
abbrev pub sent_sum : List WriteOpRecord → ℕ
sent_sum [] = 0
sent_sum (o ∷ os) = o.sent + sent_sum os

-- Over with no error and everything sent.
abbrev pub IsClean : WriteOpRecord → Type 0
IsClean o = (o.error ≡ no_error) × (o.sent ≡ o.total)

-- The bytes are spread over the operations in order: those that are over had no error and sent all,
-- and what the others still want is less by the rest.
pub record Attributed (ops : List WriteOpRecord) (bytes : ℕ) (left over : List WriteOpRecord)
    : Type 0 where
  pub split : Split ops left over
  pub spent : remaining_sum left + bytes ≡ remaining_sum ops
  pub credited : sent_sum over + sent_sum left ≡ sent_sum ops + bytes
  pub clean : All IsClean over

Attributed-nothing :
    (ops : List WriteOpRecord) (bytes : ℕ)
    → All IsActive ops
    → bytes ≡ 0
    → Attributed ops bytes ops []
Attributed-nothing ops bytes a h = record {
  split = record { active = a; honest = tt; counted = omega arith; in_order = refl };
  spent = omega arith;
  credited = omega arith;
  clean = tt;
}

-- The operation at the front is credited and stays.
Attributed-part :
    (o : WriteOpRecord) (ops : List WriteOpRecord) (bytes : ℕ)
    → All IsActive (o ∷ ops)
    → bytes < o.remaining
    → Attributed (o ∷ ops) bytes (credited bytes o ∷ ops) []
Attributed-part o ops bytes a h =
    let c = a.0.counted in
    let z = a.0.sized in
    record {
      split = record {
        active = (
          record {
            under_way = a.0.under_way;
            counted = omega arith;
            wanted = omega arith;
            sized = z;
          },
          a.1,
        );
        honest = tt;
        counted = omega arith;
        in_order = refl;
      };
      spent = omega arith;
      credited = omega arith;
      clean = tt;
    }

-- The operation at the front is complete.
Attributed-whole :
    (o : WriteOpRecord) (ops : List WriteOpRecord) (bytes : ℕ) (left over : List WriteOpRecord)
    → All IsActive (o ∷ ops)
    → o.remaining ≤ bytes
    → Attributed ops (bytes - o.remaining) left over
    → Attributed (o ∷ ops) bytes left (finished (credited o.remaining o) ∷ over)
Attributed-whole o ops bytes left over a h r =
    let c = a.0.counted in
    let z = a.0.sized in
    let all_sent : add_size o.sent o.remaining ≡ o.total = omega arith in
    record {
      split = record {
        active = r.split.active;
        honest = ((refl, inl all_sent), r.split.honest);
        counted = omega (arith, r.split.counted);
        in_order = ap (◌∷◌ o.id) r.split.in_order;
      };
      spent = omega (arith, r.spent);
      credited = omega (arith, r.credited);
      clean = ((refl, all_sent), r.clean);
    }

-- One round of the loop, by what the call on the other operations gives.
attribute_round :
    (o : WriteOpRecord) (ops : List WriteOpRecord) (bytes : ℕ)
    → All IsActive (o ∷ ops)
    → IsSize bytes
    → bytes ≤ remaining_sum (o ∷ ops)
    → ((n : ℕ)
        → IsSize n
        → n ≤ remaining_sum ops
        → Attributed ops n (attribute_loop ops n).0 (attribute_loop ops n).1)
    → Attributed
        (o ∷ ops)
        bytes
        (attribute_loop (o ∷ ops) bytes).0
        (attribute_loop (o ∷ ops) bytes).1
unfolding attribute_loop
attribute_round o ops bytes a z h rest =
    let c = a.0.counted in
    let zo = a.0.sized in
    let w = a.0.wanted in
    elim (Bool-cases (bytes == 0)) [
      | inl k ↦ rw k (Attributed-nothing (o ∷ ops) bytes a (ground arith))
      | inr k ↦ elim (Bool-cases (ltb bytes o.remaining)) [
        | inl m ↦
            let e : (sub_size o.remaining bytes == 0) ≡ false =
              ground (arith, ltb→lt bytes o.remaining m) in
            rw (k, m, e) (Attributed-part o ops bytes a (ltb→lt bytes o.remaining m))
        | inr m ↦
            let le = ltb→le bytes o.remaining m in
            let e : (sub_size o.remaining o.remaining == 0) ≡ true = ground arith in
            let d : sub_size bytes o.remaining ≡ bytes - o.remaining = omega arith in
            rw (k, m, e, d)
              (Attributed-whole o ops bytes (attribute_loop ops (bytes - o.remaining)).0
                (attribute_loop ops (bytes - o.remaining)).1 a le
                (rest (bytes - o.remaining) (omega arith) (omega arith)))
      ]
    ]

-- `AttributeSentLocked` on bytes that the operations want: it credits exactly these bytes, in the
-- operations' order, and takes out exactly the operations that it completes.
pub attribute_loop-Attributed :
    (ops : List WriteOpRecord) (bytes : ℕ)
    → All IsActive ops
    → IsSize bytes
    → bytes ≤ remaining_sum ops
    → Attributed ops bytes (attribute_loop ops bytes).0 (attribute_loop ops bytes).1
attribute_loop-Attributed [] bytes a z h =
    unfold attribute_loop in Attributed-nothing [] bytes tt (omega arith)
attribute_loop-Attributed (o ∷ ops) bytes a z h =
    attribute_round o ops bytes a z h (λ n zn hn. attribute_loop-Attributed ops n a.1 zn hn)
