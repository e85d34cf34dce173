-- ===== src/Net/EventRing/Snapshot.antt =====
-- `EventSnapshot` of EventRingBuffer: an owned copy of the bytes with a read cursor.
use bbtools_infra.Common.{
  Bool, ℕ, ◌+◌, ◌≤◌, ◌<◌, ◌≡◌, refl, ◌∙◌, ap, ◌⊎◌, List, ◌++◌, arith, ltb, if◌then◌else◌, length,
  take, drop, add_size, sub_size, IsSize, length-drop, drop-drop, Bool-cases, inl, inr, ltb→lt,
  ltb→le, sym, false, [],
}
use bbtools_infra.Net.Errors.{ErrorCode, no_error, generic, result_out_of_range}

pub record EventSnapshot : Type 0 where
  pub bytes : List ℕ
  pub cursor : ℕ

pub snapshot : List ℕ → EventSnapshot
snapshot bytes = record { bytes = bytes; cursor = 0 }

pub remaining : EventSnapshot → ℕ
remaining s = sub_size (length s.bytes) s.cursor

pub peek : EventSnapshot → List ℕ
peek s = take (remaining s) (drop s.cursor s.bytes)

pub discard : EventSnapshot → ℕ → ErrorCode × EventSnapshot
discard s n =
    if ltb (remaining s) n
    then (generic result_out_of_range, s)
    else (no_error, record s { cursor = add_size s.cursor n })

pub consume : EventSnapshot → ℕ → List ℕ → ErrorCode × List ℕ × EventSnapshot
consume s n out = if ltb (remaining s) n then (generic result_out_of_range, out, s) else (
  no_error,
  out ++ take n (drop s.cursor s.bytes),
  record s { cursor = add_size s.cursor n },
)

-- What the move constructor leaves: the target, and the source.
pub move : EventSnapshot → EventSnapshot × EventSnapshot
move s = (record { bytes = s.bytes; cursor = s.cursor }, record { bytes = []; cursor = 0 })

pub assign : Bool → EventSnapshot → EventSnapshot → EventSnapshot × EventSnapshot
unfolding move
assign to_itself target source = if to_itself then (target, target) else move source

pub record IsValid (s : EventSnapshot) : Type 0 where
  pub sized : IsSize (length s.bytes)
  pub in_range : s.cursor ≤ length s.bytes

abbrev pub unread : EventSnapshot → List ℕ
unread s = drop s.cursor s.bytes

pub remaining-unread : (s : EventSnapshot) → IsValid s → remaining s ≡ length (unread s)
unfolding remaining
remaining-unread s v = omega (arith, v.sized, v.in_range, length-drop s.cursor s.bytes)

-- `Consume` on a valid snapshot hands out exactly the next `n` unread bytes, keeps the rest unread
-- and stays valid; beyond what remains it refuses and changes neither the output nor the snapshot.
pub snapshot_consume_cases :
    (s : EventSnapshot) (n : ℕ) (out : List ℕ)
    → IsValid s
    → let (e, out', s') = consume s n out in
      ((n ≤ length (unread s))
        × (e ≡ no_error)
        × (out' ≡ out ++ take n (unread s))
        × (unread s' ≡ drop n (unread s))
        × IsValid s')
      ⊎ ((length (unread s) < n) × (e ≡ generic result_out_of_range) × (out' ≡ out) × (s' ≡ s))
unfolding consume
snapshot_consume_cases s n out v = elim (Bool-cases (ltb (remaining s) n)) [
  | inl h ↦ rw h (inr (omega (arith, ltb→lt _ _ h, remaining-unread s v), refl, refl, refl))
  | inr h ↦
      rw h (inl (short h, refl, refl, moved h, record { sized = v.sized; in_range = within h }))
]
  where
    short : ltb (remaining s) n ≡ false → n ≤ length (unread s)
    short h = omega (arith, ltb→le _ _ h, remaining-unread s v)

    within : ltb (remaining s) n ≡ false → add_size s.cursor n ≤ length s.bytes
    within h = omega (arith, short h, v.sized, v.in_range, length-drop s.cursor s.bytes)

    moved : ltb (remaining s) n ≡ false → drop (add_size s.cursor n) s.bytes ≡ drop n (unread s)
    moved h =
        ap (λ k. drop k s.bytes)
          (let e : add_size s.cursor n ≡ s.cursor + n =
              omega (arith, short h, v.sized, v.in_range, length-drop s.cursor s.bytes) in
            e)
        ∙ sym (drop-drop n s.cursor s.bytes)
