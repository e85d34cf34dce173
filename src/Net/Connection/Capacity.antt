-- ===== src/Net/Connection/Capacity.antt =====
-- `CanAcceptWrite` against `AcceptWrite`.
use bbtools_infra.Common.{
  ℕ, ◌<◌, ◌≡◌, refl, ◌∙◌, ◌⊎◌, inl, inr, Bool, true, false, not, ◌&&◌, ◌||◌, Option, none, List, [],
  ◌∷◌, arith, ltb, leb, if◌then◌else◌, is_empty, length, add_size, sub_size, Bool-cases, ltb→lt,
}
use bbtools_infra.Net.Circular.{CircularBuffer}
use bbtools_infra.Net.Errors.{ErrorCode, is_error}
use bbtools_infra.Net.Outbound.{append, total_bytes}
use bbtools_infra.Net.Connection.State.{
  AcceptanceState, open_for_writes, settling, CompletedWrite, ConnectionState, pending_count,
  is_open,
}
use bbtools_infra.Net.Connection.Write.{
  Fault, gate, is_full, accept_empty, appended, accept_bytes, accept_write, can_accept_write,
}

-- The guards of the two functions agree.
gate_cases :
    (sealed requested : Bool) (a : AcceptanceState) (rest : Bool)
    → ((is_error (gate sealed requested a) ≡ true)
        × ((if sealed then false else if requested || not (is_open a) then false else rest)
            ≡ false))
      ⊎ ((is_error (gate sealed requested a) ≡ false)
          × ((if sealed then false else if requested || not (is_open a) then false else rest)
              ≡ rest))
gate_cases true requested a rest = inl (refl, refl)
gate_cases false true a rest = inl (refl, refl)
gate_cases false false open_for_writes rest = inr (refl, refl)
gate_cases false false settling rest = inl (refl, refl)
gate_cases false false AcceptanceState.closed rest = inl (refl, refl)

module _ {C : CircularBuffer ℕ} {D : CircularBuffer CompletedWrite} where
  -- A refusal that changes nothing.
  abbrev pub RefusedWhole :
      ConnectionState C D → ErrorCode × Option ℕ × ConnectionState C D → Type 0
  RefusedWhole c (e, id, c') = (is_error e ≡ true) × (id ≡ none) × (c' ≡ c)

  -- An acceptance at once, or the answer of the queue's `Append`.
  abbrev pub Decided :
      ConnectionState C D → List ℕ → ErrorCode × Option ℕ × ConnectionState C D → Type 0
  Decided c bytes r =
      ((bytes ≡ []) × (r ≡ accept_empty Fault.no_fault c))
      ⊎ ((0 < length bytes) × (r ≡ appended c bytes (append true c.queue bytes)))

  empty_or_not :
      (c : ConnectionState C D) (bytes : List ℕ)
      → ltb (sub_size c.outbound_max (total_bytes c.queue)) (length bytes) ≡ false
      → Decided c bytes (
          if is_empty bytes
          then accept_empty Fault.no_fault c
          else accept_bytes Fault.no_fault c bytes)
  empty_or_not c [] h = inl (refl, refl)
  empty_or_not c (x ∷ bytes) h = inr (omega arith, rw h refl)

  too_large :
      (f : Fault) (c : ConnectionState C D) (bytes : List ℕ)
      → ltb (sub_size c.outbound_max (total_bytes c.queue)) (length bytes) ≡ true
      → RefusedWhole c (if is_empty bytes then accept_empty f c else accept_bytes f c bytes)
  too_large f c [] h =
      absurd (omega (arith, ltb→lt (sub_size c.outbound_max (total_bytes c.queue)) 0 h))
  too_large f c (x ∷ bytes) h = rw h (refl, refl, refl)

  fits_or_not :
      (c : ConnectionState C D) (bytes : List ℕ)
      → leb (length bytes) (sub_size c.outbound_max (total_bytes c.queue))
        ≡ not (ltb (sub_size c.outbound_max (total_bytes c.queue)) (length bytes))
  fits_or_not c bytes = ground arith

  room_or_not :
      (c : ConnectionState C D)
      → ltb (add_size (length c.ops) (pending_count c)) c.max_ops ≡ not (is_full c)
  room_or_not c = ground arith

  -- `CanAcceptWrite` and `AcceptWrite` agree. Where it says no, every write of that size is refused
  -- with nothing changed. Where it says yes and no allocation fails, a write of no bytes is accepted,
  -- and any other gets the answer of the queue's `Append`.
  pub can_accept_write-accept_write :
      (sealed : Bool) (f : Fault) (c : ConnectionState C D) (bytes : List ℕ)
      → ((can_accept_write sealed c (length bytes) ≡ false)
          × RefusedWhole c (accept_write sealed f c bytes))
        ⊎ ((can_accept_write sealed c (length bytes) ≡ true)
            × Decided c bytes (accept_write sealed Fault.no_fault c bytes))
  unfolding accept_write can_accept_write
  can_accept_write-accept_write sealed f c bytes =
      elim (gate_cases sealed c.close_requested c.acceptance (
        ltb (add_size (length c.ops) (pending_count c)) c.max_ops
        && leb (length bytes) (sub_size c.outbound_max (total_bytes c.queue)))) [
          | inl (k, denied) ↦ inl (denied, rw k (k, refl, refl))
          | inr (k, granted) ↦ elim (Bool-cases (is_full c)) [
            | inl m ↦ inl (granted ∙ rw (room_or_not c, m) refl, rw (k, m) (refl, refl, refl))
            | inr m ↦
                elim (Bool-cases
                  (ltb (sub_size c.outbound_max (total_bytes c.queue)) (length bytes))) [
                    | inl n ↦ inl (
                      granted ∙ rw (room_or_not c, m, fits_or_not c bytes, n) refl,
                      rw (k, m) (too_large f c bytes n),
                    )
                    | inr n ↦ inr (
                      granted ∙ rw (room_or_not c, m, fits_or_not c bytes, n) refl,
                      rw (k, m) (empty_or_not c bytes n),
                    )
                  ]
          ]
        ]
