-- ===== src/Net/Outbound/Invariant.antt =====
-- The representation invariant of the queue, and the bytes that it stands for.
use bbtools_infra.Common.{
  ℕ, suc, ◌+◌, ◌^◌, ◌≤◌, ◌<◌, ◌≡◌, refl, sym, ap, ◌⊎◌, false, List, [], ◌∷◌, ◌++◌, append-nil,
  append_assoc, arith, length, get_or, ◌%◌, is_empty, All, flatten, IsSize, length-append,
  length-tabulate, length-replicate,
}
use bbtools_infra.Net.Outbound.{
  OutboundQueue, outbound_queue, move, total_bytes, last_size, append_last,
}
use bbtools_infra.Net.Outbound.Window.{window}

-- In the order of sending.
abbrev pub contents : OutboundQueue → List ℕ
contents q = window q.ring q.ring_head q.ring_size ++ flatten q.spill

abbrev pub NonEmpty : List ℕ → Type 0
NonEmpty s = 0 < length s

pub record IsValid (q : OutboundQueue) : Type 0 where
  -- `std::vector<unsigned char>` holds fewer than 2 ^ 63 bytes.
  pub ring_sized : length q.ring < 2 ^ 63
  pub max_sized : IsSize q.max_total_bytes
  pub held : q.ring_size ≤ length q.ring
  pub head_in : (q.ring_head < length q.ring) ⊎ ((length q.ring ≡ 0) × (q.ring_head ≡ 0))
  pub counted : q.list_bytes ≡ length (flatten q.spill)
  pub filled : All NonEmpty q.spill
  pub bounded : q.ring_size + q.list_bytes ≤ q.max_total_bytes
  pub few : length q.spill ≤ q.max_segments

pub length-contents :
    (q : OutboundQueue) → IsValid q → length (contents q) ≡ q.ring_size + q.list_bytes
length-contents q v = omega (
  arith,
  length-append (window q.ring q.ring_head q.ring_size) (flatten q.spill),
  length-tabulate q.ring_size (λ (i : ℕ). get_or q.ring ((q.ring_head + i) % length q.ring) 0),
  v.counted,
)

pub total_bytes_lem : (q : OutboundQueue) → IsValid q → total_bytes q ≡ length (contents q)
total_bytes_lem q v = omega (arith, length-contents q v, v.bounded, v.max_sized)

abbrev zero_byte : ℕ
zero_byte = 0

-- A new queue of representable geometry is valid and empty, and so is the source of a move, whose
-- bytes are all in the target.
pub outbound_queue-IsValid :
    (ring_bytes total segments : ℕ)
    → ring_bytes < 2 ^ 63
    → IsSize total
    → IsValid (outbound_queue ring_bytes total segments)
      × (contents (outbound_queue ring_bytes total segments) ≡ [])
unfolding outbound_queue
outbound_queue-IsValid ring_bytes total segments h k =
    (ground (arith, length-replicate ring_bytes zero_byte), refl)

pub max-outbound_queue :
    (ring_bytes total segments : ℕ)
    → (outbound_queue ring_bytes total segments).max_total_bytes ≡ total
unfolding outbound_queue
max-outbound_queue ring_bytes total segments = refl

pub move-IsValid :
    (q : OutboundQueue)
    → IsValid q
    → let (target, source) = move q in
      IsValid target × IsValid source × (contents target ≡ contents q) × (contents source ≡ [])
unfolding move
move-IsValid q v = (v, omega arith, refl, refl)

pub flatten-append : (xs ys : List (List ℕ)) → flatten (xs ++ ys) ≡ flatten xs ++ flatten ys
flatten-append [] ys = refl
flatten-append (x ∷ xs) ys =
    rw (flatten-append xs ys) (sym (append_assoc x (flatten xs) (flatten ys)))

pub All-snoc :
    (xs : List (List ℕ)) (y : List ℕ) → All NonEmpty xs → NonEmpty y → All NonEmpty (xs ++ y ∷ [])
All-snoc [] y a h = (h, tt)
All-snoc (x ∷ xs) y a h = (a.0, All-snoc xs y a.1 h)

pub flatten-append_last :
    (part : List ℕ) (ss : List (List ℕ))
    → is_empty ss ≡ false
    → flatten (append_last part ss) ≡ flatten ss ++ part
flatten-append_last part [] h = cc
flatten-append_last part (s ∷ []) h = simp append-nil
flatten-append_last part (s ∷ t ∷ ss) h =
    rw (flatten-append_last part (t ∷ ss) refl) (sym (append_assoc s (flatten (t ∷ ss)) part))

pub length-append_last :
    (part : List ℕ) (ss : List (List ℕ)) → length (append_last part ss) ≡ length ss
length-append_last part [] = refl
length-append_last part (s ∷ []) = refl
length-append_last part (s ∷ t ∷ ss) = ap suc (length-append_last part (t ∷ ss))

pub All-append_last :
    (part : List ℕ) (ss : List (List ℕ)) → All NonEmpty ss → All NonEmpty (append_last part ss)
All-append_last part [] a = tt
All-append_last part (s ∷ []) a = (omega (arith, length-append s part, a.0), tt)
All-append_last part (s ∷ t ∷ ss) a = (a.0, All-append_last part (t ∷ ss) a.1)

pub last_size-le : (ss : List (List ℕ)) → last_size ss ≤ length (flatten ss)
last_size-le [] = omega arith
last_size-le (s ∷ []) = omega (arith, length-append s [])
last_size-le (s ∷ t ∷ ss) = omega (arith, last_size-le (t ∷ ss), length-append s (flatten (t ∷ ss)))
