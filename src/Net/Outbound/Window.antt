-- ===== src/Net/Outbound/Window.antt =====
-- The bytes of a ring as a window that goes round its end, what a copy into the ring does to it, and
-- how it splits into the two stretches that lie in one piece.
use bbtools_infra.Common.{
  ℕ, zero, suc, ◌+◌, ◌-◌, ◌%◌, ◌^◌, ◌≤◌, ◌<◌, ◌≡◌, refl, sym, ap, ◌∙◌, ◌⊎◌, inl, inr, List, [], ◌∷◌,
  ◌++◌, arith, ltb, leb, ◌&&◌, if◌then◌else◌, length, take, drop, get_or, tabulate, tabulate_congr,
  tabulate_add, drop-tabulate, tabulate-get_or, length-take, length-drop, add_size, sub_size,
}
use mathlib.Core.Path.{ap₂}
use bbtools_infra.Net.Outbound.{write_at, ring_write}
use native.Mathlib.Nat.{mod-add-mod, mod-eq_of_lt, mod-eq-sub-mod, mod-lt}
use native.Mathlib.Decide.{dec_lt}

-- An index less than twice round the ring.
pub wrap_cases : (x c : ℕ) → x < c + c → ((x < c) × (x % c ≡ x)) ⊎ ((c ≤ x) × (x % c ≡ x - c))
wrap_cases x c h = elim (dec_lt x c) [
  | yes p ↦ inl (p, mod-eq_of_lt p)
  | no p ↦ inr (
    omega arith,
    mod-eq-sub-mod {n = x} {m = c} (omega arith) ∙ mod-eq_of_lt {n = x - c} {m = c} (omega arith),
  )
]

abbrev pub window : List ℕ → ℕ → ℕ → List ℕ
window ring head size = tabulate size (λ i. get_or ring ((head + i) % length ring) 0)

pub length-write_at : (pos : ℕ) (bytes xs : List ℕ) → length (write_at pos bytes xs) ≡ length xs
unfolding write_at
length-write_at pos bytes [] = refl
length-write_at (suc pos) bytes (x ∷ xs) = ap suc (length-write_at pos bytes xs)
length-write_at zero [] (x ∷ xs) = refl
length-write_at zero (b ∷ bytes) (x ∷ xs) = ap suc (length-write_at zero bytes xs)

-- A copy is read back at the places that it wrote, and nowhere else.
pub get_or-write_at :
    (pos : ℕ) (bytes xs : List ℕ) (j : ℕ)
    → j < length xs
    → get_or (write_at pos bytes xs) j 0 ≡ (
        if leb pos j && ltb j (pos + length bytes) then get_or bytes (j - pos) 0 else get_or xs j 0)
unfolding write_at
get_or-write_at pos bytes [] j h = absurd (omega arith)
get_or-write_at (suc pos) bytes (x ∷ xs) zero h = ground arith
get_or-write_at (suc pos) bytes (x ∷ xs) (suc j) h = ground (arith, get_or-write_at pos bytes xs j)
get_or-write_at zero [] (x ∷ xs) j h = ground arith
get_or-write_at zero (b ∷ bytes) (x ∷ xs) zero h = ground arith
get_or-write_at zero (b ∷ bytes) (x ∷ xs) (suc j) h =
    ground (arith, get_or-write_at zero bytes xs j)

pub get_or-take : (n : ℕ) (xs : List ℕ) (j : ℕ) → j < n → get_or (take n xs) j 0 ≡ get_or xs j 0
get_or-take zero xs j h = absurd (omega arith)
get_or-take (suc n) [] j h = refl
get_or-take (suc n) (x ∷ xs) zero h = refl
get_or-take (suc n) (x ∷ xs) (suc j) h = get_or-take n xs j (omega arith)

pub get_or-drop : (n : ℕ) (xs : List ℕ) (j : ℕ) → get_or (drop n xs) j 0 ≡ get_or xs (n + j) 0
get_or-drop zero xs j = ap (λ k. get_or xs k 0) (omega arith)
get_or-drop (suc n) [] j = refl
get_or-drop (suc n) (x ∷ xs) j =
    get_or-drop n xs j
    ∙ ap (λ k. get_or (x ∷ xs) k 0) (let e : suc (n + j) ≡ suc n + j = omega arith in e)

-- A stretch that does not reach the end of the ring is a slice of it.
pub tabulate-slice :
    (xs : List ℕ) (from n : ℕ)
    → from + n ≤ length xs
    → tabulate n (λ i. get_or xs (from + i) 0) ≡ take n (drop from xs)
tabulate-slice xs from n h =
    tabulate_congr n (λ i. get_or xs (from + i) 0) (λ i. get_or (take n (drop from xs)) i 0)
      (λ i p. sym (get_or-take n (drop from xs) i p ∙ get_or-drop from xs i))
    ∙ ap (λ k. tabulate k (λ i. get_or (take n (drop from xs)) i 0))
        (omega (arith, length-take n (drop from xs), length-drop from xs))
    ∙ tabulate-get_or (take n (drop from xs)) 0

-- Taking `n` bytes from the front moves the head and shortens the window.
pub window-drop :
    (ring : List ℕ) (head size n : ℕ)
    → n ≤ size
    → window ring ((head + n) % length ring) (size - n) ≡ drop n (window ring head size)
window-drop ring head size n h =
    tabulate_congr (size - n) _ _ (λ i _.
      ap (λ k. get_or ring k 0)
        (mod-add-mod (head + n) (length ring) i ∙ ap (λ k. k % length ring) (omega arith)))
    ∙ sym (drop-tabulate n size (λ i. get_or ring ((head + i) % length ring) 0) h)

-- A window that goes round the end is two slices.
pub window-two :
    (ring : List ℕ) (head size first : ℕ)
    → head < length ring
    → size ≤ length ring
    → first ≤ size
    → head + first ≤ length ring
    → (head + first ≡ length ring) ⊎ (first ≡ size)
    → window ring head size ≡ take first (drop head ring) ++ take (size - first) ring
window-two ring head size first hh hs hf hfit e =
    ap (λ k. tabulate k at) (let e' : size ≡ first + (size - first) = omega arith in e')
    ∙ tabulate_add first (size - first) at
    ∙ ap₂ ◌++◌
        (tabulate_congr first at (λ i. get_or ring (head + i) 0) low
          ∙ tabulate-slice ring head first hfit)
        (tabulate_congr (size - first) (λ i. at (first + i)) (λ i. get_or ring (0 + i) 0) high
          ∙ tabulate-slice ring 0 (size - first) (omega arith))
  where
    at : ℕ → ℕ
    at i = get_or ring ((head + i) % length ring) 0

    low : (i : ℕ) → i < first → at i ≡ get_or ring (head + i) 0
    low i p = ap (λ k. get_or ring k 0) (mod-eq_of_lt (omega arith))

    high : (i : ℕ) → i < size - first → at (first + i) ≡ get_or ring (0 + i) 0
    high i p =
        ap (λ k. get_or ring k 0)
          (ground (arith, wrap_cases (head + (first + i)) (length ring) (omega arith)))

-- Two copies, the rest of the bytes at the front of the ring.
copy_twice :
    (ring bytes : List ℕ) (pos first j : ℕ)
    → j < length ring
    → first ≤ length bytes
    → get_or
        (if ltb first (length bytes)
          then write_at 0 (drop first bytes) (write_at pos (take first bytes) ring)
          else write_at pos (take first bytes) ring)
        j
        0
      ≡ (if ltb j (length bytes - first)
          then get_or bytes (first + j) 0
          else if leb pos j && ltb j (pos + first)
          then get_or bytes (j - pos) 0
          else get_or ring j 0)
copy_twice ring bytes pos first j h hf = ground (
  arith,
  get_or-write_at 0 (drop first bytes) (write_at pos (take first bytes) ring) j,
  get_or-write_at pos (take first bytes) ring j,
  length-write_at pos (take first bytes) ring,
  length-take first bytes,
  length-drop first bytes,
  get_or-take first bytes (j - pos),
  get_or-drop first bytes j,
)

module _ (ring bytes : List ℕ) (head size : ℕ) (sized : length ring < 2 ^ 63)
    (inside : head < length ring) (room : size + length bytes ≤ length ring) where
  abbrev write_pos : ℕ
  write_pos = add_size head size % length ring

  abbrev tail_space : ℕ
  tail_space = sub_size (length ring) write_pos

  abbrev first_part : ℕ
  first_part = if ltb (length bytes) tail_space then length bytes else tail_space

  write_pos-cases :
      ((head + size < length ring) × (write_pos ≡ head + size))
      ⊎ ((length ring ≤ head + size) × (write_pos ≡ head + size - length ring))
  write_pos-cases =
      let e : add_size head size ≡ head + size = omega arith in
      rw e (wrap_cases (head + size) (length ring) (omega arith))

  tail_space_lem : tail_space ≡ length ring - write_pos
  tail_space_lem = omega (arith, write_pos-cases)

  first_part_lem :
      ((first_part ≡ length bytes) × (write_pos + length bytes ≤ length ring))
      ⊎ ((write_pos + first_part ≡ length ring) × (first_part ≤ length bytes))
  first_part_lem = ground (arith, tail_space_lem, write_pos-cases)

  get_or-ring_write :
      (j : ℕ)
      → j < length ring
      → get_or (ring_write ring head size bytes) j 0 ≡ (
          if ltb j (length bytes - first_part)
          then get_or bytes (first_part + j) 0
          else if leb write_pos j && ltb j (write_pos + first_part)
          then get_or bytes (j - write_pos) 0
          else get_or ring j 0)
  get_or-ring_write j h =
      copy_twice ring bytes write_pos first_part j h (omega (arith, first_part_lem))

  pub length-ring_write : length (ring_write ring head size bytes) ≡ length ring
  length-ring_write = ground (
    arith,
    length-write_at 0 (drop first_part bytes) (write_at write_pos (take first_part bytes) ring),
    length-write_at write_pos (take first_part bytes) ring,
  )

  abbrev written : List ℕ
  written = ring_write ring head size bytes

  old_bytes :
      (i : ℕ)
      → i < size
      → get_or written ((head + i) % length ring) 0 ≡ get_or ring ((head + i) % length ring) 0
  old_bytes i p = ground (
    arith,
    get_or-ring_write ((head + i) % length ring) (mod-lt (head + i) (omega arith)),
    wrap_cases (head + i) (length ring) (omega arith),
    first_part_lem,
    write_pos-cases,
  )

  new_bytes :
      (i : ℕ)
      → i < length bytes
      → get_or written ((head + (size + i)) % length ring) 0 ≡ get_or bytes i 0
  new_bytes i p = ground (
    arith,
    get_or-ring_write ((head + (size + i)) % length ring)
        (mod-lt (head + (size + i)) (omega arith)),
    wrap_cases (head + (size + i)) (length ring) (omega arith),
    first_part_lem,
    write_pos-cases,
  )

  pub window-ring_write :
      window (ring_write ring head size bytes) head (size + length bytes)
      ≡ window ring head size ++ bytes
  window-ring_write = rw length-ring_write (
      tabulate_add size (length bytes) (λ i. get_or written ((head + i) % length ring) 0)
      ∙ ap₂ ◌++◌ (tabulate_congr size _ _ old_bytes) (
          tabulate_congr (length bytes) _ (λ i. get_or bytes i 0) new_bytes
          ∙ tabulate-get_or bytes 0))
