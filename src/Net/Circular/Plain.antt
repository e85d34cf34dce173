-- ===== src/Net/Circular/Plain.antt =====
-- A list with a capacity meets the interface. Its first segment holds the first element alone, so
-- that both segments are in use; an insertion that does not fit keeps what does. The proofs that its
-- fields cite are public, so that the buffer computes elsewhere.
use bbtools_infra.Common.{
  ℕ, ◌+◌, ◌≤◌, ◌≡◌, refl, sym, ap, ◌∙◌, List, [], ◌∷◌, ◌++◌, arith, length, take, drop, take_all,
  take-append-drop, length-take, length-drop, length-append,
}
use bbtools_infra.Net.Circular.Interface.{CircularBuffer}

pub record Held (A : Type 0) : Type 0 where
  pub items : List A
  pub room : ℕ
  pub fits : length items ≤ room

module _ {A : Type 0} where
  abbrev pub cut : ℕ → List A → Held A
  cut n xs = record { items = take n xs; room = n; fits = omega (arith, length-take n xs) }

  abbrev pub one : Held A → List A
  one b = take 1 b.items

  abbrev pub two : Held A → List A
  two b = drop 1 b.items

  pub two_after_one : (b : Held A) → one b ≡ [] → two b ≡ []
  two_after_one b h = go b.items h
    where
      go : (xs : List A) → take 1 xs ≡ [] → drop 1 xs ≡ []
      go [] e = refl
      go (x ∷ xs) e = cc

  pub whole : (b : Held A) → one b ++ two b ≡ b.items
  whole b = take-append-drop 1 b.items

  pub bounded : (b : Held A) → length (one b ++ two b) ≤ b.room
  bounded b = rw (whole b) b.fits

  pub whole-cut : (n : ℕ) (xs : List A) → length xs ≤ n → one (cut n xs) ++ two (cut n xs) ≡ xs
  whole-cut n xs h = whole (cut n xs) ∙ take_all n xs h

  pub erase-fits : (n : ℕ) (b : Held A) → length (drop n b.items) ≤ b.room
  erase-fits n b = let f = b.fits in omega (arith, length-drop n b.items)

  abbrev pub erase : ℕ → Held A → Held A
  erase n b = record { items = drop n b.items; room = b.room; fits = erase-fits n b }

  abbrev pub none_held : ℕ → Held A
  none_held n = record { items = []; room = n; fits = omega arith }

pub set_fits : {A : Type 0} (n : ℕ) (b : Held A) → length (one b ++ two b) ≤ n → length b.items ≤ n
set_fits n b h = rw (whole b) at h

pub insert_fits :
    {A : Type 0} (xs : List A) (b : Held A)
    → length (one b ++ two b) + length xs ≤ b.room
    → length (b.items ++ xs) ≤ b.room
insert_fits xs b h = omega (arith, length-append b.items xs, ap length (whole b))

abbrev pub plain : (A : Type 0) → CircularBuffer A
plain A = record {
  Buf = Held A;
  make = none_held;
  capacity = λ b. b.room;
  array_one = one;
  array_two = two;
  set_capacity = λ n b. cut n b.items;
  insert_end = λ xs b. cut b.room (b.items ++ xs);
  erase_begin = erase;
  clear = λ b. none_held b.room;
  array_two_after_one = two_after_one;
  size-le-capacity = bounded;
  contents-make = λ n. refl;
  capacity-make = λ n. refl;
  contents-set_capacity = λ n b h. whole-cut n b.items (set_fits n b h) ∙ sym (whole b);
  capacity-set_capacity = λ n b. refl;
  contents-insert_end = λ xs b h.
      whole-cut b.room (b.items ++ xs) (insert_fits xs b h) ∙ ap (λ ys. ys ++ xs) (sym (whole b));
  capacity-insert_end = λ xs b. refl;
  contents-erase_begin = λ n b h. whole (erase n b) ∙ ap (drop n) (sym (whole b));
  capacity-erase_begin = λ n b. refl;
  contents-clear = λ b. refl;
  capacity-clear = λ b. refl;
}
