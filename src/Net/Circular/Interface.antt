-- ===== src/Net/Circular/Interface.antt =====
-- `boost::circular_buffer<A>` as an interface: what Boost documents of the operations that the
-- network code calls. The two segments in order are the contents.
use bbtools_infra.Common.{ℕ, ◌+◌, ◌≤◌, ◌≡◌, List, [], ◌∷◌, ◌++◌, length, drop}

pub record CircularBuffer (A : Type 0) : Type 1 where
  pub Buf : Type 0
  -- `circular_buffer(capacity)`; a moved-from buffer is `make 0`.
  pub make : ℕ → Buf
  pub capacity : Buf → ℕ
  pub array_one : Buf → List A
  pub array_two : Buf → List A
  pub set_capacity : ℕ → Buf → Buf
  -- `insert(end(), first, last)`; `push_back(x)` inserts one element.
  pub insert_end : List A → Buf → Buf
  pub erase_begin : ℕ → Buf → Buf
  pub clear : Buf → Buf
  pub array_two_after_one : (b : Buf) → array_one b ≡ [] → array_two b ≡ []
  pub size-le-capacity : (b : Buf) → length (array_one b ++ array_two b) ≤ capacity b
  pub contents-make : (n : ℕ) → array_one (make n) ++ array_two (make n) ≡ []
  pub capacity-make : (n : ℕ) → capacity (make n) ≡ n
  pub contents-set_capacity :
      (n : ℕ) (b : Buf)
      → length (array_one b ++ array_two b) ≤ n
      → array_one (set_capacity n b) ++ array_two (set_capacity n b) ≡ array_one b ++ array_two b
  pub capacity-set_capacity : (n : ℕ) (b : Buf) → capacity (set_capacity n b) ≡ n
  pub contents-insert_end :
      (xs : List A) (b : Buf)
      → length (array_one b ++ array_two b) + length xs ≤ capacity b
      → array_one (insert_end xs b) ++ array_two (insert_end xs b)
        ≡ (array_one b ++ array_two b) ++ xs
  pub capacity-insert_end : (xs : List A) (b : Buf) → capacity (insert_end xs b) ≡ capacity b
  pub contents-erase_begin :
      (n : ℕ) (b : Buf)
      → n ≤ length (array_one b ++ array_two b)
      → array_one (erase_begin n b) ++ array_two (erase_begin n b)
        ≡ drop n (array_one b ++ array_two b)
  pub capacity-erase_begin : (n : ℕ) (b : Buf) → capacity (erase_begin n b) ≡ capacity b
  pub contents-clear : (b : Buf) → array_one (clear b) ++ array_two (clear b) ≡ []
  pub capacity-clear : (b : Buf) → capacity (clear b) ≡ capacity b

module _ {A : Type 0} (C : CircularBuffer A) where
  open C use {Buf, array_one, array_two}

  abbrev pub contents : Buf → List A
  contents b = array_one b ++ array_two b

  abbrev pub size : Buf → ℕ
  size b = length (contents b)

  abbrev pub push_back : A → Buf → Buf
  push_back x = C.insert_end (x ∷ [])
