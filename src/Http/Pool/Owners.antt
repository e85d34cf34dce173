-- ===== src/Http/Pool/Owners.antt =====
-- Who holds a connection: what the helpers do to the counts of the connections that are idle or
-- handed to a waiter.
use bbtools_infra.Common.{
  ℕ, ◌+◌, ◌≤◌, ◌≡◌, refl, sym, ap, ◌∙◌, inl, inr, Bool, true, false, ◌&&◌, Option, none, some, List,
  [], ◌∷◌, arith, ◌==◌, if◌then◌else◌, length, Bool-cases,
}
use bbtools_infra.Http.Pool.State.{
  Origin, same_origin, is_idle, Entry, Waiter, Pool, wrapped, find_first, change_first, queued,
}
use bbtools_infra.Http.Pool.Locked.{retired, retire, is_reusable, activated, take_idle}

abbrev pub one : ℕ → ℕ → ℕ
one id n = if id == n then 1 else 0

-- The idle entries of connection `n`, and the waiters that hold it.
abbrev pub idle_count : ℕ → List Entry → ℕ
idle_count n [] = 0
idle_count n (e ∷ es) = (if is_idle e.phase then one (wrapped e) n else 0) + idle_count n es

abbrev pub handed : ℕ → Waiter → ℕ
handed n w = elim w.handed [ none ↦ 0 | some id ↦ one id n ]

abbrev pub handed_count : ℕ → List Waiter → ℕ
handed_count n [] = 0
handed_count n (w ∷ ws) = handed n w + handed_count n ws

abbrev pub owned : ℕ → Pool → ℕ
owned n p = handed_count n p.waiters + idle_count n p.entries

-- From `p` to `p'` no entry, no waiter and no call is added, and connection `n` is idle or handed
-- over at most `gain n` times more.
pub record Change (gain : ℕ → ℕ) (p p' : Pool) : Type 0 where
  pub same_limits : p'.limits ≡ p.limits
  pub same_inflight : p'.inflight ≡ p.inflight
  pub entries_le : length p'.entries ≤ length p.entries
  pub same_waiters : length p'.waiters ≡ length p.waiters
  pub queue_le : queued p'.waiters ≤ queued p.waiters
  pub owned_le : (n : ℕ) → owned n p' ≤ owned n p + gain n

abbrev pub nothing : ℕ → ℕ
nothing n = 0

pub Change-refl : (p : Pool) → Change nothing p p
Change-refl p = record {
  same_limits = refl;
  same_inflight = refl;
  entries_le = omega arith;
  same_waiters = refl;
  queue_le = omega arith;
  owned_le = λ n. omega arith;
}

pub Change-then : (g : ℕ → ℕ) (p q r : Pool) → Change nothing p q → Change g q r → Change g p r
Change-then g p q r a b = record {
  same_limits = b.same_limits ∙ a.same_limits;
  same_inflight = b.same_inflight ∙ a.same_inflight;
  entries_le = omega (arith, a.entries_le, b.entries_le);
  same_waiters = b.same_waiters ∙ a.same_waiters;
  queue_le = omega (arith, a.queue_le, b.queue_le);
  owned_le = λ n. omega (arith, a.owned_le n, b.owned_le n);
}

pub length-change_first {ℓ} :
    {A : Type ℓ} (test : A → Bool) (f : A → A) (xs : List A)
    → length (change_first test f xs) ≡ length xs
length-change_first test f [] = refl
length-change_first test f (x ∷ xs) = let ih = length-change_first test f xs in ground (arith, ih)

-- A change that makes no entry idle.
idle_count-change_first :
    (n : ℕ) (test : Entry → Bool) (f : Entry → Entry)
    → ((e : Entry) → is_idle (f e).phase ≡ false)
    → (es : List Entry) → idle_count n (change_first test f es) ≤ idle_count n es
idle_count-change_first n test f h [] = omega arith
idle_count-change_first n test f h (e ∷ es) =
    let ih = idle_count-change_first n test f h es in
    elim (Bool-cases (test e)) [
      | inl k ↦ rw (k, h e) (omega arith)
      | inr k ↦ rw k (omega (arith, ih))
    ]

pub Change-entries :
    (p : Pool) (test : Entry → Bool) (f : Entry → Entry)
    → ((e : Entry) → is_idle (f e).phase ≡ false)
    → Change nothing p (record p { entries = change_first test f p.entries })
Change-entries p test f h = record {
  same_limits = refl;
  same_inflight = refl;
  entries_le = omega (arith, length-change_first test f p.entries);
  same_waiters = refl;
  queue_le = omega arith;
  owned_le = λ n. omega (arith, idle_count-change_first n test f h p.entries);
}

pub Change-retire : (p : Pool) (test : Entry → Bool) → Change nothing p (retire test p)
Change-retire p test = Change-entries p test retired (λ e. refl)

and_left : (a b : Bool) → a && b ≡ true → a ≡ true
and_left true b h = refl
and_left false b h = cc

pub and_right : (a b : Bool) → a && b ≡ true → b ≡ true
and_right true b h = h
and_right false b h = cc

abbrev taken_id : Option Entry → ℕ
taken_id none = 0
taken_id (some e) = wrapped e

-- The entry taken was idle, and is no longer.
idle_count-taken :
    (n : ℕ) (origin : Origin) (es : List Entry) (e : Entry)
    → find_first (is_reusable origin) es ≡ some e
    → idle_count n (change_first (is_reusable origin) activated es) + one (wrapped e) n
      ≡ idle_count n es
idle_count-taken n origin [] e h = cc
idle_count-taken n origin (x ∷ es) e h = elim (Bool-cases (is_reusable origin x)) [
  | inl k ↦
      let j = and_left (is_idle x.phase) (same_origin x.origin origin) k in
      let same = ap taken_id (rw k at h) in rw (k, j, sym same) (omega arith)
  | inr k ↦ let ih = idle_count-taken n origin es e (rw k at h) in rw k (omega (arith, ih))
]

-- `TakeIdleLocked` moves one connection, of an idle entry, to the caller.
pub data Taken (p : Pool) : Option ℕ × Pool → Type 0 where
  none_idle : Taken p (none, p)
  one_taken :
      (id : ℕ) (p' : Pool)
      → Change nothing p p'
      → ((n : ℕ) → owned n p' + one id n ≤ owned n p)
      → Taken p (some id, p')

take_found :
    (origin : Origin) (p : Pool) (o : Option Entry)
    → find_first (is_reusable origin) p.entries ≡ o
    → Taken p (elim o [
      | none ↦ (none, p)
      | some e ↦ (
        some (wrapped e),
        record p { entries = change_first (is_reusable origin) activated p.entries },
      )
    ])
take_found origin p none h = none_idle
take_found origin p (some e) h =
    one_taken (wrapped e)
      (record p { entries = change_first (is_reusable origin) activated p.entries })
      (Change-entries p (is_reusable origin) activated (λ e. refl))
      (λ n. omega (arith, idle_count-taken n origin p.entries e h))

pub take_idle-Taken : (origin : Origin) (p : Pool) → Taken p (take_idle origin p)
unfolding take_idle
take_idle-Taken origin p = take_found origin p (find_first (is_reusable origin) p.entries) refl
