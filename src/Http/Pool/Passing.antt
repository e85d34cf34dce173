-- ===== src/Http/Pool/Passing.antt =====
-- Where a connection goes when its holder is done with it, and what a sweep retires.
use bbtools_infra.Common.{
  ℕ, ◌+◌, ◌≤◌, ◌≡◌, refl, ◌⊎◌, inl, inr, Bool, false, ◌&&◌, ◌||◌, not, Option, none, some, List, [],
  ◌∷◌, arith, ◌==◌, ltb, if◌then◌else◌, length, Bool-cases, if_rule, ==_iff,
}
use bbtools_infra.Http.Pool.State.{
  Origin, is_idle, is_retiring, Entry, Waiter, PoolLimits, is_open, Pool, is_some, has_connection,
  wrapped, find_first, change_first, queued, count_idle,
}
use bbtools_infra.Http.Pool.Locked.{
  Sight, retired, retire, idled, admit_to_idle, waits_for, given, made_active, pass_on, returned,
  find_entry, sweep_entries, sweep, is_released, is_spent,
}
use bbtools_infra.Http.Pool.Owners.{
  one, idle_count, handed_count, Change, nothing, Change-refl, Change-then, length-change_first,
  Change-entries, Change-retire, and_right,
}

-- The entry of the connection becomes idle.
idle_count-idled :
    (n id now : ℕ) (expiry : Option ℕ) (es : List Entry)
    → idle_count n (change_first (has_connection id) (idled expiry now) es)
      ≤ idle_count n es + one id n
idle_count-idled n id now expiry [] = omega arith
idle_count-idled n id now expiry (e ∷ es) = elim (Bool-cases (has_connection id e)) [
  | inl k ↦
      let same : wrapped e ≡ id =
        (==_iff (wrapped e) id).0 (and_right (is_some e.connection) (wrapped e == id) k) in
      rw (k, same) (omega arith)
  | inr k ↦ let ih = idle_count-idled n id now expiry es in rw k (omega (arith, ih))
]

Change-idled :
    (id now : ℕ) (p : Pool)
    → Change (one id) p (record p {
      entries = change_first (has_connection id) (idled p.limits.keepalive_expiry now) p.entries;
    })
Change-idled id now p = record {
  same_limits = refl;
  same_inflight = refl;
  entries_le = omega (
    arith,
    length-change_first (has_connection id) (idled p.limits.keepalive_expiry now) p.entries,
  );
  same_waiters = refl;
  queue_le = omega arith;
  owned_le = λ n. omega (arith, idle_count-idled n id now p.limits.keepalive_expiry p.entries);
}

-- A change that gains nothing gains at most anything.
pub Change-weaken : (f : ℕ → ℕ) (p q : Pool) → Change nothing p q → Change f p q
Change-weaken f p q c = record {
  same_limits = c.same_limits;
  same_inflight = c.same_inflight;
  entries_le = c.entries_le;
  same_waiters = c.same_waiters;
  queue_le = c.queue_le;
  owned_le = λ n. omega (arith, c.owned_le n);
}

Change-admit : (now id : ℕ) (p : Pool) → Change (one id) p (admit_to_idle now id p)
unfolding admit_to_idle
Change-admit now id p =
    let r = retire (has_connection id) p in
    let away = Change-weaken (one id) p r (Change-retire p (has_connection id)) in
    let stays = record p {
      entries = change_first (has_connection id) (idled p.limits.keepalive_expiry now) p.entries;
    } in
    if_rule (Change (one id) p) (not (is_open p.phase)) r
      (if ltb (count_idle p.entries) p.limits.max_keepalive_connections then stays else r)
      (λ _. away)
      (λ _.
        if_rule (Change (one id) p) (ltb (count_idle p.entries) p.limits.max_keepalive_connections)
          stays r (λ _. Change-idled id now p) (λ _. away))

-- A waiter gets the connection; it held at least nothing before.
handed_count-given :
    (n id : ℕ) (test : Waiter → Bool) (ws : List Waiter)
    → handed_count n (change_first test (given id) ws) ≤ handed_count n ws + one id n
handed_count-given n id test [] = omega arith
handed_count-given n id test (w ∷ ws) = elim (Bool-cases (test w)) [
  | inl k ↦ rw k (omega arith)
  | inr k ↦ let ih = handed_count-given n id test ws in rw k (omega (arith, ih))
]

-- A change that puts no waiter into the deque.
queued-change_first :
    (test : Waiter → Bool) (f : Waiter → Waiter)
    → ((w : Waiter) → (f w).in_queue ≡ false ⊎ ((f w).in_queue ≡ w.in_queue))
    → (ws : List Waiter) → queued (change_first test f ws) ≤ queued ws
queued-change_first test f h [] = omega arith
queued-change_first test f h (w ∷ ws) = elim (Bool-cases (test w)) [
  | inl k ↦ elim (h w) [ inl e ↦ rw (k, e) (omega arith) | inr e ↦ rw (k, e) (omega arith) ]
  | inr k ↦ let ih = queued-change_first test f h ws in rw k (omega (arith, ih))
]

pub Change-given :
    (id : ℕ) (p : Pool) (test : Waiter → Bool)
    → Change (one id) p (record p { waiters = change_first test (given id) p.waiters })
Change-given id p test = record {
  same_limits = refl;
  same_inflight = refl;
  entries_le = omega arith;
  same_waiters = length-change_first test (given id) p.waiters;
  queue_le = queued-change_first test (given id) (λ w. inl refl) p.waiters;
  owned_le = λ n. omega (arith, handed_count-given n id test p.waiters);
}

Change-pass_on :
    (now id : ℕ) (origin : Origin) (p : Pool) → Change (one id) p (pass_on now id origin p)
unfolding pass_on
Change-pass_on now id origin p =
    let q = record p { entries = change_first (has_connection id) made_active p.entries } in
    let r = record q { waiters = change_first (waits_for origin) (given id) p.waiters } in
    if_rule (Change (one id) p) (is_some (find_first (waits_for origin) p.waiters)) r
      (admit_to_idle now id p)
      (λ _.
        Change-then (one id) p q r (Change-entries p (has_connection id) made_active (λ e. refl))
          (Change-given id q (waits_for origin)))
      (λ _. Change-admit now id p)

found_returned :
    (healthy : Bool) (now id : ℕ) (p : Pool) (o : Option Entry)
    → Change (one id) p (elim o [
      | none ↦ p
      | some e ↦
          if not healthy || not (is_open p.phase)
          then retire (has_connection id) p
          else pass_on now id e.origin p
    ])
found_returned healthy now id p none = Change-weaken (one id) p p (Change-refl p)
found_returned healthy now id p (some e) =
    if_rule (Change (one id) p) (not healthy || not (is_open p.phase))
      (retire (has_connection id) p) (pass_on now id e.origin p)
      (λ _.
        Change-weaken (one id) p (retire (has_connection id) p)
          (Change-retire p (has_connection id)))
      (λ _. Change-pass_on now id e.origin p)

-- A connection whose holder is done with it becomes idle, goes to one waiter, or is retired.
pub Change-returned :
    (healthy : Bool) (now id : ℕ) (p : Pool) → Change (one id) p (returned healthy now id p)
unfolding returned
Change-returned healthy now id p = found_returned healthy now id p (find_entry id p)

idle_count-sweep :
    (n : ℕ) (s : Sight) (limits : PoolLimits) (es : List Entry)
    → (idle_count n (sweep_entries s limits es) ≤ idle_count n es)
      × (length (sweep_entries s limits es) ≤ length es)
unfolding sweep_entries
idle_count-sweep n s limits [] = (omega arith, omega arith)
idle_count-sweep n s limits (e ∷ es) =
    let ih = idle_count-sweep n s limits es in
    let rest = sweep_entries s limits es in
    if_rule (λ xs. (idle_count n xs ≤ idle_count n (e ∷ es)) × (length xs ≤ length (e ∷ es)))
      (is_retiring e.phase && is_released s e) rest
      (if is_idle e.phase && is_spent s limits e then retired e ∷ rest else e ∷ rest)
      (λ _. (omega (arith, ih.0), omega (arith, ih.1)))
      (λ _.
        if_rule (λ xs. (idle_count n xs ≤ idle_count n (e ∷ es)) × (length xs ≤ length (e ∷ es)))
          (is_idle e.phase && is_spent s limits e) (retired e ∷ rest) (e ∷ rest)
          (λ _. (omega (arith, ih.0), omega (arith, ih.1)))
          (λ _. (omega (arith, ih.0), omega (arith, ih.1))))

pub Change-sweep : (s : Sight) (p : Pool) → Change nothing p (sweep s p)
Change-sweep s p = record {
  same_limits = refl;
  same_inflight = refl;
  entries_le = (idle_count-sweep 0 s p.limits p.entries).1;
  same_waiters = refl;
  queue_le = omega arith;
  owned_le = λ n. omega (arith, (idle_count-sweep n s p.limits p.entries).0);
}
