-- ===== src/Http/Pool/Sections.antt =====
-- How the sections of an acquiring call end, and what they leave of the pool.
use bbtools_infra.Common.{
  ℕ, Bool, if◌then◌else◌, ◌+◌, ◌≤◌, ◌≡◌, refl, ap, ◌∙◌, inl, inr, ◌||◌, not, Option, List, [], ◌∷◌,
  ◌++◌, arith, ltb, leb, length, length-append, Bool-cases, if_rule, ltb→lt, leb→lt,
}
use bbtools_infra.Rpc.Errors.{Error}
use bbtools_infra.Http.Pool.State.{
  Origin, Entry, Waiter, PoolLimits, is_open, Pool, closed_error, change_first, queued,
}
use bbtools_infra.Http.Pool.Locked.{
  Sight, at_place, take_idle, is_other_idle, retire_other_idle, sweep,
}
use bbtools_infra.Http.Pool.Acquire.{
  Section, leased, dials, waits, fails, goes_on, throws, or_else, fast_section, new_entry,
  with_entry, with_waiter, reserve, reserve_section, new_waiter, enqueue, queue_section, notified,
  notify, handed_over, has_handed, registered, queue_full,
}
use bbtools_infra.Http.Pool.Owners.{
  one, idle_count, handed_count, owned, Change, nothing, Change-refl, Change-then, Change-retire,
  Taken, none_idle, one_taken, take_idle-Taken, length-change_first,
}
use bbtools_infra.Http.Pool.Passing.{Change-given, Change-sweep}

-- The ends of a section, by what it has done to the pool.
pub data Ends (p : Pool) : Section × Pool → Type 0 where
  -- A connection that was idle is lent out.
  lends :
      (id : ℕ) (p' : Pool)
      → Change nothing p p'
      → ((n : ℕ) → owned n p' + one id n ≤ owned n p)
      → Ends p (leased id, p')
  -- An entry more, within the budget.
  adds_entry :
      (place : ℕ) (q p' : Pool)
      → Change nothing p q
      → length p'.entries ≤ p.limits.max_connections
      → p'.limits ≡ q.limits
      → p'.inflight ≡ q.inflight
      → p'.waiters ≡ q.waiters
      → ((n : ℕ) → owned n p' ≤ owned n q)
      → Ends p (dials place, p')
  -- A waiter more, within the bound of the queue.
  adds_waiter :
      (place : ℕ) (q p' : Pool)
      → Change nothing p q
      → queued p'.waiters ≤ p.limits.max_queue
      → p'.limits ≡ q.limits
      → p'.inflight ≡ q.inflight
      → p'.entries ≡ q.entries
      → length p'.waiters ≡ length q.waiters + 1
      → ((n : ℕ) → owned n p' ≤ owned n q)
      → Ends p (waits place, p')
  stops : (e : Error) (p' : Pool) → Change nothing p p' → Ends p (fails e, p')
  continues : (p' : Pool) → Change nothing p p' → Ends p (goes_on, p')
  breaks : (p' : Pool) → Change nothing p p' → Ends p (throws, p')

-- A section that follows a change that gains nothing.
Ends-then : (p q : Pool) (r : Section × Pool) → Change nothing p q → Ends q r → Ends p r
Ends-then p q r c (lends id p' d loss) =
    lends id p' (Change-then nothing p q p' c d) (λ n. omega (arith, loss n, c.owned_le n))
Ends-then p q r c (adds_entry place q' p' d fits l i w o) =
    adds_entry place q' p' (Change-then nothing p q q' c d)
      (omega (arith, fits, ap (λ (x : PoolLimits). x.max_connections) c.same_limits)) l i w o
Ends-then p q r c (adds_waiter place q' p' d fits l i e w o) =
    adds_waiter place q' p' (Change-then nothing p q q' c d)
      (omega (arith, fits, ap (λ (x : PoolLimits). x.max_queue) c.same_limits)) l i e w o
Ends-then p q r c (stops e p' d) = stops e p' (Change-then nothing p q p' c d)
Ends-then p q r c (continues p' d) = continues p' (Change-then nothing p q p' c d)
Ends-then p q r c (breaks p' d) = breaks p' (Change-then nothing p q p' c d)

or_else-Ends :
    (next : Pool → Section × Pool) (p : Pool) (t : Option ℕ × Pool)
    → Taken p t
    → ((q : Pool) → Ends q (next q))
    → Ends p (or_else next t)
or_else-Ends next p t none_idle h = h p
or_else-Ends next p t (one_taken id p' c loss) h = lends id p' c loss

pub fast_section-Ends : (s : Sight) (origin : Origin) (p : Pool) → Ends p (fast_section s origin p)
unfolding fast_section
fast_section-Ends s origin p =
    if_rule (Ends p) (not (is_open p.phase)) (fails (closed_error p), p)
      (or_else (λ q. (goes_on, q)) (take_idle origin (sweep s p)))
      (λ _. stops (closed_error p) p (Change-refl p))
      (λ _.
        Ends-then p (sweep s p) (or_else (λ q. (goes_on, q)) (take_idle origin (sweep s p)))
          (Change-sweep s p)
          (or_else-Ends (λ q. (goes_on, q)) (sweep s p) (take_idle origin (sweep s p))
            (take_idle-Taken origin (sweep s p)) (λ q. continues q (Change-refl q))))

idle_count-append :
    (n : ℕ) (es fs : List Entry) → idle_count n (es ++ fs) ≡ idle_count n es + idle_count n fs
idle_count-append n [] fs = omega arith
idle_count-append n (e ∷ es) fs = omega (arith, idle_count-append n es fs)

handed_count-append :
    (n : ℕ) (vs ws : List Waiter)
    → handed_count n (vs ++ ws) ≡ handed_count n vs + handed_count n ws
handed_count-append n [] ws = omega arith
handed_count-append n (v ∷ vs) ws = omega (arith, handed_count-append n vs ws)

queued-append : (vs ws : List Waiter) → queued (vs ++ ws) ≡ queued vs + queued ws
queued-append [] ws = omega arith
queued-append (v ∷ vs) ws = omega (arith, queued-append vs ws)

reserve-Ends :
    (allocates : Bool) (next : Pool → Section × Pool) (origin : Origin) (p : Pool)
    → ((q : Pool) → Ends q (next q))
    → Ends p (reserve allocates next origin p)
unfolding reserve
reserve-Ends allocates next origin p h =
    let new = new_entry p.next_place origin in
    let p' = with_entry origin p in
    if_rule (Ends p) (ltb (length p.entries) p.limits.max_connections)
      (if allocates then (dials p.next_place, p') else (throws, p)) (next p)
      (λ k.
        if_rule (Ends p) allocates (dials p.next_place, p') (throws, p)
          (λ _.
            adds_entry p.next_place p p' (Change-refl p)
              (omega (
                arith,
                ltb→lt (length p.entries) p.limits.max_connections k,
                length-append p.entries (new ∷ []),
              ))
              refl refl refl (λ n. omega (arith, idle_count-append n p.entries (new ∷ []))))
          (λ _. breaks p (Change-refl p)))
      (λ _. h p)

pub reserve_section-Ends :
    (allocates : Bool) (origin : Origin) (p : Pool) → Ends p (reserve_section allocates origin p)
reserve_section-Ends allocates origin p =
    if_rule (Ends p) (not (is_open p.phase)) (fails (closed_error p), p)
      (reserve allocates (λ q. (goes_on, q)) origin p)
      (λ _. stops (closed_error p) p (Change-refl p))
      (λ _. reserve-Ends allocates (λ q. (goes_on, q)) origin p (λ q. continues q (Change-refl q)))

enqueue-Ends : (allocates : Bool) (origin : Origin) (p : Pool) → Ends p (enqueue allocates origin p)
unfolding enqueue
enqueue-Ends allocates origin p =
    let q = retire_other_idle origin p in
    let new = new_waiter q.next_place origin in
    let p' = with_waiter origin q in
    let c = Change-retire p (is_other_idle origin) in
    if_rule (Ends p) (leb q.limits.max_queue (queued q.waiters)) (fails queue_full, q)
      (if allocates then (waits q.next_place, p') else (throws, q)) (λ _. stops queue_full q c)
      (λ k.
        if_rule (Ends p) allocates (waits q.next_place, p') (throws, q)
          (λ _.
            adds_waiter q.next_place q p' c
              (omega (
                arith,
                leb→lt q.limits.max_queue (queued q.waiters) k,
                queued-append q.waiters (new ∷ []),
              ))
              refl refl refl (length-append q.waiters (new ∷ []))
              (λ n. omega (arith, handed_count-append n q.waiters (new ∷ []))))
          (λ _. breaks q c))

pub queue_section-Ends :
    (allocates : Bool) (s : Sight) (origin : Origin) (p : Pool)
    → Ends p (queue_section allocates s origin p)
unfolding queue_section
queue_section-Ends allocates s origin p =
    let rest =
      or_else (reserve allocates (enqueue allocates origin) origin)
        (take_idle origin (sweep s p)) in
    if_rule (Ends p) (not (is_open p.phase)) (fails (closed_error p), p) rest
      (λ _. stops (closed_error p) p (Change-refl p))
      (λ _. Ends-then p (sweep s p) rest (Change-sweep s p) (
        or_else-Ends (reserve allocates (enqueue allocates origin) origin) (sweep s p)
          (take_idle origin (sweep s p)) (take_idle-Taken origin (sweep s p))
          (λ q.
            reserve-Ends allocates (enqueue allocates origin) origin q
              (enqueue-Ends allocates origin))))

-- A notification hands nothing over.
handed_count-notified :
    (n place : ℕ) (ws : List Waiter)
    → (handed_count n (change_first (at_place place) notified ws) ≡ handed_count n ws)
      × (queued (change_first (at_place place) notified ws) ≡ queued ws)
handed_count-notified n place [] = (refl, refl)
handed_count-notified n place (w ∷ ws) =
    let ih = handed_count-notified n place ws in
    elim (Bool-cases (at_place place w)) [
      | inl k ↦ rw k (refl, refl)
      | inr k ↦ rw k (omega (arith, ih.0), omega (arith, ih.1))
    ]

Change-notify : (place : ℕ) (p : Pool) → Change nothing p (notify place p)
Change-notify place p = record {
  same_limits = refl;
  same_inflight = refl;
  entries_le = omega arith;
  same_waiters = length-change_first (at_place place) notified p.waiters;
  queue_le = omega (arith, (handed_count-notified 0 place p.waiters).1);
  owned_le = λ n. omega (arith, (handed_count-notified n place p.waiters).0);
}

handed_over-Change :
    (place : ℕ) (p : Pool) (t : Option ℕ × Pool)
    → Taken p t
    → Change nothing p (handed_over place t)
handed_over-Change place p t none_idle =
    if_rule (Change nothing p) (ltb (length p.entries) p.limits.max_connections) (notify place p) p
      (λ _. Change-notify place p) (λ _. Change-refl p)
handed_over-Change place p t (one_taken id p' c loss) =
    let d = Change-given id p' (at_place place) in
    record {
      same_limits = d.same_limits ∙ c.same_limits;
      same_inflight = d.same_inflight ∙ c.same_inflight;
      entries_le = omega (arith, c.entries_le, d.entries_le);
      same_waiters = d.same_waiters ∙ c.same_waiters;
      queue_le = omega (arith, c.queue_le, d.queue_le);
      owned_le = λ n. omega (arith, loss n, d.owned_le n);
    }

pub registered-Change : (s : Sight) (w : Waiter) (p : Pool) → Change nothing p (registered s w p)
unfolding registered
registered-Change s w p =
    if_rule (Change nothing p) (has_handed w || not (is_open p.phase)) (notify w.place p)
      (handed_over w.place (take_idle w.origin (sweep s p))) (λ _. Change-notify w.place p)
      (λ _.
        Change-then nothing p (sweep s p) (handed_over w.place (take_idle w.origin (sweep s p)))
          (Change-sweep s p)
          (handed_over-Change w.place (sweep s p) (take_idle w.origin (sweep s p))
            (take_idle-Taken w.origin (sweep s p))))
