-- ===== src/Http/Pool/Locked.antt =====
-- The helpers that run under the pool's mutex.
use bbtools_infra.Common.{
  ℕ, ◌+◌, Bool, true, false, ◌&&◌, ◌||◌, not, Option, none, some, List, [], ◌∷◌, ◌==◌, ltb, leb,
  if◌then◌else◌,
}
use bbtools_infra.Http.Pool.State.{
  Origin, same_origin, active, idle, retiring, is_idle, is_retiring, Entry, Waiter, PoolLimits,
  is_open, Pool, is_some, has_connection, wrapped, find_first, change_first, count_idle,
}

-- What a sweep sees of the network and of the clock.
pub record Sight : Type 0 where
  pub now : ℕ
  pub connection_released : ℕ → Bool
  pub receipt_released : ℕ → Bool
  pub connection_closed : ℕ → Bool
  -- `ReadEof`, `ReadError` or bytes to read.
  pub connection_stale : ℕ → Bool

abbrev pub find_entry : ℕ → Pool → Option Entry
find_entry id p = find_first (has_connection id) p.entries

-- `RetireLocked` on an entry.
abbrev pub retired : Entry → Entry
retired e = record e { phase = retiring; close_asked = e.close_asked || is_some e.connection }

abbrev pub retire : (Entry → Bool) → Pool → Pool
retire test p = record p { entries = change_first test retired p.entries }

abbrev pub at_place : ℕ → Waiter → Bool
at_place n w = w.place == n

abbrev pub dequeued : Waiter → Waiter
dequeued w = record w { in_queue = false }

abbrev pub dequeue : ℕ → Pool → Pool
dequeue n p = record p { waiters = change_first (at_place n) dequeued p.waiters }

abbrev pub is_reusable : Origin → Entry → Bool
is_reusable origin e = is_idle e.phase && same_origin e.origin origin

abbrev pub activated : Entry → Entry
activated e = record e { phase = active; expire_at = none }

-- `TakeIdleLocked`: the connection taken, if there is one.
unfoldable pub take_idle : Origin → Pool → Option ℕ × Pool
take_idle origin p = elim (find_first (is_reusable origin) p.entries) [
  | none ↦ (none, p)
  | some e ↦ (
    some (wrapped e),
    record p { entries = change_first (is_reusable origin) activated p.entries },
  )
]

abbrev pub idled : Option ℕ → ℕ → Entry → Entry
idled expiry now e = record e {
  phase = idle;
  expire_at = elim expiry [ none ↦ none | some ms ↦ some (now + ms) ];
}

-- `AdmitToIdleLocked` on the entry of a connection.
unfoldable pub admit_to_idle : ℕ → ℕ → Pool → Pool
admit_to_idle now id p =
    if not (is_open p.phase)
    then retire (has_connection id) p
    else if ltb (count_idle p.entries) p.limits.max_keepalive_connections
    then record p {
      entries = change_first (has_connection id) (idled p.limits.keepalive_expiry now) p.entries;
    }
    else retire (has_connection id) p

abbrev pub waits_for : Origin → Waiter → Bool
waits_for origin w = w.in_queue && same_origin w.origin origin

abbrev pub given : ℕ → Waiter → Waiter
given id w = record w { handed = some id; in_queue = false; notified = true }

abbrev pub made_active : Entry → Entry
made_active e = record e { phase = active }

-- The connection goes to the first waiter of its origin, or back to the idle ones.
unfoldable pub pass_on : ℕ → ℕ → Origin → Pool → Pool
pass_on now id origin p =
    if is_some (find_first (waits_for origin) p.waiters)
    then record p {
      entries = change_first (has_connection id) made_active p.entries;
      waiters = change_first (waits_for origin) (given id) p.waiters;
    }
    else admit_to_idle now id p

-- What happens to a connection whose holder is done with it.
unfoldable pub returned : Bool → ℕ → ℕ → Pool → Pool
returned healthy now id p = elim (find_entry id p) [
  | none ↦ p
  | some e ↦
      if not healthy || not (is_open p.phase)
      then retire (has_connection id) p
      else pass_on now id e.origin p
]

abbrev pub is_other_idle : Origin → Entry → Bool
is_other_idle origin e = is_idle e.phase && not (same_origin e.origin origin)

abbrev pub retire_other_idle : Origin → Pool → Pool
retire_other_idle origin p = retire (is_other_idle origin) p

-- A retiring entry leaves on the receipt of its physical release. An invalid receipt says released.
abbrev pub is_released : Sight → Entry → Bool
is_released s e = elim e.connection [
  | none ↦ elim e.reclaim [ none ↦ true | some r ↦ s.receipt_released r ]
  | some id ↦ s.connection_released id
]

abbrev pub is_expired : Sight → PoolLimits → Entry → Bool
is_expired s limits e =
    is_some limits.keepalive_expiry && elim e.expire_at [ none ↦ false | some t ↦ leb t s.now ]

-- An invalid connection says that it has reached its end.
abbrev pub is_spent : Sight → PoolLimits → Entry → Bool
is_spent s limits e = elim e.connection [
  | none ↦ true
  | some id ↦ s.connection_stale id || (is_expired s limits e || s.connection_closed id)
]

unfoldable pub sweep_entries : Sight → PoolLimits → List Entry → List Entry
sweep_entries s limits [] = []
sweep_entries s limits (e ∷ es) =
    let rest = sweep_entries s limits es in
    if is_retiring e.phase && is_released s e
    then rest
    else if is_idle e.phase && is_spent s limits e
    then retired e ∷ rest
    else e ∷ rest

abbrev pub sweep : Sight → Pool → Pool
sweep s p = record p { entries = sweep_entries s p.limits p.entries }
