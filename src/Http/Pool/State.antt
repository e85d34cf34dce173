-- ===== src/Http/Pool/State.antt =====
-- The pool's entries and waiters, and its state.
use bbtools_infra.Common.{
  ℕ, ◌+◌, Bool, true, false, ◌&&◌, Option, none, some, List, [], ◌∷◌, ◌==◌, if◌then◌else◌,
}
use bbtools_infra.Rpc.Text.{same_bytes, codes}
use bbtools_infra.Rpc.Errors.{Error, ErrorCode, make_error}

pub record Origin : Type 0 where
  pub scheme : List ℕ
  pub host : List ℕ
  pub port : ℕ

abbrev pub same_origin : Origin → Origin → Bool
same_origin a b = (a.port == b.port) && (same_bytes a.scheme b.scheme && same_bytes a.host b.host)

pub data EntryPhase : Type 0 where
  dialing active idle retiring : EntryPhase

abbrev pub is_idle : EntryPhase → Bool
is_idle idle = true
is_idle _ = false

abbrev pub is_retiring : EntryPhase → Bool
is_retiring retiring = true
is_retiring _ = false

-- An entry; `place` tells the objects apart, as their addresses do. A connection is its id, and a
-- receipt the number of its record; `none` is an invalid handle. The HTTP connection is that of the
-- entry's connection. No expiry is the time point's maximum.
pub record Entry : Type 0 where
  pub place : ℕ
  pub phase : EntryPhase
  pub origin : Origin
  pub connection : Option ℕ
  pub reclaim : Option ℕ
  pub expire_at : Option ℕ
  -- `RequestClose` was called on the connection.
  pub close_asked : Bool

-- A waiter stands in the deque exactly while `in_queue` is set; it stays with its call after that.
pub record Waiter : Type 0 where
  pub place : ℕ
  pub origin : Origin
  pub handed : Option ℕ
  pub in_queue : Bool
  pub notified : Bool

pub record PoolLimits : Type 0 where
  pub max_connections : ℕ
  pub max_keepalive_connections : ℕ
  pub keepalive_expiry : Option ℕ
  pub max_queue : ℕ

pub data Phase : Type 0 where
  open_pool draining closed : Phase

abbrev pub is_open : Phase → Bool
is_open open_pool = true
is_open _ = false

abbrev pub is_closed : Phase → Bool
is_closed closed = true
is_closed _ = false

-- `next_place` is fresh for the objects made next.
pub record Pool : Type 0 where
  pub limits : PoolLimits
  pub phase : Phase
  pub close_reason : Option Error
  pub inflight : ℕ
  pub entries : List Entry
  pub waiters : List Waiter
  pub next_place : ℕ

unfoldable pub pool : PoolLimits → Pool
pool limits = record {
  limits = limits;
  phase = open_pool;
  close_reason = none;
  inflight = 0;
  entries = [];
  waiters = [];
  next_place = 0;
}

abbrev pub is_some {ℓ} : {A : Type ℓ} → Option A → Bool
is_some none = false
is_some (some a) = true

abbrev pub from_option {ℓ} : {A : Type ℓ} → A → Option A → A
from_option d none = d
from_option d (some a) = a

abbrev pub closed_error : Pool → Error
closed_error p =
    from_option (make_error ErrorCode.closed (codes "http pool: closed")) p.close_reason

abbrev pub has_connection : ℕ → Entry → Bool
has_connection n e = is_some e.connection && (from_option 0 e.connection == n)

-- The connection that the entry's HTTP connection is of.
abbrev pub wrapped : Entry → ℕ
wrapped e = from_option 0 e.connection

-- The first element that meets the test, and the list with that element changed.
abbrev pub find_first {ℓ} : {A : Type ℓ} → (A → Bool) → List A → Option A
find_first test [] = none
find_first test (x ∷ xs) = if test x then some x else find_first test xs

abbrev pub change_first {ℓ} : {A : Type ℓ} → (A → Bool) → (A → A) → List A → List A
change_first test f [] = []
change_first test f (x ∷ xs) = if test x then f x ∷ xs else x ∷ change_first test f xs

-- The waiters in the deque.
abbrev pub queued : List Waiter → ℕ
queued [] = 0
queued (w ∷ ws) = (if w.in_queue then 1 else 0) + queued ws

abbrev pub count_idle : List Entry → ℕ
count_idle [] = 0
count_idle (e ∷ es) = (if is_idle e.phase then 1 else 0) + count_idle es
