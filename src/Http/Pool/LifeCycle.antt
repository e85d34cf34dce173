-- ===== src/Http/Pool/LifeCycle.antt =====
-- `Close`: what is refused after it, and a dial that is in progress when it comes.
use bbtools_infra.Common.{
  ℕ, ◌≡◌, refl, ◌⊎◌, inl, inr, Bool, true, false, Option, none, some, List, [], ◌∷◌, map, if_rule,
  All,
}
use bbtools_infra.Rpc.Errors.{Error}
use bbtools_infra.Http.Pool.State.{
  Entry, PoolLimits, closed, is_closed, Pool, is_some, from_option, find_first,
}
use bbtools_infra.Http.Pool.Locked.{Sight, retired, sweep_entries, sweep, is_released}
use bbtools_infra.Http.Pool.Acquire.{is_at, dial_failed, dial_done, close, sent_away}

-- The reason that stands after `Close`: the first.
abbrev pub first_reason : Error → Pool → Error
first_reason reason p = from_option reason p.close_reason

-- The pool is closed with the reason.
pub record IsClosed (e : Error) (p : Pool) : Type 0 where
  pub phase : p.phase ≡ closed
  pub reason : p.close_reason ≡ some e

-- An entry at another place, or one that a call is dialing for: it has no connection and no receipt.
abbrev pub AtDial : ℕ → Entry → Type 0
AtDial place e = (is_at place e ≡ false) ⊎ ((e.connection ≡ none) × (e.reclaim ≡ none))

released_by :
    (s : Sight) (e : Entry)
    → e.connection ≡ none
    → e.reclaim ≡ none
    → is_released s (retired e) ≡ true
released_by s e h k = rw (h, k) refl

swept_away :
    (s : Sight) (limits : PoolLimits) (place : ℕ) (es : List Entry)
    → All (AtDial place) es
    → is_some (find_first (is_at place) (sweep_entries s limits (map retired es))) ≡ false
unfolding sweep_entries
swept_away s limits place [] a = refl
swept_away s limits place (e ∷ es) a =
    let ih = swept_away s limits place es a.1 in
    let rest = sweep_entries s limits (map retired es) in
    if_rule (λ xs. is_some (find_first (is_at place) xs) ≡ false) (is_released s (retired e)) rest
      (retired e ∷ rest) (λ _. ih)
      (λ h. elim a.0 [ inl k ↦ rw k ih | inr k ↦ let d = released_by s e k.0 k.1 in cc ])

close_sweeps :
    (reason : Error) (p : Pool) (s : Sight) (place : ℕ)
    → is_closed p.phase ≡ false
    → All (AtDial place) p.entries
    → is_some (find_first (is_at place) (sweep s (close reason p)).entries) ≡ false
unfolding close
close_sweeps reason p s place h a =
    let p' = record p { close_reason = some (from_option reason p.close_reason) } in
    if_rule (λ q. is_some (find_first (is_at place) (sweep s q).entries) ≡ false)
      (is_closed p.phase) p'
      (record p' {
        phase = closed;
        entries = map retired p.entries;
        waiters = map sent_away p.waiters;
      })
      (λ k. cc) (λ _. swept_away s p.limits place p.entries a)

-- A `Close` while a call dials, and a sweep before the dial ends (`Stats` sweeps), frees the entry
-- that the call holds: whatever the dial's outcome, its section writes to an entry that is gone. The
-- cause is that the receipt of a dial in progress is invalid, and an invalid receipt counts as
-- released.
pub dial-sweep-close :
    (reason : Error) (p : Pool) (s : Sight) (place id : ℕ) (receipt : Option ℕ) (made : Bool)
    → is_closed p.phase ≡ false
    → All (AtDial place) p.entries
    → let p' = sweep s (close reason p) in
      (dial_failed place receipt p' ≡ none) × (dial_done made place id receipt p' ≡ none)
unfolding dial_failed dial_done
dial-sweep-close reason p s place id receipt made h a =
    let gone : is_some (find_first (is_at place) (sweep s (close reason p)).entries) ≡ false =
      close_sweeps reason p s place h a in
    (rw gone refl, rw gone refl)
