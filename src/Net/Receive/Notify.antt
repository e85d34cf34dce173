-- ===== src/Net/Receive/Notify.antt =====
-- The notifications of ReceiveRing, the terminal marks and the packed error.
use bbtools_infra.Common.{
  ℕ, ◌+◌, ◌*◌, ◌/◌, ◌%◌, ◌^◌, Bool, true, false, ◌||◌, not, [], ◌∷◌, ◌++◌, ◌==◌, if◌then◌else◌,
  add_size,
}
use bbtools_infra.Net.Circular.{CircularBuffer}
use bbtools_infra.Net.Errors.{
  ErrorCode, no_error, generic, net, system, net_value, net_of_value, errc_value,
}
use bbtools_infra.Net.Receive.State.{
  Env, ReceiveRing, Signals, Event, data_notified, release_notified, owner_woken, ReadResult,
}
use bbtools_infra.Net.Receive.State

abbrev log : Signals → Event → Signals
log s e = record s { events = s.events ++ e ∷ [] }

-- The owner's callback, if one is set; where it throws, the wake-up stays pending.
pub wake_owner : Bool → Signals → Signals
wake_owner works s =
    if s.has_owner
    then (if works then log s owner_woken else record s { wake_pending = true })
    else s

pub notify_hub : Bool → Signals → Signals
notify_hub works s = if works then log s data_notified else record s { notify_pending = true }

retry_hub : Env → Signals → Signals
retry_hub env s =
    if s.notify_pending then notify_hub env.hub_retries (record s { notify_pending = false }) else s

retry_owner : Env → Signals → Signals
retry_owner env s =
    if s.wake_pending then wake_owner env.owner_retries (record s { wake_pending = false }) else s

pub retry_signals : Env → Signals → Signals
retry_signals env s = retry_owner env (retry_hub env s)

pub release_signals : Signals → Signals
release_signals s =
    log (record s { access_generation = add_size s.access_generation 1 }) release_notified

pub data_signals : Env → Signals → Signals
data_signals env s = wake_owner env.owner_wakes (notify_hub env.hub_notifies s)

-- `kind` is 2 for the category of `NetErrc` and 1 for any other; the value keeps 32 bits.
unfoldable pub pack_error : ErrorCode → ℕ
pack_error no_error = 2 ^ 32
pack_error (generic e) = 2 ^ 32 + errc_value e % 2 ^ 32
pack_error (net e) = 2 * 2 ^ 32 + net_value e % 2 ^ 32
pack_error (system n) = 2 ^ 32 + n % 2 ^ 32

module _ (C : CircularBuffer ℕ) where
  abbrev pub wake_owner_only : Env → ReceiveRing C → ReceiveRing C
  wake_owner_only env r = record r { signals = wake_owner env.owner_wakes r.signals }

  abbrev pub retry_pending_notification : Env → ReceiveRing C → ReceiveRing C
  retry_pending_notification env r = record r { signals = retry_signals env r.signals }

  abbrev pub notify_release : ReceiveRing C → ReceiveRing C
  notify_release r = record r { signals = release_signals r.signals }

  abbrev pub notify_data_changed : Env → ReceiveRing C → ReceiveRing C
  notify_data_changed env r = record r { signals = data_signals env r.signals }

  abbrev pub request_raw_retry : ReceiveRing C → ReceiveRing C
  request_raw_retry r = record r { signals = record (r.signals) { raw_retry = true } }

  pub take_raw_retry : ReceiveRing C → Bool × ReceiveRing C
  take_raw_retry r =
      (r.signals.raw_retry, record r { signals = record (r.signals) { raw_retry = false } })

  pub set_owner_wake : ReceiveRing C → ReceiveRing C
  set_owner_wake r = record r { signals = record (r.signals) { has_owner = true } }

  unfoldable pub mark_eof : Env → ReceiveRing C → ReceiveRing C
  mark_eof env r = notify_release (notify_data_changed env (record r { eof = true }))

  unfoldable pub mark_closed : Env → ReceiveRing C → ReceiveRing C
  mark_closed env r = notify_release (notify_data_changed env (record r { closed = true }))

  unfoldable pub mark_error : Env → ReceiveRing C → ErrorCode → ReceiveRing C
  mark_error env r e = notify_release (notify_data_changed env (record r { error = pack_error e }))

  unfoldable pub read_error : ReceiveRing C → ErrorCode
  read_error r =
      if r.error / 2 ^ 32 == 0
      then no_error
      else if r.error / 2 ^ 32 == 2
      then net (net_of_value (r.error % 2 ^ 32))
      else system (r.error % 2 ^ 32)

  -- What a reader is told where the ring is empty.
  unfoldable pub terminal : ReceiveRing C → ReadResult
  unfolding read_error
  terminal r =
      if not (r.error / 2 ^ 32 == 0)
      then record { status = State.ReadStatus.error; bytes = 0; code = read_error r }
      else if r.eof || r.closed
      then record { status = State.ReadStatus.eof; bytes = 0; code = no_error }
      else record { status = State.ReadStatus.would_block; bytes = 0; code = no_error }
