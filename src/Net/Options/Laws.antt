-- ===== src/Net/Options/Laws.antt =====
-- What OptionsNormalize.cc accepts, and what it derives.
use bbtools_infra.Common.{
  ℕ, ◌/◌, ◌≤◌, ◌<◌, ◌^◌, ◌-◌, ◌≡◌, refl, ap, ◌⊎◌, inl, inr, ◌↔◌, true, arith,
}
use bbtools_infra.Common.Int.{ℤ, pos, negsuc, pos_part, ◌≤ℤ◌}
use bbtools_infra.Net.Errors.{no_error, generic, invalid_argument, result_out_of_range}
use bbtools_infra.Net.LoadBalancing.{Mode, round_robin, least_connections, source_addr_hash, other}
use bbtools_infra.Net.Options.{
  Options, NormalizedOptions, max_native_int, to_u64, is_valid_load_balancing, check_socket,
  check_bounds, check_options, derive_interval, derive_count, derive_options, normalize_options,
}

-- The ranges that the documentation of `Options` gives, field by field.
abbrev IsNative : ℤ → Type 0
IsNative a = (pos 0 ≤ℤ a) × (a ≤ℤ max_native_int)

abbrev IsDefined : Mode → Type 0
IsDefined (other n) = ⊥
IsDefined _ = Unit {0}

-- An `std::int64_t`, so below 2 ^ 63.
abbrev IsInt64 : ℤ → Type 0
IsInt64 a = a ≤ℤ pos (2 ^ 63 - 1)

pub record IsTyped (o : Options) : Type 0 where
  pub loops : IsInt64 o.num_event_loop
  pub inbound : IsInt64 o.max_inbound_bytes
  pub outbound : IsInt64 o.max_outbound_bytes
  pub pending : IsInt64 o.max_pending_events

pub record IsAcceptable (o : Options) : Type 0 where
  pub strategy : IsDefined o.lb
  pub loops : pos 0 ≤ℤ o.num_event_loop
  pub keep_alive : IsNative o.tcp_keep_alive
  pub keep_interval : IsNative o.tcp_keep_interval
  pub keep_count : IsNative o.tcp_keep_count
  pub recv_buffer : IsNative o.socket_recv_buffer
  pub send_buffer : IsNative o.socket_send_buffer
  pub inbound : pos 1 ≤ℤ o.max_inbound_bytes
  pub outbound : pos 1 ≤ℤ o.max_outbound_bytes
  pub pending : pos 1 ≤ℤ o.max_pending_events

-- The interval between probes where none is given: a fifth of the idle time, one second at least.
abbrev IsDefaultInterval : ℕ → ℤ → Type 0
IsDefaultInterval idle i = ((5 ≤ idle) × (i ≡ pos (idle / 5))) ⊎ ((idle < 5) × (i ≡ pos 1))

-- Without probes, or where it is given, the interval is as given.
abbrev IsInterval : Options → ℤ → Type 0
IsInterval o i =
    ((o.tcp_keep_alive ≡ pos 0) × (i ≡ o.tcp_keep_interval))
    ⊎ ((pos 1 ≤ℤ o.tcp_keep_alive) × (pos 1 ≤ℤ o.tcp_keep_interval) × (i ≡ o.tcp_keep_interval))
    ⊎ ((pos 1 ≤ℤ o.tcp_keep_alive)
        × (o.tcp_keep_interval ≡ pos 0)
        × IsDefaultInterval (pos_part o.tcp_keep_alive) i)

-- The count of probes is as given, or five where there are probes and no count is given.
abbrev IsCount : Options → ℕ → Type 0
IsCount o n =
    ((o.tcp_keep_alive ≡ pos 0) × (pos n ≡ o.tcp_keep_count))
    ⊎ ((pos 1 ≤ℤ o.tcp_keep_alive) × (pos 1 ≤ℤ o.tcp_keep_count) × (pos n ≡ o.tcp_keep_count))
    ⊎ ((pos 1 ≤ℤ o.tcp_keep_alive) × (o.tcp_keep_count ≡ pos 0) × (n ≡ 5))

-- The normal values of options, field by field.
pub record IsNormal (o : Options) (n : NormalizedOptions) : Type 0 where
  pub same_strategy : n.lb ≡ o.lb
  pub same_reuse_addr : n.reuse_addr ≡ o.reuse_addr
  pub same_reuse_port : n.reuse_port ≡ o.reuse_port
  pub same_no_delay : n.tcp_no_delay ≡ o.tcp_no_delay
  pub same_keep_alive : n.tcp_keep_alive ≡ o.tcp_keep_alive
  pub loops :
      ((o.num_event_loop ≡ pos 0) × (n.num_event_loop ≡ 1))
      ⊎ ((pos 1 ≤ℤ o.num_event_loop) × (pos n.num_event_loop ≡ o.num_event_loop))
  pub loops_fit : n.num_event_loop < 2 ^ 63
  pub interval : IsInterval o n.tcp_keep_interval
  pub count : IsCount o n.tcp_keep_count
  pub recv_buffer : pos n.socket_recv_buffer ≡ o.socket_recv_buffer
  pub send_buffer : pos n.socket_send_buffer ≡ o.socket_send_buffer
  pub inbound : pos n.max_inbound_bytes ≡ o.max_inbound_bytes
  pub outbound : pos n.max_outbound_bytes ≡ o.max_outbound_bytes
  pub pending : pos n.max_pending_events ≡ o.max_pending_events
  pub probe_fits : (n.tcp_keep_interval ≤ℤ max_native_int) × (n.tcp_keep_count < 2 ^ 31)

check_socket-error :
    (o : Options)
    → (check_socket o ≡ no_error)
      ⊎ (check_socket o ≡ generic invalid_argument)
      ⊎ (check_socket o ≡ generic result_out_of_range)
unfolding check_socket
check_socket-error o = ground arith

check_bounds-error :
    (o : Options)
    → (check_bounds o ≡ no_error)
      ⊎ (check_bounds o ≡ generic invalid_argument)
      ⊎ (check_bounds o ≡ generic result_out_of_range)
unfolding check_bounds
check_bounds-error o = ground arith

record SocketRanges (o : Options) : Type 0 where
  keep_alive : IsNative o.tcp_keep_alive
  keep_interval : IsNative o.tcp_keep_interval
  keep_count : IsNative o.tcp_keep_count
  recv_buffer : IsNative o.socket_recv_buffer
  send_buffer : IsNative o.socket_send_buffer

check_socket_sound : (o : Options) → check_socket o ≡ no_error → SocketRanges o
unfolding check_socket
check_socket_sound o h = ground arith

check_socket_complete : (o : Options) → SocketRanges o → check_socket o ≡ no_error
unfolding check_socket
check_socket_complete o r = ground arith

check_bounds_sound :
    (o : Options)
    → check_bounds o ≡ no_error
    → (pos 1 ≤ℤ o.max_inbound_bytes)
      × (pos 1 ≤ℤ o.max_outbound_bytes)
      × (pos 1 ≤ℤ o.max_pending_events)
unfolding check_bounds
check_bounds_sound o h = ground arith

to_u64_of_pos : (a : ℤ) → pos 0 ≤ℤ a → IsInt64 a → pos (to_u64 a) ≡ a
to_u64_of_pos (pos n) h k = ap pos (omega arith)
to_u64_of_pos (negsuc n) h k = absurd (omega arith)

to_u64-lt : (a : ℤ) → pos 0 ≤ℤ a → IsInt64 a → to_u64 a < 2 ^ 63
to_u64-lt (pos n) h k = omega arith
to_u64-lt (negsuc n) h k = absurd (omega arith)

check_bounds_complete :
    (o : Options)
    → IsTyped o
    → pos 0 ≤ℤ o.num_event_loop
    → pos 1 ≤ℤ o.max_inbound_bytes
    → pos 1 ≤ℤ o.max_outbound_bytes
    → pos 1 ≤ℤ o.max_pending_events
    → check_bounds o ≡ no_error
unfolding check_bounds
check_bounds_complete o t l a b c = ground (
  arith,
  to_u64-lt o.num_event_loop l t.loops,
  to_u64-lt o.max_inbound_bytes (omega arith) t.inbound,
  to_u64-lt o.max_outbound_bytes (omega arith) t.outbound,
  to_u64-lt o.max_pending_events (omega arith) t.pending,
)

check_options-error :
    (o : Options)
    → (check_options o ≡ no_error)
      ⊎ (check_options o ≡ generic invalid_argument)
      ⊎ (check_options o ≡ generic result_out_of_range)
unfolding check_options
check_options-error o = ground (arith, check_socket-error o, check_bounds-error o)

is_valid→IsDefined : (m : Mode) → is_valid_load_balancing m ≡ true → IsDefined m
unfolding is_valid_load_balancing
is_valid→IsDefined round_robin h = tt
is_valid→IsDefined least_connections h = tt
is_valid→IsDefined source_addr_hash h = tt
is_valid→IsDefined (other n) h = cc

IsDefined→is_valid : (m : Mode) → IsDefined m → is_valid_load_balancing m ≡ true
unfolding is_valid_load_balancing
IsDefined→is_valid round_robin h = refl
IsDefined→is_valid least_connections h = refl
IsDefined→is_valid source_addr_hash h = refl
IsDefined→is_valid (other n) h = absurd h

check_socket-no_error : (o : Options) → check_options o ≡ no_error → SocketRanges o
unfolding check_options
check_socket-no_error o h = check_socket_sound o (ground (arith, check_socket-error o))

check_bounds-no_error : (o : Options) → check_options o ≡ no_error → check_bounds o ≡ no_error
unfolding check_options
check_bounds-no_error o h = ground (arith, check_socket-error o)

check_options_sound : (o : Options) → check_options o ≡ no_error → IsAcceptable o
unfolding check_options
check_options_sound o h =
    let s = check_socket-no_error o h in
    let b = check_bounds_sound o (check_bounds-no_error o h) in
    record {
      strategy = is_valid→IsDefined o.lb (ground arith);
      loops = ground arith;
      keep_alive = s.keep_alive;
      keep_interval = s.keep_interval;
      keep_count = s.keep_count;
      recv_buffer = s.recv_buffer;
      send_buffer = s.send_buffer;
      inbound = b.0;
      outbound = b.1;
      pending = b.2;
    }

check_options_complete : (o : Options) → IsTyped o → IsAcceptable o → check_options o ≡ no_error
unfolding check_options
check_options_complete o t a = ground (
  arith,
  IsDefined→is_valid o.lb a.strategy,
  check_socket_complete o socket,
  check_bounds_complete o t a.loops a.inbound a.outbound a.pending,
)
  where
    socket : SocketRanges o
    socket = record {
      keep_alive = a.keep_alive;
      keep_interval = a.keep_interval;
      keep_count = a.keep_count;
      recv_buffer = a.recv_buffer;
      send_buffer = a.send_buffer;
    }

keep_alive_cases :
    (o : Options)
    → IsNative o.tcp_keep_alive
    → (pos 1 ≤ℤ o.tcp_keep_alive) ⊎ (o.tcp_keep_alive ≡ pos 0)
keep_alive_cases o h = ground arith

derive_interval_lem :
    (o : Options)
    → IsNative o.tcp_keep_alive
    → IsNative o.tcp_keep_interval
    → (pos 1 ≤ℤ o.tcp_keep_alive → pos 1 ≤ℤ derive_interval o)
      × (o.tcp_keep_alive ≡ pos 0 → derive_interval o ≡ o.tcp_keep_interval)
      × (derive_interval o ≤ℤ max_native_int)
unfolding derive_interval
derive_interval_lem o a i = (ground arith, ground arith, ground arith)

derive_count_lem :
    (o : Options)
    → IsNative o.tcp_keep_count
    → (pos 1 ≤ℤ o.tcp_keep_alive → 1 ≤ derive_count o)
      × (o.tcp_keep_alive ≡ pos 0 → pos (derive_count o) ≡ o.tcp_keep_count)
      × (derive_count o < 2 ^ 31)
unfolding derive_count
derive_count_lem o c = (
  ground (arith, to_u64_of_pos o.tcp_keep_count),
  ground (arith, to_u64_of_pos o.tcp_keep_count),
  ground (arith, to_u64_of_pos o.tcp_keep_count),
)

derive_interval-IsInterval :
    (o : Options)
    → IsNative o.tcp_keep_alive
    → IsNative o.tcp_keep_interval
    → IsInterval o (derive_interval o)
unfolding derive_interval
derive_interval-IsInterval o a i = ground arith

derive_count-IsCount :
    (o : Options)
    → IsNative o.tcp_keep_alive
    → IsNative o.tcp_keep_count
    → IsCount o (derive_count o)
unfolding derive_count
derive_count-IsCount o a c = ground (arith, to_u64_of_pos o.tcp_keep_count)

derive_options-IsNormal : (o : Options) → IsTyped o → IsAcceptable o → IsNormal o (derive_options o)
unfolding derive_options
derive_options-IsNormal o t a =
    let i = derive_interval_lem o a.keep_alive a.keep_interval in
    let c = derive_count_lem o a.keep_count in
    record {
      same_strategy = refl;
      same_reuse_addr = refl;
      same_reuse_port = refl;
      same_no_delay = refl;
      same_keep_alive = refl;
      loops = ground (arith, to_u64_of_pos o.num_event_loop a.loops t.loops);
      loops_fit = ground (arith, to_u64-lt o.num_event_loop a.loops t.loops);
      interval = derive_interval-IsInterval o a.keep_alive a.keep_interval;
      count = derive_count-IsCount o a.keep_alive a.keep_count;
      recv_buffer = to_u64_of_pos o.socket_recv_buffer (omega arith) (omega arith);
      send_buffer = to_u64_of_pos o.socket_send_buffer (omega arith) (omega arith);
      inbound = to_u64_of_pos o.max_inbound_bytes (omega arith) t.inbound;
      outbound = to_u64_of_pos o.max_outbound_bytes (omega arith) t.outbound;
      pending = to_u64_of_pos o.max_pending_events (omega arith) t.pending;
      probe_fits = (i.2, c.2);
    }

-- Options of the declared types are accepted exactly when every field is in its documented range.
pub normalize_options_iff :
    (o : Options) (out : NormalizedOptions)
    → IsTyped o
    → ((normalize_options o out).0 ≡ no_error) ↔ IsAcceptable o
unfolding normalize_options
normalize_options_iff o out t = (
  λ h. check_options_sound o (ground (arith, check_options-error o)),
  λ a. ground (arith, check_options_complete o t a),
)

-- Every call on options of the declared types either accepts them and leaves in `out` the value that
-- is due for each field (one loop where none is asked for, a probe every fifth of the idle time and
-- five probes where probes are on and none are given, every other field as given), or reports one of
-- the two errors and leaves `out` as it was.
pub normalize_options_cases :
    (o : Options) (out : NormalizedOptions)
    → IsTyped o
    → let (e, n) = normalize_options o out in
      ((e ≡ no_error) × IsNormal o n)
      ⊎ (((e ≡ generic invalid_argument) ⊎ (e ≡ generic result_out_of_range)) × (n ≡ out))
unfolding normalize_options
normalize_options_cases o out t = elim (check_options-error o) [
  | inl h ↦ rw h (inl (refl, derive_options-IsNormal o t (check_options_sound o h)))
  | inr (inl h) ↦ rw h (inr (inl refl, refl))
  | inr (inr h) ↦ rw h (inr (inr refl, refl))
]
