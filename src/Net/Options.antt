-- ===== src/Net/Options.antt =====
-- bbt/infra/net/Options.hpp and detail/OptionsNormalize.{hpp,cc}: the check and the derivation of an
-- engine's options. A `std::int64_t` and a count of seconds is an integer.
pub mod Laws
mod Tests
use bbtools_infra.Common.{
  ℕ, ◌+◌, ◌-◌, ◌/◌, ◌%◌, ◌^◌, Bool, true, false, ◌||◌, ◌&&◌, not, ltb, leb, ◌==◌, if◌then◌else◌,
  size_max,
}
use bbtools_infra.Common.Int.{ℤ, pos, negsuc, ltb_ℤ, pos_part}
use bbtools_infra.Net.Errors.{
  ErrorCode, no_error, generic, invalid_argument, result_out_of_range, is_error,
}
use bbtools_infra.Net.LoadBalancing.{Mode, round_robin, least_connections, source_addr_hash}

pub record Options : Type 0 where
  pub lb : Mode
  pub reuse_addr : Bool
  pub reuse_port : Bool
  pub num_event_loop : ℤ
  pub tcp_keep_alive : ℤ
  pub tcp_keep_interval : ℤ
  pub tcp_keep_count : ℤ
  pub tcp_no_delay : Bool
  pub socket_recv_buffer : ℤ
  pub socket_send_buffer : ℤ
  pub max_inbound_bytes : ℤ
  pub max_outbound_bytes : ℤ
  pub max_pending_events : ℤ

pub record NormalizedOptions : Type 0 where
  pub lb : Mode
  pub reuse_addr : Bool
  pub reuse_port : Bool
  pub tcp_no_delay : Bool
  pub num_event_loop : ℕ
  pub tcp_keep_alive : ℤ
  pub tcp_keep_interval : ℤ
  pub tcp_keep_count : ℕ
  pub socket_recv_buffer : ℕ
  pub socket_send_buffer : ℕ
  pub max_inbound_bytes : ℕ
  pub max_outbound_bytes : ℕ
  pub max_pending_events : ℕ

abbrev pub max_native_int : ℤ
max_native_int = pos (2 ^ 31 - 1)

-- `static_cast<std::uint64_t>` and `static_cast<std::size_t>` of an `std::int64_t`.
abbrev to_u64 : ℤ → ℕ
to_u64 (pos n) = n % 2 ^ 64
to_u64 (negsuc n) = (2 ^ 64 - 1 - n % 2 ^ 64) % 2 ^ 64

abbrev is_negative : ℤ → Bool
is_negative a = ltb_ℤ a (pos 0)

abbrev is_positive : ℤ → Bool
is_positive a = ltb_ℤ (pos 0) a

abbrev exceeds_native : ℤ → Bool
exceeds_native a = ltb_ℤ max_native_int a

is_valid_load_balancing : Mode → Bool
is_valid_load_balancing round_robin = true
is_valid_load_balancing least_connections = true
is_valid_load_balancing source_addr_hash = true
is_valid_load_balancing (Mode.other n) = false

-- The guards on the socket fields, and those on the resource bounds behind them.
check_socket : Options → ErrorCode
check_socket o =
    if is_negative o.tcp_keep_alive
      || is_negative o.tcp_keep_interval
      || is_negative o.tcp_keep_count
    then generic invalid_argument
    else if exceeds_native o.tcp_keep_alive || exceeds_native o.tcp_keep_interval
    then generic result_out_of_range
    else if exceeds_native o.tcp_keep_count
    then generic result_out_of_range
    else if is_negative o.socket_recv_buffer
        || exceeds_native o.socket_recv_buffer
        || is_negative o.socket_send_buffer
        || exceeds_native o.socket_send_buffer
    then generic result_out_of_range
    else no_error

check_bounds : Options → ErrorCode
check_bounds o =
    if not (is_positive o.max_inbound_bytes)
      || not (is_positive o.max_outbound_bytes)
      || not (is_positive o.max_pending_events)
    then generic invalid_argument
    else if ltb size_max (to_u64 o.max_inbound_bytes)
        || ltb size_max (to_u64 o.max_outbound_bytes)
        || ltb size_max (to_u64 o.max_pending_events)
    then generic result_out_of_range
    else if is_positive o.num_event_loop && leb size_max (to_u64 o.num_event_loop)
    then generic result_out_of_range
    else no_error

-- All guards, in the order of the source.
check_options : Options → ErrorCode
check_options o =
    if not (is_valid_load_balancing o.lb)
    then generic invalid_argument
    else if is_negative o.num_event_loop
    then generic invalid_argument
    else if is_error (check_socket o)
    then check_socket o
    else check_bounds o

derive_interval : Options → ℤ
derive_interval o =
    if is_positive o.tcp_keep_alive
    then (if is_positive o.tcp_keep_interval
        then o.tcp_keep_interval
        else if is_positive (pos (pos_part o.tcp_keep_alive / 5))
        then pos (pos_part o.tcp_keep_alive / 5)
        else pos 1)
    else o.tcp_keep_interval

derive_count : Options → ℕ
derive_count o =
    if is_positive o.tcp_keep_alive
    then (if is_positive o.tcp_keep_count then to_u64 o.tcp_keep_count else 5)
    else (if is_positive o.tcp_keep_count then to_u64 o.tcp_keep_count else 0)

derive_options : Options → NormalizedOptions
derive_options o = record {
  lb = o.lb;
  reuse_addr = o.reuse_addr;
  reuse_port = o.reuse_port;
  tcp_no_delay = o.tcp_no_delay;
  num_event_loop = if is_positive o.num_event_loop then to_u64 o.num_event_loop else 1;
  tcp_keep_alive = o.tcp_keep_alive;
  tcp_keep_interval = derive_interval o;
  tcp_keep_count = derive_count o;
  socket_recv_buffer = to_u64 o.socket_recv_buffer;
  socket_send_buffer = to_u64 o.socket_send_buffer;
  max_inbound_bytes = to_u64 o.max_inbound_bytes;
  max_outbound_bytes = to_u64 o.max_outbound_bytes;
  max_pending_events = to_u64 o.max_pending_events;
}

-- The error, and what stands in `out` after the call.
pub normalize_options : Options → NormalizedOptions → ErrorCode × NormalizedOptions
normalize_options o out =
    if is_error (check_options o) then (check_options o, out) else (no_error, derive_options o)
