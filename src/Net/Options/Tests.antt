-- ===== src/Net/Options/Tests.antt =====
-- The check and the derivation at concrete options.
use bbtools_infra.Common.{◌≡◌, ◌⊎◌, ◌↔◌, true, false, arith}
use bbtools_infra.Common.Int.{pos}
use bbtools_infra.Net.Errors.{no_error, generic, invalid_argument, result_out_of_range}
use bbtools_infra.Net.LoadBalancing.{round_robin}
use bbtools_infra.Net.Options.{Options, NormalizedOptions, normalize_options}
use bbtools_infra.Net.Options.Laws.{
  IsTyped, IsAcceptable, IsNormal, normalize_options_iff, normalize_options_cases,
}

abbrev probing : Options
probing = record {
  lb = round_robin;
  reuse_addr = true;
  reuse_port = false;
  num_event_loop = pos 0;
  tcp_keep_alive = pos 3;
  tcp_keep_interval = pos 0;
  tcp_keep_count = pos 0;
  tcp_no_delay = true;
  socket_recv_buffer = pos 0;
  socket_send_buffer = pos 0;
  max_inbound_bytes = pos 65536;
  max_outbound_bytes = pos 65536;
  max_pending_events = pos 16;
}

abbrev untouched : NormalizedOptions
untouched = record {
  lb = round_robin;
  reuse_addr = false;
  reuse_port = false;
  tcp_no_delay = false;
  num_event_loop = 9;
  tcp_keep_alive = pos 0;
  tcp_keep_interval = pos 0;
  tcp_keep_count = 0;
  socket_recv_buffer = 0;
  socket_send_buffer = 0;
  max_inbound_bytes = 0;
  max_outbound_bytes = 0;
  max_pending_events = 0;
}

probing-IsTyped : IsTyped probing
probing-IsTyped = omega arith

normalize_options_iff_example :
    ((normalize_options probing untouched).0 ≡ no_error) ↔ IsAcceptable probing
normalize_options_iff_example = normalize_options_iff probing untouched probing-IsTyped

normalize_options_cases_example :
    let (e, n) = normalize_options probing untouched in
    ((e ≡ no_error) × IsNormal probing n)
    ⊎ (((e ≡ generic invalid_argument) ⊎ (e ≡ generic result_out_of_range)) × (n ≡ untouched))
normalize_options_cases_example = normalize_options_cases probing untouched probing-IsTyped
