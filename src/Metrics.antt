-- ===== src/Metrics.antt =====
-- product/src/metrics.rs: the counters. Each is an atomic of 64 bits that wraps around.
pub mod Counted
use deskquota.Common.{Option, max, none, some, ℕ, ◌%◌, ◌+◌, ◌-◌}
use deskquota.Admission.{ObservedUsage}

pub record Metrics : Type 0 where
  pub requests : ℕ
  pub upstream_attempts : ℕ
  pub active : ℕ
  pub draining : ℕ
  pub terminal_total : ℕ
  pub terminal_body_eof : ℕ
  pub terminal_upstream_error : ℕ
  pub terminal_deadline : ℕ
  pub terminal_downstream_close : ℕ
  pub terminal_shutdown : ℕ
  pub terminal_admission_rejected : ℕ
  pub usage_known : ℕ
  pub usage_unknown : ℕ
  pub observer_overflow : ℕ
  pub first_body_byte : ℕ
  pub first_observed_output_delta : ℕ
  pub terminal_marker : ℕ
  pub response_body_eof : ℕ
  pub response_error_server : ℕ
  pub response_error_rate_limit : ℕ
  pub response_error_client : ℕ
  pub response_error_unknown : ℕ
  pub queued_response_bytes : ℕ
  pub max_queued_response_bytes : ℕ
  pub observed_input_tokens : ℕ
  pub observed_output_tokens : ℕ
  pub observed_cache_creation_tokens : ℕ
  pub observed_cache_read_tokens : ℕ

pub data TerminalReason : Type 0 where
  body_eof upstream_error deadline downstream_close shutdown admission_rejected : TerminalReason

pub data ResponseError : Type 0 where
  server rate_limit client unknown : ResponseError

unfoldable pub new : Metrics
new = record {
  requests = 0;
  upstream_attempts = 0;
  active = 0;
  draining = 0;
  terminal_total = 0;
  terminal_body_eof = 0;
  terminal_upstream_error = 0;
  terminal_deadline = 0;
  terminal_downstream_close = 0;
  terminal_shutdown = 0;
  terminal_admission_rejected = 0;
  usage_known = 0;
  usage_unknown = 0;
  observer_overflow = 0;
  first_body_byte = 0;
  first_observed_output_delta = 0;
  terminal_marker = 0;
  response_body_eof = 0;
  response_error_server = 0;
  response_error_rate_limit = 0;
  response_error_client = 0;
  response_error_unknown = 0;
  queued_response_bytes = 0;
  max_queued_response_bytes = 0;
  observed_input_tokens = 0;
  observed_output_tokens = 0;
  observed_cache_creation_tokens = 0;
  observed_cache_read_tokens = 0;
}

abbrev pub fetch_add : ℕ → ℕ → ℕ
fetch_add a b = (a + b) % 18446744073709551616

abbrev pub fetch_sub : ℕ → ℕ → ℕ
fetch_sub a b = (a + (18446744073709551616 - b)) % 18446744073709551616

abbrev pub record_request : Metrics → Metrics
record_request m = record m { requests = fetch_add m.requests 1 }

abbrev pub record_upstream_attempt : Metrics → Metrics
record_upstream_attempt m = record m { upstream_attempts = fetch_add m.upstream_attempts 1 }

abbrev pub worker_started : Metrics → Metrics
worker_started m = record m { active = fetch_add m.active 1 }

abbrev pub draining_started : Metrics → Metrics
draining_started m = record m { draining = fetch_add m.draining 1 }

abbrev pub record_first_body_byte : Metrics → Metrics
record_first_body_byte m = record m { first_body_byte = fetch_add m.first_body_byte 1 }

abbrev pub record_first_observed_output_delta : Metrics → Metrics
record_first_observed_output_delta m = record m {
  first_observed_output_delta = fetch_add m.first_observed_output_delta 1;
}

abbrev pub record_terminal_marker : Metrics → Metrics
record_terminal_marker m = record m { terminal_marker = fetch_add m.terminal_marker 1 }

abbrev pub record_response_body_eof : Metrics → Metrics
record_response_body_eof m = record m { response_body_eof = fetch_add m.response_body_eof 1 }

abbrev pub record_observer_overflow : Metrics → Metrics
record_observer_overflow m = record m { observer_overflow = fetch_add m.observer_overflow 1 }

abbrev pub draining_finished : Metrics → Metrics
draining_finished m = record m { draining = fetch_sub m.draining 1 }

abbrev pub record_response_error : Metrics → ResponseError → Metrics
record_response_error m server = record m {
  response_error_server = fetch_add m.response_error_server 1;
}
record_response_error m rate_limit = record m {
  response_error_rate_limit = fetch_add m.response_error_rate_limit 1;
}
record_response_error m client = record m {
  response_error_client = fetch_add m.response_error_client 1;
}
record_response_error m unknown = record m {
  response_error_unknown = fetch_add m.response_error_unknown 1;
}

abbrev pub queued_bytes_added : Metrics → ℕ → Metrics
queued_bytes_added m bytes =
    let current = fetch_add m.queued_response_bytes bytes in
    record m {
      queued_response_bytes = current;
      max_queued_response_bytes = max m.max_queued_response_bytes current;
    }

abbrev pub queued_bytes_removed : Metrics → ℕ → Metrics
queued_bytes_removed m bytes = record m {
  queued_response_bytes = fetch_sub m.queued_response_bytes bytes;
}

abbrev pub count_reason : Metrics → TerminalReason → Metrics
count_reason m body_eof = record m { terminal_body_eof = fetch_add m.terminal_body_eof 1 }
count_reason m upstream_error = record m {
  terminal_upstream_error = fetch_add m.terminal_upstream_error 1;
}
count_reason m deadline = record m { terminal_deadline = fetch_add m.terminal_deadline 1 }
count_reason m downstream_close = record m {
  terminal_downstream_close = fetch_add m.terminal_downstream_close 1;
}
count_reason m shutdown = record m { terminal_shutdown = fetch_add m.terminal_shutdown 1 }
count_reason m admission_rejected = record m {
  terminal_admission_rejected = fetch_add m.terminal_admission_rejected 1;
}

abbrev pub count_usage : Metrics → Option ObservedUsage → Metrics
count_usage m none = record m { usage_unknown = fetch_add m.usage_unknown 1 }
count_usage m (some u) = record m {
  usage_known = fetch_add m.usage_known 1;
  observed_input_tokens = fetch_add m.observed_input_tokens u.input_tokens;
  observed_output_tokens = fetch_add m.observed_output_tokens u.output_tokens;
  observed_cache_creation_tokens =
      fetch_add m.observed_cache_creation_tokens u.cache_creation_input_tokens;
  observed_cache_read_tokens = fetch_add m.observed_cache_read_tokens u.cache_read_input_tokens;
}

abbrev pub worker_finished : Metrics → TerminalReason → Option ObservedUsage → Metrics
worker_finished m reason usage =
    let left = record m {
      active = fetch_sub m.active 1;
      terminal_total = fetch_add m.terminal_total 1;
    } in
    count_usage (count_reason left reason) usage
