-- ===== src/Metrics/Counted.antt =====
-- product/src/metrics.rs: how the counters relate after any sequence of calls.
use deskquota.Common.{Option, arith, none, some, ℕ, ◌%◌, ◌+◌, ◌<◌, ◌≡◌, ◌≤◌}
use deskquota.Admission.{ObservedUsage}
use deskquota.Metrics.{
  Metrics, ResponseError, TerminalReason, admission_rejected, body_eof, client, deadline,
  downstream_close, draining_finished, draining_started, new, queued_bytes_added,
  queued_bytes_removed, rate_limit, record_first_body_byte, record_first_observed_output_delta,
  record_observer_overflow, record_request, record_response_body_eof, record_response_error,
  record_terminal_marker, record_upstream_attempt, server, shutdown, unknown, upstream_error,
  worker_finished, worker_started,
}

-- One call of a task on the shared counters. A chunk is taken off the queued bytes once, after it
-- was added.
pub data MetricStep (m : Metrics) : Metrics → Type 0 where
  request : MetricStep m (record_request m)
  upstream : MetricStep m (record_upstream_attempt m)
  started : MetricStep m (worker_started m)
  drains : MetricStep m (draining_started m)
  drained : MetricStep m (draining_finished m)
  first_byte : MetricStep m (record_first_body_byte m)
  first_delta : MetricStep m (record_first_observed_output_delta m)
  marker : MetricStep m (record_terminal_marker m)
  response_eof : MetricStep m (record_response_body_eof m)
  response_error : (e : ResponseError) → MetricStep m (record_response_error m e)
  overflow : MetricStep m (record_observer_overflow m)
  queued : (bytes : ℕ) → MetricStep m (queued_bytes_added m bytes)
  sent : (bytes : ℕ) → bytes ≤ m.queued_response_bytes → MetricStep m (queued_bytes_removed m bytes)
  finished :
      (reason : TerminalReason) (usage : Option ObservedUsage)
      → MetricStep m (worker_finished m reason usage)

pub data Recorded : Metrics → Type 0 where
  at_start : Recorded new
  then_step : {m m' : Metrics} → Recorded m → MetricStep m m' → Recorded m'

-- Up to the 64 bits of the counters, each finished worker is counted under one reason and once by
-- whether its usage is known, and the queued bytes are never above their maximum.
abbrev pub Balanced : Metrics → Type 0
Balanced m =
    (m.terminal_total
      ≡ (m.terminal_body_eof + m.terminal_upstream_error + m.terminal_deadline
          + m.terminal_downstream_close + m.terminal_shutdown + m.terminal_admission_rejected)
        % 18446744073709551616)
    × (m.terminal_total ≡ (m.usage_known + m.usage_unknown) % 18446744073709551616)
    × (m.queued_response_bytes ≤ m.max_queued_response_bytes)
    × (m.queued_response_bytes < 18446744073709551616)

reason-Balanced :
    (m : Metrics) (reason : TerminalReason) (usage : Option ObservedUsage)
    → Balanced m
    → Balanced (worker_finished m reason usage)
reason-Balanced m body_eof none (r, k, p, w) = (omega (arith, r), omega (arith, k), p, w)
reason-Balanced m body_eof (some u) (r, k, p, w) = (omega (arith, r), omega (arith, k), p, w)
reason-Balanced m upstream_error none (r, k, p, w) = (omega (arith, r), omega (arith, k), p, w)
reason-Balanced m upstream_error (some u) (r, k, p, w) = (omega (arith, r), omega (arith, k), p, w)
reason-Balanced m deadline none (r, k, p, w) = (omega (arith, r), omega (arith, k), p, w)
reason-Balanced m deadline (some u) (r, k, p, w) = (omega (arith, r), omega (arith, k), p, w)
reason-Balanced m downstream_close none (r, k, p, w) = (omega (arith, r), omega (arith, k), p, w)
reason-Balanced m downstream_close (some u) (r, k, p, w) =
    (omega (arith, r), omega (arith, k), p, w)
reason-Balanced m shutdown none (r, k, p, w) = (omega (arith, r), omega (arith, k), p, w)
reason-Balanced m shutdown (some u) (r, k, p, w) = (omega (arith, r), omega (arith, k), p, w)
reason-Balanced m admission_rejected none (r, k, p, w) = (omega (arith, r), omega (arith, k), p, w)
reason-Balanced m admission_rejected (some u) (r, k, p, w) =
    (omega (arith, r), omega (arith, k), p, w)

error-Balanced :
    (m : Metrics) (e : ResponseError) → Balanced m → Balanced (record_response_error m e)
error-Balanced m server b = b
error-Balanced m rate_limit b = b
error-Balanced m client b = b
error-Balanced m unknown b = b

step-Balanced : (m m' : Metrics) → MetricStep m m' → Balanced m → Balanced m'
step-Balanced m m' request b = b
step-Balanced m m' upstream b = b
step-Balanced m m' started b = b
step-Balanced m m' drains b = b
step-Balanced m m' drained b = b
step-Balanced m m' first_byte b = b
step-Balanced m m' first_delta b = b
step-Balanced m m' marker b = b
step-Balanced m m' response_eof b = b
step-Balanced m m' (response_error e) b = error-Balanced m e b
step-Balanced m m' overflow b = b
step-Balanced m m' (queued bytes) (r, k, p, w) = (r, k, omega arith, omega arith)
step-Balanced m m' (sent bytes le) (r, k, p, w) = (r, k, omega arith, omega arith)
step-Balanced m m' (finished reason usage) b = reason-Balanced m reason usage b

-- After any sequence of calls on new counters, in which no more bytes are taken off the queue than
-- are in it: up to their 64 bits, the finished workers are the sum over the six reasons and the sum
-- of those with known and with unknown usage, and the queued bytes are at most their maximum.
pub Recorded-Balanced : (m : Metrics) → Recorded m → Balanced m
unfolding new
Recorded-Balanced m at_start = (omega arith, omega arith, omega arith, omega arith)
Recorded-Balanced m (then_step r s) = step-Balanced _ m s (Recorded-Balanced _ r)
