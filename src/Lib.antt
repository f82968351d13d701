-- ===== src/Lib.antt =====
-- DeskQuota: admission of requests to a shared provider quota, the circuit breaker, and
-- the cache of responses.
--
-- The program is a local gateway. Each request asks the admission for a hold, which waits in the
-- queue of its root until the ledger has quota for it; the transport then starts the hold, sends
-- the request within an attempt of the circuit breaker, reports the response's headers and usage,
-- and drops both. Many tasks share one queue, one ledger and one circuit, each behind a mutex, so
-- that what the tasks do is a sequence of whole operations, in any order.
--
-- Quota and Ledger: product/src/admission/quota.rs. `Ledger` is the struct of that name; each
--   operation takes the clock reading and returns the next ledger with its result. `check` returns
--   its refusal as a value. Ledger/Tally describes what `check` grants without the snapshot,
--   Ledger/Invariant and Ledger/History the invariant under any calls, Ledger/Window the starts of
--   the last minute, Ledger/Budget the tokens, Ledger/Wake the time of the next change.
-- Scheduler, Barrier and Drive: product/src/admission/queue.rs. A result cell that the code shares
--   by a pointer is an index into the queue's `cells`. Scheduler has the queue, its recovery gate
--   and `enqueue`; Barrier has `protect`, `cancel` and the expiry of `drive`; Drive has the loop
--   of `drive`, its wake-up time, and `blocked_reason`. A round of the loop may panic (an index
--   out of range, a missing head, the `unreachable!`): this is a value of the model.
-- Circuit and Attempt: product/src/circuit.rs. Circuit has the table of scopes and `Scope::start`,
--   Attempt has what an attempt does to its entry and one pass of the loop of `Scope::wait`.
-- Admission: product/src/admission/mod.rs: `acquire_at` as `enter`, which queues the ticket, and
--   `poll`, one pass of its loop; `Hold` and its operations; `Ticket`'s drop is `cancel_ticket`.
--   Admission/Steps has the relation of all operations that tasks do to the shared queue,
--   Admission/Again is about `Hold::retry`.
-- Retry and Feedback: product/src/admission/retry.rs and feedback.rs, and `failure_delay` of
--   product/src/circuit.rs: the delays and hints that headers give, which the admission and the
--   circuit take as arguments. A header map is a function from a name to its values.
-- BodyBudget: product/src/transport/body_budget.rs, with the semaphore as a parameter.
-- Headers: product/src/transport/headers.rs. A header map is the list of its names and values, the
--   names in lower case; Headers/Local has the guard of local requests.
-- Semaphore: what the cache asks of tokio's semaphore, as an interface with its laws.
-- Cache, Capture and Flights: product/src/cache.rs. Cache has the table of entries, the set of
--   flights and the waiters: `lookup_in`, one pass of `wait_for_turn`, and the drop of a pending
--   request. Capture has `capture`, `observe`, `commit` and the eviction. Flights has the relation
--   of what requests do to the shared cache: they are counted, look up, wait for their turn,
--   capture or reject a response, observe, commit, and are dropped at any time. Cache/Account says what the requests
--   that are alive owe to the counters and to the budget.
-- Json: the values of the package serde_json and its accessors.
-- Shapes and Completion: product/src/cache.rs, `only` to `complete_response`, and
--   `StreamCompletion`. Completion/Grammar has the grammar of a whole answer as an automaton.
-- Fingerprint: product/src/cache.rs, `ExactCache::request`: the bytes whose digest is the key.
-- Usage and Responses: product/src/protocol/json.rs, with `token` and `nested_token` of
--   product/src/protocol/mod.rs, and product/src/protocol/responses.rs: the usage that a response or
--   a stream reports, over JSON values that are parsed.
-- Metrics: product/src/metrics.rs, the counters.
-- Common: the shared names, the loops over lists, and the machine integers and durations.
-- Examples: concrete inputs.
--
-- A duration is its number of nanoseconds; saturating and wrapping operations are written out.
-- The loop of `drive` runs on fuel: one more than the number of requests that wait, which is
-- enough since every round but the last serves one of them. So does the loop of `capture` that
-- reserves bytes: one more than the number of entries, since every round but the last evicts one.
--
-- Not modelled: `can_backfill` and the policies of the feature bench-harness, which the default
-- build does not contain; the status documents; the clocks (each reading is an argument) and the
-- notifications (a task may poll at any time); the parsers of dates and durations (parameters);
-- the classification of error bodies; the random jitter, an argument; the hash of a scope's
-- credentials, whose result is a number.
-- The readings of the clock that the code makes one after the other while it records one failure
-- are one argument. The counter of queued bytes wraps where a build with overflow checks would
-- panic, and an operation on several counters is one step. The stage of the table of waits without
-- a hint is at most 5, since only `throttle` raises it; a later one, at which the code would panic,
-- waits like stage 5.
-- Sums of tokens that the code makes in 128 bits without saturation are made without a bound.
-- The digest of a request in the cache is a parameter that gives a number; the cache's counters
-- that the code adds to without saturation have no bound; its notifications are tasks that may
-- look again at any time.
-- The other parts of the program (the rest of the transport and the protocol, configuration,
-- set-up, lifecycle) are not modelled.
pub mod Common
pub mod Quota
pub mod Ledger
pub mod Scheduler
pub mod Barrier
pub mod Drive
mod Examples
pub mod Circuit
pub mod Attempt
pub mod Admission
pub mod Retry
pub mod Feedback
pub mod Metrics
pub mod BodyBudget
pub mod Headers
pub mod Semaphore
pub mod Cache
pub mod Capture
pub mod Flights
pub mod Json
pub mod Shapes
pub mod Completion
pub mod Fingerprint
pub mod Usage
pub mod Responses
