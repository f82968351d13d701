-- ===== src/Admission.antt =====
-- product/src/admission/mod.rs: acquiring, holding and settling a reservation, over the shared
-- queue. Each operation takes the clock readings that the code makes, in order. The values that
-- the response headers give (a hint, a delay) are arguments.
pub mod Valid
pub mod Changes
pub mod Steps
pub mod Again
use deskquota.Common.{
  Bool, Option, add_time, false, from_secs, if◌then◌else◌, leb, max, max_u64, min, none, not, some,
  true, ℕ, ◌&&◌, ◌+◌, ◌==◌, ◌||◌,
}
use deskquota.Quota.{Cost, is_generation}
use deskquota.Ledger.{cancel, finish, start}
use deskquota.Scheduler.{
  Enqueued, Outcome, Queue, accepted, arm_recovery, can_start, enqueue, release_probe, throttle,
  write,
}
use deskquota.Drive.{Rounds, done, drive, out_of_fuel, panicked, wake}

-- `config::Endpoint`.
pub data Endpoint : Type 0 where
  chat_completions responses messages count_tokens models : Endpoint

-- `protocol::ObservedUsage`.
pub record ObservedUsage : Type 0 where
  pub input_tokens : ℕ
  pub output_tokens : ℕ
  pub cache_creation_input_tokens : ℕ
  pub cache_read_input_tokens : ℕ

-- `u64::checked_add`.
abbrev pub checked_add : Option ℕ → ℕ → Option ℕ
checked_add none b = none
checked_add (some a) b = if leb (a + b) max_u64 then some (a + b) else none

abbrev total_checked : ObservedUsage → Endpoint → ℕ → Option ℕ
total_checked u messages total =
    checked_add (checked_add (some total) u.cache_creation_input_tokens) u.cache_read_input_tokens
total_checked u chat_completions total =
    if leb u.cache_read_input_tokens u.input_tokens && (u.cache_creation_input_tokens == 0)
    then some total
    else none
total_checked u responses total =
    if leb u.cache_read_input_tokens u.input_tokens && (u.cache_creation_input_tokens == 0)
    then some total
    else none
total_checked u count_tokens total = some 0
total_checked u models total = some 0

abbrev total_of : ObservedUsage → Endpoint → Option ℕ → Option ℕ
total_of u endpoint none = none
total_of u endpoint (some total) = total_checked u endpoint total

-- `ObservedUsage::total`: the tokens to settle, `none` where the fields contradict the endpoint.
unfoldable pub usage_total : ObservedUsage → Endpoint → Option ℕ
usage_total u endpoint = total_of u endpoint (checked_add (some u.input_tokens) u.output_tokens)

pub record Hold : Type 0 where
  pub id : ℕ
  pub started : Bool
  pub generation : ℕ
  pub exhaustion_observed : Bool
  pub usage : Option ObservedUsage
  pub endpoint : Endpoint
  pub wait_started : ℕ
  pub queue_deadline : ℕ
  pub root : ℕ
  pub cost : Cost

-- `acquire`: the deadline of a request that enters at `now` and is ready to wait.
unfoldable pub deadline_of : ℕ → ℕ → ℕ
deadline_of now patience = add_time now (min patience (from_secs 120))

-- The start of `acquire_at`: a clock reading against the deadline, one for `drive`, the enqueuing.
pub data Entered : Type 0 where
  entered : Queue → Enqueued → Entered
  too_late faults : Entered

abbrev pub enter_driven : Rounds → ℕ → Cost → ℕ → ℕ → Entered
unfolding enqueue
enter_driven (done q) root cost now deadline =
    let (q', r) = enqueue q root cost now deadline in entered q' r
enter_driven panicked root cost now deadline = faults
enter_driven out_of_fuel root cost now deadline = faults

unfoldable pub enter : Queue → ℕ → ℕ → ℕ → Cost → ℕ → ℕ → Entered
unfolding enter_driven drive
enter q checked driven root cost now deadline =
    if leb deadline checked then too_late else enter_driven (drive q driven) root cost now deadline

-- One pass of the loop of `acquire_at` for the ticket `cell`: the drive, the outcome that is taken
-- from the cell, and the wake that `drive` gave.
pub data Polled : Type 0 where
  settles : Queue → Outcome → Polled
  pends : Queue → Option ℕ → Polled
  fails : Polled

abbrev pub polled : Queue → ℕ → ℕ → Option Outcome → Polled
polled q now cell (some o) = settles (record q { cells = write q.cells cell none }) o
polled q now cell none = pends (record q { cells = write q.cells cell none }) (wake q now)

abbrev pub poll_driven : ℕ → ℕ → Rounds → Polled
poll_driven now cell (done q) = polled q now cell (q.cells cell)
poll_driven now cell panicked = fails
poll_driven now cell out_of_fuel = fails

unfoldable pub poll : Queue → ℕ → ℕ → Polled
unfolding drive
poll q now cell = poll_driven now cell (drive q now)

-- The hold that a granted ticket becomes.
abbrev pub hold_of : ℕ → ℕ → Cost → Endpoint → ℕ → ℕ → Hold
hold_of id root cost endpoint now deadline = record {
  id = id;
  started = false;
  generation = 0;
  exhaustion_observed = false;
  usage = none;
  endpoint = endpoint;
  wait_started = now;
  queue_deadline = deadline;
  root = root;
  cost = cost;
}

-- `Admission::cooldown`.
unfoldable pub cool_down : Queue → ℕ → ℕ → Queue
cool_down q now delay = record q { cooldown_until = max q.cooldown_until (add_time now delay) }

-- `Hold::start`: the last check of the gate before the wire, and the debit.
unfoldable pub hold_start : Queue → ℕ → Hold → Queue × Hold × Bool
unfolding can_start start
hold_start q now h =
    if h.started
    then (q, h, true)
    else if not (can_start q now h.id h.cost)
    then (q, h, false)
    else (let (l, ok) = start q.ledger now h.id in
        (record q { ledger = l }, record h { started = ok; generation = q.generation }, ok))

-- `feedback::Exhausted`.
pub record Exhausted : Type 0 where
  pub delay : ℕ
  pub generation_only : Bool

abbrev pub cool_429 : Queue → ℕ → ℕ → Option ℕ → Queue
cool_429 q now status none = q
cool_429 q now status (some delay) =
    if status == 429
    then record q { cooldown_until = max q.cooldown_until (add_time now delay) }
    else q

abbrev pub arm_hint : Queue → ℕ → Hold → Option Exhausted → Queue × Hold
unfolding arm_recovery
arm_hint q now h none = (q, h)
arm_hint q now h (some hint) = (
  arm_recovery q now hint.delay (hint.generation_only || is_generation h.cost),
  record h { exhaustion_observed = true },
)

abbrev pub conclude : Queue → ℕ → Hold → ℕ → Queue
unfolding accepted release_probe
conclude q now h status =
    if status == 200
    then accepted q now h.id h.generation
    else if not (status == 429)
    then release_probe q h.id
    else q

-- `Hold::headers`.
unfoldable pub hold_headers : Queue → ℕ → Hold → ℕ → Option Exhausted → Option ℕ → Queue × Hold
unfolding arm_hint conclude
hold_headers q now h status hint delay =
    let (q', h') = arm_hint (cool_429 q now status delay) now h hint in
    (conclude q' now h' status, h')

-- `Hold::rejected`, with `jitter` for the backoff.
unfoldable pub hold_rejected : Queue → ℕ → ℕ → Hold → Bool → Bool → Bool → Queue
unfolding throttle release_probe
hold_rejected q jitter now h has_timing missing_timing recognized =
    release_probe
      (if (recognized && not h.exhaustion_observed) && (has_timing || missing_timing)
        then throttle q jitter now h.generation h.cost has_timing
        else q)
      h.id

abbrev pub settled_usage : Option ObservedUsage → Endpoint → Option ℕ
unfolding usage_total
settled_usage none endpoint = none
settled_usage (some u) endpoint = usage_total u endpoint

-- `Drop for Hold`.
unfoldable pub hold_drop : Queue → ℕ → Hold → Queue
unfolding settled_usage finish cancel release_probe
hold_drop q now h =
    release_probe
      (record q {
        ledger =
            if h.started
            then (finish q.ledger now h.id (settled_usage h.usage h.endpoint)).0
            else (cancel q.ledger now h.id).0;
      })
      h.id

-- `Hold::usage`.
abbrev pub hold_usage : Hold → Option ObservedUsage → Hold
hold_usage h usage = record h { usage = usage }

-- `Hold::retry`: the attempt is settled, then the request enters again with the time of its first
-- entry and its deadline. The clock is read when the hold is dropped, then as `enter` reads it.
unfoldable pub hold_retry : Queue → ℕ → ℕ → ℕ → Hold → Entered
unfolding enter hold_drop
hold_retry q dropped checked driven h =
    enter (hold_drop q dropped h) checked driven h.root h.cost h.wait_started h.queue_deadline
