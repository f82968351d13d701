-- ===== src/Attempt.antt =====
-- product/src/circuit.rs: the end of an attempt (`headers`, `failure`, `complete`, its drop), and
-- the wait for a probe. A panic (a missing entry, an underflow) is `none`.
pub mod Accounting
pub mod Lifetime
pub mod Backoff
pub mod Probe
use mathlib.Core.Option
use deskquota.Common.{
  Bool, Option, add_u64, false, if◌then◌else◌, leb, ltb, max, min, none, not, some, true,
  wrapping_suc, ℕ, ◌&&◌, ◌*◌, ◌+◌, ◌-◌, ◌==◌, ◌||◌,
}
use deskquota.Circuit.{
  Attempt, Counts, Entry, Open, State, blocked_for, closed, cooldown, cooling, failure_gap,
  failure_threshold, first_backoff, is_half_open, lookup, max_backoff, max_waiters, opened, probing,
  reject, update,
}

-- The failure branch of `resolve` on the entry: the count restarts after a gap of 60 seconds, and
-- the gate opens at the third failure or on a failed probe.
abbrev pub is_stale_failure : ℕ → Option ℕ → Bool
is_stale_failure now none = true
is_stale_failure now (some at) = ltb failure_gap (now - at)

abbrev pub counted_failures : ℕ → Entry → ℕ
counted_failures now e =
    min ((if is_stale_failure now e.last_failure then 0 else e.failures) + 1) 255

abbrev pub trips : ℕ → Entry → Bool
trips now e = leb failure_threshold (counted_failures now e) || is_half_open e.gate

abbrev pub failed_entry : ℕ → ℕ → Entry → Entry
failed_entry now delay e =
    let counted = record e {
      failures = counted_failures now e;
      last_failure = some now;
      touched = now;
    } in
    if trips now e
    then record counted {
      gate = opened now (max delay e.next_backoff);
      next_backoff = min (e.next_backoff * 2) max_backoff;
      generation = wrapping_suc e.generation;
    }
    else counted

abbrev pub completed_entry : ℕ → Entry → Entry
completed_entry now e = record e {
  gate = closed;
  failures = 0;
  last_failure = none;
  next_backoff = first_backoff;
  touched = now;
}

abbrev pub count_failure : Option ℕ → Counts → Counts
count_failure none c = c
count_failure (some delay) c = record c { failures = add_u64 c.failures 1 }

-- The entry's change and the counters', by the outcome, at the attempt's own generation.
abbrev pub settle_entry : State → ℕ → ℕ → Entry → Option ℕ → State
settle_entry s now k e (some delay) = record s {
  entries = update k (failed_entry now delay e) s.entries;
  counts = if trips now e then record s.counts { opens = add_u64 s.counts.opens 1 } else s.counts;
}
settle_entry s now k e none = record s {
  entries = update k (completed_entry now e) s.entries;
  counts =
      if is_half_open e.gate
      then record s.counts { recoveries = add_u64 s.counts.recoveries 1 }
      else s.counts;
}

-- The state after a resolution, and whether the waiters are notified.
abbrev pub resolve_found : State → ℕ → Attempt → Option ℕ → Option Entry → Option (State × Bool)
resolve_found s now a failure none = none
resolve_found s now a failure (some e) = some (
    if e.generation == a.generation
    then (settle_entry s now a.key e failure, is_half_open e.gate)
    else (s, false))

-- `Attempt::resolve`: a failure with its delay, or a completion.
unfoldable pub resolve : State → ℕ → Attempt → Option ℕ → Option (State × Attempt × Bool)
resolve s now a failure =
    if a.resolved || not a.tracked
    then some (s, a, false)
    else Option.map (λ (r : State × Bool). (r.0, record a { resolved = true }, r.1))
        (resolve_found (record s { counts = count_failure failure s.counts }) now a failure
          (lookup a.key s.entries))

abbrev pub or_cooldown : Option ℕ → ℕ
or_cooldown none = cooldown
or_cooldown (some delay) = delay

-- `Attempt::failure` and `Attempt::complete`.
unfoldable pub failure : State → ℕ → Attempt → Option ℕ → Option (State × Attempt × Bool)
unfolding resolve
failure s now a delay = resolve s now a (some (or_cooldown delay))

unfoldable pub complete : State → ℕ → Attempt → Option (State × Attempt × Bool)
unfolding resolve
complete s now a = resolve s now a none

abbrev pub is_server_failure : ℕ → Bool
is_server_failure status = status == 500 || (status == 502 || (status == 503 || status == 504))

-- `Attempt::headers`; `delay` is what `failure_delay` made of the headers.
unfoldable pub headers : State → ℕ → Attempt → ℕ → Option ℕ → Option (State × Attempt × Bool)
unfolding failure
headers s now a status delay =
    if is_server_failure status then failure s now a delay else some (s, a, false)

-- A probe that is given up reopens its gate with no delay.
abbrev pub given_up : Attempt → Entry → Bool
given_up a e = not a.resolved && ((e.generation == a.generation) && is_half_open e.gate)

abbrev pub dropped_entry : ℕ → Attempt → Entry → Entry
dropped_entry now a e =
    let left = record e { in_flight = e.in_flight - 1 } in
    if given_up a e
    then record left { gate = opened now 0; generation = wrapping_suc e.generation }
    else left

abbrev pub drop_found : State → ℕ → Attempt → Option Entry → Option (State × Bool)
drop_found s now a none = none
drop_found s now a (some e) =
    if e.in_flight == 0
    then none
    else some (record s { entries = update a.key (dropped_entry now a e) s.entries }, given_up a e)

-- `Drop for Attempt`: the state, and whether the waiters are notified.
unfoldable pub drop_attempt : State → ℕ → Attempt → Option (State × Bool)
drop_attempt s now a =
    if not a.tracked then some (s, false) else drop_found s now a (lookup a.key s.entries)

-- One pass of the loop of `Scope::wait`. `registered` says that the caller has its `Waiter`;
-- it waits on, or returns with an error or leave to go on, and then drops its `Waiter`.
pub data Waited : Type 0 where
  waits : Waited
  returns : Option Open → Waited

abbrev pub leave : Bool → Counts → Counts
leave registered c = if registered then record c { waiters = c.waiters - 1 } else c

abbrev pub wait_closed : State → Bool → Option ℕ → State × Waited
wait_closed s registered (some delay) =
    (record s { counts = leave registered (reject s.counts) }, returns (some (cooling delay)))
wait_closed s registered none = (record s { counts = leave registered s.counts }, returns none)

abbrev pub wait_half_open : State → Bool → State × Waited
wait_half_open s true = (s, waits)
wait_half_open s false =
    if s.counts.waiters == max_waiters
    then (record s { counts = reject s.counts }, returns (some probing))
    else (record s { counts = record s.counts { waiters = s.counts.waiters + 1 } }, waits)

abbrev pub wait_found : State → ℕ → Bool → Option Entry → State × Waited
wait_found s now registered none = wait_closed s registered none
wait_found s now registered (some e) =
    if is_half_open e.gate
    then wait_half_open s registered
    else wait_closed s registered (blocked_for now e)

unfoldable pub wait_pass : State → ℕ → ℕ → Bool → State × Waited
wait_pass s now k registered = wait_found s now registered (lookup k s.entries)
