-- ===== src/Examples/Circuits.antt =====
-- product/src/circuit.rs at one scope, whose key is 7.
use deskquota.Common.{
  Bool, [], arith, false, if◌then◌else◌, ltb, max, none, refl, some, true, ◌+◌, ◌-◌, ◌∷◌, ◌≡◌, ◌≤◌,
}
use deskquota.Circuit.{
  Attempt, Counts, Entry, State, attempts, blocked, blocked_for, closed, first_backoff, half_open,
  new_entry, opened, probing, start, started_entry,
}
use deskquota.Attempt.{drop_attempt, failed_entry, resolve}
use deskquota.Attempt.Accounting.{Accounted, joined}
use deskquota.Attempt.Lifetime.{drop-Accounted, resolve-Accounted, start-Accounted}
use deskquota.Attempt.Backoff.{IsPaced, failed_entry_blocks, failing, step-IsPaced, three_failures}
use deskquota.Attempt.Probe.{start-start}

abbrev no_counts : Counts
no_counts = record {
  waiters = 0;
  failures = 0;
  opens = 0;
  rejections = 0;
  probes = 0;
  recoveries = 0;
  capacity_bypasses = 0;
}

abbrev empty : State
empty = record { entries = []; counts = no_counts }

empty-Accounted : Accounted empty []
empty-Accounted = record { counted = λ k. refl; distinct = λ k. omega arith; bounded = omega arith }

abbrev attempt : Attempt
attempt = record { key = 7; generation = 0; tracked = true; resolved = false }

abbrev flying : State
flying = record { entries = (7, record (new_entry 3) { in_flight = 1 }) ∷ []; counts = no_counts }

start-flying : start empty 3 7 ≡ (flying, attempts attempt)
unfolding start
start-flying = refl

start-Accounted_example : Accounted (start empty 3 7).0 (joined (start empty 3 7).1 [])
start-Accounted_example = start-Accounted empty [] 3 7 empty-Accounted

flying-Accounted : Accounted flying (attempt ∷ [])
unfolding start
flying-Accounted = start-Accounted_example'
  where
    start-Accounted_example' : Accounted (start empty 3 7).0 (joined (start empty 3 7).1 [])
    start-Accounted_example' = start-Accounted empty [] 3 7 empty-Accounted

resolve-Accounted_example :
    (r : State × Attempt × Bool) × (resolve flying 4 attempt (some 9) ≡ some r)
    × Accounted r.0 (r.1 ∷ [])
resolve-Accounted_example = resolve-Accounted flying [] 4 attempt (some 9) flying-Accounted

drop-Accounted_example :
    (r : State × Bool) × (drop_attempt flying 5 attempt ≡ some r) × Accounted r.0 []
drop-Accounted_example = drop-Accounted flying [] 5 attempt flying-Accounted

step-IsPaced_example : IsPaced (failed_entry 4 9 (new_entry 3))
step-IsPaced_example = step-IsPaced {now = 4} (failing (new_entry 3) 9) (omega arith, omega arith)

-- An entry that failed twice, at time 1 and 2.
abbrev twice_failed : Entry
twice_failed = failed_entry 2 0 (failed_entry 1 0 (new_entry 0))

failed_entry_blocks_example :
    let e' = failed_entry 3 9 twice_failed in
    let shut = 3 + max 9 twice_failed.next_backoff in
    (blocked_for 4 e' ≡ (if ltb 4 shut then some (shut - 4) else none))
    × ((started_entry 4 e').gate ≡ half_open)
    × (3 + first_backoff ≤ shut)
failed_entry_blocks_example =
    failed_entry_blocks twice_failed 3 9 4 (omega arith, omega arith) refl (omega arith)

three_failures_example :
    let first = failed_entry 1 0 (new_entry 0) in
    let second = failed_entry 2 0 first in
    let third = failed_entry 3 9 second in
    (first.gate ≡ closed) × (second.gate ≡ closed) × (third.gate ≡ opened 3 (max 9 first_backoff))
three_failures_example =
    three_failures (new_entry 0) 1 2 3 0 0 9 refl refl (omega arith) (omega arith)

abbrev open_entry : Entry
open_entry = record (new_entry 0) { gate = opened 3 10; generation = 1 }

start-start_example :
    let s = record empty { entries = (7, open_entry) ∷ [] } in
    let (s', first) = start s 13 7 in
    let (s'', second) = start s' 20 7 in
    (first ≡ attempts (record { key = 7; generation = 2; tracked = true; resolved = false }))
    × (second ≡ blocked probing)
    × (s''.counts ≡ s'.counts)
    × (s'.counts.probes ≡ 1)
start-start_example =
    start-start (record empty { entries = (7, open_entry) ∷ [] }) 13 20 7 3 10 open_entry refl refl
      (omega arith)
