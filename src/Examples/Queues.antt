-- ===== src/Examples/Queues.antt =====
-- product/src/admission/queue.rs and mod.rs with two roots, at two requests a minute.
use deskquota.Scheduler
use deskquota.Ledger
use deskquota.Common.{
  arith, false, from_millis, from_secs, max, max_duration, min, none, refl, some, true, ℕ, ◌+◌, ◌<◌,
  ◌≡◌, ◌≤◌,
}
use deskquota.Quota.{Quota, estimated, exact_fixture, known_limit, metadata, reserved}
use deskquota.Ledger.Invariant.{Inv}
use deskquota.Scheduler.{Queue, Recovery, Waiting, enqueue, granted, len, max_waiting, throttle}
use deskquota.Scheduler.Backoff.{throttle_delay, throttle_once}
use deskquota.Barrier.{expire, heads, protect}
use deskquota.Barrier.Oldest.{IsOldest, protect-IsOldest}
use deskquota.Drive.{done, drive, wake}
use deskquota.Drive.Serve.{Ready}
use deskquota.Drive.Total.{drive_done, queue_of}
use deskquota.Drive.Kept.{AllWaiting, Unexpired, drive-Unexpired}
use deskquota.Drive.Stops.{Idle, drive-Idle}
use deskquota.Drive.Wakes.{wake-drive}
use deskquota.Drive.Gate.{Gated, drive-Gated, gated}
use deskquota.Admission.{Hold, hold_of, hold_retry, messages}
use deskquota.Admission.Valid.{Untouched-Valid, Valid, throttle-Untouched}
use deskquota.Admission.Steps.{
  Reach, Reach-drive, Step-Valid, drives, enqueues, here, new-Valid, next,
}
use deskquota.Admission.Again.{Entering, hold_retry-Entering}

abbrev limits : Quota
limits = record { rpm = known_limit 2; tpm = known_limit 100 }

abbrev fresh : Queue
unfolding Scheduler.new Ledger.new
fresh = Scheduler.new (Ledger.new limits reserved 4 0 0) 2

-- Two requests wait at the first root and one at the second.
abbrev crowd : Queue
unfolding fresh enqueue
crowd = (enqueue second 0 (estimated 5 5) 0 (from_secs 100)).0
  where
    first : Queue
    first = (enqueue fresh 0 (exact_fixture 30) 0 (from_secs 100)).0

    second : Queue
    second = (enqueue first 1 (exact_fixture 30) 0 (from_secs 50)).0

abbrev after : Queue
unfolding crowd drive
after = queue_of crowd (drive crowd 1)

driven : drive crowd 1 ≡ done after
unfolding after
driven = refl

-- One request of each root was granted, the second of the first root waits for the request limit.
served : (after.cells 0 ≡ some (granted 1)) × (after.cells 1 ≡ some (granted 2)) × (len after ≡ 1)
unfolding after
served = (refl, refl, refl)

reached : Reach fresh crowd
unfolding crowd
reached =
    next
      (next (next here (enqueues _ 0 (exact_fixture 30) 0 (from_secs 100)))
        (enqueues _ 1 (exact_fixture 30) 0 (from_secs 50)))
      (enqueues _ 0 (estimated 5 5) 0 (from_secs 100))

valid : Valid crowd
unfolding fresh crowd enqueue
valid = Step-Valid (enqueues _ 0 (estimated 5 5) 0 (from_secs 100)) (
    Step-Valid (enqueues _ 1 (exact_fixture 30) 0 (from_secs 50)) (
      Step-Valid (enqueues _ 0 (exact_fixture 30) 0 (from_secs 100))
        (new-Valid limits reserved 4 0 0 2 (omega arith))))

drive_done_example : (q' : Queue) × (drive crowd 1 ≡ done q') × Ready q'
drive_done_example = drive_done crowd 1 valid.ready

drive-Unexpired_example : AllWaiting (Unexpired 1) after.roots
drive-Unexpired_example = drive-Unexpired crowd after 1 valid.ready driven

drive-Idle_example : Idle 1 after
drive-Idle_example = drive-Idle crowd after 1 valid.ready driven

wake-drive_example : (at : ℕ) × (wake after 1 ≡ some at) × (1 < at)
wake-drive_example = wake-drive crowd after 1 valid.ready driven (omega (arith, served.2))

Step-Valid_example : Valid after
Step-Valid_example = Step-Valid (drives 1 driven) valid

Reach-drive_example :
    (q' : Queue) × (drive crowd 1 ≡ done q') × (len q' ≤ max_waiting) × Inv q'.ledger
unfolding fresh
Reach-drive_example = Reach-drive limits reserved 4 0 0 2 crowd 1 (omega arith) reached

-- The queue after a 429 of generation at time 1, with a second to wait and no probe.
abbrev recovering : Queue
unfolding crowd throttle
recovering = throttle crowd 0 1 0 (exact_fixture 30) false

recovering-Valid : Valid recovering
unfolding recovering
recovering-Valid =
    Untouched-Valid crowd (throttle crowd 0 1 0 (exact_fixture 30) false)
      (throttle-Untouched crowd 0 1 0 (exact_fixture 30) false) valid

abbrev gate : Recovery
gate = record { generation_only = true; probe = none }

abbrev probing : Queue
unfolding recovering drive
probing = queue_of recovering (drive recovering (from_secs 2))

probed_drive : drive recovering (from_secs 2) ≡ done probing
unfolding probing
probed_drive = refl

drive-Gated_example :
    Gated gate (gated gate (expire recovering (from_secs 2)).roots) recovering.ledger.next probing
unfolding recovering
drive-Gated_example =
    drive-Gated recovering probing (from_secs 2) gate recovering-Valid.ready refl probed_drive

throttle_once_example :
    let first = throttle crowd 7 1 crowd.generation (exact_fixture 30) false in
    let second = throttle first 9 5 crowd.generation metadata true in
    (second.cooldown_until ≡ first.cooldown_until) × (second.no_hint_stage ≡ first.no_hint_stage)
unfolding crowd fresh enqueue
throttle_once_example =
    throttle_once crowd 7 9 1 5 (exact_fixture 30) metadata false true (omega arith)

throttle_delay_example :
    let q' = throttle crowd 7 1 crowd.generation (exact_fixture 30) false in
    let timed = throttle crowd 7 1 crowd.generation (exact_fixture 30) true in
    (crowd.cooldown_until ≤ q'.cooldown_until)
    × (min (1 + from_secs 1) max_duration ≤ q'.cooldown_until)
    × (q'.cooldown_until ≤ max crowd.cooldown_until (1 + from_secs 30 + from_millis 250))
    × (q'.no_hint_stage ≡ min (crowd.no_hint_stage + 1) 5)
    × (timed.cooldown_until ≡ max crowd.cooldown_until (min 1 max_duration))
throttle_delay_example = throttle_delay crowd 7 1 (exact_fixture 30) (omega arith)

protect-IsOldest_example :
    (m : ℕ × Waiting) × ((protect crowd (from_secs 6)).barrier ≡ some (m.0, m.1.sequence))
    × IsOldest m (heads crowd)
unfolding crowd fresh enqueue
protect-IsOldest_example = protect-IsOldest crowd (from_secs 6) refl refl

abbrev waited : Hold
waited = hold_of 7 0 (estimated 5 5) messages 0 (from_secs 100)

hold_retry-Entering_example :
    Entering 2 waited.root waited.cost waited.wait_started waited.queue_deadline
      (hold_retry crowd 1 2 3 waited)
hold_retry-Entering_example = hold_retry-Entering crowd 1 2 3 waited valid
