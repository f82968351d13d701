-- ===== src/Scheduler.antt =====
-- product/src/admission/queue.rs: the waiting requests of each root, the recovery gate and the
-- bypass barrier. A method returns the new queue. The build without `bench-harness` is modelled.
-- A `ResultCell` is a number; `cells` is the memory that the shared cells stand for.
pub mod Backoff
use mathlib.Core.Option
use deskquota.Common.{
  Bool, List, Option, [], add_time, false, from_millis, from_secs, if◌then◌else◌, is_some, leb,
  length, map, max, max_u64, min, modify, none, not, replicate, some, suc, sum_by, true,
  wrapping_suc, zero, ℕ, ◌&&◌, ◌++◌, ◌+◌, ◌==◌, ◌||◌, ◌∷◌,
}
use deskquota.Quota.{Cost, Ledger, is_generation, is_metadata}
use deskquota.Ledger.{is_active_generation, total_fits}

-- `AcquireError` of product/src/admission/mod.rs.
pub data AcquireError : Type 0 where
  estimate_exceeds_budget queue_full invalid_root deadline_passed : AcquireError

-- What a ticket's cell holds once its wait is over.
pub data Outcome : Type 0 where
  granted : ℕ → Outcome
  refused : AcquireError → Outcome

abbrev pub Cells : Type 0
Cells = ℕ → Option Outcome

abbrev pub write : Cells → ℕ → Option Outcome → Cells
write cells c v k = if k == c then v else cells k

abbrev pub max_waiting : ℕ
max_waiting = 64

abbrev pub max_bypasses : ℕ
max_bypasses = 8

abbrev pub max_age : ℕ
max_age = from_secs 5

abbrev pub max_u8 : ℕ
max_u8 = 255

pub record Waiting : Type 0 where
  pub cell : ℕ
  pub cost : Cost
  pub enqueued : ℕ
  pub deadline : ℕ
  pub sequence : ℕ
  pub bypasses : ℕ

pub record Recovery : Type 0 where
  pub generation_only : Bool
  pub probe : Option ℕ

pub record Queue : Type 0 where
  pub ledger : Ledger
  pub cooldown_until : ℕ
  pub generation : ℕ
  pub recovery : Option Recovery
  pub no_hint_stage : ℕ
  pub roots : List (List Waiting)
  pub cursor : ℕ
  pub sequence : ℕ
  pub barrier : Option (ℕ × ℕ)
  pub cells : Cells
  pub next_cell : ℕ

unfoldable pub new : Ledger → ℕ → Queue
new ledger roots = record {
  ledger = ledger;
  cooldown_until = 0;
  generation = 0;
  recovery = none;
  no_hint_stage = 0;
  roots = replicate roots [];
  cursor = 0;
  sequence = 0;
  barrier = none;
  cells = λ _. none;
  next_cell = 0;
}

abbrev pub waiting_in : List (List Waiting) → ℕ
waiting_in = sum_by length

abbrev pub len : Queue → ℕ
len q = waiting_in q.roots

abbrev pub lengths : Queue → List ℕ
lengths q = map length q.roots

abbrev pub barrier_root : Queue → Option ℕ
barrier_root q = Option.map (λ (b : ℕ × ℕ). b.0) q.barrier

abbrev pub is_id : Option ℕ → ℕ → Bool
is_id none id = false
is_id (some p) id = p == id

-- `recovery.generation_only && !cost.is_generation()`: metadata passes a generation gate.
abbrev pub passes : Recovery → Cost → Bool
passes r cost = r.generation_only && is_metadata cost

abbrev pub eligible : Option Recovery → Cost → Bool
eligible none cost = true
eligible (some r) cost = passes r cost || not (is_some r.probe)

abbrev pub may_start : Option Recovery → ℕ → Cost → Bool
may_start none id cost = true
may_start (some r) id cost = passes r cost || is_id r.probe id

unfoldable pub can_start : Queue → ℕ → ℕ → Cost → Bool
can_start q now id cost = leb q.cooldown_until now && may_start q.recovery id cost

abbrev pub only_generation : Option Recovery → Bool
only_generation none = false
only_generation (some r) = r.generation_only

unfoldable pub arm_recovery : Queue → ℕ → ℕ → Bool → Queue
arm_recovery q now delay generation_only = record q {
  cooldown_until = max q.cooldown_until (add_time now delay);
  generation = wrapping_suc q.generation;
  recovery =
      some
        (record { generation_only = generation_only || only_generation q.recovery; probe = none });
}

abbrev pub keeps_probe : Queue → Option ℕ → Bool
unfolding is_active_generation
keeps_probe q none = false
keeps_probe q (some id) = is_active_generation q.ledger id

-- The stale branch of `throttle`: the request was sent before the current generation.
abbrev pub stale_throttle : Queue → Cost → Option Recovery → Queue
stale_throttle q cost none = q
stale_throttle q cost (some r) =
    if is_generation cost && not r.generation_only
    then (if keeps_probe q r.probe
        then record q { recovery = some (record r { generation_only = true }) }
        else record q {
          generation = wrapping_suc q.generation;
          recovery = some (record r { generation_only = true; probe = none });
        })
    else q

-- `SECONDS`, by the stage. The stage is at most 5, since only `throttle` raises it; the code would
-- panic at a later one.
abbrev pub no_hint_secs : ℕ → ℕ
no_hint_secs zero = 1
no_hint_secs (suc zero) = 3
no_hint_secs (suc (suc zero)) = 5
no_hint_secs (suc (suc (suc zero))) = 10
no_hint_secs (suc (suc (suc (suc zero)))) = 20
no_hint_secs _ = 30

-- `jitter` is the millisecond count that `rand::random_range(0..=250)` returned.
unfoldable pub throttle : Queue → ℕ → ℕ → ℕ → Cost → Bool → Queue
unfolding arm_recovery
throttle q jitter now generation cost has_timing =
    if not (generation == q.generation)
    then stale_throttle q cost q.recovery
    else if has_timing
    then arm_recovery q now 0 (is_generation cost)
    else arm_recovery (record q { no_hint_stage = min (q.no_hint_stage + 1) 5 }) now
        (from_secs (no_hint_secs q.no_hint_stage) + from_millis jitter) (is_generation cost)

abbrev pub probe_is : Option Recovery → ℕ → Bool
probe_is none id = false
probe_is (some r) id = is_id r.probe id

unfoldable pub accepted : Queue → ℕ → ℕ → ℕ → Queue
accepted q now id generation =
    if (generation == q.generation) && (leb q.cooldown_until now && probe_is q.recovery id)
    then record q { recovery = none; no_hint_stage = 0 }
    else q

abbrev pub without_probe : Option Recovery → ℕ → Option Recovery
without_probe none id = none
without_probe (some r) id = some (if is_id r.probe id then record r { probe = none } else r)

unfoldable pub release_probe : Queue → ℕ → Queue
release_probe q id = record q { recovery = without_probe q.recovery id }

pub data Enqueued : Type 0 where
  queued : ℕ → Enqueued
  rejected : AcquireError → Enqueued

abbrev pub push_back : Waiting → List Waiting → List Waiting
push_back w ws = ws ++ w ∷ []

unfoldable pub enqueue : Queue → ℕ → Cost → ℕ → ℕ → Queue × Enqueued
unfolding total_fits
enqueue q root cost enqueued deadline =
    if leb (length q.roots) root
    then (q, rejected invalid_root)
    else if not (total_fits q.ledger cost)
    then (q, rejected estimate_exceeds_budget)
    else if leb max_waiting (len q)
    then (q, rejected queue_full)
    else if q.sequence == max_u64
    then (q, rejected queue_full)
    else (
      record q {
        sequence = q.sequence + 1;
        roots =
            modify
              (push_back (record {
                cell = q.next_cell;
                cost = cost;
                enqueued = enqueued;
                deadline = deadline;
                sequence = q.sequence + 1;
                bypasses = 0;
              }))
              q.roots root;
        next_cell = q.next_cell + 1;
      },
      queued q.next_cell,
    )
