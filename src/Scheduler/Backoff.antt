-- ===== src/Scheduler/Backoff.antt =====
-- product/src/admission/queue.rs, `throttle` and `arm_recovery`: how a 429 backs the queue off.
use deskquota.Common.{
  Bool, Option, arith, false, from_millis, from_secs, max, max_duration, min, none, refl, some, suc,
  true, zero, ℕ, ◌+◌, ◌<◌, ◌==◌, ◌≡◌, ◌≤◌,
}
use deskquota.Quota.{Cost}
use deskquota.Scheduler.{Queue, Recovery, no_hint_secs, stale_throttle, throttle, wrapping_suc}

wrapping_suc_ne : (g : ℕ) → g < 18446744073709551616 → (g == wrapping_suc g) ≡ false
wrapping_suc_ne g h = ground arith

stale_throttle_keeps :
    (q : Queue) (cost : Cost) (r : Option Recovery)
    → ((stale_throttle q cost r).cooldown_until ≡ q.cooldown_until)
      × ((stale_throttle q cost r).no_hint_stage ≡ q.no_hint_stage)
stale_throttle_keeps q cost none = (refl, refl)
stale_throttle_keeps q cost (some r) = ground arith

throttle_stale :
    (q : Queue) (jitter now g : ℕ) (cost : Cost) (timed : Bool)
    → (g == q.generation) ≡ false
    → ((throttle q jitter now g cost timed).cooldown_until ≡ q.cooldown_until)
      × ((throttle q jitter now g cost timed).no_hint_stage ≡ q.no_hint_stage)
unfolding throttle
throttle_stale q jitter now g cost timed e = rw e (stale_throttle_keeps q cost q.recovery)

==-refl : (g : ℕ) → (g == g) ≡ true
==-refl g = ground arith

generation-throttle :
    (q : Queue) (jitter now : ℕ) (cost : Cost) (timed : Bool)
    → (throttle q jitter now q.generation cost timed).generation ≡ wrapping_suc q.generation
unfolding throttle
generation-throttle q jitter now cost true = rw (==-refl q.generation)
generation-throttle q jitter now cost false = rw (==-refl q.generation)

-- Of two requests of the same 64-bit generation that are rejected with 429, one after the other,
-- only the first backs off: the second, at any time and of any kind, changes neither the shared
-- cooldown nor the stage of the table.
pub throttle_once :
    (q : Queue) (jitter jitter' now later : ℕ) (cost cost' : Cost) (timed timed' : Bool)
    → q.generation < 18446744073709551616
    → let first = throttle q jitter now q.generation cost timed in
      let second = throttle first jitter' later q.generation cost' timed' in
      (second.cooldown_until ≡ first.cooldown_until) × (second.no_hint_stage ≡ first.no_hint_stage)
throttle_once q jitter jitter' now later cost cost' timed timed' h =
    throttle_stale (throttle q jitter now q.generation cost timed) jitter' later q.generation cost'
      timed' (rw (generation-throttle q jitter now cost timed) (wrapping_suc_ne q.generation h))

no_hint_secs_bounds : (stage : ℕ) → (1 ≤ no_hint_secs stage) × (no_hint_secs stage ≤ 30)
no_hint_secs_bounds zero = omega arith
no_hint_secs_bounds (suc zero) = omega arith
no_hint_secs_bounds (suc (suc zero)) = omega arith
no_hint_secs_bounds (suc (suc (suc zero))) = omega arith
no_hint_secs_bounds (suc (suc (suc (suc zero)))) = omega arith
no_hint_secs_bounds (suc (suc (suc (suc (suc stage))))) = omega arith

-- A 429 of the current generation with no timing of its own, at a jitter of at most 250 ms, never
-- brings the shared cooldown forward, sets it to at least a second from now (within the range of a
-- duration) and to at most 30.25 seconds from now or where it was before, whichever is later, and
-- goes one stage up in the table, whose last stage is 5. With timing of its own it adds no wait.
pub throttle_delay :
    (q : Queue) (jitter now : ℕ) (cost : Cost)
    → jitter ≤ 250
    → let q' = throttle q jitter now q.generation cost false in
      let timed = throttle q jitter now q.generation cost true in
      (q.cooldown_until ≤ q'.cooldown_until)
      × (min (now + from_secs 1) max_duration ≤ q'.cooldown_until)
      × (q'.cooldown_until ≤ max q.cooldown_until (now + from_secs 30 + from_millis 250))
      × (q'.no_hint_stage ≡ min (q.no_hint_stage + 1) 5)
      × (timed.cooldown_until ≡ max q.cooldown_until (min now max_duration))
unfolding throttle
throttle_delay q jitter now cost h =
    rw (==-refl q.generation) (omega (arith, no_hint_secs_bounds q.no_hint_stage))
