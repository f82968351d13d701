-- ===== src/Admission/Valid.antt =====
-- product/src/admission/mod.rs and queue.rs: a valid queue, and the operations on its gate and its
-- cooldown.
use deskquota.Common.{
  Bool, Bool-cases, Option, inl, inr, leb, none, not, refl, some, ℕ, ◌&&◌, ◌==◌, ◌||◌, ◌∙◌, ◌≡◌,
  ◌≤◌,
}
use deskquota.Quota.{Cost, Ledger, is_generation}
use deskquota.Ledger.Invariant.{Inv}
use deskquota.Scheduler.{
  Queue, Recovery, accepted, arm_recovery, keeps_probe, len, max_waiting, probe_is, release_probe,
  stale_throttle, throttle,
}
use deskquota.Drive.Serve.{Ready}
use deskquota.Admission.{Exhausted, Hold, arm_hint, conclude, cool_429, hold_headers, hold_rejected}

-- The queue can be driven without a panic, and its waiting requests are bounded.
pub record Valid (q : Queue) : Type 0 where
  pub ready : Ready q
  pub crowd : len q ≤ max_waiting

-- A queue with the same ledger, roots and cursor.
abbrev pub Untouched : Queue → Queue → Type 0
Untouched q p = (p.ledger ≡ q.ledger) × (p.roots ≡ q.roots) × (p.cursor ≡ q.cursor)

pub Untouched-Valid : (q p : Queue) → Untouched q p → Valid q → Valid p
Untouched-Valid q p (l, r, c) v = record {
  ready = record {
    sound = rw l v.ready.sound;
    places = rw r v.ready.places;
    turning = rw (r, c) v.ready.turning;
  };
  crowd = rw r v.crowd;
}

pub ledger-Valid : (q : Queue) (l : Ledger) → Valid q → Inv l → Valid (record q { ledger = l })
ledger-Valid q l v i = record {
  ready = record { sound = i; places = v.ready.places; turning = v.ready.turning };
  crowd = v.crowd;
}

Untouched-trans : (a b c : Queue) → Untouched a b → Untouched b c → Untouched a c
Untouched-trans a b c (l, r, u) (l', r', u') = (l' ∙ l, r' ∙ r, u' ∙ u)

pub release_probe-Untouched : (q : Queue) (id : ℕ) → Untouched q (release_probe q id)
unfolding release_probe
release_probe-Untouched q id = (refl, refl, refl)

accepted-Untouched : (q : Queue) (now id g : ℕ) → Untouched q (accepted q now id g)
unfolding accepted
accepted-Untouched q now id g =
    elim (Bool-cases
      ((g == q.generation) && (leb q.cooldown_until now && probe_is q.recovery id))) [
        | inl e ↦ rw e (refl, refl, refl)
        | inr e ↦ rw e (refl, refl, refl)
      ]

arm_recovery-Untouched :
    (q : Queue) (now delay : ℕ) (only : Bool) → Untouched q (arm_recovery q now delay only)
unfolding arm_recovery
arm_recovery-Untouched q now delay only = (refl, refl, refl)

stale_throttle-Untouched :
    (q : Queue) (cost : Cost) (r : Option Recovery) → Untouched q (stale_throttle q cost r)
stale_throttle-Untouched q cost none = (refl, refl, refl)
stale_throttle-Untouched q cost (some r) =
    elim (Bool-cases (is_generation cost && not r.generation_only)) [
      | inl e ↦ elim (Bool-cases (keeps_probe q r.probe)) [
        | inl k ↦ rw (e, k) (refl, refl, refl)
        | inr k ↦ rw (e, k) (refl, refl, refl)
      ]
      | inr e ↦ rw e (refl, refl, refl)
    ]

pub throttle-Untouched :
    (q : Queue) (jitter now g : ℕ) (cost : Cost) (timed : Bool)
    → Untouched q (throttle q jitter now g cost timed)
unfolding throttle
throttle-Untouched q jitter now g cost timed = elim (Bool-cases (g == q.generation)) [
  | inr e ↦ rw e (stale_throttle-Untouched q cost q.recovery)
  | inl e ↦ elim (Bool-cases timed) [
    | inl t ↦ rw (e, t) (refl, refl, refl)
    | inr t ↦ rw (e, t) (refl, refl, refl)
  ]
]

cool_429-Untouched :
    (q : Queue) (now status : ℕ) (delay : Option ℕ) → Untouched q (cool_429 q now status delay)
cool_429-Untouched q now status none = (refl, refl, refl)
cool_429-Untouched q now status (some delay) = elim (Bool-cases (status == 429)) [
  | inl e ↦ rw e (refl, refl, refl)
  | inr e ↦ rw e (refl, refl, refl)
]

arm_hint-Untouched :
    (q : Queue) (now : ℕ) (h : Hold) (hint : Option Exhausted)
    → Untouched q (arm_hint q now h hint).0
unfolding arm_hint
arm_hint-Untouched q now h none = (refl, refl, refl)
arm_hint-Untouched q now h (some hint) = (refl, refl, refl)

conclude-Untouched :
    (q : Queue) (now : ℕ) (h : Hold) (status : ℕ) → Untouched q (conclude q now h status)
unfolding conclude
conclude-Untouched q now h status = elim (Bool-cases (status == 200)) [
  | inl e ↦ rw e (accepted-Untouched q now h.id h.generation)
  | inr e ↦ elim (Bool-cases (status == 429)) [
    | inl f ↦ rw (e, f) (refl, refl, refl)
    | inr f ↦ rw (e, f) (release_probe-Untouched q h.id)
  ]
]

pub hold_headers-Untouched :
    (q : Queue) (now : ℕ) (h : Hold) (status : ℕ) (hint : Option Exhausted) (delay : Option ℕ)
    → Untouched q (hold_headers q now h status hint delay).0
unfolding hold_headers
hold_headers-Untouched q now h status hint delay =
    let cooled = cool_429 q now status delay in
    let armed = arm_hint cooled now h hint in
    Untouched-trans q armed.0 (conclude armed.0 now armed.1 status)
      (Untouched-trans q cooled armed.0 (cool_429-Untouched q now status delay)
        (arm_hint-Untouched cooled now h hint))
      (conclude-Untouched armed.0 now armed.1 status)

pub hold_rejected-Untouched :
    (q : Queue) (jitter now : ℕ) (h : Hold) (timed missing recognized : Bool)
    → Untouched q (hold_rejected q jitter now h timed missing recognized)
unfolding hold_rejected
hold_rejected-Untouched q jitter now h timed missing recognized =
    elim (Bool-cases ((recognized && not h.exhaustion_observed) && (timed || missing))) [
      | inl e ↦ rw e (
          Untouched-trans q (throttle q jitter now h.generation h.cost timed)
            (release_probe (throttle q jitter now h.generation h.cost timed) h.id)
            (throttle-Untouched q jitter now h.generation h.cost timed)
            (release_probe-Untouched (throttle q jitter now h.generation h.cost timed) h.id))
      | inr e ↦ rw e (release_probe-Untouched q h.id)
    ]
