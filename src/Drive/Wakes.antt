-- ===== src/Drive/Wakes.antt =====
-- product/src/admission/queue.rs, `drive`: the time at which the caller is to drive again.
use deskquota.Common.{
  All, Bool-cases, List, Option, Option-cases, [], add_time, ap, arith, false, if◌then◌else◌, inl,
  inr, ltb, ltb→lt, lt→ltb, none, refl, some, ℕ, ◌<◌, ◌==◌, ◌∷◌, ◌≡◌, ◌≤◌, ◌⊎◌,
}
use deskquota.Quota.{Ledger}
use deskquota.Ledger.{advance, check, future, next_wake, sooner}
use deskquota.Ledger.Tally.{check-advance}
use deskquota.Ledger.Wake.{next_wake_later}
use deskquota.Scheduler.{Queue, Recovery, Waiting, len, max_age, waiting_in}
use deskquota.Barrier.{heads, protect}
use deskquota.Drive.{
  ages, all_deadlines, deadlines, done, drive, fits, head_fits, select, turn, turn_ready, wake,
}
use deskquota.Drive.Serve.{Ready, overflows-false}
use deskquota.Drive.Total.{Keeps, after_fits, drive_rule, protect-Ready}
use deskquota.Drive.Kept.{AllWaiting, Unexpired, drive-Unexpired}
use deskquota.Drive.Stops.{Anything, serve_never}

-- A time that is in the future, if there is one.
abbrev pub Later : ℕ → Option ℕ → Type 0
Later now none = Unit
Later now (some at) = now < at

Later-sooner : (now : ℕ) (a b : Option ℕ) → Later now a → Later now b → Later now (sooner a b)
Later-sooner now none b ha hb = hb
Later-sooner now (some a) none ha hb = ha
Later-sooner now (some a) (some b) ha hb = omega arith

deadlines-Later : (now : ℕ) (ws : List Waiting) → All (Unexpired now) ws → Later now (deadlines ws)
unfolding deadlines
deadlines-Later now [] h = tt
deadlines-Later now (w ∷ ws) h =
    Later-sooner now (some w.deadline) (deadlines ws) h.0 (deadlines-Later now ws h.1)

all_deadlines-Later :
    (now : ℕ) (rs : List (List Waiting))
    → AllWaiting (Unexpired now) rs
    → Later now (all_deadlines rs)
unfolding all_deadlines
all_deadlines-Later now [] h = tt
all_deadlines-Later now (ws ∷ rs) h =
    Later-sooner now (deadlines ws) (all_deadlines rs) (deadlines-Later now ws h.0)
      (all_deadlines-Later now rs h.1)

future-Later : (now at : ℕ) → Later now (future now (some at))
future-Later now at = elim (Bool-cases (ltb now at)) [
  | inl e ↦ rw e (ltb→lt now at e)
  | inr e ↦ rw e tt
]

ages-Later : (now : ℕ) (hs : List (ℕ × Waiting)) → Later now (ages now hs)
unfolding ages
ages-Later now [] = tt
ages-Later now ((root, w) ∷ hs) =
    Later-sooner now (future now (some (add_time w.enqueued max_age))) (ages now hs)
      (future-Later now (add_time w.enqueued max_age)) (ages-Later now hs)

next_wake-Later :
    (l : Ledger) (now : ℕ) (o : Option ℕ) → next_wake l ≡ o → now ≤ l.now → Later now o
next_wake-Later l now none e h = tt
next_wake-Later l now (some w) e h = omega (arith, next_wake_later l w e)

-- At least one request waits, and it has a deadline.
abbrev HasTime : Option ℕ → Type 0
HasTime none = ⊥
HasTime (some at) = Unit

HasTime-sooner : (a b : Option ℕ) → HasTime a ⊎ HasTime b → HasTime (sooner a b)
HasTime-sooner none none (inl h) = h
HasTime-sooner none none (inr h) = h
HasTime-sooner none (some b) h = tt
HasTime-sooner (some a) none h = tt
HasTime-sooner (some a) (some b) h = tt

deadlines-HasTime : (rs : List (List Waiting)) → 0 < waiting_in rs → HasTime (all_deadlines rs)
unfolding all_deadlines deadlines
deadlines-HasTime [] h = absurd (omega arith)
deadlines-HasTime ([] ∷ rs) h = deadlines-HasTime rs (omega arith)
deadlines-HasTime ((w ∷ ws) ∷ rs) h =
    HasTime-sooner (sooner (some w.deadline) (deadlines ws)) (all_deadlines rs)
      (inl (HasTime-sooner (some w.deadline) (deadlines ws) (inl tt)))

-- The ledger has seen the present, unless the cooldown holds or nobody waits.
abbrev Current : ℕ → Queue → Type 0
Current now q = (now < q.cooldown_until) ⊎ (0 < len q → now ≤ q.ledger.now)

advance_now : (l : Ledger) (now : ℕ) → (l.now ≤ (advance l now).now) × (now ≤ (advance l now).now)
unfolding advance
advance_now l now = omega arith

fits_mono :
    (r : Option Recovery) (now : ℕ) (l : Ledger) (rs : List (List Waiting))
    → l.now ≤ (fits r now l rs).0.now
unfolding fits head_fits
fits_mono r now l [] = omega arith
fits_mono r now l ([] ∷ rs) = fits_mono r now l rs
fits_mono r now l ((w ∷ ws) ∷ rs) = omega (
  arith,
  fits_mono r now (check l now w.cost).0 rs,
  advance_now l now,
  ap (λ (m : Ledger). m.now) (check-advance l now w.cost),
)

fits_now :
    (r : Option Recovery) (now : ℕ) (l : Ledger) (rs : List (List Waiting))
    → 0 < waiting_in rs
    → now ≤ (fits r now l rs).0.now
unfolding fits head_fits
fits_now r now l [] h = absurd (omega arith)
fits_now r now l ([] ∷ rs) h = fits_now r now l rs (omega arith)
fits_now r now l ((w ∷ ws) ∷ rs) h = omega (
  arith,
  fits_mono r now (check l now w.cost).0 rs,
  advance_now l now,
  ap (λ (m : Ledger). m.now) (check-advance l now w.cost),
)

turn_ready-Current :
    (q : Queue) (now : ℕ) → Ready q → Keeps Anything (Current now) (turn_ready q now)
unfolding turn_ready
turn_ready-Current q now v =
    elim (Option-cases (select q (fits q.recovery now q.ledger q.roots).1)) [
      | inl e ↦
          rw (overflows-false q.roots v.places, e) (inr (fits_now q.recovery now q.ledger q.roots))
      | inr (root, e) ↦
          rw (overflows-false q.roots v.places, e)
            (serve_never (Current now) (after_fits q now) now _ root)
    ]

turn-Current : (q : Queue) (now : ℕ) → Ready q → Keeps Anything (Current now) (turn q now)
unfolding turn
turn-Current q now v = elim (Bool-cases (ltb now (protect q now).cooldown_until)) [
  | inl c ↦ rw c (inl (ltb→lt _ _ c))
  | inr c ↦ rw c (turn_ready-Current (protect q now) now (protect-Ready q now v).0)
]

resource-Later :
    (q : Queue) (now : ℕ)
    → Current now q
    → 0 < len q
    → Later now (if ltb now q.cooldown_until then some q.cooldown_until else next_wake q.ledger)
resource-Later q now (inl c) h = rw (lt→ltb now q.cooldown_until c) c
resource-Later q now (inr k) h = elim (Bool-cases (ltb now q.cooldown_until)) [
  | inl c ↦ rw c (ltb→lt now q.cooldown_until c)
  | inr c ↦ rw c (next_wake-Later q.ledger now (next_wake q.ledger) refl (k h))
]

wakes : (o : Option ℕ) (now : ℕ) → HasTime o → Later now o → (at : ℕ) × (o ≡ some at) × (now < at)
wakes none now h l = absurd h
wakes (some at) now h l = (at, refl, l)

-- After `drive` of a queue that is ready for it, while a request waits, the caller is given a time to drive again, and that time
-- lies in the future: the caller neither sleeps for ever nor spins.
pub wake-drive :
    (q q' : Queue) (now : ℕ)
    → Ready q
    → drive q now ≡ done q'
    → 0 < len q'
    → (at : ℕ) × (wake q' now ≡ some at) × (now < at)
unfolding wake
wake-drive q q' now v e h =
    let current =
      drive_rule Anything (Current now) now (λ p w _. turn-Current p now w) q q' v tt e in
    let rest =
      sooner (ages now (heads q'))
        (if ltb now q'.cooldown_until then some q'.cooldown_until else next_wake q'.ledger) in
    let busy : (len q' == 0) ≡ false = ground arith in
    rw busy (
      wakes (sooner (all_deadlines q'.roots) rest) now
        (HasTime-sooner (all_deadlines q'.roots) rest (inl (deadlines-HasTime q'.roots h)))
        (Later-sooner now (all_deadlines q'.roots) rest
          (all_deadlines-Later now q'.roots (drive-Unexpired q q' now v e))
          (Later-sooner now (ages now (heads q')) _ (ages-Later now (heads q'))
            (resource-Later q' now current h))))
