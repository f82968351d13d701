-- ===== src/Admission/Steps.antt =====
-- product/src/admission/mod.rs: what every operation on the shared queue preserves, in any
-- interleaving.
use deskquota.Scheduler
use deskquota.Ledger
use deskquota.Common.{
  Bool, List, Option, [], add_time, ap, arith, length, length-retain-le, map, max, modify, none,
  not, refl, remove_first, replicate, some, subst, suc, sym, zero, ℕ, ◌+◌, ◌==◌, ◌∙◌, ◌∷◌, ◌≡◌, ◌≤◌,
}
use deskquota.Quota.{Accounting, Cost, Quota}
use deskquota.Ledger.{cancel}
use deskquota.Ledger.Invariant.{Inv, cancel-Inv, new-Inv}
use deskquota.Scheduler.{
  Outcome, Queue, Waiting, enqueue, granted, len, max_waiting, refused, release_probe, waiting_in,
  write,
}
use deskquota.Barrier.{cancel_ticket, expire, is_expired, protect, take_grant, unexpired}
use deskquota.Drive.{Turn, done, drive, panics, serves, stops, turn}
use deskquota.Drive.Serve.{Ready}
use deskquota.Drive.Total.{
  Keeps, Progress, done-injective, drive_done, drive_rule, protect-Ready, turn-Progress,
}
use deskquota.Admission.{
  Exhausted, Hold, cool_down, hold_drop, hold_headers, hold_rejected, hold_start,
}
use deskquota.Admission.Valid.{
  Untouched-Valid, Valid, hold_headers-Untouched, hold_rejected-Untouched, ledger-Valid,
  release_probe-Untouched,
}
use deskquota.Admission.Changes.{
  enqueue-Valid, hold_drop-Valid, hold_start-Valid, modified-Valid, waiting_in-modify,
}

length-remove_first-le :
    (p : Waiting → Bool) (ws : List Waiting) → length (remove_first p ws) ≤ length ws + 0
length-remove_first-le p [] = omega arith
length-remove_first-le p (w ∷ ws) = ground (arith, length-remove_first-le p ws)

take_grant-Valid : (q : Queue) (now : ℕ) (o : Option Outcome) → Valid q → Valid (take_grant q now o)
unfolding take_grant
take_grant-Valid q now none v = v
take_grant-Valid q now (some (refused e)) v = v
take_grant-Valid q now (some (granted id)) v =
    let l = (cancel q.ledger now id).0 in
    Untouched-Valid (record q { ledger = l }) (release_probe (record q { ledger = l }) id)
      (release_probe-Untouched (record q { ledger = l }) id)
      (ledger-Valid q l v (cancel-Inv q.ledger now id v.ready.sound))

protect-Valid : (q : Queue) (now : ℕ) → Valid q → Valid (protect q now)
protect-Valid q now v =
    let (r, l) = protect-Ready q now v.ready in
    record { ready = r; crowd = omega (arith, l, v.crowd) }

cancel_ticket-Valid :
    (q : Queue) (now root cell : ℕ) → Valid q → Valid (cancel_ticket q now root cell)
unfolding cancel_ticket
cancel_ticket-Valid q now root cell v = protect-Valid (take_grant removed now (q.cells cell)) now (
    take_grant-Valid removed now (q.cells cell) (
      modified-Valid q removed leaves root v refl refl refl (
        omega (
          arith,
          v.crowd,
          waiting_in-modify leaves 0 (λ ws. length-remove_first-le (λ w. w.cell == cell) ws) q.roots
              root,
        ))))
  where
    leaves : List Waiting → List Waiting
    leaves = remove_first (λ w. w.cell == cell)

    removed : Queue
    removed = record q { roots = modify leaves q.roots root; cells = write q.cells cell none }

expired-waiting_in :
    (now : ℕ) (rs : List (List Waiting)) → waiting_in (map (unexpired now) rs) ≤ waiting_in rs
expired-waiting_in now [] = omega arith
expired-waiting_in now (ws ∷ rs) =
    omega (arith, length-retain-le (λ w. not (is_expired now w)) ws, expired-waiting_in now rs)

abbrev Bounded : Queue → Type 0
Bounded q = len q ≤ max_waiting

Progress-Bounded : (q : Queue) (t : Turn) → Progress q t → Bounded q → Keeps Bounded Bounded t
Progress-Bounded q (stops p) g b = omega (arith, g.1)
Progress-Bounded q (serves p) g b = omega (arith, g.1)
Progress-Bounded q panics g b = tt

pub drive-Valid : (q q' : Queue) (now : ℕ) → Valid q → drive q now ≡ done q' → Valid q'
unfolding expire
drive-Valid q q' now v e =
    let (p, f, r) = drive_done q now v.ready in
    record {
      ready = subst Ready (done-injective (sym f ∙ e)) r;
      crowd =
          drive_rule Bounded Bounded now
            (λ o w b. Progress-Bounded o (turn o now) (turn-Progress o now w) b) q q' v.ready
            (omega (arith, v.crowd, expired-waiting_in now q.roots)) e;
    }

-- Every operation that changes the shared queue.
pub data Step : Queue → Queue → Type 0 where
  drives : {q q' : Queue} (now : ℕ) → drive q now ≡ done q' → Step q q'
  enqueues :
      (q : Queue) (root : ℕ) (cost : Cost) (now deadline : ℕ)
      → Step q (enqueue q root cost now deadline).0
  cancels : (q : Queue) (now root cell : ℕ) → Step q (cancel_ticket q now root cell)
  takes : (q : Queue) (cell : ℕ) → Step q (record q { cells = write q.cells cell none })
  cools : (q : Queue) (now delay : ℕ) → Step q (cool_down q now delay)
  starts : (q : Queue) (now : ℕ) (h : Hold) → Step q (hold_start q now h).0
  receives :
      (q : Queue) (now : ℕ) (h : Hold) (status : ℕ) (hint : Option Exhausted) (delay : Option ℕ)
      → Step q (hold_headers q now h status hint delay).0
  rejects :
      (q : Queue) (jitter now : ℕ) (h : Hold) (timed missing recognized : Bool)
      → Step q (hold_rejected q jitter now h timed missing recognized)
  drops : (q : Queue) (now : ℕ) (h : Hold) → Step q (hold_drop q now h)

-- Every operation on the shared queue, in any interleaving of the tasks and at any clock reading,
-- keeps it valid: its ledger is within the slots and the request limit, it can be driven without
-- a panic, and at most 64 requests wait.
pub Step-Valid : {q q' : Queue} → Step q q' → Valid q → Valid q'
unfolding cool_down
Step-Valid {q} {q'} (drives now e) v = drive-Valid q q' now v e
Step-Valid (enqueues q root cost now deadline) v = enqueue-Valid q root cost now deadline v
Step-Valid (cancels q now root cell) v = cancel_ticket-Valid q now root cell v
Step-Valid (takes q cell) v =
    Untouched-Valid q (record q { cells = write q.cells cell none }) (refl, refl, refl) v
Step-Valid (cools q now delay) v =
    Untouched-Valid q (record q { cooldown_until = max q.cooldown_until (add_time now delay) })
      (refl, refl, refl) v
Step-Valid (starts q now h) v = hold_start-Valid q now h v
Step-Valid (receives q now h status hint delay) v =
    Untouched-Valid q (hold_headers q now h status hint delay).0
      (hold_headers-Untouched q now h status hint delay) v
Step-Valid (rejects q jitter now h timed missing recognized) v =
    Untouched-Valid q (hold_rejected q jitter now h timed missing recognized)
      (hold_rejected-Untouched q jitter now h timed missing recognized) v
Step-Valid (drops q now h) v = hold_drop-Valid q now h v

-- What a queue can become.
pub data Reach (q : Queue) : Queue → Type 0 where
  here : Reach q q
  next : {p p' : Queue} → Reach q p → Step p p' → Reach q p'

Reach-Valid : {q p : Queue} → Valid q → Reach q p → Valid p
Reach-Valid v here = v
Reach-Valid v (next r s) = Step-Valid s (Reach-Valid v r)

empty_roots :
    (n : ℕ) → (length (replicate {A = List Waiting} n []) ≡ n) × (waiting_in (replicate n []) ≡ 0)
empty_roots zero = (refl, refl)
empty_roots (suc n) = let (l, w) = empty_roots n in (ap suc l, omega (arith, w))

pub new-Valid :
    (quota : Quota) (accounting : Accounting) (slots now hold roots : ℕ)
    → roots ≤ 16
    → Valid (Scheduler.new (Ledger.new quota accounting slots now hold) roots)
unfolding Scheduler.new
new-Valid quota accounting slots now hold roots h = record {
  ready = record {
    sound = new-Inv quota accounting slots now hold;
    places = omega (arith, empty_roots roots);
    turning = λ pos. pos;
  };
  crowd = omega (arith, empty_roots roots);
}

-- From a new admission with at most 16 roots, after any interleaving of the operations, the next
-- `drive` returns without a panic, the requests that then wait are at most 64, the active requests
-- fit the slots, and the request debits and pending reservations fit the request limit.
pub Reach-drive :
    (quota : Quota) (accounting : Accounting) (slots at hold roots : ℕ) (q : Queue) (now : ℕ)
    → roots ≤ 16
    → Reach (Scheduler.new (Ledger.new quota accounting slots at hold) roots) q
    → (q' : Queue) × (drive q now ≡ done q') × (len q' ≤ max_waiting) × Inv q'.ledger
Reach-drive quota accounting slots at hold roots q now h r =
    let v = Reach-Valid (new-Valid quota accounting slots at hold roots h) r in
    let (q', e, w) = drive_done q now v.ready in
    let v' = drive-Valid q q' now v e in (q', e, v'.crowd, v'.ready.sound)
