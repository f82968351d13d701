-- ===== src/Admission/Again.antt =====
-- product/src/admission/mod.rs, `acquire_at` and `Hold::retry`: entering the queue.
use deskquota.Common.{
  Bool-cases, List, [], arith, get_elem?, inl, inr, leb, leb→le, length, max_u64, modify, not, refl,
  some, suc, zero, ℕ, ◌++◌, ◌<◌, ◌==◌, ◌∷◌, ◌≡◌, ◌≤◌,
}
use deskquota.Quota.{Cost}
use deskquota.Ledger.{total_fits}
use deskquota.Scheduler.{Enqueued, Queue, Waiting, enqueue, len, max_waiting, queued, rejected}
use deskquota.Drive.Total.{drive_done}
use deskquota.Admission.{
  Entered, Hold, enter, enter_driven, entered, faults, hold_drop, hold_retry, too_late,
}
use deskquota.Admission.Valid.{Valid}
use deskquota.Admission.Changes.{enqueue-Valid, hold_drop-Valid}
use deskquota.Admission.Steps.{drive-Valid}

-- The request that was queued waits at the end of its root, in a fresh cell, with its cost, the
-- time of its first entry and its deadline, and with no bypasses.
abbrev pub Waits : Queue → ℕ → Cost → ℕ → ℕ → Enqueued → Type 0
Waits q root cost now deadline (rejected e) = Unit
Waits q root cost now deadline (queued cell) =
    (ws : List Waiting) × (get_elem? q.roots root
      ≡ some (
          ws
          ++ record {
            cell = cell;
            cost = cost;
            enqueued = now;
            deadline = deadline;
            sequence = q.sequence;
            bypasses = 0;
          }
            ∷ []))

-- A request that enters: its deadline had come when it was checked, or had not and the request is
-- queued or refused by a valid queue.
abbrev pub Entering : ℕ → ℕ → Cost → ℕ → ℕ → Entered → Type 0
Entering checked root cost now deadline (entered q r) =
    Valid q × (checked < deadline) × Waits q root cost now deadline r
Entering checked root cost now deadline too_late = deadline ≤ checked
Entering checked root cost now deadline faults = ⊥

get_elem?-modify :
    (f : List Waiting → List Waiting) (rs : List (List Waiting)) (i : ℕ)
    → i < length rs
    → (ws : List Waiting) × (get_elem? (modify f rs i) i ≡ some (f ws))
get_elem?-modify f [] i h = absurd (omega arith)
get_elem?-modify f (r ∷ rs) zero h = (r, refl)
get_elem?-modify f (r ∷ rs) (suc i) h = get_elem?-modify f rs i (omega arith)

enqueue-Waits :
    (q : Queue) (root : ℕ) (cost : Cost) (now deadline : ℕ)
    → Waits
        (enqueue q root cost now deadline).0
        root
        cost
        now
        deadline
        (enqueue q root cost now deadline).1
unfolding enqueue
enqueue-Waits q root cost now deadline = elim (Bool-cases (leb (length q.roots) root)) [
  | inl a ↦ rw a tt
  | inr a ↦ elim (Bool-cases (not (total_fits q.ledger cost))) [
    | inl b ↦ rw (a, b) tt
    | inr b ↦ elim (Bool-cases (leb max_waiting (len q))) [
      | inl c ↦ rw (a, b, c) tt
      | inr c ↦ elim (Bool-cases (q.sequence == max_u64)) [
        | inl d ↦ rw (a, b, c, d) tt
        | inr d ↦ rw (a, b, c, d) (get_elem?-modify _ q.roots root (ground arith))
      ]
    ]
  ]
]

enter-Entering :
    (q : Queue) (checked driven root : ℕ) (cost : Cost) (now deadline : ℕ)
    → Valid q
    → Entering checked root cost now deadline (enter q checked driven root cost now deadline)
unfolding enter enter_driven
enter-Entering q checked driven root cost now deadline v =
    elim (Bool-cases (leb deadline checked)) [
      | inl e ↦ rw e (leb→le deadline checked e)
      | inr e ↦
          let (q', f, r) = drive_done q driven v.ready in
          let open_yet : checked < deadline = ground arith in
          rw (e, f)
            (
              enqueue-Valid q' root cost now deadline (drive-Valid q q' driven v f),
              open_yet,
              enqueue-Waits q' root cost now deadline,
            )
    ]

-- On a valid queue, a hold that is retried at any clock readings, whatever became of its attempt,
-- never panics: its deadline had come at the reading that is compared with it, or had not and the
-- request enters, or is refused by, a queue that is valid again. Where it enters, it waits at the
-- end of its root with its old cost, the time of its first entry and its old deadline: a retry
-- wins no time.
pub hold_retry-Entering :
    (q : Queue) (dropped checked driven : ℕ) (h : Hold)
    → Valid q
    → Entering checked h.root h.cost h.wait_started h.queue_deadline
        (hold_retry q dropped checked driven h)
unfolding hold_retry
hold_retry-Entering q dropped checked driven h v =
    enter-Entering (hold_drop q dropped h) checked driven h.root h.cost h.wait_started
      h.queue_deadline (hold_drop-Valid q dropped h v)
