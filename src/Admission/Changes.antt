-- ===== src/Admission/Changes.antt =====
-- product/src/admission/mod.rs and queue.rs: the operations that change the ledger or one root.
use deskquota.Common.{
  Bool-cases, List, [], ap, arith, inl, inr, leb, length, length-append, max_u64, modify, refl, suc,
  zero, ℕ, ◌+◌, ◌<◌, ◌==◌, ◌∷◌, ◌≡◌, ◌≤◌,
}
use deskquota.Quota.{Cost}
use deskquota.Ledger.{cancel, finish, start, total_fits}
use deskquota.Ledger.Invariant.{cancel-Inv, finish-Inv, start-Inv}
use deskquota.Scheduler.{
  Queue, Waiting, can_start, enqueue, len, max_waiting, push_back, release_probe, waiting_in,
}
use deskquota.Admission.{Hold, hold_drop, hold_start, settled_usage}
use deskquota.Admission.Valid.{Untouched-Valid, Valid, ledger-Valid, release_probe-Untouched}

pub hold_start-Valid : (q : Queue) (now : ℕ) (h : Hold) → Valid q → Valid (hold_start q now h).0
unfolding hold_start
hold_start-Valid q now h v = elim (Bool-cases h.started) [
  | inl e ↦ rw e v
  | inr e ↦ elim (Bool-cases (can_start q now h.id h.cost)) [
    | inl c ↦
        rw (e, c)
          (ledger-Valid q (start q.ledger now h.id).0 v (start-Inv q.ledger now h.id v.ready.sound))
    | inr c ↦ rw (e, c) v
  ]
]

pub hold_drop-Valid : (q : Queue) (now : ℕ) (h : Hold) → Valid q → Valid (hold_drop q now h)
unfolding hold_drop
hold_drop-Valid q now h v = elim (Bool-cases h.started) [
  | inl e ↦
      let l = (finish q.ledger now h.id (settled_usage h.usage h.endpoint)).0 in
      rw e (
        Untouched-Valid (record q { ledger = l }) (release_probe (record q { ledger = l }) h.id)
          (release_probe-Untouched (record q { ledger = l }) h.id)
          (ledger-Valid q l v
            (finish-Inv q.ledger now h.id (settled_usage h.usage h.endpoint) v.ready.sound)))
  | inr e ↦
      let l = (cancel q.ledger now h.id).0 in
      rw e (
        Untouched-Valid (record q { ledger = l }) (release_probe (record q { ledger = l }) h.id)
          (release_probe-Untouched (record q { ledger = l }) h.id)
          (ledger-Valid q l v (cancel-Inv q.ledger now h.id v.ready.sound)))
]

length-modify :
    (f : List Waiting → List Waiting) (rs : List (List Waiting)) (i : ℕ)
    → length (modify f rs i) ≡ length rs
length-modify f [] i = refl
length-modify f (r ∷ rs) zero = refl
length-modify f (r ∷ rs) (suc i) = ap suc (length-modify f rs i)

pub waiting_in-modify :
    (f : List Waiting → List Waiting) (n : ℕ)
    → ((ws : List Waiting) → length (f ws) ≤ length ws + n)
    → (rs : List (List Waiting)) (i : ℕ) → waiting_in (modify f rs i) ≤ waiting_in rs + n
waiting_in-modify f n h [] i = omega arith
waiting_in-modify f n h (r ∷ rs) zero = omega (arith, h r)
waiting_in-modify f n h (r ∷ rs) (suc i) = omega (arith, waiting_in-modify f n h rs i)

-- A change of one root that leaves the queue within its bound.
pub modified-Valid :
    (q p : Queue) (f : List Waiting → List Waiting) (root : ℕ)
    → Valid q
    → p.ledger ≡ q.ledger
    → p.roots ≡ modify f q.roots root
    → p.cursor ≡ q.cursor
    → waiting_in (modify f q.roots root) ≤ max_waiting
    → Valid p
modified-Valid q p f root v l r c b = record {
  ready = record {
    sound = rw l v.ready.sound;
    places = rw r (omega (arith, v.ready.places, length-modify f q.roots root));
    turning =
        rw (r, c)
          (λ h. omega (
            arith,
            v.ready.turning (omega (arith, length-modify f q.roots root)),
            length-modify f q.roots root,
          ));
  };
  crowd = rw r b;
}

pub enqueue-Valid :
    (q : Queue) (root : ℕ) (cost : Cost) (now deadline : ℕ)
    → Valid q
    → Valid (enqueue q root cost now deadline).0
unfolding enqueue
enqueue-Valid q root cost now deadline v = elim (Bool-cases (leb (length q.roots) root)) [
  | inl a ↦ rw a v
  | inr a ↦ elim (Bool-cases (total_fits q.ledger cost)) [
    | inr b ↦ rw (a, b) v
    | inl b ↦ elim (Bool-cases (leb max_waiting (len q))) [
      | inl c ↦ rw (a, b, c) v
      | inr c ↦ elim (Bool-cases (q.sequence == max_u64)) [
        | inl d ↦ rw (a, b, c, d) v
        | inr d ↦ rw (a, b, c, d) (pushed (ground arith))
      ]
    ]
  ]
]
  where
    waiting : Waiting
    waiting = record {
      cell = q.next_cell;
      cost = cost;
      enqueued = now;
      deadline = deadline;
      sequence = q.sequence + 1;
      bypasses = 0;
    }

    pushed :
        len q < max_waiting
        → Valid (record q {
          sequence = q.sequence + 1;
          roots = modify (push_back waiting) q.roots root;
          next_cell = q.next_cell + 1;
        })
    pushed room =
        modified-Valid q
          (record q {
            sequence = q.sequence + 1;
            roots = modify (push_back waiting) q.roots root;
            next_cell = q.next_cell + 1;
          })
          (push_back waiting) root v refl refl refl
          (omega (
            arith,
            waiting_in-modify (push_back waiting) 1
                (λ ws. omega (arith, length-append ws (waiting ∷ []))) q.roots root,
          ))
