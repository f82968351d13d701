-- ===== src/Barrier.antt =====
-- product/src/admission/queue.rs: `protect`, `cancel` and the expiry of waiting requests.
pub mod Oldest
use deskquota.Common.{
  Bool, List, Option, [], any, false, get_or, head?, if◌then◌else◌, leb, ltb, map, modify, none,
  not, remove_first, retain, some, suc, ℕ, ◌&&◌, ◌-◌, ◌==◌, ◌||◌, ◌∷◌,
}
use deskquota.Ledger.{cancel}
use deskquota.Scheduler.{
  Cells, Outcome, Queue, Waiting, deadline_passed, granted, max_age, max_bypasses, refused,
  release_probe, write,
}

-- The head of each root that has one, with the root's index from `i` on.
abbrev pub heads_from : ℕ → List (List Waiting) → List (ℕ × Waiting)
heads_from i [] = []
heads_from i ([] ∷ rs) = heads_from (suc i) rs
heads_from i ((w ∷ ws) ∷ rs) = (i, w) ∷ heads_from (suc i) rs

abbrev pub heads : Queue → List (ℕ × Waiting)
heads q = heads_from 0 q.roots

-- The order of the keys `(enqueued, sequence)`.
abbrev pub older : Waiting → Waiting → Bool
older a b = ltb a.enqueued b.enqueued || ((a.enqueued == b.enqueued) && leb a.sequence b.sequence)

-- `min_by_key`: the first of the least heads.
abbrev pub older_of : ℕ × Waiting → Option (ℕ × Waiting) → Option (ℕ × Waiting)
older_of h none = some h
older_of h (some m) = some (if older h.1 m.1 then h else m)

unfoldable pub oldest : List (ℕ × Waiting) → Option (ℕ × Waiting)
oldest [] = none
oldest (h ∷ hs) = older_of h (oldest hs)

abbrev pub is_overdue : ℕ → Waiting → Bool
is_overdue now w = leb max_bypasses w.bypasses || leb max_age (now - w.enqueued)

abbrev pub has_sequence : ℕ → Option Waiting → Bool
has_sequence s none = false
has_sequence s (some w) = w.sequence == s

-- Whether the barrier still stands: its head waits at the front of its root.
abbrev pub stands : List (List Waiting) → Option (ℕ × ℕ) → Bool
stands roots none = false
stands roots (some (root, s)) = has_sequence s (head? (get_or roots root []))

abbrev pub barrier_at : Option (ℕ × Waiting) → Option (ℕ × ℕ)
barrier_at none = none
barrier_at (some (root, w)) = some (root, w.sequence)

abbrev pub next_barrier : ℕ → List (ℕ × Waiting) → Option (ℕ × ℕ)
unfolding oldest
next_barrier now hs = if any (λ h. is_overdue now h.1) hs then barrier_at (oldest hs) else none

unfoldable pub protect : Queue → ℕ → Queue
unfolding next_barrier
protect q now =
    if stands q.roots q.barrier then q else record q { barrier = next_barrier now (heads q) }

unfoldable pub take_grant : Queue → ℕ → Option Outcome → Queue
unfolding cancel release_probe
take_grant q now (some (granted id)) =
    release_probe (record q { ledger = (cancel q.ledger now id).0 }) id
take_grant q now (some (refused e)) = q
take_grant q now none = q

-- `Queue::cancel` of a ticket: it leaves its root, its outcome is taken from the cell, and a
-- grant that nobody will use goes back to the ledger.
unfoldable pub cancel_ticket : Queue → ℕ → ℕ → ℕ → Queue
unfolding take_grant protect
cancel_ticket q now root cell =
    protect
      (take_grant
        (record q {
          roots = modify (remove_first (λ w. w.cell == cell)) q.roots root;
          cells = write q.cells cell none;
        })
        now (q.cells cell))
      now

abbrev pub is_expired : ℕ → Waiting → Bool
is_expired now w = leb w.deadline now

unfoldable pub expire_cells : ℕ → Cells → List Waiting → Cells
expire_cells now cells [] = cells
expire_cells now cells (w ∷ ws) =
    expire_cells now
      (if is_expired now w then write cells w.cell (some (refused deadline_passed)) else cells) ws

unfoldable pub expire_roots : ℕ → Cells → List (List Waiting) → Cells
unfolding expire_cells
expire_roots now cells [] = cells
expire_roots now cells (r ∷ rs) = expire_roots now (expire_cells now cells r) rs

abbrev pub unexpired : ℕ → List Waiting → List Waiting
unexpired now = retain (λ w. not (is_expired now w))

-- The first loop of `drive`.
unfoldable pub expire : Queue → ℕ → Queue
unfolding expire_roots
expire q now = record q {
  roots = map (unexpired now) q.roots;
  cells = expire_roots now q.cells q.roots;
}
