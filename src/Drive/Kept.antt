-- ===== src/Drive/Kept.antt =====
-- product/src/admission/queue.rs, `drive`: conditions on every waiting request.
use deskquota.Common.{
  All, Bool, Bool-cases, List, Option-cases, [], arith, false, get_or, inl, inr, leb, ltb, map, not,
  set, suc, zero, ℕ, ◌&&◌, ◌<◌, ◌==◌, ◌∷◌, ◌≡◌,
}
use deskquota.Quota.{Decision, Ledger, admitted, wait}
use deskquota.Scheduler.{Queue, Waiting}
use deskquota.Barrier.{expire, protect, stands, unexpired}
use deskquota.Drive.{
  bump, bypass, done, drive, fits, overflows, select, serve, serve_admitted, serve_head, turn,
  turn_ready,
}
use deskquota.Drive.Total.{Keeps, after_fits, drive_rule}
use deskquota.Drive.Serve.{Ready}

abbrev pub AllWaiting : (Waiting → Type 0) → List (List Waiting) → Type 0
AllWaiting P rs = All (λ ws. All P ws) rs

-- A statement that does not look at the count of bypasses.
abbrev pub Stable : (Waiting → Type 0) → Type 0
Stable P = (w : Waiting) (n : ℕ) → P w → P (record w { bypasses = n })

module _ (P : Waiting → Type 0) (stable : Stable P) where
  bump-All : (ws : List Waiting) → All P ws → All P (bump ws)
  bump-All [] h = tt
  bump-All (w ∷ ws) h = (stable w _ h.0, h.1)

  bypass-AllWaiting :
      (root : ℕ) (fs : List Bool) (i : ℕ) (rs : List (List Waiting))
      → AllWaiting P rs
      → AllWaiting P (bypass i root fs rs)
  unfolding bypass
  bypass-AllWaiting root fs i [] h = tt
  bypass-AllWaiting root fs i (ws ∷ rs) h =
      elim (Bool-cases (not (i == root) && not (get_or fs i false))) [
        | inl e ↦ rw e (bump-All ws h.0, bypass-AllWaiting root fs (suc i) rs h.1)
        | inr e ↦ rw e (h.0, bypass-AllWaiting root fs (suc i) rs h.1)
      ]

  get_or-All : (rs : List (List Waiting)) (i : ℕ) → AllWaiting P rs → All P (get_or rs i [])
  get_or-All [] i h = tt
  get_or-All (ws ∷ rs) zero h = h.0
  get_or-All (ws ∷ rs) (suc i) h = get_or-All rs i h.1

  set-AllWaiting :
      (rs : List (List Waiting)) (i : ℕ) (ws : List Waiting)
      → AllWaiting P rs
      → All P ws
      → AllWaiting P (set rs i ws)
  set-AllWaiting [] i ws h k = tt
  set-AllWaiting (r ∷ rs) zero ws h k = (k, h.1)
  set-AllWaiting (r ∷ rs) (suc i) ws h k = (h.0, set-AllWaiting rs i ws h.1 k)

  abbrev Has : Queue → Type 0
  Has q = AllWaiting P q.roots

  serve_admitted-Keeps :
      (q : Queue) (root : ℕ) (w : Waiting) (l : Ledger) (d : Decision)
      → Has q
      → Keeps Has Has (serve_admitted q root w l d)
  serve_admitted-Keeps q root w l (admitted id) h = h
  serve_admitted-Keeps q root w l (wait at) h = tt
  serve_admitted-Keeps q root w l Decision.estimate_exceeds_budget h = tt

  serve_head-Keeps :
      (q : Queue) (now root : ℕ) (ws : List Waiting)
      → Has q
      → All P ws
      → Keeps Has Has (serve_head q now root ws)
  unfolding serve_head
  serve_head-Keeps q now root [] h k = tt
  serve_head-Keeps q now root (w ∷ ws) h k =
      serve_admitted-Keeps (record q { roots = set q.roots root ws }) root w _ _
        (set-AllWaiting q.roots root ws h k.1)

  serve-Keeps :
      (q : Queue) (now : ℕ) (fs : List Bool) (root : ℕ)
      → Has q
      → Keeps Has Has (serve q now fs root)
  unfolding serve
  serve-Keeps q now fs root h =
      let b = bypass-AllWaiting root fs 0 q.roots h in
      serve_head-Keeps (record q { roots = bypass 0 root fs q.roots }) now root _ b
        (get_or-All (bypass 0 root fs q.roots) root b)

  turn_ready-Keeps : (q : Queue) (now : ℕ) → Has q → Keeps Has Has (turn_ready q now)
  unfolding turn_ready
  turn_ready-Keeps q now h = elim (Bool-cases (overflows q.roots)) [
    | inl e ↦ rw e tt
    | inr e ↦ elim (Option-cases (select q (fits q.recovery now q.ledger q.roots).1)) [
      | inl s ↦ rw (e, s) h
      | inr (root, s) ↦ rw (e, s) (serve-Keeps (after_fits q now) now _ root h)
    ]
  ]

  protect-Has : (q : Queue) (now : ℕ) → Has q → Has (protect q now)
  unfolding protect
  protect-Has q now h = elim (Bool-cases (stands q.roots q.barrier)) [
    | inl s ↦ rw s h
    | inr s ↦ rw s h
  ]

  pub turn-Keeps : (q : Queue) (now : ℕ) → AllWaiting P q.roots → Keeps Has Has (turn q now)
  unfolding turn
  turn-Keeps q now h = elim (Bool-cases (ltb now (protect q now).cooldown_until)) [
    | inl c ↦ rw c (protect-Has q now h)
    | inr c ↦ rw c (turn_ready-Keeps (protect q now) now (protect-Has q now h))
  ]

  pub drive-AllWaiting :
      (q q' : Queue) (now : ℕ)
      → Ready q
      → AllWaiting P (expire q now).roots
      → drive q now ≡ done q'
      → AllWaiting P q'.roots
  drive-AllWaiting q q' now v h e = drive_rule Has Has now (λ p _ k. turn-Keeps p now k) q q' v h e

abbrev pub Unexpired : ℕ → Waiting → Type 0
Unexpired now w = now < w.deadline

unexpired-All : (now : ℕ) (ws : List Waiting) → All (Unexpired now) (unexpired now ws)
unexpired-All now [] = tt
unexpired-All now (w ∷ ws) = elim (Bool-cases (leb w.deadline now)) [
  | inl e ↦ rw e (unexpired-All now ws)
  | inr e ↦ rw e (ground arith, unexpired-All now ws)
]

map-unexpired-AllWaiting :
    (now : ℕ) (rs : List (List Waiting)) → AllWaiting (Unexpired now) (map (unexpired now) rs)
map-unexpired-AllWaiting now [] = tt
map-unexpired-AllWaiting now (ws ∷ rs) = (unexpired-All now ws, map-unexpired-AllWaiting now rs)

-- After `drive` of a queue that is ready for it, no request waits whose deadline has come.
pub drive-Unexpired :
    (q q' : Queue) (now : ℕ) → Ready q → drive q now ≡ done q' → AllWaiting (Unexpired now) q'.roots
unfolding expire
drive-Unexpired q q' now v e =
    drive-AllWaiting (Unexpired now) (λ w n h. h) q q' now v (map-unexpired-AllWaiting now q.roots)
      e
