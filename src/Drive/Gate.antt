-- ===== src/Drive/Gate.antt =====
-- product/src/admission/queue.rs, `drive` under a recovery gate.
use deskquota.Common.{
  Bool, Bool-cases, List, Option-cases, [], ap, arith, bit, get_or, head?, if◌then◌else◌, inl, inr,
  is_some, ltb, min, not, refl, set, some, suc, sum_by, true, zero, ℕ, ◌+◌, ◌||◌, ◌∙◌, ◌∷◌, ◌≡◌,
  ◌≤◌,
}
use deskquota.Quota.{is_generation}
use deskquota.Ledger.{advance, start}
use deskquota.Ledger.Invariant.{admitted_ledger}
use deskquota.Scheduler.{Queue, Recovery, Waiting, eligible, max_u8, passes}
use deskquota.Barrier.{expire, protect, stands}
use deskquota.Drive.{bump, bypass, done, drive, fits, select, serve, turn, turn_ready}
use deskquota.Drive.Probes.{Probes, fits-Probes, next-advance, served-Probes}
use deskquota.Drive.Fits.{HeadFits}
use deskquota.Drive.Serve.{Ready, get_or-bypass, overflows-false, serve_lem, served}
use deskquota.Drive.Total.{
  Keeps, after_fits, after_fits-Ready, drive_rule, protect-Ready, selected_fits,
}

abbrev pub total : (Waiting → ℕ) → List (List Waiting) → ℕ
total f rs = sum_by (sum_by f) rs

-- The requests that wait and may not pass the gate without being its probe.
abbrev pub gated : Recovery → List (List Waiting) → ℕ
gated r = total (λ w. bit (not (passes r w.cost)))

module _ (f : Waiting → ℕ)
    (stable : (w : Waiting) (n : ℕ) → f (record w { bypasses = n }) ≡ f w) where
  bump-sum : (ws : List Waiting) → sum_by f (bump ws) ≡ sum_by f ws
  bump-sum [] = refl
  bump-sum (w ∷ ws) = omega (arith, stable w (min (w.bypasses + 1) max_u8))

  bypass-total :
      (root : ℕ) (fs : List Bool) (i : ℕ) (rs : List (List Waiting))
      → total f (bypass i root fs rs) ≡ total f rs
  unfolding bypass
  bypass-total root fs i [] = refl
  bypass-total root fs i (ws ∷ rs) = ground (arith, bump-sum ws, bypass-total root fs (suc i) rs)

set-total :
    (f : Waiting → ℕ) (rs : List (List Waiting)) (root : ℕ) (w : Waiting) (ws : List Waiting)
    → get_or rs root [] ≡ w ∷ ws
    → f w + total f (set rs root ws) ≡ total f rs
set-total f [] root w ws h = absurd (cc)
set-total f (r ∷ rs) zero w ws h = omega (arith, ap (sum_by f) h)
set-total f (r ∷ rs) (suc root) w ws h = omega (arith, set-total f rs root w ws h)

-- The gate stands as in `r`, and what was gated still waits, or is the one probe.
abbrev pub Gated : Recovery → ℕ → ℕ → Queue → Type 0
Gated r start last q =
    (r' : Recovery) × (q.recovery ≡ some r')
    × (r'.generation_only ≡ r.generation_only)
    × (start + bit (is_some r.probe) ≤ gated r q.roots + bit (is_some r'.probe))
    × (last ≤ q.ledger.next)
    × Probes r last q.ledger.entries r'.probe

module _ (r : Recovery) (start last : ℕ) where
  probed-Gated :
      (q : Queue) (now : ℕ) (fs : List Bool) (root : ℕ) (w : Waiting) (ws : List Waiting)
      → Gated r start last q
      → get_or q.roots root [] ≡ w ∷ ws
      → eligible q.recovery w.cost ≡ true
      → Gated r start last (
          served q now fs root w ws
            (q.ledger.next + 1)
            (admitted_ledger (advance q.ledger now) w.cost))
  probed-Gated q now fs root w ws (r', e, g, le, old, pr) h k = (
    (if not r'.generation_only || is_generation w.cost
        then record r' { probe = some (q.ledger.next + 1) }
        else r'),
    rw e,
    ground arith,
    ground (
      arith,
      set-total (λ v. bit (not (passes r v.cost))) (bypass 0 root fs q.roots) root w ws
          (get_or-bypass root fs 0 root q.roots (omega arith) ∙ h),
      bypass-total (λ v. bit (not (passes r v.cost))) (λ v n. refl) root fs 0 q.roots,
    ),
    omega (arith, old, next-advance r last q.ledger now),
    served-Probes r last q.ledger now r' w.cost g (rw e at k) old pr,
  )

  serve-Gated :
      (q : Queue) (now : ℕ) (fs : List Bool) (root : ℕ) (ws : List Waiting)
      → Ready q
      → Gated r start last q
      → get_or q.roots root [] ≡ ws
      → HeadFits q.recovery now q.ledger (head? ws)
      → Keeps (Gated r start last) (Gated r start last) (serve q now fs root)
  serve-Gated q now fs root [] v g e h = absurd h
  serve-Gated q now fs root (w ∷ ws) v g e h =
      rw (serve_lem q now fs root w ws v.sound e h.0) (probed-Gated q now fs root w ws g e h.1)

  after_fits-Gated :
      (q : Queue) (now : ℕ) → Gated r start last q → Gated r start last (after_fits q now)
  after_fits-Gated q now (r', e, g, le, old, pr) =
      let (old', pr') = fits-Probes r last q.recovery now q.ledger q.roots r'.probe (old, pr) in
      (r', e, g, le, old', pr')

  turn_ready-Gated :
      (q : Queue) (now : ℕ)
      → Ready q
      → Gated r start last q
      → Keeps (Gated r start last) (Gated r start last) (turn_ready q now)
  unfolding turn_ready
  turn_ready-Gated q now v g =
      elim (Option-cases (select q (fits q.recovery now q.ledger q.roots).1)) [
        | inl e ↦ rw (overflows-false q.roots v.places, e) (after_fits-Gated q now g)
        | inr (root, e) ↦
            rw (overflows-false q.roots v.places, e)
              (serve-Gated (after_fits q now) now _ root (get_or q.roots root [])
                (after_fits-Ready q now v) (after_fits-Gated q now g) refl
                (selected_fits q now root e))
      ]

  protect-Gated : (q : Queue) (now : ℕ) → Gated r start last q → Gated r start last (protect q now)
  unfolding protect
  protect-Gated q now g = elim (Bool-cases (stands q.roots q.barrier)) [
    | inl s ↦ rw s g
    | inr s ↦ rw s g
  ]

  turn-Gated :
      (q : Queue) (now : ℕ)
      → Ready q
      → Gated r start last q
      → Keeps (Gated r start last) (Gated r start last) (turn q now)
  unfolding turn
  turn-Gated q now v g = elim (Bool-cases (ltb now (protect q now).cooldown_until)) [
    | inl c ↦ rw c (protect-Gated q now g)
    | inr c ↦
        rw c
          (turn_ready-Gated (protect q now) now (protect-Ready q now v).0 (protect-Gated q now g))
  ]

-- While a queue that is ready recovers, one `drive` lets at most one request through its gate (of
-- any kind, or of generation if the gate is for generation only), none if a probe is out already,
-- and the gate keeps its kind. The probe stays the one it was, or there was none and it is a
-- reservation that this drive made for a request of the gated kind: the one let through.
pub drive-Gated :
    (q q' : Queue) (now : ℕ) (r : Recovery)
    → Ready q
    → q.recovery ≡ some r
    → drive q now ≡ done q'
    → Gated r (gated r (expire q now).roots) q.ledger.next q'
unfolding expire
drive-Gated q q' now r v e d =
    let start = gated r (expire q now).roots in
    let last = q.ledger.next in
    drive_rule (Gated r start last) (Gated r start last) now
      (λ p w g. turn-Gated r start last p now w g) q q' v
      (r, e, refl, omega arith, omega arith, inl refl) d
