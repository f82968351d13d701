-- ===== src/Drive/Fits.antt =====
-- product/src/admission/queue.rs, `drive`: the inspection of the heads and the selection.
use deskquota.Common.{
  Bool, List, Option, Option-cases, [], arith, false, get_or, head?, inl, inr, length, none, refl,
  some, suc, true, zero, ℕ, ◌+◌, ◌∙◌, ◌∷◌, ◌≡◌,
}
use deskquota.Quota.{Ledger}
use deskquota.Ledger.{check}
use deskquota.Ledger.Tally.{check-advance}
use deskquota.Ledger.Invariant.{Inv, advance-Inv}
use deskquota.Ledger.Repeat.{SameChecks, check-SameChecks}
use deskquota.Scheduler.{Queue, Recovery, Waiting, eligible}
use deskquota.Drive.{fits, head_fits, scan, select}

-- The head of a root is granted by the ledger and by the recovery gate.
abbrev pub HeadFits : Option Recovery → ℕ → Ledger → Option Waiting → Type 0
HeadFits r now l none = ⊥
HeadFits r now l (some w) = ((check l now w.cost).1 ≡ none) × (eligible r w.cost ≡ true)

module _ (r : Option Recovery) (now : ℕ) where
  pub head_fits-SameChecks :
      (l : Ledger) (o : Option Waiting) → SameChecks now (head_fits r now l o).0 l
  unfolding head_fits
  head_fits-SameChecks l none cost = refl
  head_fits-SameChecks l (some w) cost = check-SameChecks l now w.cost cost

  head_fits-true :
      (l : Ledger) (o : Option Waiting) → (head_fits r now l o).1 ≡ true → HeadFits r now l o
  unfolding head_fits
  head_fits-true l none h = absurd (cc)
  head_fits-true l (some w) h = (ground arith, ground arith)

  pub HeadFits-same :
      (l m : Ledger) (o : Option Waiting)
      → SameChecks now l m
      → HeadFits r now l o
      → HeadFits r now m o
  HeadFits-same l m none same h = h
  HeadFits-same l m (some w) same h = (rw (← same w.cost) h.0, h.1)

  pub fits-SameChecks :
      (l : Ledger) (rs : List (List Waiting)) → SameChecks now (fits r now l rs).0 l
  unfolding fits
  fits-SameChecks l [] cost = refl
  fits-SameChecks l (ws ∷ rs) cost =
      fits-SameChecks (head_fits r now l (head? ws)).0 rs cost
      ∙ head_fits-SameChecks l (head? ws) cost

  -- A root that is marked has a head which the ledger and the gate grant.
  pub fits_true :
      (l : Ledger) (rs : List (List Waiting)) (i : ℕ)
      → get_or (fits r now l rs).1 i false ≡ true
      → HeadFits r now l (head? (get_or rs i []))
  unfolding fits
  fits_true l [] i h = absurd (cc)
  fits_true l (ws ∷ rs) zero h = head_fits-true l (head? ws) h
  fits_true l (ws ∷ rs) (suc i) h =
      HeadFits-same (head_fits r now l (head? ws)).0 l (head? (get_or rs i []))
        (head_fits-SameChecks l (head? ws)) (fits_true (head_fits r now l (head? ws)).0 rs i h)

  pub fits-Inv : (l : Ledger) (rs : List (List Waiting)) → Inv l → Inv (fits r now l rs).0
  unfolding fits head_fits
  fits-Inv l [] v = v
  fits-Inv l ([] ∷ rs) v = fits-Inv l rs v
  fits-Inv l ((w ∷ ws) ∷ rs) v =
      fits-Inv (check l now w.cost).0 rs (rw (check-advance l now w.cost) (advance-Inv l now v))

pub scan_fits :
    (k cursor offset n : ℕ) (fs : List Bool) (root : ℕ)
    → scan k cursor offset n fs ≡ some root
    → get_or fs root false ≡ true
unfolding scan
scan_fits zero cursor offset n fs root h = absurd (cc)
scan_fits (suc k) cursor offset n fs root h =
    ground (arith, scan_fits k cursor (offset + 1) n fs root)

-- The selected root is marked.
pub select_fits :
    (q : Queue) (fs : List Bool) (root : ℕ) → select q fs ≡ some root → get_or fs root false ≡ true
unfolding select
select_fits q fs root h = elim (Option-cases q.barrier) [
  | inl e ↦ scan_fits (length q.roots) q.cursor 0 (length q.roots) fs root (rw e at h)
  | inr (b, e) ↦ ground arith
]
