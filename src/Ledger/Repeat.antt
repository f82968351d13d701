-- ===== src/Ledger/Repeat.antt =====
-- product/src/admission/quota.rs: checks that are repeated, as `drive` does.
use deskquota.Common.{
  Bool, Bool-cases, List, Option, [], ap, arith, inl, inr, max, none, refl, retain, sym, ℕ, ◌+◌,
  ◌∙◌, ◌∷◌, ◌≡◌,
}
use deskquota.Quota.{Cost, Entry, Ledger, Refusal, admitted}
use deskquota.Ledger.{
  admit, admit_checked, advance, check, count_entries, refusal, retained_at, snapshot,
}
use deskquota.Ledger.Tally.{check-Admits, check-advance, empty_snapshot}
use deskquota.Ledger.Invariant.{Inv, admit_checked_granted, admitted_ledger, advance-Inv}

retain-retain : (p : Entry → Bool) (es : List Entry) → retain p (retain p es) ≡ retain p es
retain-retain p [] = refl
retain-retain p (e ∷ es) = elim (Bool-cases (p e)) [
  | inl h ↦ rw h (rw h (ap (◌∷◌ e) (retain-retain p es)))
  | inr h ↦ rw h (retain-retain p es)
]

advance-advance : (l : Ledger) (now : ℕ) → advance (advance l now) now ≡ advance l now
unfolding advance
advance-advance l now =
    let e : max (max l.now now) now ≡ max l.now now = omega arith in
    rw e (rw (retain-retain (retained_at (max l.now now)) l.entries))

-- Two ledgers that answer every check at `now` alike, with the same ledger after it.
abbrev pub SameChecks : ℕ → Ledger → Ledger → Type 0
SameChecks now l m = (cost : Cost) → check l now cost ≡ check m now cost

abbrev checked : Ledger → Cost → Ledger × Option Refusal
checked l cost = (l, refusal l (count_entries l.now (empty_snapshot l) l.entries) cost)

check-checked :
    (l : Ledger) (now : ℕ) (cost : Cost) → check l now cost ≡ checked (advance l now) cost
unfolding check snapshot
check-checked l now cost = refl

pub check-SameChecks : (l : Ledger) (now : ℕ) (cost : Cost) → SameChecks now (check l now cost).0 l
check-SameChecks l now cost other =
    ap (λ m. check m now other) (check-advance l now cost)
    ∙ check-checked (advance l now) now other
    ∙ ap (λ m. checked m other) (advance-advance l now)
    ∙ sym (check-checked l now other)

admit-check :
    (l : Ledger) (now : ℕ) (cost : Cost)
    → admit l now cost ≡ admit_checked cost (check l now cost).0 (check l now cost).1
unfolding admit
admit-check l now cost = refl

pub admit-SameChecks :
    (l m : Ledger) (now : ℕ) (cost : Cost)
    → SameChecks now l m
    → admit l now cost ≡ admit m now cost
admit-SameChecks l m now cost same =
    admit-check l now cost
    ∙ ap (λ c. admit_checked cost c.0 c.1) (same cost)
    ∙ sym (admit-check m now cost)

-- A cost that the ledger grants is admitted, under the next identity.
pub admit_granted :
    (l : Ledger) (now : ℕ) (cost : Cost)
    → Inv l
    → (check l now cost).1 ≡ none
    → admit l now cost ≡ (admitted_ledger (advance l now) cost, admitted (l.next + 1))
unfolding admit
admit_granted l now cost v e =
    let a = (check-Admits l now cost).0 e in
    let w = advance-Inv l now v in
    rw (check-advance l now cost, e)
      (admit_checked_granted (advance l now) cost (omega (arith, a.identity, w.identity)))
