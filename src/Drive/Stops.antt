-- ===== src/Drive/Stops.antt =====
-- product/src/admission/queue.rs, `drive`: where the loop stops.
use native.Mathlib.Nat.{mod-eq_of_lt, add-mod_right}
use mathlib.Core.Bool.{false≢true}
use deskquota.Common.{
  Bool, Bool-cases, List, Option, Option-cases, [], arith, false, get_or, head?, if◌then◌else◌, inl,
  inr, length, ltb, ltb→ge, ltb→lt, none, refl, set, some, subst, suc, sym, true, zero, ℕ, ◌%◌, ◌+◌,
  ◌-◌, ◌<◌, ◌∙◌, ◌∷◌, ◌≡◌, ◌≤◌, ◌⊎◌,
}
use deskquota.Quota.{Decision, Ledger, admitted, wait}
use deskquota.Scheduler.{Queue, Recovery, Waiting}
use deskquota.Barrier.{protect}
use deskquota.Drive.{
  bypass, done, drive, fits, head_fits, scan, select, serve, serve_admitted, serve_head, turn,
  turn_ready,
}
use deskquota.Drive.Fits.{HeadFits, HeadFits-same, fits-SameChecks, head_fits-SameChecks}
use deskquota.Drive.Serve.{Ready, overflows-false}
use deskquota.Drive.Total.{Keeps, after_fits, drive_rule, protect-Ready}

-- No head could be served: with no barrier, none of any root; with one, not the head of its root.
abbrev pub Blocked : ℕ → Queue → Option (ℕ × ℕ) → Type 0
Blocked now q none = (i : ℕ) → ¬ HeadFits q.recovery now q.ledger (head? (get_or q.roots i []))
Blocked now q (some (root, s)) = ¬ HeadFits q.recovery now q.ledger (head? (get_or q.roots root []))

abbrev pub Idle : ℕ → Queue → Type 0
Idle now q = (now < q.cooldown_until) ⊎ Blocked now q q.barrier

module _ (r : Option Recovery) (now : ℕ) where
  head_fits_of :
      (l : Ledger) (o : Option Waiting) → HeadFits r now l o → (head_fits r now l o).1 ≡ true
  unfolding head_fits
  head_fits_of l none h = absurd h
  head_fits_of l (some w) h = rw (h.0, h.1)

  fits_of :
      (l : Ledger) (rs : List (List Waiting)) (i : ℕ)
      → HeadFits r now l (head? (get_or rs i []))
      → get_or (fits r now l rs).1 i false ≡ true
  unfolding fits
  fits_of l [] i h = absurd h
  fits_of l (ws ∷ rs) zero h = head_fits_of l (head? ws) h
  fits_of l (ws ∷ rs) (suc i) h = fits_of (head_fits r now l (head? ws)).0 rs i (
      HeadFits-same r now l (head_fits r now l (head? ws)).0 (head? (get_or rs i []))
        (λ cost. sym (head_fits-SameChecks r now l (head? ws) cost)) h)

scan-none :
    (k cursor offset n : ℕ) (fs : List Bool) (j : ℕ)
    → scan k cursor offset n fs ≡ none
    → j < k
    → get_or fs ((cursor + (offset + j)) % n) false ≡ false
unfolding scan
scan-none zero cursor offset n fs j e h = absurd (omega arith)
scan-none (suc k) cursor offset n fs zero e h =
    let z : offset + 0 ≡ offset = omega arith in rw z (ground arith)
scan-none (suc k) cursor offset n fs (suc j) e h =
    let s : offset + suc j ≡ (offset + 1) + j = omega arith in
    let rest : scan k cursor (offset + 1) n fs ≡ none = ground arith in
    rw s (scan-none k cursor (offset + 1) n fs j rest (omega arith))

-- Every root is met by the round robin.
scan_covers :
    (cursor n : ℕ) (fs : List Bool) (root : ℕ)
    → scan n cursor 0 n fs ≡ none
    → cursor < n
    → root < n
    → get_or fs root false ≡ false
scan_covers cursor n fs root e hc hr = elim (Bool-cases (ltb root cursor)) [
  | inr b ↦
      let h = ltb→ge root cursor b in
      let at : (cursor + (0 + (root - cursor))) ≡ root = omega arith in
      rw (at, mod-eq_of_lt hr) at (scan-none n cursor 0 n fs (root - cursor) e (omega arith))
  | inl b ↦
      let h = ltb→lt root cursor b in
      let at : (cursor + (0 + (root + n - cursor))) ≡ root + n = omega arith in
      rw (at, add-mod_right root n, mod-eq_of_lt hr) at
        (scan-none n cursor 0 n fs (root + n - cursor) e (omega arith))
]

get_or-past {ℓ} : {A : Type ℓ} (xs : List A) (i : ℕ) (d : A) → length xs ≤ i → get_or xs i d ≡ d
get_or-past [] i d h = refl
get_or-past (x ∷ xs) zero d h = absurd (omega arith)
get_or-past (x ∷ xs) (suc i) d h = get_or-past xs i d (omega arith)

unmarked :
    (q : Queue) (now i : ℕ)
    → get_or (fits q.recovery now q.ledger q.roots).1 i false ≡ false
    → ¬ HeadFits q.recovery now (after_fits q now).ledger (head? (get_or q.roots i []))
unmarked q now i e h = false≢true (
    sym e
    ∙ fits_of q.recovery now q.ledger q.roots i (
        HeadFits-same q.recovery now (after_fits q now).ledger q.ledger _
          (fits-SameChecks q.recovery now q.ledger q.roots) h))

past_heads :
    (r : Option Recovery) (now : ℕ) (l : Ledger) (rs : List (List Waiting)) (i : ℕ)
    → length rs ≤ i
    → ¬ HeadFits r now l (head? (get_or rs i []))
past_heads r now l rs i h f = subst (λ ws. HeadFits r now l (head? ws)) (get_or-past rs i [] h) f

none_selected_free :
    (q : Queue) (now i : ℕ)
    → Ready q
    → scan (length q.roots) q.cursor 0 (length q.roots) (fits q.recovery now q.ledger q.roots).1
      ≡ none
    → ¬ HeadFits q.recovery now (after_fits q now).ledger (head? (get_or q.roots i []))
none_selected_free q now i v e = elim (Bool-cases (ltb i (length q.roots))) [
  | inl h ↦
      let lt = ltb→lt i (length q.roots) h in
      unmarked q now i (
        scan_covers q.cursor (length q.roots) (fits q.recovery now q.ledger q.roots).1 i e
          (v.turning (omega arith)) lt)
  | inr h ↦
      past_heads q.recovery now (after_fits q now).ledger q.roots i (ltb→ge i (length q.roots) h)
]

not_marked :
    (fs : List Bool) (root : ℕ)
    → (if get_or fs root false then some root else none) ≡ none
    → get_or fs root false ≡ false
not_marked fs root e = ground arith

none_selected :
    (q : Queue) (now : ℕ)
    → Ready q
    → select q (fits q.recovery now q.ledger q.roots).1 ≡ none
    → Blocked now (after_fits q now) q.barrier
unfolding select
none_selected q now v e = elim (Option-cases q.barrier) [
  | inl b ↦ rw b (λ i. none_selected_free q now i v (rw b at e))
  | inr (at, b) ↦
      rw b
        (unmarked q now at.0 (not_marked (fits q.recovery now q.ledger q.roots).1 at.0 (rw b at e)))
]

abbrev pub Anything : Queue → Type 0
Anything q = Unit

module _ (R : Queue → Type 0) where
  serve_admitted_never :
      (q : Queue) (root : ℕ) (w : Waiting) (l : Ledger) (d : Decision)
      → Keeps Anything R (serve_admitted q root w l d)
  serve_admitted_never q root w l (admitted id) = tt
  serve_admitted_never q root w l (wait at) = tt
  serve_admitted_never q root w l Decision.estimate_exceeds_budget = tt

  serve_head_never :
      (q : Queue) (now root : ℕ) (ws : List Waiting) → Keeps Anything R (serve_head q now root ws)
  unfolding serve_head
  serve_head_never q now root [] = tt
  serve_head_never q now root (w ∷ ws) =
      serve_admitted_never (record q { roots = set q.roots root ws }) root w _ _

  pub serve_never :
      (q : Queue) (now : ℕ) (fs : List Bool) (root : ℕ) → Keeps Anything R (serve q now fs root)
  unfolding serve
  serve_never q now fs root =
      serve_head_never (record q { roots = bypass 0 root fs q.roots }) now root _

turn_ready-Idle : (q : Queue) (now : ℕ) → Ready q → Keeps Anything (Idle now) (turn_ready q now)
unfolding turn_ready
turn_ready-Idle q now v = elim (Option-cases (select q (fits q.recovery now q.ledger q.roots).1)) [
  | inl e ↦ rw (overflows-false q.roots v.places, e) (inr (none_selected q now v e))
  | inr (root, e) ↦
      rw (overflows-false q.roots v.places, e)
        (serve_never (Idle now) (after_fits q now) now _ root)
]

turn-Idle : (q : Queue) (now : ℕ) → Ready q → Keeps Anything (Idle now) (turn q now)
unfolding turn
turn-Idle q now v = elim (Bool-cases (ltb now (protect q now).cooldown_until)) [
  | inl c ↦ rw c (inl (ltb→lt _ _ c))
  | inr c ↦ rw c (turn_ready-Idle (protect q now) now (protect-Ready q now v).0)
]

-- `drive` of a queue that is ready for it returns only when nothing more can be served: the shared cooldown is not over, or no
-- head that may go first (the barrier's if there is one, else any) is granted by both the ledger
-- and the recovery gate.
pub drive-Idle : (q q' : Queue) (now : ℕ) → Ready q → drive q now ≡ done q' → Idle now q'
drive-Idle q q' now v e =
    drive_rule Anything (Idle now) now (λ p w _. turn-Idle p now w) q q' v tt e
