-- ===== src/Ledger/Budget.antt =====
-- product/src/admission/quota.rs: the token debits of a history of calls.
use deskquota.Common.{
  Bool-cases, List, Option, Option-cases, [], arith, find, find-true, if◌then◌else◌, inl, inr, ltb,
  max, max_u64, none, refl, some, sum_by, sum_by-append, sum_by-retain-le, sum_by-swap_remove,
  sum_by-update_first, sum_by_mono, ℕ, ◌++◌, ◌+◌, ◌∷◌, ◌≡◌, ◌≤◌,
}
use deskquota.Quota.{Accounting, Cost, Entry, Ledger, Quota, known, live}
use deskquota.Ledger.{
  admit, advance, cancel, cancel_found, check, finish, finish_entry, finish_found, is_pending,
  is_running, new, reservation_of, retained_at, settled, start, start_entry, start_found,
}
use deskquota.Ledger.Tally.{
  Admits, charged_tokens, check-Admits, check-advance, pending_tokens, tpm_charged, tpm_pending,
}
use deskquota.Ledger.Invariant.{
  admit_checked_refused, admitted_ledger, finish_entry_keeps, settled_sum,
}
use deskquota.Ledger.History.{Call, admits, apply, cancels, checks, finishes, run, starts}
use deskquota.Ledger.Window.{quota-advance, quota-apply}

-- What `check` counts against the token limit.
abbrev pub tpm_used : Ledger → ℕ
tpm_used l = tpm_charged l.now l.entries + tpm_pending l.entries

charged_mono : (e : Entry) (a b : ℕ) → a ≤ b → charged_tokens b e ≤ charged_tokens a e
charged_mono e a b h = go e.tpm_until
  where
    go : (u : Option ℕ) → (if live u b then e.tokens else 0) ≤ (if live u a then e.tokens else 0)
    go none = omega arith
    go (some u) = ground arith

advance-tpm_used : (l : Ledger) (now : ℕ) → tpm_used (advance l now) ≤ tpm_used l
unfolding advance
advance-tpm_used l now = omega (
  arith,
  sum_by-retain-le (charged_tokens (max l.now now)) (retained_at (max l.now now)) l.entries,
  sum_by-retain-le pending_tokens (retained_at (max l.now now)) l.entries,
  sum_by_mono (charged_tokens (max l.now now)) (charged_tokens l.now)
      (λ e. charged_mono e l.now (max l.now now) (omega arith)) l.entries,
)

admitted_ledger-tpm_used :
    (l : Ledger) (cost : Cost) (n : ℕ)
    → known l.quota.tpm ≡ some n
    → Admits l cost
    → tpm_used (admitted_ledger l cost) ≤ n
admitted_ledger-tpm_used l cost n k a = ground (
  arith,
  a.budget n k,
  sum_by-append (charged_tokens l.now) l.entries (reservation_of l (l.next + 1) cost ∷ []),
  sum_by-append pending_tokens l.entries (reservation_of l (l.next + 1) cost ∷ []),
)

start_found-tpm_used :
    (l : Ledger) (id : ℕ) (o : Option Entry)
    → find (is_pending id) l.entries ≡ o
    → tpm_used (start_found l id o).0 ≤ tpm_used l
start_found-tpm_used l id none h = omega arith
start_found-tpm_used l id (some e) h = ground (
  arith,
  find-true (is_pending id) l.entries e h,
  sum_by-update_first (charged_tokens l.now) (is_pending id) (start_entry l) l.entries e h,
  sum_by-update_first pending_tokens (is_pending id) (start_entry l) l.entries e h,
)

cancel_found-tpm_used :
    (l : Ledger) (id : ℕ) (o : Option Entry)
    → find (is_pending id) l.entries ≡ o
    → tpm_used (cancel_found l id o).0 ≤ tpm_used l
cancel_found-tpm_used l id none h = omega arith
cancel_found-tpm_used l id (some e) h = omega (
  arith,
  sum_by-swap_remove (charged_tokens l.now) (is_pending id) l.entries e h,
  sum_by-swap_remove pending_tokens (is_pending id) l.entries e h,
)

abbrev pub reported : Option ℕ → ℕ
reported none = 0
reported (some usage) = usage

finish_entry-charged :
    (l : Ledger) (usage : Option ℕ) (e : Entry)
    → charged_tokens l.now (finish_entry l usage e) ≤ charged_tokens l.now e + reported usage
finish_entry-charged l none e = ground arith
finish_entry-charged l (some usage) e = ground arith

settled-tpm_used :
    (l : Ledger) (id : ℕ) (usage : Option ℕ) (e : Entry)
    → find (is_running id) l.entries ≡ some e
    → tpm_used (settled l id usage e) ≤ tpm_used l + reported usage
settled-tpm_used l id usage e h = ground (
  arith,
  finish_entry_keeps l usage e,
  finish_entry-charged l usage e,
  find-true (is_running id) l.entries e h,
  settled_sum l id usage e h (charged_tokens l.now),
  settled_sum l id usage e h pending_tokens,
)

finish_found-tpm_used :
    (l : Ledger) (now id : ℕ) (usage : Option ℕ) (o : Option Entry)
    → find (is_running id) l.entries ≡ o
    → tpm_used (finish_found l now id usage o).0 ≤ tpm_used l + reported usage
unfolding finish_found
finish_found-tpm_used l now id usage none h = omega arith
finish_found-tpm_used l now id usage (some e) h =
    omega (arith, settled-tpm_used l id usage e h, advance-tpm_used (settled l id usage e) now)

-- The usage that a call reports to the ledger.
abbrev pub reports : Call → ℕ
reports (finishes id usage) = reported usage
reports (checks cost) = 0
reports (admits cost) = 0
reports (starts id) = 0
reports (cancels id) = 0

admit-tpm_used :
    (l : Ledger) (now n : ℕ) (cost : Cost) (m : ℕ)
    → known l.quota.tpm ≡ some n
    → tpm_used l ≤ n + m
    → tpm_used (admit l now cost).0 ≤ n + m
unfolding admit
admit-tpm_used l now n cost m k u = elim (Option-cases (check l now cost).1) [
  | inl e ↦ elim (Bool-cases (ltb (advance l now).next max_u64)) [
    | inl f ↦
        rw (check-advance l now cost, e, f)
          (omega (
            arith,
            admitted_ledger-tpm_used (advance l now) cost n (rw (quota-advance l now) k)
                ((check-Admits l now cost).0 e),
          ))
    | inr f ↦ rw (check-advance l now cost, e, f) (omega (arith, u, advance-tpm_used l now))
  ]
  | inr (r, e) ↦
      rw (check-advance l now cost, e, admit_checked_refused (advance l now) cost r)
        (omega (arith, u, advance-tpm_used l now))
]

apply-tpm_used :
    (l : Ledger) (now n : ℕ) (c : Call) (m : ℕ)
    → known l.quota.tpm ≡ some n
    → tpm_used l ≤ n + m
    → tpm_used (apply l now c).0 ≤ n + (m + reports c)
unfolding apply start cancel finish
apply-tpm_used l now n (checks cost) m k u =
    rw (check-advance l now cost) (omega (arith, u, advance-tpm_used l now))
apply-tpm_used l now n (admits cost) m k u = omega (arith, admit-tpm_used l now n cost m k u)
apply-tpm_used l now n (starts id) m k u =
    omega (arith, u, advance-tpm_used l now, start_found-tpm_used (advance l now) id _ refl)
apply-tpm_used l now n (cancels id) m k u =
    omega (arith, u, advance-tpm_used l now, cancel_found-tpm_used (advance l now) id _ refl)
apply-tpm_used l now n (finishes id usage) m k u =
    omega
      (arith, u, advance-tpm_used l now, finish_found-tpm_used (advance l now) now id usage _ refl)

-- The usage that a history reports.
abbrev pub total_reports : List (ℕ × Call) → ℕ
total_reports = sum_by (λ c. reports c.1)

run-tpm_used :
    (l : Ledger) (log : List ℕ) (cs : List (ℕ × Call)) (n m : ℕ)
    → known l.quota.tpm ≡ some n
    → tpm_used l ≤ n + m
    → tpm_used (run l log cs).0 ≤ n + (m + total_reports cs)
unfolding run
run-tpm_used l log [] n m k u = omega arith
run-tpm_used l log ((now, c) ∷ cs) n m k u = omega (
  arith,
  run-tpm_used (apply l now c).0 ((apply l now c).1 ++ log) cs n (m + reports c)
      (rw (quota-apply l now c) k) (apply-tpm_used l now n c m k u),
)

-- Under a known token limit n, after any history of calls on a new ledger, the tokens charged and
-- pending exceed n by at most the usage that finished requests reported; with no usage reported
-- they stay within n.
pub tpm_used-run-le :
    (q : Quota) (a : Accounting) (slots at hold n : ℕ) (cs : List (ℕ × Call))
    → known q.tpm ≡ some n
    → tpm_used (run (new q a slots at hold) [] cs).0 ≤ n + total_reports cs
unfolding new
tpm_used-run-le q a slots at hold n cs k =
    omega (arith, run-tpm_used (new q a slots at hold) [] cs n 0 k (omega arith))
