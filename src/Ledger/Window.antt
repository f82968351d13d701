-- ===== src/Ledger/Window.antt =====
-- product/src/admission/quota.rs: the request debits of a history of calls, and its starts.
use native.Mathlib.Nat.{le_refl}
use deskquota.Common.{
  List, Option, Option-cases, [], add_time, arith, bit, count_if, false, find, find-true, inl, inr,
  ltb, max, none, refl, some, sum_by-append, sum_by-retain, sum_by-swap_remove, sum_by-update_first,
  ℕ, ◌++◌, ◌+◌, ◌∙◌, ◌∷◌, ◌≡◌, ◌≤◌,
}
use deskquota.Quota.{Accounting, Cost, Entry, Ledger, Quota, Refusal, known, live, window}
use deskquota.Ledger.{
  admit, admit_checked, advance, cancel, cancel_found, check, finish, finish_found, is_pending,
  is_running, new, reservation_of, retained_at, settled, snapshot, start, start_entry, start_found,
}
use deskquota.Ledger.Tally.{rpm_charged}
use deskquota.Ledger.Invariant.{
  Inv, admit_checked_refused, advance-Inv, finish_entry_keeps, is_unclean, new-Inv, settled_sum,
}
use deskquota.Ledger.History.{
  Call, admits, apply, apply-Inv, cancels, checks, finishes, run, run-Inv, starts,
}

-- The starts of `log` whose minute is not over at `t`.
abbrev pub recent : ℕ → List ℕ → ℕ
recent t log = count_if (λ at. ltb t (add_time at window)) log

-- At the ledger's time and at every later one, the debits that are live are the recent starts.
abbrev pub Tracks : Ledger → List ℕ → Type 0
Tracks l log = (t : ℕ) → l.now ≤ t → rpm_charged t l.entries ≡ recent t log

live_later : (u : Option ℕ) (a b : ℕ) → a ≤ b → live u a ≡ false → live u b ≡ false
live_later none a b h e = refl
live_later (some u) a b h e = ground arith

dropped : (e : Entry) (a t : ℕ) → a ≤ t → retained_at a e ≡ false → bit (live e.rpm_until t) ≡ 0
dropped e a t h k = ground (arith, live_later e.rpm_until a t h)

advance-rpm_charged :
    (l : Ledger) (now t : ℕ)
    → max l.now now ≤ t
    → rpm_charged t (advance l now).entries ≡ rpm_charged t l.entries
unfolding advance
advance-rpm_charged l now t h =
    sum_by-retain (λ e. bit (live e.rpm_until t)) (retained_at (max l.now now))
      (λ e k. dropped e (max l.now now) t h k) l.entries

advance-now : (l : Ledger) (now : ℕ) → (advance l now).now ≡ max l.now now
unfolding advance
advance-now l now = refl

advance-Tracks : (l : Ledger) (now : ℕ) (log : List ℕ) → Tracks l log → Tracks (advance l now) log
advance-Tracks l now log k t h =
    advance-rpm_charged l now t (omega (arith, advance-now l now))
    ∙ k t (omega (arith, advance-now l now))

admit_checked-Tracks :
    (l : Ledger) (cost : Cost) (r : Option Refusal) (log : List ℕ)
    → Tracks l log
    → Tracks (admit_checked cost l r).0 log
admit_checked-Tracks l cost (some r) log k t h =
    rw (admit_checked_refused l cost r) (k t (rw (admit_checked_refused l cost r) at h))
admit_checked-Tracks l cost none log k t h = ground (
  arith,
  k t,
  sum_by-append (λ e. bit (live e.rpm_until t)) l.entries (reservation_of l (l.next + 1) cost ∷ []),
)

-- A reservation that has not started has no live debit.
pending_undebited :
    (l : Ledger) (id : ℕ) (e : Entry) (t : ℕ)
    → Inv l
    → find (is_pending id) l.entries ≡ some e
    → bit (live e.rpm_until t) ≡ 0
pending_undebited l id e t v h = ground (
  arith,
  v.clean,
  find-true (is_pending id) l.entries e h,
  sum_by-swap_remove (λ x. bit (is_unclean x)) (is_pending id) l.entries e h,
)

cancel_found-Tracks :
    (l : Ledger) (id : ℕ) (o : Option Entry) (log : List ℕ)
    → find (is_pending id) l.entries ≡ o
    → Inv l
    → Tracks l log
    → Tracks (cancel_found l id o).0 log
cancel_found-Tracks l id none log h v k t le = k t le
cancel_found-Tracks l id (some e) log h v k t le = omega (
  arith,
  k t le,
  pending_undebited l id e t v h,
  sum_by-swap_remove (λ x. bit (live x.rpm_until t)) (is_pending id) l.entries e h,
)

start_found-Tracks :
    (l : Ledger) (id n : ℕ) (e : Entry) (log : List ℕ)
    → find (is_pending id) l.entries ≡ some e
    → known l.quota.rpm ≡ some n
    → Inv l
    → Tracks l log
    → Tracks (start_found l id (some e)).0 (l.now ∷ log)
start_found-Tracks l id n e log h r v k t le = ground (
  arith,
  k t le,
  pending_undebited l id e t v h,
  sum_by-update_first (λ x. bit (live x.rpm_until t)) (is_pending id) (start_entry l) l.entries e h,
)

settled-Tracks :
    (l : Ledger) (id : ℕ) (usage : Option ℕ) (e : Entry) (log : List ℕ)
    → find (is_running id) l.entries ≡ some e
    → Tracks l log
    → Tracks (settled l id usage e) log
settled-Tracks l id usage e log h k t le = ground (
  arith,
  k t le,
  finish_entry_keeps l usage e,
  settled_sum l id usage e h (λ x. bit (live x.rpm_until t)),
)

finish_found-Tracks :
    (l : Ledger) (now id : ℕ) (usage : Option ℕ) (o : Option Entry) (log : List ℕ)
    → find (is_running id) l.entries ≡ o
    → Tracks l log
    → Tracks (finish_found l now id usage o).0 log
unfolding finish_found
finish_found-Tracks l now id usage none log h k = k
finish_found-Tracks l now id usage (some e) log h k =
    advance-Tracks (settled l id usage e) now log (settled-Tracks l id usage e log h k)

pub quota-advance : (l : Ledger) (now : ℕ) → (advance l now).quota ≡ l.quota
unfolding advance
quota-advance l now = refl

starts-Tracks :
    (l : Ledger) (now id n : ℕ) (log : List ℕ)
    → known l.quota.rpm ≡ some n
    → Inv l
    → Tracks l log
    → Tracks (apply l now (starts id)).0 ((apply l now (starts id)).1 ++ log)
unfolding apply start
starts-Tracks l now id n log r v k =
    elim (Option-cases (find (is_pending id) (advance l now).entries)) [
      | inl e ↦ rw e (advance-Tracks l now log k)
      | inr (x, e) ↦ rw e (
          start_found-Tracks (advance l now) id n x log e (rw (quota-advance l now) r)
            (advance-Inv l now v) (advance-Tracks l now log k))
    ]

apply-Tracks :
    (l : Ledger) (now n : ℕ) (c : Call) (log : List ℕ)
    → known l.quota.rpm ≡ some n
    → Inv l
    → Tracks l log
    → Tracks (apply l now c).0 ((apply l now c).1 ++ log)
unfolding apply check snapshot admit cancel finish
apply-Tracks l now n (checks cost) log r v k = advance-Tracks l now log k
apply-Tracks l now n (admits cost) log r v k =
    admit_checked-Tracks (advance l now) cost _ log (advance-Tracks l now log k)
apply-Tracks l now n (starts id) log r v k = starts-Tracks l now id n log r v k
apply-Tracks l now n (cancels id) log r v k =
    cancel_found-Tracks (advance l now) id _ log refl (advance-Inv l now v)
      (advance-Tracks l now log k)
apply-Tracks l now n (finishes id usage) log r v k =
    finish_found-Tracks (advance l now) now id usage _ log refl (advance-Tracks l now log k)

pub quota-apply : (l : Ledger) (now : ℕ) (c : Call) → (apply l now c).0.quota ≡ l.quota
unfolding apply check admit start cancel finish
quota-apply l now (checks cost) = ground arith
quota-apply l now (admits cost) = ground arith
quota-apply l now (starts id) = ground arith
quota-apply l now (cancels id) = ground arith
quota-apply l now (finishes id usage) = ground arith

run-Tracks :
    (l : Ledger) (log : List ℕ) (cs : List (ℕ × Call)) (n : ℕ)
    → known l.quota.rpm ≡ some n
    → Inv l
    → Tracks l log
    → Tracks (run l log cs).0 (run l log cs).1 × (known (run l log cs).0.quota.rpm ≡ some n)
unfolding run
run-Tracks l log [] n r v k = (k, r)
run-Tracks l log ((now, c) ∷ cs) n r v k =
    run-Tracks (apply l now c).0 ((apply l now c).1 ++ log) cs n (rw (quota-apply l now c) r)
      (apply-Inv l now c v) (apply-Tracks l now n c log r v k)

-- Under a known request limit n, after any history of calls on a new ledger, the request debits
-- that are live are exactly the starts whose minute is not over.
pub rpm_charged-run :
    (q : Quota) (a : Accounting) (slots at hold n : ℕ) (cs : List (ℕ × Call))
    → known q.rpm ≡ some n
    → let (l, log) = run (new q a slots at hold) [] cs in
      rpm_charged l.now l.entries ≡ recent l.now log
unfolding new
rpm_charged-run q a slots at hold n cs r =
    (run-Tracks (new q a slots at hold) [] cs n r (new-Inv q a slots at hold) (λ t h. refl)).0 _
      (omega arith)

-- Under a known request limit n, after any history of calls on a new ledger, at most n requests
-- were started within the minute that ends at the ledger's time.
pub recent-run-le :
    (q : Quota) (a : Accounting) (slots at hold n : ℕ) (cs : List (ℕ × Call))
    → known q.rpm ≡ some n
    → let (l, log) = run (new q a slots at hold) [] cs in recent l.now log ≤ n
unfolding new
recent-run-le q a slots at hold n cs r =
    let l0 = new q a slots at hold in
    let tracked = run-Tracks l0 [] cs n r (new-Inv q a slots at hold) (λ t h. refl) in
    omega (
      arith,
      tracked.0 _ (le_refl _),
      (run-Inv l0 [] cs (new-Inv q a slots at hold)).requests n tracked.1,
    )
