-- ===== src/Examples/Quotas.antt =====
-- product/src/admission/quota.rs at two requests and 100 tokens a minute.
use deskquota.Common.{List, [], arith, from_secs, none, refl, some, ℕ, ◌+◌, ◌↔◌, ◌∷◌, ◌≡◌, ◌≤◌}
use deskquota.Quota.{Ledger, Quota, actual, estimated, exact_fixture, known_limit}
use deskquota.Ledger.{admit, advance, check, finish, new, next_wake, start}
use deskquota.Ledger.Tally.{Admits, check-Admits, rpm_charged}
use deskquota.Ledger.Invariant.{Inv, new-Inv}
use deskquota.Ledger.History.{Call, admits, apply, finishes, run, run-Inv, starts}
use deskquota.Ledger.Window.{recent, recent-run-le, rpm_charged-run}
use deskquota.Ledger.Budget.{total_reports, tpm_used, tpm_used-run-le}
use deskquota.Ledger.Wake.{check-next_wake}

abbrev limits : Quota
limits = record { rpm = known_limit 2; tpm = known_limit 100 }

abbrev fresh : Ledger
unfolding new
fresh = new limits actual 4 0 0

-- Two requests are admitted and started, one finishes with 70 tokens, and a third must wait.
abbrev morning : List (ℕ × Call)
morning =
    (0, admits (exact_fixture 30))
    ∷ (0, starts 1)
    ∷ (5, admits (estimated 20 10))
    ∷ (6, starts 2)
    ∷ (from_secs 1, finishes 1 (some 70))
    ∷ (from_secs 2, admits (exact_fixture 1))
    ∷ []

morning-run :
    (recent (run fresh [] morning).0.now (run fresh [] morning).1 ≡ 2)
    × ((run fresh [] morning).0.next ≡ 2)
    × (tpm_used (run fresh [] morning).0 ≡ 100)
unfolding run apply new admit start finish
morning-run = (refl, refl, refl)

run-Inv_example : Inv (run fresh [] morning).0
unfolding fresh
run-Inv_example = run-Inv fresh [] morning (new-Inv limits actual 4 0 0)

rpm_charged-run_example :
    let (l, log) = run (new limits actual 4 0 0) [] morning in
    rpm_charged l.now l.entries ≡ recent l.now log
rpm_charged-run_example = rpm_charged-run limits actual 4 0 0 2 morning refl

recent-run-le_example :
    let (l, log) = run (new limits actual 4 0 0) [] morning in recent l.now log ≤ 2
recent-run-le_example = recent-run-le limits actual 4 0 0 2 morning refl

tpm_used-run-le_example :
    tpm_used (run (new limits actual 4 0 0) [] morning).0 ≤ 100 + total_reports morning
tpm_used-run-le_example = tpm_used-run-le limits actual 4 0 0 100 morning refl

check-Admits_example :
    ((check fresh 5 (estimated 20 10)).1 ≡ none) ↔ Admits (advance fresh 5) (estimated 20 10)
check-Admits_example = check-Admits fresh 5 (estimated 20 10)

-- The ledger after the morning, whose next wake is the end of the first start's minute.
abbrev later : Ledger
unfolding run apply new admit start finish
later = (run fresh [] morning).0

later_wake : next_wake later ≡ some (from_secs 60)
unfolding next_wake later fresh
later_wake = refl

check-next_wake_example :
    (check later (from_secs 30) (exact_fixture 1)).1 ≡ (check later later.now (exact_fixture 1)).1
unfolding next_wake later fresh
check-next_wake_example =
    check-next_wake later (from_secs 30) (exact_fixture 1) (omega arith) (omega arith)
