-- ===== src/Ledger/History.antt =====
-- product/src/admission/quota.rs: whole histories of calls on one ledger. A call carries the
-- time at which its caller read the clock; the times need not be in order.
use deskquota.Common.{List, Option, [], if◌then◌else◌, ℕ, ◌++◌, ◌∷◌}
use deskquota.Quota.{Cost, Ledger}
use deskquota.Ledger.{admit, cancel, check, finish, start}
use deskquota.Ledger.Tally.{check-advance}
use deskquota.Ledger.Invariant.{Inv, admit-Inv, advance-Inv, cancel-Inv, finish-Inv, start-Inv}

pub data Call : Type 0 where
  checks admits : Cost → Call
  starts cancels : ℕ → Call
  finishes : ℕ → Option ℕ → Call

-- The ledger after a call, and the time of the start if the call started a request.
unfoldable pub apply : Ledger → ℕ → Call → Ledger × List ℕ
apply l now (checks cost) = ((check l now cost).0, [])
apply l now (admits cost) = ((admit l now cost).0, [])
apply l now (starts id) = let (l', ok) = start l now id in (l', if ok then l'.now ∷ [] else [])
apply l now (cancels id) = ((cancel l now id).0, [])
apply l now (finishes id usage) = ((finish l now id usage).0, [])

-- The ledger after a history, and the times of its starts, latest first.
unfoldable pub run : Ledger → List ℕ → List (ℕ × Call) → Ledger × List ℕ
run l log [] = (l, log)
run l log ((now, c) ∷ cs) = let (l', started) = apply l now c in run l' (started ++ log) cs

pub apply-Inv : (l : Ledger) (now : ℕ) (c : Call) → Inv l → Inv (apply l now c).0
unfolding apply
apply-Inv l now (checks cost) v = rw (check-advance l now cost) (advance-Inv l now v)
apply-Inv l now (admits cost) v = admit-Inv l now cost v
apply-Inv l now (starts id) v = start-Inv l now id v
apply-Inv l now (cancels id) v = cancel-Inv l now id v
apply-Inv l now (finishes id usage) v = finish-Inv l now id usage v

-- From a ledger with the invariant, every history of calls, in any order and at any times, ends in
-- a ledger with it: the active requests are within the slots, the request debits and pending
-- reservations within the request limit, the table within its bound, every identity in at most
-- one entry, and a reservation that has not started is active and carries no debit.
pub run-Inv : (l : Ledger) (log : List ℕ) (cs : List (ℕ × Call)) → Inv l → Inv (run l log cs).0
unfolding run
run-Inv l log [] v = v
run-Inv l log ((now, c) ∷ cs) v =
    run-Inv (apply l now c).0 ((apply l now c).1 ++ log) cs (apply-Inv l now c v)
