-- ===== src/Ledger.antt =====
-- product/src/admission/quota.rs: the operations of the rolling ledger, each on the ledger as
-- a value. A method on `&mut self` returns the new ledger beside its result.
pub mod Tally
pub mod Invariant
pub mod History
pub mod Window
pub mod Wake
pub mod Budget
pub mod Repeat
use deskquota.Common.{
  ℕ, ◌+◌, ◌-◌, Bool, true, false, not, ◌&&◌, ◌||◌, Option, none, some, List, [], ◌∷◌, ◌++◌, max,
  min, ltb, leb, ◌==◌, if◌then◌else◌, bit, is_some, length, retain, any, count_if, swap_remove,
  update_first, find, add_time, add_u64, add_u128, max_u64,
}
use deskquota.Quota.{
  Quota, Accounting, Cost, Refusal, Decision, Diagnostics, Snapshot, Entry, Ledger, reserved,
  actual, window, max_entries, is_metadata, cost_tokens, exceeds_budget, startup_hold, concurrency,
  rpm_full, tpm_full, ledger_capacity, identity_exhausted, admitted, wait, estimate_exceeds_budget,
  known, live, is_some_and, is_none_or, no_diagnostics,
}

-- `Ledger::new`; the concurrency that its `assert!` wants is a hypothesis of the theorems.
unfoldable pub new : Quota → Accounting → ℕ → ℕ → ℕ → Ledger
new quota accounting slots now hold = record {
  quota = quota;
  accounting = accounting;
  concurrency = slots;
  ready_at =
      if is_some (known quota.rpm) || is_some (known quota.tpm) then add_time now hold else now;
  now = now;
  next = 0;
  entries = [];
  cleanups = 0;
  starts = 0;
  reservation = no_diagnostics;
}

unfoldable pub is_active_generation : Ledger → ℕ → Bool
is_active_generation l id = any (λ e. (e.id == id) && (e.active && not e.is_meta)) l.entries

abbrev pub retained_at : ℕ → Entry → Bool
retained_at now e = e.active || (live e.rpm_until now || live e.tpm_until now)

unfoldable pub advance : Ledger → ℕ → Ledger
advance l now =
    let now' = max l.now now in
    record l { now = now'; entries = retain (retained_at now') l.entries }

-- The body of the loop in `snapshot`.
abbrev pub count_entry : ℕ → Snapshot → Entry → Snapshot
count_entry now s e = record s {
  active = s.active + bit e.active;
  rpm_debited = s.rpm_debited + bit (live e.rpm_until now);
  tpm_debited = if live e.tpm_until now then s.tpm_debited + e.tokens else s.tpm_debited;
  tpm_held = if not e.started then s.tpm_held + e.tokens else s.tpm_held;
}

unfoldable pub count_entries : ℕ → Snapshot → List Entry → Snapshot
count_entries now s [] = s
count_entries now s (e ∷ es) = count_entries now (count_entry now s e) es

unfoldable pub snapshot : Ledger → ℕ → Ledger × Snapshot
unfolding advance count_entries
snapshot l now =
    let l' = advance l now in
    (
      l',
      count_entries l'.now
          (record {
            rpm_debited = 0;
            tpm_debited = 0;
            tpm_held = 0;
            active = 0;
            retained = length l'.entries;
            cleanups = l'.cleanups;
            starts = l'.starts;
            reservation = l'.reservation;
          })
          l'.entries,
    )

unfoldable pub startup_hold_left : Ledger → ℕ → ℕ
startup_hold_left l now = l.ready_at - max now l.now

unfoldable pub total_fits : Ledger → Cost → Bool
total_fits l cost = is_none_or (known l.quota.tpm) (λ limit. leb (cost_tokens cost) limit)

-- The tests of `check`, in its order, on the ledger and the snapshot that `snapshot` left.
unfoldable pub refusal : Ledger → Snapshot → Cost → Option Refusal
unfolding total_fits
refusal l s cost =
    if not (total_fits l cost)
    then some exceeds_budget
    else if ltb l.now l.ready_at
    then some startup_hold
    else if leb l.concurrency s.active
    then some concurrency
    else if is_some_and (known l.quota.rpm)
        (λ limit. leb limit (s.rpm_debited + count_if (λ e. not e.started) l.entries))
    then some rpm_full
    else if is_some_and (known l.quota.tpm)
        (λ limit. ltb limit (s.tpm_debited + s.tpm_held + cost_tokens cost))
    then some tpm_full
    else if leb max_entries (length l.entries)
    then some ledger_capacity
    else if l.next == max_u64
    then some identity_exhausted
    else none

unfoldable pub check : Ledger → ℕ → Cost → Ledger × Option Refusal
unfolding snapshot refusal
check l now cost = let (l', s) = snapshot l now in (l', refusal l' s cost)

-- `Option::min` over an iterator that may be empty.
abbrev pub sooner : Option ℕ → Option ℕ → Option ℕ
sooner none b = b
sooner (some a) none = some a
sooner (some a) (some b) = some (min a b)

abbrev pub future : ℕ → Option ℕ → Option ℕ
future now none = none
future now (some at) = if ltb now at then some at else none

unfoldable pub first_expiry : ℕ → List Entry → Option ℕ
first_expiry now [] = none
first_expiry now (e ∷ es) =
    sooner (future now e.rpm_until) (sooner (future now e.tpm_until) (first_expiry now es))

unfoldable pub next_wake : Ledger → Option ℕ
unfolding first_expiry
next_wake l = if ltb l.now l.ready_at then some l.ready_at else first_expiry l.now l.entries

abbrev pub reservation_of : Ledger → ℕ → Cost → Entry
reservation_of l id cost = record {
  id = id;
  active = true;
  started = false;
  is_meta = is_metadata cost;
  tokens = if is_some (known l.quota.tpm) then cost_tokens cost else 0;
  rpm_until = none;
  tpm_until = none;
}

-- The `match` on the result of `check` in `admit`, with the checked increment of the identity.
abbrev pub admit_checked : Cost → Ledger → Option Refusal → Ledger × Decision
admit_checked cost l (some exceeds_budget) = (l, estimate_exceeds_budget)
admit_checked cost l (some concurrency) = (l, wait none)
admit_checked cost l (some identity_exhausted) = (l, wait none)
admit_checked cost l (some _) = (l, wait (next_wake l))
admit_checked cost l none =
    if ltb l.next max_u64
    then (
      record l {
        next = l.next + 1;
        entries = l.entries ++ reservation_of l (l.next + 1) cost ∷ [];
      },
      admitted (l.next + 1),
    )
    else (l, wait none)

unfoldable pub admit : Ledger → ℕ → Cost → Ledger × Decision
unfolding check
admit l now cost = let (l', r) = check l now cost in admit_checked cost l' r

abbrev pub is_pending : ℕ → Entry → Bool
is_pending id e = (e.id == id) && (e.active && not e.started)

abbrev pub is_running : ℕ → Entry → Bool
is_running id e = (e.id == id) && (e.active && e.started)

abbrev pub expiry : Option ℕ → ℕ → Option ℕ
expiry none until = none
expiry (some _) until = some until

-- What `start` does to the entry that it finds.
abbrev pub start_entry : Ledger → Entry → Entry
start_entry l e = record e {
  started = true;
  rpm_until = expiry (known l.quota.rpm) (add_time l.now window);
  tpm_until = if ltb 0 e.tokens then expiry (known l.quota.tpm) (add_time l.now window) else none;
}

abbrev pub start_found : Ledger → ℕ → Option Entry → Ledger × Bool
start_found l id none = (l, false)
start_found l id (some _) = (
  record l {
    entries = update_first (is_pending id) (start_entry l) l.entries;
    starts = add_u64 l.starts 1;
  },
  true,
)

unfoldable pub start : Ledger → ℕ → ℕ → Ledger × Bool
unfolding advance
start l now id = let l' = advance l now in start_found l' id (find (is_pending id) l'.entries)

abbrev pub cancel_found : Ledger → ℕ → Option Entry → Ledger × Bool
cancel_found l id none = (l, false)
cancel_found l id (some _) = (
  record l { entries = swap_remove (is_pending id) l.entries; cleanups = add_u64 l.cleanups 1 },
  true,
)

unfoldable pub cancel : Ledger → ℕ → ℕ → Ledger × Bool
unfolding advance
cancel l now id = let l' = advance l now in cancel_found l' id (find (is_pending id) l'.entries)

abbrev pub is_actual : Accounting → Bool
is_actual actual = true
is_actual reserved = false

-- The charge of an observed usage to the entry that finishes.
abbrev pub charge : Accounting → ℕ → ℕ → Entry → Entry
charge accounting now usage e =
    if live e.tpm_until now
    then (if is_actual accounting then record e { tokens = usage } else e)
    else if ltb 0 usage
    then record e { tokens = usage; tpm_until = some (add_time now window) }
    else e

-- Whether a finished entry is settled: generation under a known token limit.
abbrev pub settles : Ledger → Entry → Bool
settles l e = not e.is_meta && is_some (known l.quota.tpm)

abbrev pub charge_observed : Ledger → Option ℕ → Entry → Entry
charge_observed l none e = e
charge_observed l (some usage) e = charge l.accounting l.now usage e

abbrev pub finish_entry : Ledger → Option ℕ → Entry → Entry
finish_entry l usage e =
    let done = record e { active = false } in
    if settles l e then charge_observed l usage done else done

-- The difference counters, from the reservation `e.tokens` before it is charged.
abbrev pub observe : Option ℕ → Entry → Diagnostics → Diagnostics
observe none e d = record d { unknown = add_u64 d.unknown 1 }
observe (some usage) e d = record d {
  samples = add_u64 d.samples 1;
  reserved_tokens = add_u128 d.reserved_tokens e.tokens;
  observed_tokens = add_u128 d.observed_tokens usage;
  excess_tokens = add_u128 d.excess_tokens (e.tokens - usage);
  shortfall_tokens = add_u128 d.shortfall_tokens (usage - e.tokens);
}

-- The ledger with the entry `e`, found by its identity, settled.
abbrev pub settled : Ledger → ℕ → Option ℕ → Entry → Ledger
settled l id usage e = record l {
  entries = update_first (is_running id) (finish_entry l usage) l.entries;
  cleanups = add_u64 l.cleanups 1;
  reservation = if settles l e then observe usage e l.reservation else l.reservation;
}

abbrev pub finish_found : Ledger → ℕ → ℕ → Option ℕ → Option Entry → Ledger × Bool
unfolding advance
finish_found l now id usage none = (l, false)
finish_found l now id usage (some e) = (advance (settled l id usage e) now, true)

unfoldable pub finish : Ledger → ℕ → ℕ → Option ℕ → Ledger × Bool
unfolding advance finish_found
finish l now id usage =
    let l' = advance l now in finish_found l' now id usage (find (is_running id) l'.entries)
