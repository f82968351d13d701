-- ===== src/Ledger/Tally.antt =====
-- product/src/admission/quota.rs, `Ledger::snapshot` and `Ledger::advance`: the counters of the
-- loop as sums over the entries, and how time moves these sums.
use deskquota.Common.{
  List, Option-cases, [], arith, count_if, if◌then◌else◌, inl, inr, length, max_u64, none, not,
  refl, some, sum_by, ℕ, ◌+◌, ◌<◌, ◌↔◌, ◌∷◌, ◌≡◌, ◌≢◌, ◌≤◌,
}
use deskquota.Quota.{Cost, Entry, Ledger, Snapshot, cost_tokens, known, live, max_entries}
use deskquota.Ledger.{advance, check, count_entries, count_entry, refusal, snapshot}

abbrev pub active_count : List Entry → ℕ
active_count = count_if (λ e. e.active)

abbrev pub rpm_charged : ℕ → List Entry → ℕ
rpm_charged now = count_if (λ e. live e.rpm_until now)

abbrev pub rpm_pending : List Entry → ℕ
rpm_pending = count_if (λ e. not e.started)

abbrev pub charged_tokens : ℕ → Entry → ℕ
charged_tokens now e = if live e.tpm_until now then e.tokens else 0

abbrev pub pending_tokens : Entry → ℕ
pending_tokens e = if not e.started then e.tokens else 0

abbrev pub tpm_charged : ℕ → List Entry → ℕ
tpm_charged now = sum_by (charged_tokens now)

abbrev pub tpm_pending : List Entry → ℕ
tpm_pending = sum_by pending_tokens

abbrev pub Tallies : ℕ → List Entry → Snapshot → Snapshot → Type 0
Tallies now es s t =
    (t.active ≡ s.active + active_count es)
    × (t.rpm_debited ≡ s.rpm_debited + rpm_charged now es)
    × (t.tpm_debited ≡ s.tpm_debited + tpm_charged now es)
    × (t.tpm_held ≡ s.tpm_held + tpm_pending es)

count_entries-Tallies :
    (now : ℕ) (s : Snapshot) (es : List Entry) → Tallies now es s (count_entries now s es)
unfolding count_entries
count_entries-Tallies now s [] = omega arith
count_entries-Tallies now s (e ∷ es) =
    ground (arith, count_entries-Tallies now (count_entry now s e) es)

-- What `check` asks of a ledger that has been advanced to the present.
pub record Admits (l : Ledger) (cost : Cost) : Type 0 where
  pub fits : (n : ℕ) → known l.quota.tpm ≡ some n → cost_tokens cost ≤ n
  pub ready : l.ready_at ≤ l.now
  pub slot : active_count l.entries < l.concurrency
  pub requests :
      (n : ℕ) → known l.quota.rpm ≡ some n → rpm_charged l.now l.entries + rpm_pending l.entries < n
  pub budget :
      (n : ℕ)
      → known l.quota.tpm ≡ some n
      → tpm_charged l.now l.entries + tpm_pending l.entries + cost_tokens cost ≤ n
  pub room : length l.entries < max_entries
  pub identity : l.next ≢ max_u64

abbrev pub empty_snapshot : Ledger → Snapshot
empty_snapshot l = record {
  rpm_debited = 0;
  tpm_debited = 0;
  tpm_held = 0;
  active = 0;
  retained = length l.entries;
  cleanups = l.cleanups;
  starts = l.starts;
  reservation = l.reservation;
}

pub snapshot-Tallies :
    (l : Ledger) (now : ℕ)
    → Tallies
        (advance l now).now
        (advance l now).entries
        (empty_snapshot (advance l now))
        (snapshot l now).1
unfolding snapshot
snapshot-Tallies l now = count_entries-Tallies _ _ _

pub check-advance : (l : Ledger) (now : ℕ) (cost : Cost) → (check l now cost).0 ≡ advance l now
unfolding check
check-advance l now cost = refl

refusal-Admits :
    (l : Ledger) (s : Snapshot) (cost : Cost)
    → Tallies l.now l.entries (empty_snapshot l) s
    → refusal l s cost ≡ none
    → Admits l cost
unfolding refusal
refusal-Admits l s cost t h = record {
  fits = λ n e. ground arith;
  ready = ground arith;
  slot = ground arith;
  requests = λ n e. ground arith;
  budget = λ n e. ground arith;
  room = ground arith;
  identity = ground arith;
}

Admits-refusal :
    (l : Ledger) (s : Snapshot) (cost : Cost)
    → Tallies l.now l.entries (empty_snapshot l) s
    → Admits l cost
    → refusal l s cost ≡ none
unfolding refusal
Admits-refusal l s cost t a = elim (Option-cases (known l.quota.rpm)) [
  | inl r ↦ elim (Option-cases (known l.quota.tpm)) [
    | inl q ↦ ground (arith, a.ready, a.slot, a.room, a.identity)
    | inr (n, q) ↦ ground (arith, a.fits n q, a.ready, a.slot, a.budget n q, a.room, a.identity)
  ]
  | inr (m, r) ↦ elim (Option-cases (known l.quota.tpm)) [
    | inl q ↦ ground (arith, a.ready, a.slot, a.requests m r, a.room, a.identity)
    | inr (n, q) ↦
        ground
          (arith, a.fits n q, a.ready, a.slot, a.requests m r, a.budget n q, a.room, a.identity)
  ]
]

-- `check` grants a cost exactly when the ledger, advanced to the present, meets all seven
-- conditions: the cost fits the token limit at all, the start-up hold is over, a slot is free, the
-- requests charged and pending are below the request limit, the tokens charged and pending leave
-- room for the cost, the table has room, and an identity is left.
pub check-Admits :
    (l : Ledger) (now : ℕ) (cost : Cost)
    → ((check l now cost).1 ≡ none) ↔ Admits (advance l now) cost
unfolding check
check-Admits l now cost = (
  refusal-Admits (advance l now) (snapshot l now).1 cost (snapshot-Tallies l now),
  Admits-refusal (advance l now) (snapshot l now).1 cost (snapshot-Tallies l now),
)
