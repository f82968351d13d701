-- ===== src/Ledger/Wake.antt =====
-- product/src/admission/quota.rs, `Ledger::next_wake`: what changes as time passes.

use deskquota.Common.{
  All, Bool, Bool-cases, List, Option, [], ap, arith, ge→ltb, if◌then◌else◌, inl, inr, ltb, ltb→ge,
  ltb→lt, lt→ltb, max, none, not, refl, retain, some, sym, ℕ, ◌<◌, ◌∙◌, ◌∷◌, ◌≡◌, ◌≤◌, ◌⊎◌,
}
use deskquota.Quota.{Cost, Entry, Ledger, Refusal, Snapshot, exceeds_budget, live, startup_hold}
use deskquota.Ledger.{
  advance, check, count_entries, count_entry, first_expiry, future, next_wake, refusal, retained_at,
  snapshot, sooner, total_fits,
}
use deskquota.Ledger.Tally.{empty_snapshot}

-- The time `t` comes before the wake, if there is one.
abbrev pub Before : ℕ → Option ℕ → Type 0
Before t none = Unit
Before t (some w) = t < w

-- No debit of the entries ends between `now` and `t`.
abbrev Quiet : ℕ → ℕ → List Entry → Type 0
Quiet now t es =
    All
      (λ e.
        (live e.rpm_until t ≡ live e.rpm_until now) × (live e.tpm_until t ≡ live e.tpm_until now))
      es

Before-sooner : (t : ℕ) (a b : Option ℕ) → Before t (sooner a b) → Before t a × Before t b
Before-sooner t none none h = (tt, tt)
Before-sooner t none (some b) h = (tt, h)
Before-sooner t (some a) none h = (h, tt)
Before-sooner t (some a) (some b) h = omega arith

live_until : (u : Option ℕ) (now t : ℕ) → now ≤ t → Before t (future now u) → live u t ≡ live u now
live_until none now t le h = refl
live_until (some u) now t le h = elim (Bool-cases (ltb now u)) [
  | inl e ↦ let early : t < u = rw e at h in rw (e, lt→ltb t u early)
  | inr e ↦ rw (e, ge→ltb t u (omega (arith, ltb→ge now u e)))
]

first_expiry-Quiet :
    (now t : ℕ) (es : List Entry) → now ≤ t → Before t (first_expiry now es) → Quiet now t es
unfolding first_expiry
first_expiry-Quiet now t [] le h = tt
first_expiry-Quiet now t (e ∷ es) le h =
    let a = Before-sooner t (future now e.rpm_until) _ h in
    let b = Before-sooner t (future now e.tpm_until) (first_expiry now es) a.1 in
    (
      (live_until e.rpm_until now t le a.0, live_until e.tpm_until now t le b.0),
      first_expiry-Quiet now t es le b.1,
    )

retain-Quiet' :
    (now t : ℕ) (es : List Entry)
    → Quiet now t es
    → retain (retained_at t) es ≡ retain (retained_at now) es
retain-Quiet' now t [] q = refl
retain-Quiet' now t (e ∷ es) q = rw (q.0.0, q.0.1, retain-Quiet' now t es q.1)

retain-Quiet :
    (now t : ℕ) (p : Entry → Bool) (es : List Entry) → Quiet now t es → Quiet now t (retain p es)
retain-Quiet now t p [] q = tt
retain-Quiet now t p (e ∷ es) q = elim (Bool-cases (p e)) [
  | inl h ↦ rw h (q.0, retain-Quiet now t p es q.1)
  | inr h ↦ rw h (retain-Quiet now t p es q.1)
]

count_entries-Quiet :
    (now t : ℕ) (s : Snapshot) (es : List Entry)
    → Quiet now t es
    → count_entries t s es ≡ count_entries now s es
unfolding count_entries
count_entries-Quiet now t s [] q = refl
count_entries-Quiet now t s (e ∷ es) q =
    rw (q.0.0, q.0.1) (count_entries-Quiet now t (count_entry now s e) es q.1)

-- The ledger at a later time, with the entries that it has.
abbrev moved : Ledger → ℕ → Ledger
moved l t = record l { now = t; entries = retain (retained_at l.now) l.entries }

advance-Quiet : (l : Ledger) (t : ℕ) → l.now ≤ t → Quiet l.now t l.entries → advance l t ≡ moved l t
unfolding advance
advance-Quiet l t le q =
    let e : max l.now t ≡ t = omega arith in rw e (rw (retain-Quiet' l.now t l.entries q))

advance_self : (l : Ledger) → advance l l.now ≡ moved l l.now
unfolding advance
advance_self l = let e : max l.now l.now ≡ l.now = omega arith in rw e

abbrev refusal_now : Ledger → Cost → Option Refusal
refusal_now l cost = refusal l (count_entries l.now (empty_snapshot l) l.entries) cost

check-refusal :
    (l : Ledger) (t : ℕ) (cost : Cost) → (check l t cost).1 ≡ refusal_now (advance l t) cost
unfolding check snapshot
check-refusal l t cost = refl

moved_later :
    (l : Ledger) (t : ℕ) (cost : Cost)
    → l.ready_at ≤ l.now
    → l.now ≤ t
    → Quiet l.now t l.entries
    → refusal_now (moved l t) cost ≡ refusal_now (moved l l.now) cost
unfolding refusal
moved_later l t cost ready le q = rw (
  count_entries-Quiet l.now t _ (retain (retained_at l.now) l.entries)
      (retain-Quiet l.now t (retained_at l.now) l.entries q),
  ge→ltb l.now l.ready_at ready,
  ge→ltb t l.ready_at (omega arith),
)

refusal_later :
    (l : Ledger) (t : ℕ) (cost : Cost)
    → l.ready_at ≤ l.now
    → l.now ≤ t
    → Quiet l.now t l.entries
    → (check l t cost).1 ≡ (check l l.now cost).1
refusal_later l t cost ready le q =
    check-refusal l t cost
    ∙ ap (λ m. refusal_now m cost) (advance-Quiet l t le q)
    ∙ moved_later l t cost ready le q
    ∙ ap (λ m. refusal_now m cost) (sym (advance_self l))
    ∙ sym (check-refusal l l.now cost)

held_back :
    (l : Ledger) (t : ℕ) (cost : Cost)
    → max l.now t < l.ready_at
    → (check l t cost).1
      ≡ (if not (total_fits l cost) then some exceeds_budget else some startup_hold)
unfolding check snapshot refusal advance
held_back l t cost h = rw (lt→ltb (max l.now t) l.ready_at h)

-- From the ledger's time until before its next wake, and for ever if it has none, `check` answers
-- every cost as it does at the ledger's time.
pub check-next_wake :
    (l : Ledger) (t : ℕ) (cost : Cost)
    → l.now ≤ t
    → Before t (next_wake l)
    → (check l t cost).1 ≡ (check l l.now cost).1
unfolding next_wake
check-next_wake l t cost le b = elim (Bool-cases (ltb l.now l.ready_at)) [
  | inl e ↦
      let early : t < l.ready_at = rw e at b in
      rw (held_back l t cost (omega arith), held_back l l.now cost (omega (arith, ltb→lt _ _ e)))
  | inr e ↦
      let quiet : Before t (first_expiry l.now l.entries) = rw e at b in
      refusal_later l t cost (ltb→ge _ _ e) le (first_expiry-Quiet l.now t l.entries le quiet)
]

future_later : (now : ℕ) (u : Option ℕ) (w : ℕ) → future now u ≡ some w → now < w
future_later now none w h = absurd (cc)
future_later now (some u) w h = ground arith

sooner_either : (a b : Option ℕ) (w : ℕ) → sooner a b ≡ some w → (a ≡ some w) ⊎ (b ≡ some w)
sooner_either none b w h = inr h
sooner_either (some a) none w h = inl h
sooner_either (some a) (some b) w h = ground arith

first_expiry_later : (now : ℕ) (es : List Entry) (w : ℕ) → first_expiry now es ≡ some w → now < w
unfolding first_expiry
first_expiry_later now [] w h = absurd (cc)
first_expiry_later now (e ∷ es) w h = elim (sooner_either (future now e.rpm_until) _ w h) [
  | inl a ↦ future_later now e.rpm_until w a
  | inr r ↦ elim (sooner_either (future now e.tpm_until) (first_expiry now es) w r) [
    | inl b ↦ future_later now e.tpm_until w b
    | inr c ↦ first_expiry_later now es w c
  ]
]

-- The next wake, where there is one, lies after the ledger's time.
pub next_wake_later : (l : Ledger) (w : ℕ) → next_wake l ≡ some w → l.now < w
unfolding next_wake
next_wake_later l w h = elim (Bool-cases (ltb l.now l.ready_at)) [
  | inl e ↦ let same : some l.ready_at ≡ some w = rw e at h in ground arith
  | inr e ↦
      let same : first_expiry l.now l.entries ≡ some w = rw e at h in
      first_expiry_later l.now l.entries w same
]
