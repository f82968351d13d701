-- ===== src/Ledger/Invariant.antt =====
-- product/src/admission/quota.rs: what every operation of the ledger preserves.
use deskquota.Common.{
  Bool, List, Option, Option-cases, [], arith, bit, count_if, false, find, find-true, inl, inr,
  is_some, leb, length, length-append, length-retain-le, length-swap_remove, length-update_first,
  lt→ltb, max, max_u64, none, not, refl, some, sum_by, sum_by-append, sum_by-retain-le,
  sum_by-swap_remove, sum_by-update_first, sum_by_mono, swap_remove, update_first, ℕ, ◌&&◌, ◌++◌,
  ◌+◌, ◌<◌, ◌==◌, ◌||◌, ◌∷◌, ◌≡◌, ◌≤◌,
}
use deskquota.Quota.{
  Accounting, Cost, Entry, Ledger, Quota, Refusal, admitted, concurrency, exceeds_budget,
  identity_exhausted, known, live, max_entries,
}
use deskquota.Ledger.{
  admit, admit_checked, advance, cancel, cancel_found, check, finish, finish_entry, finish_found,
  is_pending, is_running, new, reservation_of, retained_at, settled, start, start_entry,
  start_found,
}
use deskquota.Ledger.Tally.{
  Admits, active_count, check-Admits, check-advance, rpm_charged, rpm_pending,
}

-- What a reservation that has not started never is: finished, or debited.
abbrev pub is_unclean : Entry → Bool
is_unclean e = not e.started && (not e.active || (is_some e.rpm_until || is_some e.tpm_until))

-- The slots and the request limit are respected, the table is bounded, each identity that was
-- given out stands in at most one entry, and a reservation that has not started is active and
-- carries no debit.
pub record Inv (l : Ledger) : Type 0 where
  pub slots : active_count l.entries ≤ l.concurrency
  pub requests :
      (n : ℕ) → known l.quota.rpm ≡ some n → rpm_charged l.now l.entries + rpm_pending l.entries ≤ n
  pub bounded : length l.entries ≤ max_entries
  pub distinct : (k : ℕ) → count_if (λ e. e.id == k) l.entries ≤ bit (leb k l.next)
  pub clean : count_if is_unclean l.entries ≡ 0
  pub identity : l.next ≤ max_u64

pub new-Inv : (q : Quota) (a : Accounting) (slots now hold : ℕ) → Inv (new q a slots now hold)
unfolding new
new-Inv q a slots now hold = record {
  slots = omega arith;
  requests = λ n e. omega arith;
  bounded = omega arith;
  distinct = λ k. omega arith;
  clean = omega arith;
  identity = omega arith;
}

live_mono : (u : Option ℕ) (a b : ℕ) → a ≤ b → bit (live u b) ≤ bit (live u a)
live_mono none a b h = omega arith
live_mono (some u) a b h = ground arith

pub rpm_charged_mono : (a b : ℕ) (es : List Entry) → a ≤ b → rpm_charged b es ≤ rpm_charged a es
rpm_charged_mono a b es h = sum_by_mono _ _ (λ e. live_mono e.rpm_until a b h) es

pub advance-Inv : (l : Ledger) (now : ℕ) → Inv l → Inv (advance l now)
unfolding advance
advance-Inv l now v = record {
  slots = omega (arith, v.slots, sum_by-retain-le (λ e. bit e.active) keep l.entries);
  requests = λ n e. omega (
    arith,
    v.requests n e,
    rpm_charged_mono l.now (max l.now now) l.entries (omega arith),
    sum_by-retain-le (λ e. bit (live e.rpm_until (max l.now now))) keep l.entries,
    sum_by-retain-le (λ e. bit (not e.started)) keep l.entries,
  );
  bounded = omega (arith, v.bounded, length-retain-le keep l.entries);
  distinct =
      λ k. omega (arith, v.distinct k, sum_by-retain-le (λ e. bit (e.id == k)) keep l.entries);
  clean = omega (arith, v.clean, sum_by-retain-le (λ e. bit (is_unclean e)) keep l.entries);
  identity = v.identity;
}
  where
    keep : Entry → Bool
    keep = retained_at (max l.now now)

abbrev pub admitted_ledger : Ledger → Cost → Ledger
admitted_ledger l cost = record l {
  next = l.next + 1;
  entries = l.entries ++ reservation_of l (l.next + 1) cost ∷ [];
}

pub admitted_ledger-Inv :
    (l : Ledger) (cost : Cost) → Inv l → Admits l cost → Inv (admitted_ledger l cost)
admitted_ledger-Inv l cost v a = record {
  slots = omega (arith, a.slot, sum_by-append (λ e. bit e.active) l.entries added);
  requests = λ n e. omega (
    arith,
    a.requests n e,
    sum_by-append (λ e. bit (live e.rpm_until l.now)) l.entries added,
    sum_by-append (λ e. bit (not e.started)) l.entries added,
  );
  bounded = omega (arith, a.room, length-append l.entries added);
  distinct =
      λ k. ground (arith, v.distinct k, sum_by-append (λ e. bit (e.id == k)) l.entries added);
  clean = omega (arith, v.clean, sum_by-append (λ e. bit (is_unclean e)) l.entries added);
  identity = omega (arith, v.identity, a.identity);
}
  where
    added : List Entry
    added = reservation_of l (l.next + 1) cost ∷ []

pub admit_checked_refused :
    (l : Ledger) (cost : Cost) (r : Refusal) → (admit_checked cost l (some r)).0 ≡ l
admit_checked_refused l cost exceeds_budget = refl
admit_checked_refused l cost concurrency = refl
admit_checked_refused l cost identity_exhausted = refl
admit_checked_refused l cost _ = refl

pub admit_checked_granted :
    (l : Ledger) (cost : Cost)
    → l.next < max_u64
    → admit_checked cost l none ≡ (admitted_ledger l cost, admitted (l.next + 1))
admit_checked_granted l cost h = rw (lt→ltb _ _ h)

pub admit-Inv : (l : Ledger) (now : ℕ) (cost : Cost) → Inv l → Inv (admit l now cost).0
unfolding admit
admit-Inv l now cost v = elim (Option-cases (check l now cost).1) [
  | inl e ↦
      let a = (check-Admits l now cost).0 e in
      let w = advance-Inv l now v in
      rw
        (
          check-advance l now cost,
          e,
          admit_checked_granted (advance l now) cost (omega (arith, a.identity, w.identity)),
        )
        (admitted_ledger-Inv (advance l now) cost w a)
  | inr (r, e) ↦
      rw (check-advance l now cost, e, admit_checked_refused (advance l now) cost r)
        (advance-Inv l now v)
]

start_found-Inv :
    (l : Ledger) (id : ℕ) (o : Option Entry)
    → find (is_pending id) l.entries ≡ o
    → Inv l
    → Inv (start_found l id o).0
start_found-Inv l id none h v = v
start_found-Inv l id (some e) h v = record {
  slots = omega (arith, v.slots, moved (λ x. bit x.active));
  requests = λ n k. ground (
    arith,
    v.requests n k,
    moved (λ x. bit (live x.rpm_until l.now)),
    moved (λ x. bit (not x.started)),
    find-true (is_pending id) l.entries e h,
  );
  bounded = omega (arith, v.bounded, length-update_first (is_pending id) (start_entry l) l.entries);
  distinct = λ k. omega (arith, v.distinct k, moved (λ x. bit (x.id == k)));
  clean = omega (arith, v.clean, moved (λ x. bit (is_unclean x)));
  identity = v.identity;
}
  where
    moved :
        (f : Entry → ℕ)
        → f e + sum_by f (update_first (is_pending id) (start_entry l) l.entries)
          ≡ f (start_entry l e) + sum_by f l.entries
    moved f = sum_by-update_first f (is_pending id) (start_entry l) l.entries e h

pub start-Inv : (l : Ledger) (now id : ℕ) → Inv l → Inv (start l now id).0
unfolding start
start-Inv l now id v = start_found-Inv (advance l now) id _ refl (advance-Inv l now v)

cancel_found-Inv :
    (l : Ledger) (id : ℕ) (o : Option Entry)
    → find (is_pending id) l.entries ≡ o
    → Inv l
    → Inv (cancel_found l id o).0
cancel_found-Inv l id none h v = v
cancel_found-Inv l id (some e) h v = record {
  slots = omega (arith, v.slots, removed (λ x. bit x.active));
  requests = λ n k. omega (
    arith,
    v.requests n k,
    removed (λ x. bit (live x.rpm_until l.now)),
    removed (λ x. bit (not x.started)),
  );
  bounded = omega (arith, v.bounded, length-swap_remove (is_pending id) l.entries e h);
  distinct = λ k. omega (arith, v.distinct k, removed (λ x. bit (x.id == k)));
  clean = omega (arith, v.clean, removed (λ x. bit (is_unclean x)));
  identity = v.identity;
}
  where
    removed :
        (f : Entry → ℕ)
        → f e + sum_by f (swap_remove (is_pending id) l.entries) ≡ sum_by f l.entries
    removed f = sum_by-swap_remove f (is_pending id) l.entries e h

pub cancel-Inv : (l : Ledger) (now id : ℕ) → Inv l → Inv (cancel l now id).0
unfolding cancel
cancel-Inv l now id v = cancel_found-Inv (advance l now) id _ refl (advance-Inv l now v)

-- Finishing an entry changes neither its identity, its start nor its request debit.
pub finish_entry_keeps :
    (l : Ledger) (usage : Option ℕ) (e : Entry)
    → ((finish_entry l usage e).id ≡ e.id)
      × ((finish_entry l usage e).started ≡ e.started)
      × ((finish_entry l usage e).rpm_until ≡ e.rpm_until)
      × ((finish_entry l usage e).active ≡ false)
finish_entry_keeps l none e = ground arith
finish_entry_keeps l (some usage) e = ground arith

module _ (l : Ledger) (id : ℕ) (usage : Option ℕ) (e : Entry)
    (h : find (is_running id) l.entries ≡ some e) where
  pub settled_sum :
      (f : Entry → ℕ)
      → f e + sum_by f (settled l id usage e).entries
        ≡ f (finish_entry l usage e) + sum_by f l.entries
  settled_sum f = sum_by-update_first f (is_running id) (finish_entry l usage) l.entries e h

  settled-Inv : Inv l → Inv (settled l id usage e)
  settled-Inv v = record {
    slots = ground (arith, v.slots, finish_entry_keeps l usage e, settled_sum (λ x. bit x.active));
    requests = λ n k. ground (
      arith,
      v.requests n k,
      finish_entry_keeps l usage e,
      settled_sum (λ x. bit (live x.rpm_until l.now)),
      settled_sum (λ x. bit (not x.started)),
    );
    bounded =
        omega
          (arith, v.bounded, length-update_first (is_running id) (finish_entry l usage) l.entries);
    distinct = λ k.
        ground
          (arith, v.distinct k, finish_entry_keeps l usage e, settled_sum (λ x. bit (x.id == k)));
    clean = ground (
      arith,
      v.clean,
      finish_entry_keeps l usage e,
      find-true (is_running id) l.entries e h,
      settled_sum (λ x. bit (is_unclean x)),
    );
    identity = v.identity;
  }

finish_found-Inv :
    (l : Ledger) (now id : ℕ) (usage : Option ℕ) (o : Option Entry)
    → find (is_running id) l.entries ≡ o
    → Inv l
    → Inv (finish_found l now id usage o).0
unfolding finish_found
finish_found-Inv l now id usage none h v = v
finish_found-Inv l now id usage (some e) h v =
    advance-Inv (settled l id usage e) now (settled-Inv l id usage e h v)

pub finish-Inv :
    (l : Ledger) (now id : ℕ) (usage : Option ℕ) → Inv l → Inv (finish l now id usage).0
unfolding finish
finish-Inv l now id usage v =
    finish_found-Inv (advance l now) now id usage _ refl (advance-Inv l now v)
