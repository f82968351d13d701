-- ===== src/Attempt/Lifetime.antt =====
-- product/src/circuit.rs: an attempt from its start to its drop.
use mathlib.Core.Option
use deskquota.Common.{
  Bool, Bool-cases, List, Option, Option-cases, [], ap, arith, false, inl, inr, leb, length, none,
  not, refl, some, true, ℕ, ◌<◌, ◌==◌, ◌||◌, ◌∙◌, ◌∷◌, ◌≡◌,
}
use deskquota.Circuit.{
  Attempt, Counts, Entry, State, blocked_for, is_half_open, lookup, max_scopes, oldest_evictable,
  remove, start, start_evicting, update,
}
use deskquota.Attempt.{
  completed_entry, count_failure, drop_attempt, drop_found, dropped_entry, failed_entry, given_up,
  resolve, resolve_found, settle_entry,
}
use deskquota.Attempt.Accounting.{
  Accounted, count-update, evicted-Accounted, joined, length-remove, length-update,
  lookup-evictable, lookup-update, start_gated-Accounted, start_new-Accounted,
}

remove_absent :
    (k j : ℕ) (es : List (ℕ × Entry)) → lookup k es ≡ none → lookup k (remove j es) ≡ none
remove_absent k j [] h = refl
remove_absent k j ((i, d) ∷ es) h = ground (arith, remove_absent k j es)

start_evicting-Accounted :
    (s : State) (live : List Attempt) (now k : ℕ) (o : Option (ℕ × Entry))
    → Accounted s live
    → lookup k s.entries ≡ none
    → oldest_evictable s.entries ≡ o
    → let r = start_evicting s now k o in Accounted r.0 (joined r.1 live)
start_evicting-Accounted s live now k none v h e = record {
  counted = λ j. ground (arith, v.counted j);
  distinct = v.distinct;
  bounded = v.bounded;
}
start_evicting-Accounted s live now k (some (j, d)) v h e =
    start_new-Accounted (record s { entries = remove j s.entries }) live now k
      (evicted-Accounted s live j d v e) (remove_absent k j s.entries h)
      (omega (
        arith,
        v.bounded,
        length-remove j d s.entries (lookup-evictable s.entries j d (v.distinct j) e),
      ))

-- A start at any time keeps the account: every entry counts the attempts of its key that are alive, the keys
-- are distinct, and the table has at most 128 entries. A refused start adds no attempt.
pub start-Accounted :
    (s : State) (live : List Attempt) (now k : ℕ)
    → Accounted s live
    → let r = start s now k in Accounted r.0 (joined r.1 live)
unfolding start
start-Accounted s live now k v = elim (Option-cases (lookup k s.entries)) [
  | inr (e, h) ↦ rw h (start_gated-Accounted s live now k e (blocked_for now e) v h)
  | inl h ↦ elim (Bool-cases (leb max_scopes (length s.entries))) [
    | inl full ↦ rw (h, full) (start_evicting-Accounted s live now k _ v h refl)
    | inr room ↦ rw (h, room) (start_new-Accounted s live now k v h (ground arith))
  ]
]

-- An attempt that is alive and tracked has its entry, and is counted there.
entry_of :
    (s : State) (live : List Attempt) (a : Attempt)
    → Accounted s (a ∷ live)
    → a.tracked ≡ true
    → (e : Entry) × (lookup a.key s.entries ≡ some e) × (0 < e.in_flight)
entry_of s live a v t = elim (Option-cases (lookup a.key s.entries)) [
  | inl h ↦ absurd (ground (arith, v.counted a.key))
  | inr (e, h) ↦ (e, h, ground (arith, v.counted a.key))
]

settle_entry-Accounted :
    (s : State) (live : List Attempt) (now k : ℕ) (e : Entry) (outcome : Option ℕ)
    → Accounted s live
    → lookup k s.entries ≡ some e
    → Accounted (settle_entry s now k e outcome) live
settle_entry-Accounted s live now k e none v h = record {
  counted = λ j. ground (arith, v.counted j, lookup-update j k (completed_entry now e) s.entries);
  distinct = λ j. omega (arith, v.distinct j, count-update j k (completed_entry now e) s.entries);
  bounded = omega (arith, v.bounded, length-update k (completed_entry now e) s.entries);
}
settle_entry-Accounted s live now k e (some delay) v h = record {
  counted =
      λ j. ground (arith, v.counted j, lookup-update j k (failed_entry now delay e) s.entries);
  distinct =
      λ j. omega (arith, v.distinct j, count-update j k (failed_entry now delay e) s.entries);
  bounded = omega (arith, v.bounded, length-update k (failed_entry now delay e) s.entries);
}

counts-Accounted :
    (s : State) (live : List Attempt) (c : Counts)
    → Accounted s live
    → Accounted (record s { counts = c }) live
counts-Accounted s live c v = record {
  counted = v.counted;
  distinct = v.distinct;
  bounded = v.bounded;
}

resolve_found-Accounted :
    (s : State) (live : List Attempt) (now : ℕ) (a : Attempt) (outcome : Option ℕ) (e : Entry)
    → Accounted s live
    → lookup a.key s.entries ≡ some e
    → (r : State × Bool) × (resolve_found s now a outcome (some e) ≡ some r) × Accounted r.0 live
resolve_found-Accounted s live now a outcome e v h =
    elim (Bool-cases (e.generation == a.generation)) [
      | inl same ↦ (
        (settle_entry s now a.key e outcome, is_half_open e.gate),
        rw same,
        settle_entry-Accounted s live now a.key e outcome v h,
      )
      | inr stale ↦ ((s, false), rw stale, v)
    ]

-- Resolving an attempt that is alive never misses its entry, and keeps the account.
pub resolve-Accounted :
    (s : State) (live : List Attempt) (now : ℕ) (a : Attempt) (outcome : Option ℕ)
    → Accounted s (a ∷ live)
    → (r : State × Attempt × Bool) × (resolve s now a outcome ≡ some r) × Accounted r.0 (r.1 ∷ live)
unfolding resolve
resolve-Accounted s live now a outcome v = elim (Bool-cases (a.resolved || not a.tracked)) [
  | inl skip ↦ ((s, a, false), rw skip, v)
  | inr go ↦
      let (e, h, pos) = entry_of s live a v (ground arith) in
      let s' = record s { counts = count_failure outcome s.counts } in
      let (r, f, w) =
        resolve_found-Accounted s' (a ∷ live) now a outcome e
          (counts-Accounted s (a ∷ live) (count_failure outcome s.counts) v) h in
      (
        (r.0, record a { resolved = true }, r.1),
        rw go (
            ap (Option.map (λ (p : State × Bool). (p.0, record a { resolved = true }, p.1)))
              (ap (resolve_found s' now a outcome) h ∙ f)),
        record { counted = w.counted; distinct = w.distinct; bounded = w.bounded },
      )
]

drop_found-Accounted :
    (s : State) (live : List Attempt) (now : ℕ) (a : Attempt) (e : Entry)
    → Accounted s (a ∷ live)
    → a.tracked ≡ true
    → lookup a.key s.entries ≡ some e
    → 0 < e.in_flight
    → (r : State × Bool) × (drop_found s now a (some e) ≡ some r) × Accounted r.0 live
drop_found-Accounted s live now a e v t h pos =
    let busy : (e.in_flight == 0) ≡ false = ground arith in
    (
      (record s { entries = update a.key (dropped_entry now a e) s.entries }, given_up a e),
      rw busy,
      record {
        counted = λ j.
            ground (arith, v.counted j, lookup-update j a.key (dropped_entry now a e) s.entries);
        distinct = λ j.
            omega (arith, v.distinct j, count-update j a.key (dropped_entry now a e) s.entries);
        bounded = omega (arith, v.bounded, length-update a.key (dropped_entry now a e) s.entries);
      },
    )

-- Dropping an attempt that is alive never misses its entry and never takes a count below 0, and
-- the account holds for the attempts that are left.
pub drop-Accounted :
    (s : State) (live : List Attempt) (now : ℕ) (a : Attempt)
    → Accounted s (a ∷ live)
    → (r : State × Bool) × (drop_attempt s now a ≡ some r) × Accounted r.0 live
unfolding drop_attempt
drop-Accounted s live now a v = elim (Bool-cases a.tracked) [
  | inl t ↦
      let (e, h, pos) = entry_of s live a v t in
      let (r, f, w) = drop_found-Accounted s live now a e v t h pos in (r, rw (t, h, f), w)
  | inr u ↦ (
    (s, false),
    rw u,
    record {
      counted = λ j. ground (arith, v.counted j);
      distinct = v.distinct;
      bounded = v.bounded;
    },
  )
]
