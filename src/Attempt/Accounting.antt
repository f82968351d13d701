-- ===== src/Attempt/Accounting.antt =====
-- product/src/circuit.rs: the account of `in_flight` and the attempts that are alive.
use deskquota.Common.{
  List, Option, [], arith, count_if, false, if◌then◌else◌, is_some, length, none, refl, some, suc,
  true, ℕ, ◌&&◌, ◌<◌, ◌==◌, ◌∷◌, ◌≡◌, ◌≤◌,
}
use deskquota.Circuit.{
  Attempt, Counts, Entry, Started, State, attempts, blocked, blocked_for, is_evictable, lookup,
  max_scopes, new_entry, oldest_evictable, remove, start_entered, start_gated, started_entry,
  update,
}

abbrev pub in_flight_of : Option Entry → ℕ
in_flight_of none = 0
in_flight_of (some e) = e.in_flight

-- The attempts of a list that are tracked under the key `k`.
abbrev pub flights : ℕ → List Attempt → ℕ
flights k = count_if (λ a. a.tracked && (a.key == k))

pub record Accounted (s : State) (live : List Attempt) : Type 0 where
  pub counted : (k : ℕ) → in_flight_of (lookup k s.entries) ≡ flights k live
  pub distinct : (k : ℕ) → count_if (λ x. x.0 == k) s.entries ≤ 1
  pub bounded : length s.entries ≤ max_scopes

pub lookup-update :
    (k j : ℕ) (e : Entry) (es : List (ℕ × Entry))
    → in_flight_of (lookup k (update j e es))
      ≡ (if (j == k) && is_some (lookup k es) then e.in_flight else in_flight_of (lookup k es))
lookup-update k j e [] = ground arith
lookup-update k j e ((i, d) ∷ es) = ground (arith, lookup-update k j e es)

pub count-update :
    (k j : ℕ) (e : Entry) (es : List (ℕ × Entry))
    → count_if (λ x. x.0 == k) (update j e es) ≡ count_if (λ x. x.0 == k) es
count-update k j e [] = refl
count-update k j e ((i, d) ∷ es) = ground (arith, count-update k j e es)

pub length-update : (j : ℕ) (e : Entry) (es : List (ℕ × Entry)) → length (update j e es) ≡ length es
length-update j e [] = refl
length-update j e ((i, d) ∷ es) = ground (arith, length-update j e es)

lookup_absent :
    (k : ℕ) (es : List (ℕ × Entry)) → count_if (λ x. x.0 == k) es ≡ 0 → lookup k es ≡ none
lookup_absent k [] h = refl
lookup_absent k ((i, d) ∷ es) h = ground (arith, lookup_absent k es)

lookup-remove :
    (k j : ℕ) (es : List (ℕ × Entry))
    → count_if (λ x. x.0 == k) es ≤ 1
    → in_flight_of (lookup k (remove j es)) ≡ (if j == k then 0 else in_flight_of (lookup k es))
lookup-remove k j [] h = ground arith
lookup-remove k j ((i, d) ∷ es) h = ground (arith, lookup-remove k j es, lookup_absent k es)

count-remove :
    (k j : ℕ) (es : List (ℕ × Entry))
    → count_if (λ x. x.0 == k) (remove j es) ≤ count_if (λ x. x.0 == k) es
count-remove k j [] = omega arith
count-remove k j ((i, d) ∷ es) = ground (arith, count-remove k j es)

pub length-remove :
    (j : ℕ) (d : Entry) (es : List (ℕ × Entry))
    → lookup j es ≡ some d
    → suc (length (remove j es)) ≡ length es
length-remove j d [] h = absurd (cc)
length-remove j d ((i, c) ∷ es) h = ground (arith, length-remove j d es)

-- The evicted entry is in the table, and no attempt of it is alive.
evictable_found :
    (es : List (ℕ × Entry)) (j : ℕ) (d : Entry)
    → oldest_evictable es ≡ some (j, d)
    → (0 < count_if (λ x. x.0 == j) es) × (is_evictable d ≡ true)
unfolding oldest_evictable
evictable_found [] j d h = absurd (cc)
evictable_found ((i, c) ∷ es) j d h = ground (arith, evictable_found es j d)

pub lookup-evictable :
    (es : List (ℕ × Entry)) (j : ℕ) (d : Entry)
    → count_if (λ x. x.0 == j) es ≤ 1
    → oldest_evictable es ≡ some (j, d)
    → lookup j es ≡ some d
unfolding oldest_evictable
lookup-evictable [] j d u h = absurd (cc)
lookup-evictable ((i, c) ∷ es) j d u h =
    ground (arith, evictable_found es j d, lookup-evictable es j d)

module _ (s : State) (live : List Attempt) (v : Accounted s live) (now k : ℕ) where
  started-Accounted :
      (e : Entry)
      → lookup k s.entries ≡ some e
      → (c : Counts)
      → Accounted
          (record { entries = update k (started_entry now e) s.entries; counts = c })
          (record {
            key = k;
            generation = (started_entry now e).generation;
            tracked = true;
            resolved = false;
          }
            ∷ live)
  started-Accounted e h c = record {
    counted = λ j. ground (arith, v.counted j, lookup-update j k (started_entry now e) s.entries);
    distinct = λ j. omega (arith, v.distinct j, count-update j k (started_entry now e) s.entries);
    bounded = omega (arith, v.bounded, length-update k (started_entry now e) s.entries);
  }

  blocked-Accounted :
      (e : Entry)
      → lookup k s.entries ≡ some e
      → (c : Counts) → Accounted (record { entries = update k e s.entries; counts = c }) live
  blocked-Accounted e h c = record {
    counted = λ j. ground (arith, v.counted j, lookup-update j k e s.entries);
    distinct = λ j. omega (arith, v.distinct j, count-update j k e s.entries);
    bounded = omega (arith, v.bounded, length-update k e s.entries);
  }

-- The attempts that are alive after a start.
abbrev pub joined : Started → List Attempt → List Attempt
joined (attempts a) live = a ∷ live
joined (blocked o) live = live

pub start_gated-Accounted :
    (s : State) (live : List Attempt) (now k : ℕ) (e : Entry) (o : Option ℕ)
    → Accounted s live
    → lookup k s.entries ≡ some e
    → Accounted (start_gated s now k e o).0 (joined (start_gated s now k e o).1 live)
start_gated-Accounted s live now k e (some delay) v h = blocked-Accounted s live v now k e h _
start_gated-Accounted s live now k e none v h = started-Accounted s live v now k e h _

entered-Accounted :
    (s : State) (live : List Attempt) (now k : ℕ)
    → Accounted s live
    → lookup k s.entries ≡ none
    → length s.entries < max_scopes
    → Accounted (record s { entries = (k, new_entry now) ∷ s.entries }) live
entered-Accounted s live now k v h l = record {
  counted = λ j. ground (arith, v.counted j);
  distinct = λ j. ground (arith, v.distinct j, absent_count s.entries);
  bounded = omega arith;
}
  where
    absent_count : (es : List (ℕ × Entry)) → lookup k es ≡ none → count_if (λ x. x.0 == k) es ≡ 0
    absent_count [] e = refl
    absent_count ((i, c) ∷ es) e = ground (arith, absent_count es)

pub start_new-Accounted :
    (s : State) (live : List Attempt) (now k : ℕ)
    → Accounted s live
    → lookup k s.entries ≡ none
    → length s.entries < max_scopes
    → let r = start_entered s now k none in Accounted r.0 (joined r.1 live)
start_new-Accounted s live now k v h l =
    start_gated-Accounted (record s { entries = (k, new_entry now) ∷ s.entries }) live now k
      (new_entry now) (blocked_for now (new_entry now)) (entered-Accounted s live now k v h l)
      (ground arith)

pub evicted-Accounted :
    (s : State) (live : List Attempt) (j : ℕ) (d : Entry)
    → Accounted s live
    → oldest_evictable s.entries ≡ some (j, d)
    → Accounted (record s { entries = remove j s.entries }) live
evicted-Accounted s live j d v h = record {
  counted = λ k. ground (
    arith,
    v.counted k,
    v.counted j,
    lookup-remove k j s.entries (v.distinct k),
    lookup-evictable s.entries j d (v.distinct j) h,
    evictable_found s.entries j d h,
  );
  distinct = λ k. omega (arith, v.distinct k, count-remove k j s.entries);
  bounded = omega (
    arith,
    v.bounded,
    length-remove j d s.entries (lookup-evictable s.entries j d (v.distinct j) h),
  );
}
