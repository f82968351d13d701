-- ===== src/Cache/Account.antt =====
-- product/src/cache.rs: the account of the cache. The requests and captures that are alive enter it
-- as a tally, which sums a number over them.
use deskquota.Common.{
  Bool-cases, List, [], ap, arith, bit, count_if, inl, inr, length, none, refl, some, suc, sum_by,
  ℕ, ◌&&◌, ◌+◌, ◌==◌, ◌∷◌, ◌≡◌, ◌≤◌,
}
use deskquota.Semaphore.{Semaphore}
use deskquota.Cache.{
  CacheConfig, Entry, Pending, State, budget_bytes, cached, drop_arc, expire, is_fresh, is_miss,
  is_owner, is_waiting, max_cached, replay, sweep, uncache,
}

abbrev pub permits : List (ℕ × Entry) → ℕ
permits es = sum_by (λ x. x.1.permit) es

abbrev pub retained_permits : List Entry → ℕ
retained_permits rs = sum_by (λ e. e.permit) rs

abbrev pub owns : ℕ → Pending → ℕ
owns k p = bit (is_owner p.flight && (p.key == k))

abbrev pub waits_now : Pending → ℕ
waits_now p = bit (is_waiting p.flight)

abbrev pub missed_now : Pending → ℕ
missed_now p = bit (is_miss p.outcome)

abbrev pub Tally : Type 0
Tally = (Pending → ℕ) → ℕ

abbrev pub joined : Pending → Tally → Tally
joined p t f = f p + t f

module _ {S : Type 0} (sem : Semaphore S) where
  -- The budget is shared by the entries, the retired entries and `held` bytes of captures; the
  -- waiters and the flights are those of the requests that are alive, with one owner of a key at
  -- most; and every miss that may still turn into a hit is counted.
  pub record Accounted (s : State S) (t : Tally) (held : ℕ) : Type 0 where
    pub budget :
        sem.available_permits s.budget + retained_permits s.retired + permits s.entries + held
        ≡ budget_bytes
    pub distinct : (k : ℕ) → count_if (λ x. x.0 == k) s.entries ≤ 1
    pub bounded : length s.entries ≤ max_cached
    pub waits : s.waiters ≡ t waits_now
    pub flying : (k : ℕ) → count_if (λ j. j == k) s.flights ≡ t (owns k)
    pub single : (k : ℕ) → count_if (λ j. j == k) s.flights ≤ 1
    pub crowd : length s.flights ≤ max_cached
    pub missed : t missed_now ≤ s.misses

  abbrev pub pool_size : S × List Entry → ℕ
  pool_size (b, rs) = sem.available_permits b + retained_permits rs

  pub drop_arc-size :
      (pool : S × List Entry) (e : Entry)
      → pool_size (drop_arc sem pool e) ≡ pool_size pool + e.permit
  drop_arc-size (b, rs) e = elim (Bool-cases (e.readers == 0)) [
    | inl h ↦ rw h (omega (arith, sem.released b e.permit))
    | inr h ↦ rw h (omega arith)
  ]

  sweep_lem :
      (config : CacheConfig) (now : ℕ) (pool : S × List Entry) (es : List (ℕ × Entry))
      → let r = sweep sem config now pool es in
        (pool_size r.0 + permits r.1 ≡ pool_size pool + permits es)
        × (length r.1 ≤ length es)
        × ((k : ℕ) → count_if (λ x. x.0 == k) r.1 ≤ count_if (λ x. x.0 == k) es)
  unfolding sweep
  sweep_lem config now pool [] = (refl, omega arith, λ k. omega arith)
  sweep_lem config now pool ((k, e) ∷ es) =
      let (a, b, c) = sweep_lem config now pool es in
      elim (Bool-cases (is_fresh sem config now e)) [
        | inl h ↦ rw h (omega (arith, a), omega (arith, b), λ j. omega (arith, c j))
        | inr h ↦ rw h (
          omega (arith, a, drop_arc-size (sweep sem config now pool es).0 e),
          omega (arith, b),
          λ j. omega (arith, c j),
        )
      ]

  pub expire-Accounted :
      (config : CacheConfig) (now : ℕ) (s : State S) (t : Tally) (held : ℕ)
      → Accounted s t held
      → Accounted (expire sem config now s) t held
  unfolding expire
  expire-Accounted config now s t held v =
      let (a, b, c) = sweep_lem config now (s.budget, s.retired) s.entries in
      record {
        budget = omega (arith, a, v.budget);
        distinct = λ k. omega (arith, c k, v.distinct k);
        bounded = omega (arith, b, v.bounded);
        waits = v.waits;
        flying = v.flying;
        single = v.single;
        crowd = v.crowd;
        missed = v.missed;
      }

pub permits-replay : (k : ℕ) (es : List (ℕ × Entry)) → permits (replay k es) ≡ permits es
permits-replay k [] = refl
permits-replay k ((j, e) ∷ es) = ground (arith, permits-replay k es)

pub length-replay : (k : ℕ) (es : List (ℕ × Entry)) → length (replay k es) ≡ length es
length-replay k [] = refl
length-replay k ((j, e) ∷ es) = ground (arith, length-replay k es)

pub count-replay :
    (k i : ℕ) (es : List (ℕ × Entry))
    → count_if (λ x. x.0 == i) (replay k es) ≡ count_if (λ x. x.0 == i) es
count-replay k i [] = refl
count-replay k i ((j, e) ∷ es) = ground (arith, count-replay k i es)

pub uncache_lem :
    (k : ℕ) (es : List (ℕ × Entry)) (e : Entry)
    → cached k es ≡ some e
    → (e.permit + permits (uncache k es) ≡ permits es) × (suc (length (uncache k es)) ≡ length es)
uncache_lem k [] e h = absurd (cc)
uncache_lem k ((j, d) ∷ es) e h = elim (Bool-cases (j == k)) [
  | inl q ↦ let same : d ≡ e = some_injective (rw q at h) in rw (q, same) (refl, refl)
  | inr q ↦ let (a, b) = uncache_lem k es e (rw q at h) in rw q (omega (arith, a), omega (arith, b))
]
  where
    some_injective : {x y : Entry} → some x ≡ some y → x ≡ y
    some_injective h = cc

pub count-uncache :
    (k i : ℕ) (es : List (ℕ × Entry))
    → count_if (λ x. x.0 == i) (uncache k es) ≤ count_if (λ x. x.0 == i) es
count-uncache k i [] = omega arith
count-uncache k i ((j, e) ∷ es) = ground (arith, count-uncache k i es)

pub uncache_absent : (k : ℕ) (es : List (ℕ × Entry)) → cached k es ≡ none → uncache k es ≡ es
uncache_absent k [] h = refl
uncache_absent k ((j, e) ∷ es) h = elim (Bool-cases (j == k)) [
  | inl q ↦ absurd (some≢none (rw q at h))
  | inr q ↦ rw q (ap (◌∷◌ (j, e)) (uncache_absent k es (rw q at h)))
]
  where
    some≢none : {x : Entry} → some x ≡ none → ⊥
    some≢none h = cc
