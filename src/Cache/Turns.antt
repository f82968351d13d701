-- ===== src/Cache/Turns.antt =====
-- product/src/cache.rs: `lookup_in`, one pass of `wait_for_turn`, and the end of a pending request.
use deskquota.Common.{
  Bool, Bool-cases, List, Option, [], add_u64, arith, bit, count_if, false, if◌then◌else◌, inl, inr,
  is_some, length, ltb, ltb→lt, none, refl, some, suc, sym, true, ℕ, ◌+◌, ◌-◌, ◌==◌, ◌∙◌, ◌∷◌, ◌≡◌,
  ◌≤◌,
}
use deskquota.Semaphore.{Semaphore}
use deskquota.Cache.{
  CacheConfig, Entry, Flight, Looked, LookupOutcome, Pending, State, Turned, absent, bypass, cached,
  claim, count_outcome, expire, faults, found, goes, goes_already, hit, hits_now, is_flying,
  is_miss, is_owner, is_waiting, join_waiters, leave_waiters, looked, lookup_in, max_cached, miss,
  owner, replay, replays, turned, unclaimed, uncounted, underflows, wait_pass, waiting, waits,
}
use deskquota.Cache.Account.{
  Accounted, Tally, count-replay, expire-Accounted, joined, length-replay, missed_now,
  permits-replay, waits_now,
}

waiting_owner : (f : Flight) → is_waiting f ≡ true → is_owner f ≡ false
waiting_owner waiting h = refl
waiting_owner owner h = absurd (cc)
waiting_owner unclaimed h = refl
waiting_owner bypass h = refl

owner_goes : (f : Flight) → goes_already f ≡ false → is_owner f ≡ false
owner_goes unclaimed h = refl
owner_goes waiting h = refl
owner_goes owner h = absurd (cc)
owner_goes bypass h = absurd (cc)

module _ {S : Type 0} (sem : Semaphore S) (r : Tally) (held : ℕ) where
  -- What a pass over the state owes to the request `p` and the others.
  abbrev pub Kept : State S × Pending → Type 0
  Kept (s, p) = Accounted sem s (joined p r) held

  outcome-Kept :
      (s : State S) (p : Pending) (o : LookupOutcome) (h m c : ℕ)
      → Kept (s, p)
      → bit (is_miss o) + r missed_now ≤ m
      → Kept (record s { hits = h; misses = m; coalesced = c }, record p { outcome = o })
  outcome-Kept s p o h m c v le = record {
    budget = v.budget;
    distinct = v.distinct;
    bounded = v.bounded;
    waits = v.waits;
    flying = v.flying;
    single = v.single;
    crowd = v.crowd;
    missed = le;
  }

  missed_one :
      (s : State S) (p : Pending)
      → Kept (s, p)
      → p.outcome ≡ miss
      → (n : ℕ) × (s.misses ≡ suc n) × (r missed_now ≤ n)
  missed_one s p v e =
      let one : missed_now p ≡ 1 = rw e refl in
      (s.misses - 1, omega (arith, v.missed, one), omega (arith, v.missed, one))

  count_outcome-Kept :
      (s : State S) (p : Pending) (found : Bool)
      → Kept (s, p)
      → (x : State S × Pending) × (count_outcome sem s p found ≡ some x)
        × Kept x
        × (x.0.entries ≡ s.entries)
  count_outcome-Kept s p found v = split p.outcome found refl
    where
      split :
          (o : LookupOutcome) (b : Bool)
          → p.outcome ≡ o
          → (x : State S × Pending) × (count_outcome sem s p b ≡ some x)
            × Kept x
            × (x.0.entries ≡ s.entries)
      split uncounted true e =
          let none_yet : missed_now p ≡ 0 = rw e refl in
          (
            (record s { hits = s.hits + 1 }, record p { outcome = hit }),
            rw e refl,
            outcome-Kept s p hit (s.hits + 1) s.misses s.coalesced v
                (omega (arith, v.missed, none_yet)),
            refl,
          )
      split uncounted false e =
          let none_yet : missed_now p ≡ 0 = rw e refl in
          (
            (record s { misses = s.misses + 1 }, record p { outcome = miss }),
            rw e refl,
            outcome-Kept s p miss s.hits (s.misses + 1) s.coalesced v
                (omega (arith, v.missed, none_yet)),
            refl,
          )
      split miss true e =
          let (n, f, le) = missed_one s p v e in
          let c = if p.waited then add_u64 s.coalesced 1 else s.coalesced in
          (
            (record s { misses = n; hits = s.hits + 1; coalesced = c }, record p { outcome = hit }),
            rw (e, f) refl,
            outcome-Kept s p hit (s.hits + 1) n c v (omega (arith, le)),
            refl,
          )
      split miss false e = ((s, p), rw e refl, v, refl)
      split hit b e = ((s, p), rw e refl, v, refl)

  waiting_one :
      (s : State S) (p : Pending)
      → Kept (s, p)
      → is_waiting p.flight ≡ true
      → (n : ℕ) × (s.waiters ≡ suc n) × (r waits_now ≡ n)
  waiting_one s p v e =
      let one : waits_now p ≡ 1 = rw e refl in
      (s.waiters - 1, omega (arith, v.waits, one), omega (arith, v.waits, one))

  leave_waiters-Kept :
      (s : State S) (p : Pending)
      → Kept (s, p)
      → (x : State S × Pending) × (leave_waiters sem s p ≡ some x)
        × Kept x
        × (x.1.key ≡ p.key)
        × (is_waiting x.1.flight ≡ false)
        × (x.0.flights ≡ s.flights)
        × (is_owner x.1.flight ≡ is_owner p.flight)
  leave_waiters-Kept s p v = elim (Bool-cases (is_waiting p.flight)) [
    | inr e ↦ ((s, p), rw e refl, v, refl, e, refl, refl)
    | inl e ↦
        let (n, f, q) = waiting_one s p v e in
        let none_owned = waiting_owner p.flight e in
        (
          (record s { waiters = n }, record p { flight = unclaimed }),
          rw (e, f) refl,
          record {
            budget = v.budget;
            distinct = v.distinct;
            bounded = v.bounded;
            waits = omega (arith, q);
            flying = λ k. ground (arith, v.flying k, none_owned);
            single = v.single;
            crowd = v.crowd;
            missed = v.missed;
          },
          refl,
          refl,
          refl,
          sym none_owned,
        )
  ]

  abbrev pub Finds : Looked sem → Type 0
  Finds (replays s p e) = Kept (s, p)
  Finds (absent s p) = Kept (s, p)
  Finds underflows = ⊥

  replay-Kept :
      (s : State S) (p : Pending) (k : ℕ)
      → Kept (s, p)
      → Kept (record s { entries = replay k s.entries }, p)
  replay-Kept s p k v = record {
    budget = omega (arith, v.budget, permits-replay k s.entries);
    distinct = λ i. omega (arith, v.distinct i, count-replay k i s.entries);
    bounded = omega (arith, v.bounded, length-replay k s.entries);
    waits = v.waits;
    flying = v.flying;
    single = v.single;
    crowd = v.crowd;
    missed = v.missed;
  }

  looked-Finds :
      (s : State S) (p : Pending) (o : Option Entry)
      → Kept (s, p)
      → Finds (looked sem o (count_outcome sem s p (is_some o)))
  looked-Finds s p none v = let (x, e, w, _) = count_outcome-Kept s p false v in rw e w
  looked-Finds s p (some d) v =
      let (x, e, w, _) = count_outcome-Kept s p true v in
      let (y, f, u, _, _, _, _) = leave_waiters-Kept x.0 x.1 w in
      rw (e, f) (replay-Kept y.0 y.1 y.1.key u)

  pub lookup_in-Finds :
      (config : CacheConfig) (now : ℕ) (s : State S) (p : Pending)
      → Kept (s, p)
      → Finds (lookup_in sem config now s p)
  unfolding lookup_in
  lookup_in-Finds config now s p v =
      let s' = expire sem config now s in
      looked-Finds s' p (cached p.key s'.entries)
        (expire-Accounted sem config now s (joined p r) held v)

  abbrev pub Turns : Turned sem → Type 0
  Turns (hits_now s p e) = Kept (s, p)
  Turns (goes s p) = Kept (s, p) × (goes_already p.flight ≡ true)
  Turns (waits s p) = Kept (s, p) × (is_waiting p.flight ≡ true)
  Turns faults = ⊥

  join_waiters-Turns :
      (s : State S) (p : Pending)
      → Kept (s, p)
      → goes_already p.flight ≡ false
      → Turns (join_waiters sem s p)
  join_waiters-Turns s p v g = elim (Bool-cases (is_waiting p.flight)) [
    | inl e ↦ rw e (v, e)
    | inr e ↦
        let idle : waits_now p ≡ 0 = rw e refl in
        let free : is_owner p.flight ≡ false = owner_goes p.flight g in
        rw e (
          record {
            budget = v.budget;
            distinct = v.distinct;
            bounded = v.bounded;
            waits = omega (arith, v.waits, idle);
            flying = λ k. ground (arith, v.flying k, free);
            single = v.single;
            crowd = v.crowd;
            missed = v.missed;
          },
          refl,
        )
  ]

  none_flying : (k : ℕ) (ks : List ℕ) → is_flying k ks ≡ false → count_if (λ j. j == k) ks ≡ 0
  none_flying k [] h = refl
  none_flying k (j ∷ ks) h = ground (arith, none_flying k ks)

  claim-Turns :
      (s : State S) (p : Pending)
      → Kept (s, p)
      → is_waiting p.flight ≡ false
      → is_owner p.flight ≡ false
      → is_flying p.key s.flights ≡ false
      → Turns (claim sem (some (s, p)))
  claim-Turns s p v w o f =
      let idle : waits_now p ≡ 0 = rw w refl in
      let fresh = none_flying p.key s.flights f in
      elim (Bool-cases (ltb (length s.flights) max_cached)) [
        | inl room ↦ rw room (
          record {
            budget = v.budget;
            distinct = v.distinct;
            bounded = v.bounded;
            waits = omega (arith, v.waits, idle);
            flying = λ k. ground (arith, v.flying k, o);
            single = λ k. ground (arith, v.single k, fresh);
            crowd = omega (arith, ltb→lt _ _ room);
            missed = v.missed;
          },
          refl,
        )
        | inr full ↦ rw full (
          record {
            budget = v.budget;
            distinct = v.distinct;
            bounded = v.bounded;
            waits = omega (arith, v.waits, idle);
            flying = λ k. ground (arith, v.flying k, o);
            single = v.single;
            crowd = v.crowd;
            missed = v.missed;
          },
          refl,
        )
      ]

  turned-Turns : (l : Looked sem) → Finds l → Turns (turned sem l)
  turned-Turns (replays s p e) v = v
  turned-Turns (absent s p) v = elim (Bool-cases (goes_already p.flight)) [
    | inl g ↦ rw g (v, g)
    | inr g ↦ elim (Bool-cases (is_flying p.key s.flights)) [
      | inl f ↦ rw (g, f) (join_waiters-Turns s p v g)
      | inr f ↦
          let (x, e, w, k, i, fl, o) = leave_waiters-Kept s p v in
          let free : is_owner x.1.flight ≡ false = o ∙ owner_goes p.flight g in
          let still : is_flying x.1.key x.0.flights ≡ false = rw (k, fl) f in
          rw (g, f, e) (claim-Turns x.0 x.1 w i free still)
    ]
  ]
  turned-Turns underflows v = v

  -- With any semaphore that keeps its laws, on a cache whose account holds: a pass of
  -- `wait_for_turn` keeps the account and never underflows a counter: the request replays
  -- an entry, waits and is counted, or goes upstream as the only owner of its key or as a bypass.
  pub wait_pass-Turns :
      (config : CacheConfig) (now : ℕ) (s : State S) (p : Pending)
      → Kept (s, p)
      → Turns (wait_pass sem config now s p)
  unfolding wait_pass
  wait_pass-Turns config now s p v =
      turned-Turns (lookup_in sem config now s p) (lookup_in-Finds config now s p v)
