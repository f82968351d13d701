-- ===== src/Cache/Ends.antt =====
-- product/src/cache.rs: the end of a pending request.
use deskquota.Common.{
  Bool-cases, List, [], arith, bit, count_if, false, inl, inr, length, refl, remove_first, some,
  suc, true, ℕ, ◌+◌, ◌<◌, ◌==◌, ◌∷◌, ◌≡◌, ◌≤◌,
}
use deskquota.Semaphore.{Semaphore}
use deskquota.Cache.{
  Flight, NotStored, Pending, State, bypass, drop_pending, incomplete_of, is_owner, is_waiting,
  land, leave_flight, owner, record_not_stored, unclaimed, waiting,
}
use deskquota.Cache.Account.{Accounted, Tally, joined, owns, waits_now}

count-land :
    (k j : ℕ) (ks : List ℕ)
    → 0 < count_if (λ i. i == j) ks
    → count_if (λ i. i == k) (remove_first (λ i. i == j) ks) + bit (j == k)
      ≡ count_if (λ i. i == k) ks
count-land k j [] h = absurd (omega arith)
count-land k j (i ∷ ks) h = ground (arith, count-land k j ks)

length-land : (j : ℕ) (ks : List ℕ) → length (remove_first (λ i. i == j) ks) ≤ length ks
length-land j [] = omega arith
length-land j (i ∷ ks) = ground (arith, length-land j ks)

module _ {S : Type 0} (sem : Semaphore S) (r : Tally) (held : ℕ) where
  -- The flight of an owner ends.
  pub land-Accounted :
      (s : State S) (p : Pending)
      → Accounted sem s (joined p r) held
      → is_owner p.flight ≡ true
      → is_waiting p.flight ≡ false
      → Accounted sem (land sem p.key s) r held
  land-Accounted s p v o w =
      let idle : waits_now p ≡ 0 = rw w refl in
      let mine : count_if (λ j. j == p.key) s.flights ≡ 1 + r (owns p.key) =
        ground (arith, v.flying p.key) in
      record {
        budget = v.budget;
        distinct = v.distinct;
        bounded = v.bounded;
        waits = omega (arith, v.waits, idle);
        flying = λ k. ground (arith, v.flying k, count-land k p.key s.flights);
        single = λ k. omega (arith, v.single k, count-land k p.key s.flights (omega (arith, mine)));
        crowd = omega (arith, v.crowd, length-land p.key s.flights);
        missed = omega (arith, v.missed);
      }

  -- A request that neither waits nor owns a flight.
  pub idle-Accounted :
      (s : State S) (p : Pending)
      → Accounted sem s (joined p r) held
      → is_owner p.flight ≡ false
      → is_waiting p.flight ≡ false
      → Accounted sem s r held
  idle-Accounted s p v o w =
      let idle : waits_now p ≡ 0 = rw w refl in
      record {
        budget = v.budget;
        distinct = v.distinct;
        bounded = v.bounded;
        waits = omega (arith, v.waits, idle);
        flying = λ k. ground (arith, v.flying k);
        single = v.single;
        crowd = v.crowd;
        missed = omega (arith, v.missed);
      }

  leave_flight-Accounted :
      (s : State S) (p : Pending)
      → Accounted sem s (joined p r) held
      → (s' : State S) × (leave_flight sem s p ≡ some s') × Accounted sem s' r held
  leave_flight-Accounted s p v = split p.flight refl
    where
      split :
          (f : Flight)
          → p.flight ≡ f
          → (s' : State S) × (leave_flight sem s p ≡ some s') × Accounted sem s' r held
      split unclaimed e = (s, rw e refl, idle-Accounted s p v (rw e refl) (rw e refl))
      split bypass e = (s, rw e refl, idle-Accounted s p v (rw e refl) (rw e refl))
      split owner e = (land sem p.key s, rw e refl, land-Accounted s p v (rw e refl) (rw e refl))
      split waiting e =
          let one : waits_now p ≡ 1 = rw e refl in
          let count : s.waiters ≡ suc (r waits_now) = omega (arith, v.waits, one) in
          let free : is_owner p.flight ≡ false = rw e refl in
          (
            record s { waiters = r waits_now },
            rw (e, count) refl,
            record {
              budget = v.budget;
              distinct = v.distinct;
              bounded = v.bounded;
              waits = refl;
              flying = λ k. ground (arith, v.flying k, free);
              single = v.single;
              crowd = v.crowd;
              missed = omega (arith, v.missed);
            },
          )

  -- Counting why a response was not stored leaves the account alone.
  pub record_not_stored-Accounted :
      (s : State S) (p : Pending) (reason : NotStored)
      → Accounted sem s (joined p r) held
      → let x = record_not_stored sem s p reason in Accounted sem x.0 (joined x.1 r) held
  record_not_stored-Accounted s p reason v = record {
    budget = v.budget;
    distinct = v.distinct;
    bounded = v.bounded;
    waits = v.waits;
    flying = v.flying;
    single = v.single;
    crowd = v.crowd;
    missed = v.missed;
  }

  -- Dropping a pending request never underflows a counter, and the account holds for the others.
  pub drop_pending-Accounted :
      (s : State S) (p : Pending)
      → Accounted sem s (joined p r) held
      → (s' : State S) × (drop_pending sem s p ≡ some s') × Accounted sem s' r held
  unfolding drop_pending
  drop_pending-Accounted s p v = elim (Bool-cases p.capture_pending) [
    | inl e ↦
        let x = record_not_stored sem s p incomplete_of in
        let (s', f, w) =
          leave_flight-Accounted x.0 x.1 (record_not_stored-Accounted s p incomplete_of v) in
        (s', rw e f, w)
    | inr e ↦ let (s', f, w) = leave_flight-Accounted s p v in (s', rw e f, w)
  ]
