-- ===== src/Capture/Room.antt =====
-- product/src/cache.rs: `evict`, and the loop that reserves an entry's bytes.
use deskquota.Common.{
  List, Option, Option-cases, Text, [], arith, count_if, false, inl, inr, length, none, refl, some,
  suc, true, zero, ℕ, ◌+◌, ◌<◌, ◌==◌, ◌∷◌, ◌≡◌, ◌≤◌, ◌⊎◌,
}
use deskquota.Semaphore.{Semaphore}
use deskquota.Cache.{Entry, State, cached, entry_bytes}
use deskquota.Cache.Account.{Accounted, Tally, count-uncache, drop_arc-size, uncache_lem}
use deskquota.Capture.{
  Reserved, denied, evict, exhausted, older_cached, oldest_cached, reserve, reserved,
}

absent_count :
    (k : ℕ) (es : List (ℕ × Entry)) → count_if (λ x. x.0 == k) es ≡ 0 → cached k es ≡ none
absent_count k [] h = refl
absent_count k ((j, e) ∷ es) h = ground (arith, absent_count k es)

oldest_found :
    (es : List (ℕ × Entry)) (k : ℕ) (e : Entry)
    → oldest_cached es ≡ some (k, e)
    → 0 < count_if (λ x. x.0 == k) es
unfolding oldest_cached
oldest_found [] k e h = absurd (cc)
oldest_found ((j, d) ∷ es) k e h = ground (arith, oldest_found es k e)

-- The oldest entry stands under its key.
cached-oldest :
    (es : List (ℕ × Entry)) (k : ℕ) (e : Entry)
    → count_if (λ x. x.0 == k) es ≤ 1
    → oldest_cached es ≡ some (k, e)
    → cached k es ≡ some e
unfolding oldest_cached
cached-oldest [] k e u h = absurd (cc)
cached-oldest ((j, d) ∷ es) k e u h = ground (arith, oldest_found es k e, cached-oldest es k e)

oldest_none : (es : List (ℕ × Entry)) → oldest_cached es ≡ none → length es ≡ 0
unfolding oldest_cached
oldest_none [] h = refl
oldest_none (x ∷ es) h = absurd (joined_some (oldest_cached es) h)
  where
    joined_some : (o : Option (ℕ × Entry)) → older_cached x o ≡ none → ⊥
    joined_some none h = cc
    joined_some (some y) h = cc

module _ {S : Type 0} (to_str : Text → Option Text) (sem : Semaphore S) (t : Tally) where
  -- An eviction keeps the account; either it takes an entry away, or there is none.
  pub evict-Accounted :
      (s : State S) (held : ℕ)
      → Accounted sem s t held
      → let x = evict to_str sem s in
        Accounted sem x.0 t held
        × (((x.1 ≡ true) × (suc (length x.0.entries) ≡ length s.entries))
            ⊎ ((x.1 ≡ false) × (length x.0.entries ≡ 0)))
        × ((k : ℕ) → count_if (λ y. y.0 == k) x.0.entries ≤ count_if (λ y. y.0 == k) s.entries)
  unfolding evict
  evict-Accounted s held v = elim (Option-cases (oldest_cached s.entries)) [
    | inl e ↦ rw e (v, inr (refl, oldest_none s.entries e), λ k. omega arith)
    | inr ((k, d), e) ↦
        let (a, b) = uncache_lem k s.entries d (cached-oldest s.entries k d (v.distinct k) e) in
        let size = drop_arc-size sem (s.budget, s.retired) d in
        rw e (
          record {
            budget = omega (arith, v.budget, a, size);
            distinct = λ i. omega (arith, v.distinct i, count-uncache k i s.entries);
            bounded = omega (arith, v.bounded, b);
            waits = v.waits;
            flying = v.flying;
            single = v.single;
            crowd = v.crowd;
            missed = v.missed;
          },
          inl (refl, b),
          λ i. count-uncache k i s.entries,
        )
  ]

  abbrev pub Reserves : ℕ → Reserved to_str sem → Type 0
  Reserves held (reserved s) = Accounted sem s t (held + entry_bytes)
  Reserves held (denied s) = Accounted sem s t held
  Reserves held exhausted = ⊥

  -- With one round for each entry and one more, the loop ends, with the bytes or without.
  pub reserve-Reserves :
      (fuel : ℕ) (s : State S) (held : ℕ)
      → Accounted sem s t held
      → length s.entries < fuel
      → Reserves held (reserve to_str sem fuel s)
  unfolding reserve
  reserve-Reserves zero s held v h = absurd (omega arith)
  reserve-Reserves (suc fuel) s held v h =
      elim (Option-cases (sem.try_acquire s.budget entry_bytes)) [
        | inr (b, e) ↦ rw e (record {
          budget = omega (arith, v.budget, sem.acquired s.budget b entry_bytes e);
          distinct = v.distinct;
          bounded = v.bounded;
          waits = v.waits;
          flying = v.flying;
          single = v.single;
          crowd = v.crowd;
          missed = v.missed;
        })
        | inl e ↦
            let (w, c, _) = evict-Accounted s held v in
            elim c [
              | inl (f, n) ↦
                  rw (e, f) (reserve-Reserves fuel (evict to_str sem s).0 held w (omega (arith, n)))
              | inr (f, n) ↦
                  rw (e, f)
                    (record {
                      budget = v.budget;
                      distinct = v.distinct;
                      bounded = v.bounded;
                      waits = v.waits;
                      flying = v.flying;
                      single = v.single;
                      crowd = v.crowd;
                      missed = v.missed;
                    })
            ]
      ]
