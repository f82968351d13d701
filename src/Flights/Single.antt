-- ===== src/Flights/Single.antt =====
-- product/src/cache.rs: the bounds of a cache and the single flight of each key.
use deskquota.Common.{Option, Text, arith, length, refl, ℕ, ◌+◌, ◌-◌, ◌≡◌, ◌≤◌}
use deskquota.Semaphore.{Semaphore}
use deskquota.Cache.{budget_bytes, max_cached, new_cache}
use deskquota.Cache.Account.{owns, permits, retained_permits, waits_now}
use deskquota.Flights.{Reach, World, here, next, opened}
use deskquota.Flights.Sound.{Sound, Step-Sound, held_bytes, tally}

module _ {S : Type 0} (to_str : Text → Option Text) (sem : Semaphore S) where
  opened-Sound :
      (b : S) → sem.available_permits b ≡ budget_bytes → Sound to_str sem (opened to_str sem b)
  unfolding new_cache
  opened-Sound b h = record {
    account = record {
      budget = omega (arith, h);
      distinct = λ k. omega arith;
      bounded = omega arith;
      waits = refl;
      flying = λ k. refl;
      single = λ k. omega arith;
      crowd = omega arith;
      missed = omega arith;
    };
    fits = tt;
  }

  Reach-Sound : (v w : World S) → Reach to_str sem v w → Sound to_str sem v → Sound to_str sem w
  Reach-Sound v w here h = h
  Reach-Sound v w (next r s) h = Step-Sound to_str sem _ w s (Reach-Sound v _ r h)

  -- With any semaphore that keeps its laws, from a new cache with the whole budget, after any
  -- interleaving of requests: at most one request or capture is the owner of a key, as many wait as
  -- the counter of waiters says, the table has at most 128 entries and at most 128 flights, and what
  -- the entries, the replays and the captures hold is the budget less what is free.
  pub Reach-Single :
      (b : S) (w : World S)
      → sem.available_permits b ≡ budget_bytes
      → Reach to_str sem (opened to_str sem b) w
      → ((k : ℕ) → tally w (owns k) ≤ 1)
        × (w.state.waiters ≡ tally w waits_now)
        × (length w.state.entries ≤ max_cached)
        × (length w.state.flights ≤ max_cached)
        × (permits w.state.entries + retained_permits w.state.retired + held_bytes w.taken
            ≡ budget_bytes - sem.available_permits w.state.budget)
  Reach-Single b w h r =
      let v = (Reach-Sound (opened to_str sem b) w r (opened-Sound b h)).account in
      (
        λ k. omega (arith, v.flying k, v.single k),
        v.waits,
        v.bounded,
        v.crowd,
        omega (arith, v.budget),
      )
