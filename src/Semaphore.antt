-- ===== src/Semaphore.antt =====
-- The semaphore of the package tokio, as what the program uses of it: a number of free permits, of
-- which `try_acquire_many_owned` takes as many as it is asked for, and which come back when a
-- permit is dropped.
use deskquota.Common.{Option, some, ℕ, ◌+◌, ◌≡◌}

pub record Semaphore (S : Type 0) : Type 0 where
  pub available_permits : S → ℕ
  pub try_acquire : S → ℕ → Option S
  pub release : S → ℕ → S
  pub acquired :
      (s s' : S) (n : ℕ)
      → try_acquire s n ≡ some s'
      → available_permits s' + n ≡ available_permits s
  pub released : (s : S) (n : ℕ) → available_permits (release s n) ≡ available_permits s + n
