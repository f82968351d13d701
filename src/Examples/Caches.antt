-- ===== src/Examples/Caches.antt =====
-- product/src/cache.rs with a semaphore that counts its permits, and requests of key 7.
use deskquota.Common.{
  Option, Text, [], arith, before, codes, if◌then◌else◌, leb, length, none, refl, same_letters,
  some, trim, true, ℕ, ◌+◌, ◌-◌, ◌∷◌, ◌≡◌, ◌≤◌,
}
use deskquota.Headers.{HeaderMap, stored_size}
use deskquota.Semaphore.{Semaphore}
use deskquota.Cache.{
  CacheConfig, Pending, State, budget_bytes, consider, entry_bytes, lookup_in, max_cached, miss,
  new_cache, new_pending, owner, sweep, wait_pass, waiting,
}
use deskquota.Cache.Account.{Accounted, joined, owns, permits, retained_permits, waits_now}
use deskquota.Cache.Turns.{Turns, wait_pass-Turns}
use deskquota.Capture.{
  Capture, capture, commit, forbids_reuse, header_bytes, rejection, replayed_headers, reserve,
}
use deskquota.Capture.Stored.{Captures, Fits, capture-Captures}
use deskquota.Capture.Committed.{commit-Accounted}
use deskquota.Flights.{
  Reach, World, arrives, captured, fills, here, looks_in_vain, next, opened, queues, turns,
}
use deskquota.Flights.Sound.{held_bytes, tally}
use deskquota.Flights.Single.{Reach-Single}

abbrev take : ℕ → ℕ → Option ℕ
take s n = if leb n s then some (s - n) else none

take_lem : (s s' n : ℕ) → take s n ≡ some s' → s' + n ≡ s
take_lem s s' n h = ground arith

abbrev permit_count : Semaphore ℕ
permit_count = record {
  available_permits = λ s. s;
  try_acquire = take;
  release = λ s n. s + n;
  acquired = take_lem;
  released = λ s n. refl;
}

abbrev visible : Text → Option Text
visible s = some s

abbrev cached_config : CacheConfig
cached_config = record { ttl_secs = 300; max_history = 3 }

abbrev empty_cache : State ℕ
unfolding new_cache
empty_cache = new_cache budget_bytes

empty_cache-Accounted : Accounted permit_count empty_cache (joined (new_pending 7) (λ f. 0)) 0
unfolding new_cache empty_cache
empty_cache-Accounted = record {
  budget = omega arith;
  distinct = λ k. omega arith;
  bounded = omega arith;
  waits = refl;
  flying = λ k. refl;
  single = λ k. omega arith;
  crowd = omega arith;
  missed = omega arith;
}

wait_pass-Turns_example :
    Turns permit_count
      (λ f. 0)
      0
      (wait_pass permit_count cached_config 5 empty_cache (new_pending 7))
wait_pass-Turns_example =
    wait_pass-Turns permit_count (λ f. 0) 0 cached_config 5 empty_cache (new_pending 7)
      empty_cache-Accounted

abbrev json : HeaderMap
json = (codes "content-type", codes "application/json") ∷ []

capture-Captures_example :
    Captures visible permit_count
      (λ f. 0)
      0
      (capture visible permit_count empty_cache (new_pending 7) 200 json json)
capture-Captures_example =
    capture-Captures visible permit_count (λ f. 0) 0 empty_cache (new_pending 7) 200 json json
      empty_cache-Accounted

abbrev one_capture : Capture
one_capture = record {
  pending = record (new_pending 7) { capture_pending = true };
  body = 1 ∷ 2 ∷ [];
  headers = [];
  permit = entry_bytes;
  limit = entry_bytes - 2;
}

one_capture-Fits : Fits one_capture
unfolding stored_size
one_capture-Fits = record { whole = refl; within = omega arith; room = refl }

abbrev reserved_cache : State ℕ
unfolding empty_cache
reserved_cache = record empty_cache { budget = budget_bytes - entry_bytes }

reserved_cache-Accounted :
    Accounted permit_count reserved_cache (joined one_capture.pending (λ f. 0)) (0 + entry_bytes)
unfolding new_cache empty_cache reserved_cache
reserved_cache-Accounted = record {
  budget = refl;
  distinct = λ k. omega arith;
  bounded = omega arith;
  waits = refl;
  flying = λ k. refl;
  single = λ k. omega arith;
  crowd = omega arith;
  missed = omega arith;
}

commit-Accounted_example :
    (s' : State ℕ) × (commit visible permit_count reserved_cache 5 one_capture true ≡ some s')
    × Accounted permit_count s' (λ f. 0) 0
commit-Accounted_example =
    commit-Accounted visible permit_count (λ f. 0) 0 reserved_cache 5 one_capture true
      reserved_cache-Accounted one_capture-Fits

-- Two requests of key 7 come, look in vain, and take their turns: the first becomes the owner of the
-- key and captures a response, the second waits for it.
abbrev first_came : State ℕ
unfolding new_cache
first_came = consider (new_cache budget_bytes) none

abbrev first_missed : Pending
first_missed = record (new_pending 7) { outcome = miss }

abbrev first_owns : Pending
first_owns = record first_missed { flight = owner }

abbrev second_waits : Pending
second_waits = record first_missed { flight = waiting; waited = true }

abbrev looked_once : State ℕ
unfolding first_came
looked_once = record first_came { misses = 1 }

abbrev owned : State ℕ
unfolding looked_once
owned = record looked_once { flights = 7 ∷ [] }

abbrev looked_twice : State ℕ
unfolding owned
looked_twice = record (consider owned none) { misses = 2 }

abbrev crowded : State ℕ
unfolding looked_twice
crowded = record looked_twice { waiters = 1 }

abbrev captured_first : Capture
captured_first = record {
  pending = record first_owns { capture_pending = true };
  body = [];
  headers = json;
  permit = entry_bytes;
  limit = entry_bytes - 34;
}

abbrev one_flight : World ℕ
unfolding crowded
one_flight = record {
  state = record crowded { budget = budget_bytes - entry_bytes };
  live = second_waits ∷ [];
  taken = captured_first ∷ [];
}

one_flight-Reach : Reach visible permit_count (opened visible permit_count budget_bytes) one_flight
unfolding new_cache first_came looked_once owned looked_twice crowded one_flight lookup_in sweep
    wait_pass capture rejection header_bytes reserve forbids_reuse same_letters trim before
    replayed_headers
one_flight-Reach =
    let r1 = next here (arrives _ [] [] 7) in
    let r2 =
      next r1 (looks_in_vain first_came looked_once _ first_missed [] [] cached_config 5 refl) in
    let r3 = next r2 (fills looked_once owned first_missed first_owns [] [] cached_config 6 refl) in
    let r4 = next r3 (arrives _ (first_owns ∷ []) [] 7) in
    let r5 = next r4 (
      looks_in_vain (consider owned none) looked_twice _ first_missed (first_owns ∷ []) []
        cached_config 7 refl) in
    let r6 = next r5 (
      queues looked_twice crowded first_missed second_waits (first_owns ∷ []) [] cached_config 8
        refl) in
    let r7 = next r6 (turns crowded second_waits (first_owns ∷ []) []) in
    next r7 (
      captured crowded one_flight.state first_owns captured_first (second_waits ∷ []) [] 200 json
        json refl)

Reach-Single_example :
    ((k : ℕ) → tally one_flight (owns k) ≤ 1)
    × (one_flight.state.waiters ≡ tally one_flight waits_now)
    × (length one_flight.state.entries ≤ max_cached)
    × (length one_flight.state.flights ≤ max_cached)
    × (permits one_flight.state.entries
          + retained_permits one_flight.state.retired
          + held_bytes one_flight.taken
        ≡ budget_bytes - one_flight.state.budget)
Reach-Single_example =
    Reach-Single visible permit_count budget_bytes one_flight refl one_flight-Reach
