-- ===== src/Cache.antt =====
-- product/src/cache.rs: the exact cache of responses and its single flight. A key is the number of
-- a digest; the hash map is a list of keys and entries. An entry that is replayed lives on when the
-- table drops it: it is then `retired`, and its permit comes back with its last reader. An
-- arithmetic underflow is `none`; the counters that the code adds to without saturation have no
-- bound.
pub mod Account
pub mod Turns
pub mod Ends
use mathlib.Core.Option
use deskquota.Common.{
  Bool, List, Option, [], add_u64, any, false, find, from_secs, if◌then◌else◌, is_some, leb, length,
  ltb, map, none, remove_first, some, suc, true, update_first, zero, ℕ, ◌*◌, ◌+◌, ◌-◌, ◌==◌, ◌∷◌,
}
use deskquota.Headers.{HeaderMap}
use deskquota.Semaphore.{Semaphore}

abbrev pub budget_bytes : ℕ
budget_bytes = 4 * 1024 * 1024

abbrev pub entry_bytes : ℕ
entry_bytes = 256 * 1024

abbrev pub max_cached : ℕ
max_cached = 128

pub record CacheConfig : Type 0 where
  pub ttl_secs : ℕ
  pub max_history : ℕ

pub record Bypasses : Type 0 where
  pub request_cache_control : ℕ
  pub size : ℕ
  pub endpoint : ℕ
  pub tools_state : ℕ
  pub history : ℕ
  pub unsupported_shape : ℕ

pub record NotStoredCounts : Type 0 where
  pub status : ℕ
  pub response_cache_control : ℕ
  pub unsafe_headers : ℕ
  pub encoding : ℕ
  pub representation : ℕ
  pub size : ℕ
  pub incomplete_or_unsafe : ℕ

pub data NotStored : Type 0 where
  status_of response_cache_control_of unsafe_headers_of encoding_of : NotStored
  representation_of size_of incomplete_of : NotStored

pub data Bypass : Type 0 where
  request_cache_control_of size_over endpoint_of tools_state_of history_of : Bypass
  unsupported_shape_of : Bypass

-- `readers` are the responses that replay the entry, `permit` the bytes of the budget it holds.
pub record Entry : Type 0 where
  pub serial : ℕ
  pub body : List ℕ
  pub headers : HeaderMap
  pub inserted : ℕ
  pub permit : ℕ
  pub readers : ℕ

pub record State (S : Type 0) : Type 0 where
  pub budget : S
  pub serials : ℕ
  pub retired : List Entry
  pub entries : List (ℕ × Entry)
  pub flights : List ℕ
  pub waiters : ℕ
  pub coalesced : ℕ
  pub coordination_bypasses : ℕ
  pub considered : ℕ
  pub bypasses : Bypasses
  pub not_stored : NotStoredCounts
  pub hits : ℕ
  pub misses : ℕ
  pub stores : ℕ
  pub evictions : ℕ
  pub budget_bypasses : ℕ

pub data Flight : Type 0 where
  unclaimed waiting owner bypass : Flight

pub data LookupOutcome : Type 0 where
  uncounted miss hit : LookupOutcome

pub record Pending : Type 0 where
  pub key : ℕ
  pub outcome : LookupOutcome
  pub flight : Flight
  pub waited : Bool
  pub capture_pending : Bool

abbrev pub is_waiting : Flight → Bool
is_waiting waiting = true
is_waiting _ = false

abbrev pub is_owner : Flight → Bool
is_owner owner = true
is_owner _ = false

abbrev pub is_miss : LookupOutcome → Bool
is_miss miss = true
is_miss _ = false

abbrev pub cached : ℕ → List (ℕ × Entry) → Option Entry
cached k [] = none
cached k ((j, e) ∷ es) = if j == k then some e else cached k es

abbrev pub uncache : ℕ → List (ℕ × Entry) → List (ℕ × Entry)
uncache k [] = []
uncache k ((j, e) ∷ es) = if j == k then es else (j, e) ∷ uncache k es

-- One response more that replays the entry of a key.
abbrev pub replay : ℕ → List (ℕ × Entry) → List (ℕ × Entry)
replay k [] = []
replay k ((j, e) ∷ es) =
    if j == k then (j, record e { readers = e.readers + 1 }) ∷ es else (j, e) ∷ replay k es

abbrev pub is_flying : ℕ → List ℕ → Bool
is_flying k ks = any (λ j. j == k) ks

abbrev pub goes_already : Flight → Bool
goes_already owner = true
goes_already bypass = true
goes_already _ = false

-- One reader less.
abbrev pub unread : Entry → Entry
unread e = record e { readers = e.readers - 1 }

-- `x - 1`.
abbrev pub minus_one : ℕ → Option ℕ
minus_one zero = none
minus_one (suc n) = some n

abbrev pub new_pending : ℕ → Pending
new_pending key = record {
  key = key;
  outcome = uncounted;
  flight = unclaimed;
  waited = false;
  capture_pending = false;
}

abbrev pub count_bypass : Bypass → Bypasses → Bypasses
count_bypass request_cache_control_of b = record b {
  request_cache_control = add_u64 b.request_cache_control 1;
}
count_bypass size_over b = record b { size = add_u64 b.size 1 }
count_bypass endpoint_of b = record b { endpoint = add_u64 b.endpoint 1 }
count_bypass tools_state_of b = record b { tools_state = add_u64 b.tools_state 1 }
count_bypass history_of b = record b { history = add_u64 b.history 1 }
count_bypass unsupported_shape_of b = record b { unsupported_shape = add_u64 b.unsupported_shape 1 }

abbrev pub no_bypasses : Bypasses
no_bypasses = record {
  request_cache_control = 0;
  size = 0;
  endpoint = 0;
  tools_state = 0;
  history = 0;
  unsupported_shape = 0;
}

abbrev pub none_not_stored : NotStoredCounts
none_not_stored = record {
  status = 0;
  response_cache_control = 0;
  unsafe_headers = 0;
  encoding = 0;
  representation = 0;
  size = 0;
  incomplete_or_unsafe = 0;
}

module _ {S : Type 0} where
  -- `ExactCache::new`, with the semaphore of the whole budget.
  unfoldable pub new_cache : S → State S
  new_cache b = record {
    budget = b;
    serials = 0;
    retired = [];
    entries = [];
    flights = [];
    waiters = 0;
    coalesced = 0;
    coordination_bypasses = 0;
    considered = 0;
    bypasses = no_bypasses;
    not_stored = none_not_stored;
    hits = 0;
    misses = 0;
    stores = 0;
    evictions = 0;
    budget_bypasses = 0;
  }

  -- The counters of `request`: a request that the cache does not take is counted by its reason.
  abbrev pub consider : State S → Option Bypass → State S
  consider s none = record s { considered = add_u64 s.considered 1 }
  consider s (some reason) = record s {
    considered = add_u64 s.considered 1;
    bypasses = count_bypass reason s.bypasses;
  }

module _ {S : Type 0} (sem : Semaphore S) where
  -- The table drops an entry: the budget and the retired entries after it.
  abbrev pub drop_arc : S × List Entry → Entry → S × List Entry
  drop_arc (b, rs) e =
      (if e.readers == 0 then sem.release b e.permit else b, if e.readers == 0 then rs else e ∷ rs)

  abbrev pub is_fresh : CacheConfig → ℕ → Entry → Bool
  is_fresh config now e = ltb (now - e.inserted) (from_secs config.ttl_secs)

  -- `entries.retain(…)`: the budget, the retired entries, and those that are kept.
  unfoldable pub sweep :
      CacheConfig → ℕ → S × List Entry → List (ℕ × Entry) → (S × List Entry) × List (ℕ × Entry)
  sweep config now pool [] = (pool, [])
  sweep config now pool ((k, e) ∷ es) =
      let (pool', kept) = sweep config now pool es in
      if is_fresh config now e then (pool', (k, e) ∷ kept) else (drop_arc pool' e, kept)

  abbrev pub expire : CacheConfig → ℕ → State S → State S
  unfolding sweep
  expire config now s =
      let ((b, rs), kept) = sweep config now (s.budget, s.retired) s.entries in
      record s { budget = b; retired = rs; entries = kept }

  -- The hit or miss is counted once, and a miss that hits after all is moved.
  abbrev pub count_outcome : State S → Pending → Bool → Option (State S × Pending)
  count_outcome s p found = count p.outcome found
    where
      count : LookupOutcome → Bool → Option (State S × Pending)
      count uncounted true = some (record s { hits = s.hits + 1 }, record p { outcome = hit })
      count uncounted false = some (record s { misses = s.misses + 1 }, record p { outcome = miss })
      count miss true =
          Option.map
            (λ misses. (
              record s {
                misses = misses;
                hits = s.hits + 1;
                coalesced = if p.waited then add_u64 s.coalesced 1 else s.coalesced;
              },
              record p { outcome = hit },
            ))
            (minus_one s.misses)
      count miss false = some (s, p)
      count hit found = some (s, p)

  abbrev pub leave_waiters : State S → Pending → Option (State S × Pending)
  leave_waiters s p =
      if is_waiting p.flight
      then Option.map (λ n. (record s { waiters = n }, record p { flight = unclaimed }))
          (minus_one s.waiters)
      else some (s, p)

  -- The response that replays an entry; none if the key is not there.
  pub data Looked : Type 0 where
    replays : State S → Pending → Entry → Looked
    absent : State S → Pending → Looked
    underflows : Looked

  abbrev pub found : Entry → Option (State S × Pending) → Looked
  found e none = underflows
  found e (some (s, p)) = replays (record s { entries = replay p.key s.entries }) p e

  abbrev pub looked : Option Entry → Option (State S × Pending) → Looked
  looked entry none = underflows
  looked none (some (s, p)) = absent s p
  looked (some e) (some (s, p)) = found e (leave_waiters s p)

  unfoldable pub lookup_in : CacheConfig → ℕ → State S → Pending → Looked
  unfolding expire
  lookup_in config now s p =
      let s' = expire config now s in
      let entry = cached p.key s'.entries in looked entry (count_outcome s' p (is_some entry))

  -- `Pending::lookup`.
  abbrev pub lookup : CacheConfig → ℕ → State S → Pending → Looked
  lookup = lookup_in

  -- A response that replayed an entry is dropped.
  unfoldable pub finish_replay : State S → ℕ → State S
  finish_replay s serial = last_reader (find (λ e. e.serial == serial) s.retired)
    where
      last_reader : Option Entry → State S
      last_reader none = record s {
        entries = map (λ x. (x.0, if x.1.serial == serial then unread x.1 else x.1)) s.entries;
      }
      last_reader (some e) =
          if leb e.readers 1
          then record s {
            budget = sem.release s.budget e.permit;
            retired = remove_first (λ e. e.serial == serial) s.retired;
          }
          else record s { retired = update_first (λ e. e.serial == serial) unread s.retired }

  -- One pass of the loop of `wait_for_turn`: a replay, `None` (the caller goes upstream), or waiting
  -- for the next notification.
  pub data Turned : Type 0 where
    hits_now : State S → Pending → Entry → Turned
    goes waits : State S → Pending → Turned
    faults : Turned

  -- No flight of the key is under way.
  abbrev pub claim : Option (State S × Pending) → Turned
  claim none = faults
  claim (some (s, p)) =
      if ltb (length s.flights) max_cached
      then goes (record s { flights = p.key ∷ s.flights }) (record p { flight = owner })
      else goes (record s { coordination_bypasses = add_u64 s.coordination_bypasses 1 })
          (record p { flight = bypass })

  abbrev pub join_waiters : State S → Pending → Turned
  join_waiters s p =
      if is_waiting p.flight
      then waits s p
      else waits (record s { waiters = s.waiters + 1 })
          (record p { flight = waiting; waited = true })

  abbrev pub turned : Looked → Turned
  turned underflows = faults
  turned (replays s p e) = hits_now s p e
  turned (absent s p) =
      if goes_already p.flight
      then goes s p
      else if is_flying p.key s.flights
      then join_waiters s p
      else claim (leave_waiters s p)

  unfoldable pub wait_pass : CacheConfig → ℕ → State S → Pending → Turned
  unfolding lookup_in
  wait_pass config now s p = turned (lookup_in config now s p)

  abbrev pub count_not_stored : NotStored → NotStoredCounts → NotStoredCounts
  count_not_stored status_of c = record c { status = add_u64 c.status 1 }
  count_not_stored response_cache_control_of c = record c {
    response_cache_control = add_u64 c.response_cache_control 1;
  }
  count_not_stored unsafe_headers_of c = record c { unsafe_headers = add_u64 c.unsafe_headers 1 }
  count_not_stored encoding_of c = record c { encoding = add_u64 c.encoding 1 }
  count_not_stored representation_of c = record c { representation = add_u64 c.representation 1 }
  count_not_stored size_of c = record c { size = add_u64 c.size 1 }
  count_not_stored incomplete_of c = record c {
    incomplete_or_unsafe = add_u64 c.incomplete_or_unsafe 1;
  }

  abbrev pub record_not_stored : State S → Pending → NotStored → State S × Pending
  record_not_stored s p reason = (
    record s { not_stored = count_not_stored reason s.not_stored },
    record p { capture_pending = false },
  )

  abbrev pub land : ℕ → State S → State S
  land k s = record s { flights = remove_first (λ j. j == k) s.flights }

  -- `Drop for Pending`.
  abbrev pub leave_flight : State S → Pending → Option (State S)
  leave_flight s p = leave p.flight
    where
      leave : Flight → Option (State S)
      leave waiting = Option.map (λ n. record s { waiters = n }) (minus_one s.waiters)
      leave owner = some (land p.key s)
      leave _ = some s

  unfoldable pub drop_pending : State S → Pending → Option (State S)
  drop_pending s p =
      if p.capture_pending
      then leave_flight (record_not_stored s p incomplete_of).0
          (record_not_stored s p incomplete_of).1
      else leave_flight s p
