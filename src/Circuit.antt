-- ===== src/Circuit.antt =====
-- product/src/circuit.rs: the failure gate of each scope. Times are nanoseconds of the monotonic
-- clock; a scope's key stands for its 32 byte digest; the hash map is a list of keys and entries.
-- A panic (a missing entry, an underflow) is `none`.
use deskquota.Common.{
  Bool, List, Option, [], add_u64, bit, false, from_secs, if◌then◌else◌, is_some, leb, length, max,
  none, not, some, true, wrapping_suc, ℕ, ◌%◌, ◌&&◌, ◌+◌, ◌-◌, ◌/◌, ◌==◌, ◌∷◌,
}

abbrev pub max_scopes : ℕ
max_scopes = 128

abbrev pub max_waiters : ℕ
max_waiters = 64

abbrev pub failure_threshold : ℕ
failure_threshold = 3

abbrev pub failure_gap : ℕ
failure_gap = from_secs 60

abbrev pub cooldown : ℕ
cooldown = from_secs 5

abbrev pub first_backoff : ℕ
first_backoff = from_secs 1

abbrev pub max_backoff : ℕ
max_backoff = from_secs 30

pub data Gate : Type 0 where
  closed : Gate
  opened : ℕ → ℕ → Gate
  half_open : Gate

pub record Entry : Type 0 where
  pub gate : Gate
  pub generation : ℕ
  pub in_flight : ℕ
  pub failures : ℕ
  pub last_failure : Option ℕ
  pub next_backoff : ℕ
  pub touched : ℕ

pub record Counts : Type 0 where
  pub waiters : ℕ
  pub failures : ℕ
  pub opens : ℕ
  pub rejections : ℕ
  pub probes : ℕ
  pub recoveries : ℕ
  pub capacity_bypasses : ℕ

pub record State : Type 0 where
  pub entries : List (ℕ × Entry)
  pub counts : Counts

pub record Attempt : Type 0 where
  pub key : ℕ
  pub generation : ℕ
  pub tracked : Bool
  pub resolved : Bool

pub data Open : Type 0 where
  cooling : ℕ → Open
  probing : Open

abbrev pub is_closed : Gate → Bool
is_closed closed = true
is_closed (opened since delay) = false
is_closed half_open = false

abbrev pub is_opened : Gate → Bool
is_opened closed = false
is_opened (opened since delay) = true
is_opened half_open = false

abbrev pub is_half_open : Gate → Bool
is_half_open closed = false
is_half_open (opened since delay) = false
is_half_open half_open = true

abbrev pub time_left : ℕ → ℕ → Option ℕ
time_left delay elapsed =
    if leb elapsed delay
    then (if delay - elapsed == 0 then none else some (delay - elapsed))
    else none

abbrev pub blocked_by : ℕ → Gate → Option ℕ
blocked_by now closed = none
blocked_by now (opened since delay) = time_left delay (now - since)
blocked_by now half_open = some cooldown

abbrev pub blocked_for : ℕ → Entry → Option ℕ
blocked_for now e = blocked_by now e.gate

-- The `retry-after` seconds of `Open::into_response`, rounded up and at least 1.
unfoldable pub retry_after : Open → ℕ
retry_after (cooling delay) =
    max (add_u64 (delay / 1000000000) (bit (not (delay % 1000000000 == 0)))) 1
retry_after probing =
    max (add_u64 (cooldown / 1000000000) (bit (not (cooldown % 1000000000 == 0)))) 1

abbrev pub lookup : ℕ → List (ℕ × Entry) → Option Entry
lookup k [] = none
lookup k ((j, e) ∷ es) = if j == k then some e else lookup k es

abbrev pub update : ℕ → Entry → List (ℕ × Entry) → List (ℕ × Entry)
update k e [] = []
update k e ((j, d) ∷ es) = if j == k then (j, e) ∷ es else (j, d) ∷ update k e es

abbrev pub remove : ℕ → List (ℕ × Entry) → List (ℕ × Entry)
remove k [] = []
remove k ((j, d) ∷ es) = if j == k then es else (j, d) ∷ remove k es

abbrev pub is_evictable : Entry → Bool
is_evictable e = (e.in_flight == 0) && is_closed e.gate

abbrev pub older_entry : ℕ × Entry → Option (ℕ × Entry) → Option (ℕ × Entry)
older_entry x none = some x
older_entry x (some y) = some (if leb x.1.touched y.1.touched then x else y)

-- The evictable entry that was touched longest ago.
unfoldable pub oldest_evictable : List (ℕ × Entry) → Option (ℕ × Entry)
oldest_evictable [] = none
oldest_evictable (x ∷ es) =
    let rest = oldest_evictable es in if is_evictable x.1 then older_entry x rest else rest

abbrev pub new_entry : ℕ → Entry
new_entry now = record {
  gate = closed;
  generation = 0;
  in_flight = 0;
  failures = 0;
  last_failure = none;
  next_backoff = first_backoff;
  touched = now;
}

abbrev pub reject : Counts → Counts
reject c = record c { rejections = add_u64 c.rejections 1 }

-- `start` once the entry is there and not blocked.
abbrev pub started_entry : ℕ → Entry → Entry
started_entry now e = record e {
  gate = if is_opened e.gate then half_open else e.gate;
  generation = if is_opened e.gate then wrapping_suc e.generation else e.generation;
  in_flight = e.in_flight + 1;
  touched = now;
}

pub data Started : Type 0 where
  attempts : Attempt → Started
  blocked : Open → Started

abbrev pub start_gated : State → ℕ → ℕ → Entry → Option ℕ → State × Started
start_gated s now k e (some delay) = (
  record s {
    entries = update k e s.entries;
    counts = if is_half_open e.gate then s.counts else reject s.counts;
  },
  blocked (if is_half_open e.gate then probing else cooling delay),
)
start_gated s now k e none = (
  record s {
    entries = update k (started_entry now e) s.entries;
    counts =
        if is_opened e.gate
        then record s.counts { probes = add_u64 s.counts.probes 1 }
        else s.counts;
  },
  attempts (record {
    key = k;
    generation = (started_entry now e).generation;
    tracked = true;
    resolved = false;
  }),
)

-- `entry(key).or_insert_with(…)`, then the gate of the entry.
abbrev pub start_entered : State → ℕ → ℕ → Option Entry → State × Started
start_entered s now k (some e) = start_gated s now k e (blocked_for now e)
start_entered s now k none =
    start_gated (record s { entries = (k, new_entry now) ∷ s.entries }) now k (new_entry now)
      (blocked_for now (new_entry now))

abbrev pub start_evicting : State → ℕ → ℕ → Option (ℕ × Entry) → State × Started
start_evicting s now k (some (j, d)) =
    start_entered (record s { entries = remove j s.entries }) now k none
start_evicting s now k none = (
  record s {
    counts = record s.counts { capacity_bypasses = add_u64 s.counts.capacity_bypasses 1 };
  },
  attempts (record { key = k; generation = 0; tracked = false; resolved = false }),
)

-- `Scope::start`.
unfoldable pub start : State → ℕ → ℕ → State × Started
unfolding oldest_evictable
start s now k =
    if not (is_some (lookup k s.entries)) && leb max_scopes (length s.entries)
    then start_evicting s now k (oldest_evictable s.entries)
    else start_entered s now k (lookup k s.entries)
