-- ===== src/Capture.antt =====
-- product/src/cache.rs: capturing a response and committing it to the cache. `to_str`, which a
-- header's value has where it is visible ASCII, is a parameter.
pub mod Room
pub mod Sizes
pub mod Stored
pub mod Committed
use deskquota.Common.{
  Bool, List, Option, Text, [], any, before, codes, false, if◌then◌else◌, is_some, leb, length, ltb,
  map, max_u64, none, not, same_letters, same_text, some, split, suc, trim, true, zero, ℕ, ◌&&◌,
  ◌*◌, ◌++◌, ◌+◌, ◌-◌, ◌==◌, ◌||◌, ◌∷◌,
}
use deskquota.Headers.{HeaderMap, contains_key, get_all, stored_size}
use deskquota.Semaphore.{Semaphore}
use deskquota.Retry.{decimal, integer}
use deskquota.Cache.{
  Entry, NotStored, Pending, State, cached, drop_arc, drop_pending, encoding_of, entry_bytes,
  is_owner, land, max_cached, record_not_stored, representation_of, response_cache_control_of,
  size_of, status_of, uncache, unclaimed, unsafe_headers_of,
}

pub record Capture : Type 0 where
  pub pending : Pending
  pub body : List ℕ
  pub headers : HeaderMap
  pub permit : ℕ
  pub limit : ℕ

abbrev pub older_cached : ℕ × Entry → Option (ℕ × Entry) → Option (ℕ × Entry)
older_cached x none = some x
older_cached x (some y) = some (if leb x.1.inserted y.1.inserted then x else y)

-- `min_by_key(inserted)`.
unfoldable pub oldest_cached : List (ℕ × Entry) → Option (ℕ × Entry)
oldest_cached [] = none
oldest_cached (x ∷ es) = older_cached x (oldest_cached es)

-- The headers that are replayed.
abbrev pub replayed_names : List Text
replayed_names = codes "content-type" ∷ codes "content-encoding" ∷ codes "content-language" ∷ []

abbrev pub named_values : Text → List Text → HeaderMap
named_values name vs = map (λ v. (name, v)) vs

unfoldable pub replayed_headers : HeaderMap → List Text → HeaderMap
unfolding get_all
replayed_headers h [] = []
replayed_headers h (n ∷ ns) = named_values n (get_all h n) ++ replayed_headers h ns

abbrev pub checked_sum : Option ℕ → ℕ → Option ℕ
checked_sum none n = none
checked_sum (some total) n = if leb (total + n) max_u64 then some (total + n) else none

unfoldable pub value_sizes : Text → Option ℕ → List Text → Option ℕ
value_sizes name total [] = total
value_sizes name total (v ∷ vs) =
    value_sizes name (checked_sum total (length name + length v + 4)) vs

-- The two `try_fold`s: the bytes of the replayed headers.
unfoldable pub header_bytes : HeaderMap → Option ℕ → List Text → Option ℕ
unfolding value_sizes get_all
header_bytes h total [] = total
header_bytes h total (n ∷ ns) = header_bytes h (value_sizes n total (get_all h n)) ns

-- `ENTRY_BYTES.checked_sub(…)`.
abbrev pub body_limit : Option ℕ → Option ℕ
body_limit none = none
body_limit (some n) = if leb n entry_bytes then some (entry_bytes - n) else none

abbrev pub without_plus : Text → Text
without_plus [] = []
without_plus (c ∷ cs) = if c == b'+' then cs else c ∷ cs

-- `str::parse::<usize>`.
unfoldable pub parse_usize : Text → Option ℕ
unfolding decimal
parse_usize s = integer (without_plus s)

abbrev pub fits_entry : Option ℕ → Bool
fits_entry none = false
fits_entry (some n) = leb n entry_bytes

module _ (to_str : Text → Option Text) where
  -- A directive of cache-control or pragma.
  abbrev pub is_directive : Text → Bool
  is_directive d =
      let name = trim (before b'=' d) in
      same_letters name (codes "no-store")
      || (same_letters name (codes "no-cache") || same_letters (trim d) (codes "max-age=0"))

  abbrev pub forbids_value : Option Text → Bool
  forbids_value none = true
  forbids_value (some s) = any is_directive (split b',' s)

  unfoldable pub forbids_reuse : HeaderMap → Bool
  forbids_reuse h =
      any (λ v. forbids_value (to_str v))
        (get_all h (codes "cache-control") ++ get_all h (codes "pragma"))

  abbrev pub varies_field : Text → Bool
  varies_field f =
      same_text (trim f) (codes "*") || same_letters (trim f) (codes "x-stainless-retry-count")

  abbrev pub varies : Option Text → Bool
  varies none = true
  varies (some s) = any varies_field (split b',' s)

  abbrev pub length_of : Option Text → Option ℕ
  length_of none = none
  length_of (some s) = parse_usize s

  unfoldable pub rejection : ℕ → HeaderMap → Option NotStored
  rejection status h =
      if not (status == 200)
      then some status_of
      else if forbids_reuse h
      then some response_cache_control_of
      else if contains_key h (codes "set-cookie")
          || any (λ v. varies (to_str v)) (get_all h (codes "vary"))
      then some unsafe_headers_of
      else if any (λ v. not (same_letters v (codes "identity")))
          (get_all h (codes "content-encoding"))
      then some encoding_of
      else if any (λ v. not (fits_entry (length_of (to_str v))))
          (get_all h (codes "content-length"))
      then some size_of
      else none

  abbrev pub is_media : Option Text → Bool
  is_media none = false
  is_media (some s) =
      let media = trim (before b';' s) in
      same_letters media (codes "application/json")
      || same_letters media (codes "text/event-stream")

  -- The one content type, which is JSON or an event stream.
  abbrev pub replayable : List Text → Bool
  replayable [] = false
  replayable (v ∷ []) = is_media (to_str v)
  replayable (v ∷ w ∷ vs) = false

  module _ {S : Type 0} (sem : Semaphore S) where
    abbrev pub evicted : State S → Option (ℕ × Entry) → State S × Bool
    evicted s none = (s, false)
    evicted s (some (k, e)) =
        let (b, rs) = drop_arc sem (s.budget, s.retired) e in
        (
          record s {
            budget = b;
            retired = rs;
            entries = uncache k s.entries;
            evictions = s.evictions + 1;
          },
          true,
        )

    unfoldable pub evict : State S → State S × Bool
    unfolding oldest_cached
    evict s = evicted s (oldest_cached s.entries)

    pub data Reserved : Type 0 where
      reserved denied : State S → Reserved
      exhausted : Reserved

    abbrev pub reserve_round : State S → Option S → Bool → Reserved → Reserved
    reserve_round s (some b) evicts again = reserved (record s { budget = b })
    reserve_round s none true again = again
    reserve_round s none false again = denied (record s { budget_bypasses = s.budget_bypasses + 1 })

    -- The loop that reserves an entry's bytes; each round but the last evicts an entry.
    unfoldable pub reserve : ℕ → State S → Reserved
    reserve zero s = exhausted
    reserve (suc fuel) s =
        reserve_round s (sem.try_acquire s.budget entry_bytes) (evict s).1
          (reserve fuel (evict s).0)

    pub data Captured : Type 0 where
      captures : State S → Capture → Captured
      passes : State S → Captured
      faults : Captured

    -- `None` is returned, and the pending request is dropped.
    abbrev pub gives_up : Option (State S) → Captured
    gives_up none = faults
    gives_up (some s) = passes s

    abbrev pub refuse_capture : State S → Pending → NotStored → Captured
    refuse_capture s p reason =
        let (s', p') = record_not_stored sem s p reason in gives_up (drop_pending sem s' p')

    abbrev pub capture_reserved : Pending → HeaderMap → ℕ → Reserved → Captured
    capture_reserved p forwarded limit (reserved s) = captures s (record {
      pending = record p { capture_pending = true };
      body = [];
      headers = replayed_headers forwarded replayed_names;
      permit = entry_bytes;
      limit = limit;
    })
    capture_reserved p forwarded limit (denied s) = gives_up (drop_pending sem s p)
    capture_reserved p forwarded limit exhausted = faults

    abbrev pub capture_limited : State S → Pending → HeaderMap → Option ℕ → Captured
    unfolding reserve
    capture_limited s p forwarded none = refuse_capture s p size_of
    capture_limited s p forwarded (some limit) =
        capture_reserved p forwarded limit (reserve (suc (length s.entries)) s)

    abbrev pub capture_accepted : State S → Pending → HeaderMap → Option NotStored → Captured
    unfolding capture_limited header_bytes
    capture_accepted s p forwarded (some reason) = refuse_capture s p reason
    capture_accepted s p forwarded none =
        if not (replayable (get_all forwarded (codes "content-type")))
        then refuse_capture s p representation_of
        else capture_limited s p forwarded
            (body_limit (header_bytes forwarded (some 2) replayed_names))

    -- `Pending::capture`.
    unfoldable pub capture : State S → Pending → ℕ → HeaderMap → HeaderMap → Captured
    unfolding capture_accepted rejection
    capture s p status original forwarded =
        capture_accepted s p forwarded (rejection status original)

    -- `Pending::reject_status`.
    unfoldable pub reject_status : State S → Pending → Captured
    reject_status s p = refuse_capture s p status_of

    -- `Capture::observe`.
    unfoldable pub observe : State S → Capture → List ℕ → Option (State S × Capture × Bool)
    observe s c bytes =
        if ltb c.limit (length c.body)
        then none
        else if ltb (c.limit - length c.body) (length bytes)
        then some (
            if c.pending.capture_pending
            then (
              (record_not_stored sem s c.pending size_of).0,
              record c { pending = (record_not_stored sem s c.pending size_of).1 },
              false,
            )
            else (s, c, false))
        else some (s, record c { body = c.body ++ bytes }, true)

    -- The capture is dropped.
    unfoldable pub drop_capture : State S → Capture → Option (State S)
    drop_capture s c =
        drop_pending sem (record s { budget = sem.release s.budget c.permit }) c.pending

    -- What `permit.split(n)` gives back when it is dropped, and what is left of the permit.
    abbrev pub split_off : S → ℕ → ℕ → S × ℕ
    split_off b permit n = if leb n permit then (sem.release b n, permit - n) else (b, permit)

    abbrev pub make_room : State S → ℕ → State S
    unfolding evict
    make_room s k =
        if leb max_cached (length s.entries) && not (is_some (cached k s.entries))
        then (evict s).0
        else s

    abbrev pub replaced : State S → Option Entry → State S
    replaced s none = s
    replaced s (some e) =
        let (b, rs) = drop_arc sem (s.budget, s.retired) e in record s { budget = b; retired = rs }

    -- `entries.insert`: an entry that was there is dropped.
    abbrev pub store : State S → ℕ → Entry → State S
    store s k e =
        let s' = replaced s (cached k s.entries) in
        record s' { entries = (k, e) ∷ uncache k s.entries; stores = s.stores + 1 }

    abbrev pub settle_flight : State S → Pending → Option (State S)
    settle_flight s p =
        if is_owner p.flight
        then drop_pending sem (land sem p.key s) (record p { flight = unclaimed })
        else drop_pending sem s p

    abbrev pub stored_entry : State S → ℕ → Capture → ℕ → Entry
    stored_entry s now c permit = record {
      serial = s.serials;
      body = c.body;
      headers = c.headers;
      inserted = now;
      permit = permit;
      readers = 0;
    }

    -- `commit` once the response is complete.
    abbrev pub commit_entry : State S → ℕ → Capture → Option (State S)
    unfolding make_room
    commit_entry s now c =
        let retained = length c.body + stored_size c.headers in
        if ltb entry_bytes retained
        then none
        else (let left = split_off s.budget c.permit (entry_bytes - retained) in
            let s1 = record s { budget = left.0; serials = s.serials + 1 } in
            settle_flight
              (store (make_room s1 c.pending.key) c.pending.key (stored_entry s now c left.1))
              (record c.pending { capture_pending = false }))

    -- `Capture::commit`.
    unfoldable pub commit : State S → ℕ → Capture → Bool → Option (State S)
    unfolding commit_entry drop_capture
    commit s now c complete =
        if not complete || not c.pending.capture_pending
        then drop_capture s c
        else commit_entry s now c
