-- ===== src/Capture/Stored.antt =====
-- product/src/cache.rs: `capture`, `observe` and `commit` keep the account.
use deskquota.Common.{
  Bool, Bool-cases, List, Option, Option-cases, Text, [], arith, codes, count_if, inl, inr, length,
  none, refl, some, suc, true, ℕ, ◌+◌, ◌==◌, ◌∷◌, ◌≡◌, ◌≤◌,
}
use deskquota.Headers.{HeaderMap, get_all, stored_size}
use deskquota.Semaphore.{Semaphore}
use deskquota.Cache.{
  Entry, NotStored, Pending, State, cached, drop_pending, entry_bytes, faults, record_not_stored,
  representation_of, size_of, status_of, uncache,
}
use deskquota.Cache.Account.{Accounted, Tally, joined}
use deskquota.Cache.Ends.{drop_pending-Accounted, record_not_stored-Accounted}
use deskquota.Capture.{
  Capture, Captured, Reserved, body_limit, capture, capture_accepted, capture_limited,
  capture_reserved, captures, denied, exhausted, faults, gives_up, header_bytes, passes,
  refuse_capture, reject_status, rejection, replayable, replayed_headers, replayed_names, reserve,
  reserved,
}
use deskquota.Capture.Room.{Reserves, reserve-Reserves}
use deskquota.Capture.Sizes.{body_limit-stored_size}

pub absent_none :
    (k : ℕ) (es : List (ℕ × Entry)) → cached k es ≡ none → count_if (λ x. x.0 == k) es ≡ 0
absent_none k [] h = refl
absent_none k ((j, e) ∷ es) h = ground (arith, absent_none k es)

none_absent : (k : ℕ) (es : List (ℕ × Entry)) → count_if (λ x. x.0 == k) es ≡ 0 → cached k es ≡ none
none_absent k [] h = refl
none_absent k ((j, e) ∷ es) h = ground (arith, none_absent k es)

pub count-uncached :
    (k : ℕ) (es : List (ℕ × Entry)) (e : Entry)
    → cached k es ≡ some e
    → suc (count_if (λ x. x.0 == k) (uncache k es)) ≡ count_if (λ x. x.0 == k) es
count-uncached k [] e h = absurd (cc)
count-uncached k ((j, d) ∷ es) e h = ground (arith, count-uncached k es e)

-- A capture reserves an entry's bytes, and what it may still take fits into them.
pub record Fits (c : Capture) : Type 0 where
  pub whole : c.permit ≡ entry_bytes
  pub within : length c.body ≤ c.limit
  pub room : c.limit + stored_size c.headers ≡ entry_bytes

module _ {S : Type 0} (to_str : Text → Option Text) (sem : Semaphore S) (r : Tally) (held : ℕ) where
  abbrev pub Captures : Captured to_str sem → Type 0
  Captures (captures s c) = Accounted sem s (joined c.pending r) (held + entry_bytes) × Fits c
  Captures (passes s) = Accounted sem s r held
  Captures faults = ⊥

  dropped :
      (s : State S) (p : Pending)
      → Accounted sem s (joined p r) held
      → Captures (gives_up to_str sem (drop_pending sem s p))
  dropped s p v = let (s', e, w) = drop_pending-Accounted sem r held s p v in rw e w

  refused :
      (s : State S) (p : Pending) (reason : NotStored)
      → Accounted sem s (joined p r) held
      → Captures (refuse_capture to_str sem s p reason)
  refused s p reason v =
      let x = record_not_stored sem s p reason in
      dropped x.0 x.1 (record_not_stored-Accounted sem r held s p reason v)

  pending_capture :
      (s : State S) (p : Pending) (b : Bool) (n : ℕ)
      → Accounted sem s (joined p r) n
      → Accounted sem s (joined (record p { capture_pending = b }) r) n
  pending_capture s p b n v = record {
    budget = v.budget;
    distinct = v.distinct;
    bounded = v.bounded;
    waits = v.waits;
    flying = v.flying;
    single = v.single;
    crowd = v.crowd;
    missed = v.missed;
  }

  captured :
      (p : Pending) (h : HeaderMap) (limit : ℕ) (x : Reserved to_str sem)
      → limit + stored_size (replayed_headers h replayed_names) ≡ entry_bytes
      → Reserves to_str sem (joined p r) held x
      → Captures (capture_reserved to_str sem p h limit x)
  captured p h limit (reserved s) e v = (
    pending_capture s p true (held + entry_bytes) v,
    record { whole = refl; within = omega arith; room = e },
  )
  captured p h limit (denied s) e v = dropped s p v
  captured p h limit exhausted e v = v

  limited :
      (s : State S) (p : Pending) (h : HeaderMap)
      → Accounted sem s (joined p r) held
      → Captures
          (capture_limited to_str sem s p h (body_limit (header_bytes h (some 2) replayed_names)))
  unfolding capture_limited
  limited s p h v = elim (Option-cases (body_limit (header_bytes h (some 2) replayed_names))) [
    | inl e ↦ rw e (refused s p size_of v)
    | inr (limit, e) ↦ rw e (
        captured p h limit (reserve to_str sem (suc (length s.entries)) s)
          (body_limit-stored_size h limit e)
          (reserve-Reserves to_str sem (joined p r) (suc (length s.entries)) s held v
            (omega arith)))
  ]

  accepted :
      (s : State S) (p : Pending) (h : HeaderMap) (o : Option NotStored)
      → Accounted sem s (joined p r) held
      → Captures (capture_accepted to_str sem s p h o)
  unfolding capture_accepted
  accepted s p h (some reason) v = refused s p reason v
  accepted s p h none v = elim (Bool-cases (replayable to_str (get_all h (codes "content-type")))) [
    | inl e ↦ rw e (limited s p h v)
    | inr e ↦ rw e (refused s p representation_of v)
  ]

  pub reject_status-Captures :
      (s : State S) (p : Pending)
      → Accounted sem s (joined p r) held
      → Captures (reject_status to_str sem s p)
  unfolding reject_status
  reject_status-Captures s p v = refused s p status_of v

  -- With any semaphore that keeps its laws, on a cache whose account holds: capturing a response of
  -- any status and headers ends: either a capture holds an entry's bytes of the budget, with a
  -- limit that leaves room for the headers, or the request is dropped; the account holds for what
  -- is then alive.
  pub capture-Captures :
      (s : State S) (p : Pending) (status : ℕ) (original forwarded : HeaderMap)
      → Accounted sem s (joined p r) held
      → Captures (capture to_str sem s p status original forwarded)
  unfolding capture
  capture-Captures s p status original forwarded v =
      accepted s p forwarded (rejection to_str status original) v
