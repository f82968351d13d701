-- ===== src/Capture/Committed.antt =====
-- product/src/cache.rs: `observe`, `commit`, and the end of a capture.
use deskquota.Common.{
  Bool, Bool-cases, List, Option, Option-cases, Text, ap, arith, false, ge→ltb, inl, inr, leb,
  length, length-append, ltb, ltb→ge, none, not, refl, some, true, ℕ, ◌++◌, ◌+◌, ◌-◌, ◌<◌, ◌||◌,
  ◌≡◌, ◌≤◌,
}
use deskquota.Headers.{stored_size}
use deskquota.Semaphore.{Semaphore}
use deskquota.Cache.{
  Entry, Flight, Pending, State, bypass, cached, entry_bytes, is_owner, is_waiting, land,
  max_cached, owner, record_not_stored, size_of, unclaimed, waiting,
}
use deskquota.Cache.Account.{
  Accounted, Tally, count-uncache, drop_arc-size, joined, permits, uncache_absent, uncache_lem,
}
use deskquota.Cache.Ends.{drop_pending-Accounted, land-Accounted, record_not_stored-Accounted}
use deskquota.Capture.{
  Capture, commit, commit_entry, drop_capture, make_room, observe, settle_flight, store,
  stored_entry,
}
use deskquota.Capture.Room.{evict-Accounted}
use deskquota.Capture.Stored.{Fits, absent_none, count-uncached}

pub record HoldsAfter {S : Type 0} (sem : Semaphore S) (r : Tally) (held : ℕ)
    (x : State S × Capture × Bool) : Type 0 where
  pub account : Accounted sem x.0 (joined x.1.pending r) (held + entry_bytes)
  pub fits : Fits x.1

module _ {S : Type 0} (to_str : Text → Option Text) (sem : Semaphore S) (r : Tally) (held : ℕ) where
  -- Observing more bytes of the body never underflows: they are kept if they fit into the limit, and
  -- if not, the reason is counted once; the capture stays within its entry.
  pub observe-HoldsAfter :
      (s : State S) (c : Capture) (bytes : List ℕ)
      → Accounted sem s (joined c.pending r) (held + entry_bytes)
      → Fits c
      → (x : State S × Capture × Bool) × (observe to_str sem s c bytes ≡ some x)
        × HoldsAfter sem r held x
  unfolding observe
  observe-HoldsAfter s c bytes v f =
      let ok = ge→ltb c.limit (length c.body) f.within in
      elim (Bool-cases (ltb (c.limit - length c.body) (length bytes))) [
        | inr e ↦ (
          (s, record c { body = c.body ++ bytes }, true),
          rw (ok, e) refl,
          record {
            account = v;
            fits = record {
              whole = f.whole;
              within = omega (arith, ltb→ge _ _ e, f.within, length-append c.body bytes);
              room = f.room;
            };
          },
        )
        | inl e ↦ elim (Bool-cases c.pending.capture_pending) [
          | inr q ↦ ((s, c, false), rw (ok, e, q) refl, record { account = v; fits = f })
          | inl q ↦
              let x = record_not_stored sem s c.pending size_of in
              (
                (x.0, record c { pending = x.1 }, false),
                rw (ok, e, q) refl,
                record {
                  account =
                      record_not_stored-Accounted sem r (held + entry_bytes) s c.pending size_of v;
                  fits = record { whole = f.whole; within = f.within; room = f.room };
                },
              )
        ]
      ]

  -- Dropping a capture gives its bytes back.
  pub drop_capture-Accounted :
      (s : State S) (c : Capture)
      → Accounted sem s (joined c.pending r) (held + entry_bytes)
      → Fits c
      → (s' : State S) × (drop_capture to_str sem s c ≡ some s') × Accounted sem s' r held
  unfolding drop_capture
  drop_capture-Accounted s c v f =
      drop_pending-Accounted sem r held (record s { budget = sem.release s.budget c.permit })
        c.pending
        (record {
          budget = omega (arith, v.budget, f.whole, sem.released s.budget c.permit);
          distinct = v.distinct;
          bounded = v.bounded;
          waits = v.waits;
          flying = v.flying;
          single = v.single;
          crowd = v.crowd;
          missed = v.missed;
        })

  make_room-Accounted :
      (s : State S) (k n : ℕ) (t : Tally)
      → Accounted sem s t n
      → Accounted sem (make_room to_str sem s k) t n
        × ((cached k (make_room to_str sem s k).entries ≡ none)
            → length (make_room to_str sem s k).entries < max_cached)
  unfolding make_room
  make_room-Accounted s k n t v = elim (Bool-cases (leb max_cached (length s.entries))) [
    | inr e ↦ rw e (v, λ _. ground arith)
    | inl e ↦ elim (Option-cases (cached k s.entries)) [
      | inr (d, f) ↦ rw (e, f) (v, λ h. absurd (cc (h, f)))
      | inl f ↦
          let (w, c, _) = evict-Accounted to_str sem t s n v in
          rw (e, f)
            (
              w,
              λ _. elim c [
                | inl (_, m) ↦ omega (arith, m, v.bounded)
                | inr (_, m) ↦ omega (arith, m)
              ],
            )
    ]
  ]

  -- The new entry takes its bytes over from the capture, and the old one of its key gives its own up.
  store-Accounted :
      (s : State S) (k n : ℕ) (t : Tally) (e : Entry)
      → Accounted sem s t (n + e.permit)
      → ((cached k s.entries ≡ none) → length s.entries < max_cached)
      → Accounted sem (store to_str sem s k e) t n
  store-Accounted s k n t e v room = elim (Option-cases (cached k s.entries)) [
    | inl f ↦
        let gone = uncache_absent k s.entries f in
        rw f (record {
          budget = omega (arith, v.budget, ap permits gone);
          distinct = λ i.
              ground (arith, v.distinct i, count-uncache k i s.entries, absent_none k s.entries f);
          bounded = omega (arith, room f, ap length gone);
          waits = v.waits;
          flying = v.flying;
          single = v.single;
          crowd = v.crowd;
          missed = v.missed;
        })
    | inr (d, f) ↦
        let (a, b) = uncache_lem k s.entries d f in
        let size = drop_arc-size sem (s.budget, s.retired) d in
        rw f (record {
          budget = omega (arith, v.budget, a, size);
          distinct = λ i.
              ground
                (arith, v.distinct i, count-uncache k i s.entries, count-uncached k s.entries d f);
          bounded = omega (arith, v.bounded, b);
          waits = v.waits;
          flying = v.flying;
          single = v.single;
          crowd = v.crowd;
          missed = v.missed;
        })
  ]

  settle_flight-Accounted :
      (s : State S) (p : Pending)
      → Accounted sem s (joined p r) held
      → (s' : State S) × (settle_flight to_str sem s p ≡ some s') × Accounted sem s' r held
  settle_flight-Accounted s p v = elim (Bool-cases (is_owner p.flight)) [
    | inr e ↦ let (s', f, w) = drop_pending-Accounted sem r held s p v in (s', rw e f, w)
    | inl e ↦
        let landed = land-Accounted sem r held s p v e (owner_waits p.flight e) in
        let q : Pending = record p { flight = unclaimed } in
        let (s', f, w) = drop_pending-Accounted sem r held (land sem p.key s) q (record {
          budget = landed.budget;
          distinct = landed.distinct;
          bounded = landed.bounded;
          waits = omega (arith, landed.waits);
          flying = λ k. omega (arith, landed.flying k);
          single = landed.single;
          crowd = landed.crowd;
          missed = v.missed;
        }) in
        (s', rw e f, w)
  ]
    where
      owner_waits : (f : Flight) → is_owner f ≡ true → is_waiting f ≡ false
      owner_waits owner h = refl
      owner_waits unclaimed h = refl
      owner_waits waiting h = absurd (cc)
      owner_waits bypass h = refl

  commit_entry-Accounted :
      (s : State S) (now : ℕ) (c : Capture)
      → Accounted sem s (joined c.pending r) (held + entry_bytes)
      → Fits c
      → (s' : State S) × (commit_entry to_str sem s now c ≡ some s') × Accounted sem s' r held
  unfolding commit_entry
  commit_entry-Accounted s now c v f =
      let size = length c.body + stored_size c.headers in
      let fit : size ≤ entry_bytes = omega (arith, f.within, f.room) in
      let splits : leb (entry_bytes - size) c.permit ≡ true = ground (arith, f.whole) in
      let b = sem.release s.budget (entry_bytes - size) in
      let s1 : State S = record s { budget = b; serials = s.serials + 1 } in
      let e = stored_entry to_str sem s now c (c.permit - (entry_bytes - size)) in
      let p : Pending = record c.pending { capture_pending = false } in
      let v1 : Accounted sem s1 (joined p r) (held + e.permit) = record {
        budget = omega (arith, v.budget, f.whole, fit, sem.released s.budget (entry_bytes - size));
        distinct = v.distinct;
        bounded = v.bounded;
        waits = v.waits;
        flying = v.flying;
        single = v.single;
        crowd = v.crowd;
        missed = v.missed;
      } in
      let (v2, room) = make_room-Accounted s1 c.pending.key (held + e.permit) (joined p r) v1 in
      let s2 = make_room to_str sem s1 c.pending.key in
      let v3 = store-Accounted s2 c.pending.key held (joined p r) e v2 room in
      let (s', g, w) = settle_flight-Accounted (store to_str sem s2 c.pending.key e) p v3 in
      (s', rw (ge→ltb entry_bytes size fit, splits) g, w)

  -- With any semaphore that keeps its laws, on a cache whose account holds and with a capture that
  -- fits: committing or dropping it, whether the response is complete or not, underflows nothing,
  -- and the account holds for the requests and captures that are left, so that every byte of the
  -- budget is free or held by an entry, a replay or a capture.
  pub commit-Accounted :
      (s : State S) (now : ℕ) (c : Capture) (complete : Bool)
      → Accounted sem s (joined c.pending r) (held + entry_bytes)
      → Fits c
      → (s' : State S) × (commit to_str sem s now c complete ≡ some s') × Accounted sem s' r held
  unfolding commit
  commit-Accounted s now c complete v f =
      elim (Bool-cases (not complete || not c.pending.capture_pending)) [
        | inl e ↦ let (s', g, w) = drop_capture-Accounted s c v f in (s', rw e g, w)
        | inr e ↦ let (s', g, w) = commit_entry-Accounted s now c v f in (s', rw e g, w)
      ]
