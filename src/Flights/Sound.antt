-- ===== src/Flights/Sound.antt =====
-- product/src/cache.rs: what holds of a cache under any interleaving of its requests.
use deskquota.Common.{
  All, Bool, Bool-cases, List, Option, Option-cases, Text, [], arith, count_if, find, if◌then◌else◌,
  inl, inr, leb, length, map, none, refl, remove_first, some, subst, sum_by, sum_by-append,
  sum_by-update_first, sym, ℕ, ◌++◌, ◌+◌, ◌==◌, ◌∙◌, ◌∷◌, ◌≡◌,
}
use deskquota.Semaphore.{Semaphore}
use deskquota.Cache.{
  Bypass, Entry, Pending, State, consider, entry_bytes, finish_replay, new_pending, unread,
}
use deskquota.Cache.Account.{Accounted, Tally, joined, missed_now, owns, permits, waits_now}
use deskquota.Cache.Turns.{Finds, Turns, lookup_in-Finds, wait_pass-Turns}
use deskquota.Cache.Ends.{drop_pending-Accounted}
use deskquota.Capture.{Capture}
use deskquota.Capture.Stored.{Captures, Fits, capture-Captures, reject_status-Captures}
use deskquota.Capture.Committed.{
  HoldsAfter, commit-Accounted, drop_capture-Accounted, observe-HoldsAfter,
}
use deskquota.Flights.{
  Step, World, aborts, arrives, avoids, captured, commits, fills, hits, leaves, looks_in_vain,
  looks_up, observes, passed, queues, rejects, replayed, rolls, turns,
}

abbrev pub tally : {S : Type 0} → World S → Tally
tally w f = sum_by f w.live + sum_by (λ c. f c.pending) w.taken

abbrev pub held_bytes : List Capture → ℕ
held_bytes cs = sum_by (λ c. c.permit) cs

sum_by-remove_first :
    (f : Entry → ℕ) (p : Entry → Bool) (xs : List Entry) (x : Entry)
    → find p xs ≡ some x
    → f x + sum_by f (remove_first p xs) ≡ sum_by f xs
sum_by-remove_first f p [] x h = absurd (cc)
sum_by-remove_first f p (y ∷ ys) x h = ground (arith, sum_by-remove_first f p ys x)

module _ (serial : ℕ) where
  abbrev read_one : ℕ × Entry → ℕ × Entry
  read_one x = (x.0, if x.1.serial == serial then unread x.1 else x.1)

  permits-read : (es : List (ℕ × Entry)) → permits (map read_one es) ≡ permits es
  permits-read [] = refl
  permits-read (x ∷ es) = ground (arith, permits-read es)

  length-read : (es : List (ℕ × Entry)) → length (map read_one es) ≡ length es
  length-read [] = refl
  length-read (x ∷ es) = omega (arith, length-read es)

  count-read :
      (k : ℕ) (es : List (ℕ × Entry))
      → count_if (λ x. x.0 == k) (map read_one es) ≡ count_if (λ x. x.0 == k) es
  count-read k [] = refl
  count-read k (x ∷ es) = omega (arith, count-read k es)

module _ {S : Type 0} (to_str : Text → Option Text) (sem : Semaphore S) where
  -- The account holds for the requests and the captures that are alive, and each capture fits.
  pub record Sound (w : World S) : Type 0 where
    pub account : Accounted sem w.state (tally w) (held_bytes w.taken)
    pub fits : All Fits w.taken

  retally :
      (s : State S) (t t' : Tally) (n n' : ℕ)
      → ((f : Pending → ℕ) → t f ≡ t' f)
      → n ≡ n'
      → Accounted sem s t n
      → Accounted sem s t' n'
  retally s t t' n n' h e v = record {
    budget = omega (arith, v.budget, e);
    distinct = v.distinct;
    bounded = v.bounded;
    waits = v.waits ∙ h waits_now;
    flying = λ k. v.flying k ∙ h (owns k);
    single = v.single;
    crowd = v.crowd;
    missed = omega (arith, v.missed, h missed_now);
  }

  finish_replay-Accounted :
      (s : State S) (t : Tally) (n serial : ℕ)
      → Accounted sem s t n
      → Accounted sem (finish_replay sem s serial) t n
  unfolding finish_replay
  finish_replay-Accounted s t n serial v =
      elim (Option-cases (find (λ e. e.serial == serial) s.retired)) [
        | inl f ↦ rw f (record {
          budget = omega (arith, v.budget, permits-read serial s.entries);
          distinct = λ k. omega (arith, v.distinct k, count-read serial k s.entries);
          bounded = omega (arith, v.bounded, length-read serial s.entries);
          waits = v.waits;
          flying = v.flying;
          single = v.single;
          crowd = v.crowd;
          missed = v.missed;
        })
        | inr (e, f) ↦ elim (Bool-cases (leb e.readers 1)) [
          | inl g ↦
              let out =
                sum_by-remove_first (λ x. x.permit) (λ x. x.serial == serial) s.retired e f in
              rw (f, g)
                (record {
                  budget = omega (arith, v.budget, out, sem.released s.budget e.permit);
                  distinct = v.distinct;
                  bounded = v.bounded;
                  waits = v.waits;
                  flying = v.flying;
                  single = v.single;
                  crowd = v.crowd;
                  missed = v.missed;
                })
          | inr g ↦
              let out =
                sum_by-update_first (λ x. x.permit) (λ x. x.serial == serial) unread s.retired e
                  f in
              rw (f, g)
                (record {
                  budget = omega (arith, v.budget, out);
                  distinct = v.distinct;
                  bounded = v.bounded;
                  waits = v.waits;
                  flying = v.flying;
                  single = v.single;
                  crowd = v.crowd;
                  missed = v.missed;
                })
        ]
      ]

  module _ (s : State S) (ps : List Pending) (cs : List Capture) where
    -- The tally of the requests and captures that are not at the head.
    abbrev others : Tally
    others f = sum_by f ps + sum_by (λ c. f c.pending) cs

    unhead_pending :
        (p : Pending)
        → Accounted sem s (tally (record { state = s; live = p ∷ ps; taken = cs })) (held_bytes cs)
        → Accounted sem s (joined p others) (held_bytes cs)
    unhead_pending p v = retally s _ _ (held_bytes cs) _ (λ f. omega arith) refl v

    head_pending :
        (p : Pending)
        → Accounted sem s (joined p others) (held_bytes cs)
        → Accounted sem s (tally (record { state = s; live = p ∷ ps; taken = cs })) (held_bytes cs)
    head_pending p v = retally s _ _ (held_bytes cs) _ (λ f. omega arith) refl v

    unhead_capture :
        (c : Capture)
        → Fits c
        → Accounted sem s
            (tally (record { state = s; live = ps; taken = c ∷ cs }))
            (held_bytes (c ∷ cs))
        → Accounted sem s (joined c.pending others) (held_bytes cs + entry_bytes)
    unhead_capture c h v =
        retally s _ _ (held_bytes (c ∷ cs)) _ (λ f. omega arith) (omega (arith, h.whole)) v

    head_capture :
        (c : Capture)
        → Fits c
        → Accounted sem s (joined c.pending others) (held_bytes cs + entry_bytes)
        → Accounted sem s
            (tally (record { state = s; live = ps; taken = c ∷ cs }))
            (held_bytes (c ∷ cs))
    head_capture c h v =
        retally s _ _ (held_bytes cs + entry_bytes) _ (λ f. omega arith) (omega (arith, h.whole)) v

  considered :
      (s : State S) (t : Tally) (n : ℕ) (o : Option Bypass)
      → Accounted sem s t n
      → Accounted sem (consider s o) t n
  considered s t n none v =
      retally (consider s none) t t n n (λ f. refl) refl
        (record {
          budget = v.budget;
          distinct = v.distinct;
          bounded = v.bounded;
          waits = v.waits;
          flying = v.flying;
          single = v.single;
          crowd = v.crowd;
          missed = v.missed;
        })
  considered s t n (some b) v =
      retally (consider s (some b)) t t n n (λ f. refl) refl
        (record {
          budget = v.budget;
          distinct = v.distinct;
          bounded = v.bounded;
          waits = v.waits;
          flying = v.flying;
          single = v.single;
          crowd = v.crowd;
          missed = v.missed;
        })

  arrived :
      (s : State S) (r : Tally) (n key : ℕ)
      → Accounted sem s r n
      → Accounted sem s (joined (new_pending key) r) n
  arrived s r n key v = record {
    budget = v.budget;
    distinct = v.distinct;
    bounded = v.bounded;
    waits = omega (arith, v.waits);
    flying = λ k. omega (arith, v.flying k);
    single = v.single;
    crowd = v.crowd;
    missed = omega (arith, v.missed);
  }

  Fits-append : (cs : List Capture) (c : Capture) → All Fits cs → Fits c → All Fits (cs ++ c ∷ [])
  Fits-append [] c h f = (f, tt)
  Fits-append (d ∷ cs) c h f = (h.0, Fits-append cs c h.1 f)

  -- Every step of a task on the cache keeps it sound.
  pub Step-Sound : (w w' : World S) → Step to_str sem w w' → Sound w → Sound w'
  Step-Sound w w' (arrives s ps cs key) h = record {
    account = head_pending (consider s none) ps cs (new_pending key) (
        arrived (consider s none) (others s ps cs) (held_bytes cs) key
          (considered s (others s ps cs) (held_bytes cs) none h.account));
    fits = h.fits;
  }
  Step-Sound w w' (avoids s ps cs reason) h = record {
    account = considered s _ (held_bytes cs) (some reason) h.account;
    fits = h.fits;
  }
  Step-Sound w w' (looks_up s s' p p' e ps cs config now q) h =
      let v =
        lookup_in-Finds sem (others s ps cs) (held_bytes cs) config now s p
          (unhead_pending s ps cs p h.account) in
      record {
        account = head_pending s' ps cs p' (subst (Finds sem (others s ps cs) (held_bytes cs)) q v);
        fits = h.fits;
      }
  Step-Sound w w' (looks_in_vain s s' p p' ps cs config now q) h =
      let v =
        lookup_in-Finds sem (others s ps cs) (held_bytes cs) config now s p
          (unhead_pending s ps cs p h.account) in
      record {
        account = head_pending s' ps cs p' (subst (Finds sem (others s ps cs) (held_bytes cs)) q v);
        fits = h.fits;
      }
  Step-Sound w w' (hits s s' p p' e ps cs config now q) h =
      let v =
        wait_pass-Turns sem (others s ps cs) (held_bytes cs) config now s p
          (unhead_pending s ps cs p h.account) in
      record {
        account = head_pending s' ps cs p' (subst (Turns sem (others s ps cs) (held_bytes cs)) q v);
        fits = h.fits;
      }
  Step-Sound w w' (fills s s' p p' ps cs config now q) h =
      let v =
        wait_pass-Turns sem (others s ps cs) (held_bytes cs) config now s p
          (unhead_pending s ps cs p h.account) in
      record {
        account =
            head_pending s' ps cs p' (subst (Turns sem (others s ps cs) (held_bytes cs)) q v).0;
        fits = h.fits;
      }
  Step-Sound w w' (queues s s' p p' ps cs config now q) h =
      let v =
        wait_pass-Turns sem (others s ps cs) (held_bytes cs) config now s p
          (unhead_pending s ps cs p h.account) in
      record {
        account =
            head_pending s' ps cs p' (subst (Turns sem (others s ps cs) (held_bytes cs)) q v).0;
        fits = h.fits;
      }
  Step-Sound w w' (captured s s' p c ps cs status original forwarded q) h =
      let v =
        capture-Captures to_str sem (others s ps cs) (held_bytes cs) s p status original forwarded
          (unhead_pending s ps cs p h.account) in
      let (a, f) = subst (Captures to_str sem (others s ps cs) (held_bytes cs)) q v in
      record { account = head_capture s' ps cs c f a; fits = (f, h.fits) }
  Step-Sound w w' (passed s s' p ps cs status original forwarded q) h =
      let v =
        capture-Captures to_str sem (others s ps cs) (held_bytes cs) s p status original forwarded
          (unhead_pending s ps cs p h.account) in
      record {
        account = subst (Captures to_str sem (others s ps cs) (held_bytes cs)) q v;
        fits = h.fits;
      }
  Step-Sound w w' (rejects s s' p ps cs q) h =
      let v =
        reject_status-Captures to_str sem (others s ps cs) (held_bytes cs) s p
          (unhead_pending s ps cs p h.account) in
      record {
        account = subst (Captures to_str sem (others s ps cs) (held_bytes cs)) q v;
        fits = h.fits;
      }
  Step-Sound w w' (leaves s s' p ps cs q) h =
      let (x, e, v) =
        drop_pending-Accounted sem (others s ps cs) (held_bytes cs) s p
          (unhead_pending s ps cs p h.account) in
      let same : x ≡ s' = some_same (sym e ∙ q) in
      record {
        account = subst (λ y. Accounted sem y (others s ps cs) (held_bytes cs)) same v;
        fits = h.fits;
      }
    where
      some_same : {x y : State S} → some x ≡ some y → x ≡ y
      some_same h = cc
  Step-Sound w w' (observes s s' c c' kept ps cs bytes q) h =
      let (x, e, v) =
        observe-HoldsAfter to_str sem (others s ps cs) (held_bytes cs) s c bytes
          (unhead_capture s ps cs c h.fits.0 h.account) h.fits.0 in
      let same : x ≡ (s', c', kept) = some_same (sym e ∙ q) in
      let u = subst (HoldsAfter sem (others s ps cs) (held_bytes cs)) same v in
      record { account = head_capture s' ps cs c' u.fits u.account; fits = (u.fits, h.fits.1) }
    where
      some_same : {x y : State S × Capture × Bool} → some x ≡ some y → x ≡ y
      some_same h = cc
  Step-Sound w w' (commits s s' c complete now ps cs q) h =
      let (x, e, v) =
        commit-Accounted to_str sem (others s ps cs) (held_bytes cs) s now c complete
          (unhead_capture s ps cs c h.fits.0 h.account) h.fits.0 in
      let same : x ≡ s' = some_same (sym e ∙ q) in
      record {
        account = subst (λ y. Accounted sem y (others s ps cs) (held_bytes cs)) same v;
        fits = h.fits.1;
      }
    where
      some_same : {x y : State S} → some x ≡ some y → x ≡ y
      some_same h = cc
  Step-Sound w w' (aborts s s' c ps cs q) h =
      let (x, e, v) =
        drop_capture-Accounted to_str sem (others s ps cs) (held_bytes cs) s c
          (unhead_capture s ps cs c h.fits.0 h.account) h.fits.0 in
      let same : x ≡ s' = some_same (sym e ∙ q) in
      record {
        account = subst (λ y. Accounted sem y (others s ps cs) (held_bytes cs)) same v;
        fits = h.fits.1;
      }
    where
      some_same : {x y : State S} → some x ≡ some y → x ≡ y
      some_same h = cc
  Step-Sound w w' (replayed s ps cs serial) h = record {
    account = finish_replay-Accounted s _ (held_bytes cs) serial h.account;
    fits = h.fits;
  }
  Step-Sound w w' (turns s p ps cs) h = record {
    account =
        retally s _ _ (held_bytes cs) _ (λ f. omega (arith, sum_by-append f ps (p ∷ []))) refl
          h.account;
    fits = h.fits;
  }
  Step-Sound w w' (rolls s c ps cs) h = record {
    account =
        retally s _ _ (held_bytes (c ∷ cs)) _
          (λ f. omega (arith, sum_by-append (λ d. f d.pending) cs (c ∷ [])))
          (omega (arith, sum_by-append (λ d. d.permit) cs (c ∷ []))) h.account;
    fits = Fits-append cs c h.fits.1 h.fits.0;
  }
