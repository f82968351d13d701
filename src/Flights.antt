-- ===== src/Flights.antt =====
-- product/src/cache.rs: any number of requests on one cache. The requests and the captures that are
-- alive are lists; a task that takes its turn stands at the head of its list.
pub mod Sound
pub mod Single
use deskquota.Common.{Bool, List, Option, Text, [], none, some, ℕ, ◌++◌, ◌∷◌, ◌≡◌}
use deskquota.Headers.{HeaderMap}
use deskquota.Semaphore.{Semaphore}
use deskquota.Cache.{
  Bypass, CacheConfig, Entry, Pending, State, absent, consider, drop_pending, finish_replay, goes,
  hits_now, lookup, new_cache, new_pending, replays, wait_pass, waits,
}
use deskquota.Capture.{
  Capture, capture, captures, commit, drop_capture, observe, passes, reject_status,
}

-- The cache, the pending requests that have no capture, and the captures.
pub record World (S : Type 0) : Type 0 where
  pub state : State S
  pub live : List Pending
  pub taken : List Capture

module _ {S : Type 0} (to_str : Text → Option Text) (sem : Semaphore S) where
  pub data Step : World S → World S → Type 0 where
    arrives :
        (s : State S) (ps : List Pending) (cs : List Capture) (key : ℕ)
        → Step
            (record { state = s; live = ps; taken = cs })
            (record { state = consider s none; live = new_pending key ∷ ps; taken = cs })
    avoids :
        (s : State S) (ps : List Pending) (cs : List Capture) (reason : Bypass)
        → Step
            (record { state = s; live = ps; taken = cs })
            (record { state = consider s (some reason); live = ps; taken = cs })
    looks_up :
        (s s' : State S) (p p' : Pending) (e : Entry) (ps : List Pending) (cs : List Capture)
        (config : CacheConfig) (now : ℕ)
        → lookup sem config now s p ≡ replays s' p' e
        → Step
            (record { state = s; live = p ∷ ps; taken = cs })
            (record { state = s'; live = p' ∷ ps; taken = cs })
    looks_in_vain :
        (s s' : State S) (p p' : Pending) (ps : List Pending) (cs : List Capture)
        (config : CacheConfig) (now : ℕ)
        → lookup sem config now s p ≡ absent s' p'
        → Step
            (record { state = s; live = p ∷ ps; taken = cs })
            (record { state = s'; live = p' ∷ ps; taken = cs })
    hits :
        (s s' : State S) (p p' : Pending) (e : Entry) (ps : List Pending) (cs : List Capture)
        (config : CacheConfig) (now : ℕ)
        → wait_pass sem config now s p ≡ hits_now s' p' e
        → Step
            (record { state = s; live = p ∷ ps; taken = cs })
            (record { state = s'; live = p' ∷ ps; taken = cs })
    fills :
        (s s' : State S) (p p' : Pending) (ps : List Pending) (cs : List Capture)
        (config : CacheConfig) (now : ℕ)
        → wait_pass sem config now s p ≡ goes s' p'
        → Step
            (record { state = s; live = p ∷ ps; taken = cs })
            (record { state = s'; live = p' ∷ ps; taken = cs })
    queues :
        (s s' : State S) (p p' : Pending) (ps : List Pending) (cs : List Capture)
        (config : CacheConfig) (now : ℕ)
        → wait_pass sem config now s p ≡ waits s' p'
        → Step
            (record { state = s; live = p ∷ ps; taken = cs })
            (record { state = s'; live = p' ∷ ps; taken = cs })
    captured :
        (s s' : State S) (p : Pending) (c : Capture) (ps : List Pending) (cs : List Capture)
        (status : ℕ) (original forwarded : HeaderMap)
        → capture to_str sem s p status original forwarded ≡ captures s' c
        → Step
            (record { state = s; live = p ∷ ps; taken = cs })
            (record { state = s'; live = ps; taken = c ∷ cs })
    passed :
        (s s' : State S) (p : Pending) (ps : List Pending) (cs : List Capture) (status : ℕ)
        (original forwarded : HeaderMap)
        → capture to_str sem s p status original forwarded ≡ passes s'
        → Step
            (record { state = s; live = p ∷ ps; taken = cs })
            (record { state = s'; live = ps; taken = cs })
    rejects :
        (s s' : State S) (p : Pending) (ps : List Pending) (cs : List Capture)
        → reject_status to_str sem s p ≡ passes s'
        → Step
            (record { state = s; live = p ∷ ps; taken = cs })
            (record { state = s'; live = ps; taken = cs })
    leaves :
        (s s' : State S) (p : Pending) (ps : List Pending) (cs : List Capture)
        → drop_pending sem s p ≡ some s'
        → Step
            (record { state = s; live = p ∷ ps; taken = cs })
            (record { state = s'; live = ps; taken = cs })
    observes :
        (s s' : State S) (c c' : Capture) (kept : Bool) (ps : List Pending) (cs : List Capture)
        (bytes : List ℕ)
        → observe to_str sem s c bytes ≡ some (s', c', kept)
        → Step
            (record { state = s; live = ps; taken = c ∷ cs })
            (record { state = s'; live = ps; taken = c' ∷ cs })
    commits :
        (s s' : State S) (c : Capture) (complete : Bool) (now : ℕ) (ps : List Pending)
        (cs : List Capture)
        → commit to_str sem s now c complete ≡ some s'
        → Step
            (record { state = s; live = ps; taken = c ∷ cs })
            (record { state = s'; live = ps; taken = cs })
    aborts :
        (s s' : State S) (c : Capture) (ps : List Pending) (cs : List Capture)
        → drop_capture to_str sem s c ≡ some s'
        → Step
            (record { state = s; live = ps; taken = c ∷ cs })
            (record { state = s'; live = ps; taken = cs })
    replayed :
        (s : State S) (ps : List Pending) (cs : List Capture) (serial : ℕ)
        → Step
            (record { state = s; live = ps; taken = cs })
            (record { state = finish_replay sem s serial; live = ps; taken = cs })
    turns :
        (s : State S) (p : Pending) (ps : List Pending) (cs : List Capture)
        → Step
            (record { state = s; live = p ∷ ps; taken = cs })
            (record { state = s; live = ps ++ p ∷ []; taken = cs })
    rolls :
        (s : State S) (c : Capture) (ps : List Pending) (cs : List Capture)
        → Step
            (record { state = s; live = ps; taken = c ∷ cs })
            (record { state = s; live = ps; taken = cs ++ c ∷ [] })

  pub data Reach (w : World S) : World S → Type 0 where
    here : Reach w w
    next : {v v' : World S} → Reach w v → Step v v' → Reach w v'

  abbrev pub opened : S → World S
  opened b = record { state = new_cache b; live = []; taken = [] }
