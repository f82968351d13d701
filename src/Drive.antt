-- ===== src/Drive.antt =====
-- product/src/admission/queue.rs: `drive` and `blocked_reason`. The loop of `drive` takes fuel; a
-- turn that would panic is `panics`.
pub mod Fits
pub mod Serve
pub mod Total
pub mod Kept
pub mod Stops
pub mod Wakes
pub mod Probes
pub mod Gate
use deskquota.Common.{
  Bool, List, Option, [], add_time, any, drop, false, get_or, head?, if◌then◌else◌, is_some, length,
  ltb, min, none, not, set, some, suc, zero, ℕ, ◌%◌, ◌&&◌, ◌+◌, ◌==◌, ◌||◌, ◌∷◌,
}
use deskquota.Quota.{
  Cost, Decision, Ledger, Refusal, admitted, estimate_exceeds_budget, is_generation, wait,
}
use deskquota.Ledger.{admit, check, future, next_wake, refusal, sooner}
use deskquota.Scheduler.{
  Queue, Recovery, Waiting, eligible, estimate_exceeds_budget, granted, len, max_age, max_u8, write,
}
use deskquota.Barrier.{expire, heads, protect}

-- Whether a head fits; `check` advances the ledger.
abbrev pub head_fits : Option Recovery → ℕ → Ledger → Option Waiting → Ledger × Bool
unfolding check
head_fits r now l none = (l, false)
head_fits r now l (some w) =
    let (l', refusal) = check l now w.cost in (l', not (is_some refusal) && eligible r w.cost)

unfoldable pub fits : Option Recovery → ℕ → Ledger → List (List Waiting) → Ledger × List Bool
unfolding head_fits
fits r now l [] = (l, [])
fits r now l (ws ∷ rs) =
    let (l', fit) = head_fits r now l (head? ws) in
    let (l'', rest) = fits r now l' rs in (l'', fit ∷ rest)

-- The first root that fits, from `offset` on, over `k` offsets.
unfoldable pub scan : ℕ → ℕ → ℕ → ℕ → List Bool → Option ℕ
scan zero cursor offset roots fs = none
scan (suc k) cursor offset roots fs =
    let root = (cursor + offset) % roots in
    let rest = scan k cursor (offset + 1) roots fs in
    if get_or fs root false then some root else rest

abbrev pub select : Queue → List Bool → Option ℕ
unfolding scan
select q fs = choose q.barrier
  where
    choose : Option (ℕ × ℕ) → Option ℕ
    choose none = scan (length q.roots) q.cursor 0 (length q.roots) fs
    choose (some (root, s)) = if get_or fs root false then some root else none

abbrev pub bump : List Waiting → List Waiting
bump [] = []
bump (w ∷ ws) = record w { bypasses = min (w.bypasses + 1) max_u8 } ∷ ws

-- Every other head that does not fit is bypassed.
unfoldable pub bypass : ℕ → ℕ → List Bool → List (List Waiting) → List (List Waiting)
bypass i root fs [] = []
bypass i root fs (ws ∷ rs) =
    (if not (i == root) && not (get_or fs i false) then bump ws else ws) ∷ bypass (suc i) root fs rs

abbrev pub probed : Option Recovery → Cost → ℕ → Option Recovery
probed none cost id = none
probed (some r) cost id =
    some (if not r.generation_only || is_generation cost then record r { probe = some id } else r)

-- One round of the loop: it stops, serves a head, or panics.
pub data Turn : Type 0 where
  stops : Queue → Turn
  serves : Queue → Turn
  panics : Turn

-- The reservation for the head that was popped; `unreachable!` where the ledger refuses it.
abbrev pub serve_admitted : Queue → ℕ → Waiting → Ledger → Decision → Turn
serve_admitted q root w l (admitted id) = serves (record q {
  ledger = l;
  recovery = probed q.recovery w.cost id;
  cells = write q.cells w.cell (some (granted id));
  cursor = (root + 1) % length q.roots;
})
serve_admitted q root w l (wait at) = panics
serve_admitted q root w l Decision.estimate_exceeds_budget = panics

abbrev pub serve_head : Queue → ℕ → ℕ → List Waiting → Turn
unfolding admit
serve_head q now root [] = panics
serve_head q now root (w ∷ ws) =
    let (l, d) = admit q.ledger now w.cost in
    serve_admitted (record q { roots = set q.roots root ws }) root w l d

-- The heads that do not fit are bypassed, then the selected head is served.
unfoldable pub serve : Queue → ℕ → List Bool → ℕ → Turn
unfolding bypass serve_head
serve q now fs root =
    let roots = bypass 0 root fs q.roots in
    serve_head (record q { roots = roots }) now root (get_or roots root [])

abbrev pub serve_selected : Queue → ℕ → List Bool → Option ℕ → Turn
unfolding serve
serve_selected q now fs none = stops q
serve_selected q now fs (some root) = serve q now fs root

-- `fits` has 16 places: a head beyond them is out of its bounds.
abbrev pub overflows : List (List Waiting) → Bool
overflows roots = any (λ ws. is_some (head? ws)) (drop 16 roots)

unfoldable pub turn_ready : Queue → ℕ → Turn
unfolding fits serve_selected select
turn_ready q now =
    if overflows q.roots
    then panics
    else (let (l, fs) = fits q.recovery now q.ledger q.roots in
        serve_selected (record q { ledger = l }) now fs (select q fs))

unfoldable pub turn : Queue → ℕ → Turn
unfolding protect turn_ready
turn q now =
    let q' = protect q now in if ltb now q'.cooldown_until then stops q' else turn_ready q' now

pub data Rounds : Type 0 where
  done : Queue → Rounds
  panicked out_of_fuel : Rounds

-- The rest of the rounds, by what the turn did.
abbrev pub after_turn : (Queue → Rounds) → Turn → Rounds
after_turn rest (stops q) = done q
after_turn rest (serves q) = rest q
after_turn rest panics = panicked

unfoldable pub rounds : ℕ → ℕ → Queue → Rounds
unfolding turn
rounds zero now q = out_of_fuel
rounds (suc fuel) now q = after_turn (λ q'. rounds fuel now q') (turn q now)

unfoldable pub deadlines : List Waiting → Option ℕ
deadlines [] = none
deadlines (w ∷ ws) = sooner (some w.deadline) (deadlines ws)

unfoldable pub all_deadlines : List (List Waiting) → Option ℕ
unfolding deadlines
all_deadlines [] = none
all_deadlines (ws ∷ rs) = sooner (deadlines ws) (all_deadlines rs)

unfoldable pub ages : ℕ → List (ℕ × Waiting) → Option ℕ
ages now [] = none
ages now ((root, w) ∷ hs) = sooner (future now (some (add_time w.enqueued max_age))) (ages now hs)

-- The time at which the caller must drive the queue again.
unfoldable pub wake : Queue → ℕ → Option ℕ
unfolding all_deadlines ages next_wake
wake q now =
    if len q == 0
    then none
    else sooner (all_deadlines q.roots) (
        sooner (ages now (heads q))
          (if ltb now q.cooldown_until then some q.cooldown_until else next_wake q.ledger))

unfoldable pub drive : Queue → ℕ → Rounds
unfolding expire rounds
drive q now = let q' = expire q now in rounds (suc (len q')) now q'

-- `blocked_reason`: the two gates of the queue, or a refusal of the ledger.
pub data Reason : Type 0 where
  upstream_cooldown upstream_recovery : Reason
  by_ledger : Refusal → Reason

abbrev reason_of : Option Refusal → Option Reason
reason_of none = none
reason_of (some r) = some (by_ledger r)

unfoldable pub first_refusal : ℕ → Ledger → List (ℕ × Waiting) → Ledger × Option Refusal
unfolding check
first_refusal now l [] = (l, none)
first_refusal now l ((root, w) ∷ hs) =
    let (l', r) = check l now w.cost in
    let rest = first_refusal now l' hs in elim r [ some x ↦ (l', some x) | none ↦ rest ]

abbrev barrier_refusal : Ledger → ℕ → Option Waiting → Ledger × Option Refusal
unfolding check
barrier_refusal l now none = (l, none)
barrier_refusal l now (some w) = check l now w.cost

abbrev ledger_refusal : Queue → ℕ → Option (ℕ × ℕ) → Ledger × Option Refusal
unfolding barrier_refusal first_refusal
ledger_refusal q now (some (root, s)) =
    barrier_refusal q.ledger now (head? (get_or q.roots root []))
ledger_refusal q now none = first_refusal now q.ledger (heads q)

unfoldable pub blocked_reason : Queue → ℕ → Queue × Option Reason
unfolding ledger_refusal
blocked_reason q now =
    if len q == 0
    then (q, none)
    else if ltb now q.cooldown_until
    then (q, some upstream_cooldown)
    else if any (λ h. not (eligible q.recovery h.1.cost)) (heads q)
    then (q, some upstream_recovery)
    else (let (l, r) = ledger_refusal q now q.barrier in (record q { ledger = l }, reason_of r))
