-- ===== src/Drive/Serve.antt =====
-- product/src/admission/queue.rs, `drive`: what a turn that serves a head does to the queue.
use native.Mathlib.Nat.{mod-lt}
use deskquota.Common.{
  Bool, List, [], ap, arith, drop, false, get_or, length, none, refl, set, some, suc, zero, ℕ, ◌%◌,
  ◌+◌, ◌<◌, ◌∙◌, ◌∷◌, ◌≡◌, ◌≤◌,
}
use deskquota.Quota.{Decision, Ledger, admitted}
use deskquota.Ledger.{admit, advance, check}
use deskquota.Ledger.Tally.{check-Admits}
use deskquota.Ledger.Invariant.{Inv, admitted_ledger, admitted_ledger-Inv, advance-Inv}
use deskquota.Ledger.Repeat.{admit_granted}
use deskquota.Scheduler.{Queue, Waiting, granted, len, waiting_in, write}
use deskquota.Drive.{bump, bypass, overflows, probed, serve, serve_admitted, serve_head, serves}

-- The queue in which the ledger is sound, the roots fit the 16 places of `fits` and the cursor
-- stands on a root.
pub record Ready (q : Queue) : Type 0 where
  pub sound : Inv q.ledger
  pub places : length q.roots ≤ 16
  pub turning : 0 < length q.roots → q.cursor < length q.roots

length-bump : (ws : List Waiting) → length (bump ws) ≡ length ws
length-bump [] = refl
length-bump (w ∷ ws) = refl

module _ (root : ℕ) (fs : List Bool) where
  waiting_in-bypass :
      (i : ℕ) (rs : List (List Waiting)) → waiting_in (bypass i root fs rs) ≡ waiting_in rs
  unfolding bypass
  waiting_in-bypass i [] = refl
  waiting_in-bypass i (ws ∷ rs) = ground (arith, length-bump ws, waiting_in-bypass (suc i) rs)

  length-bypass : (i : ℕ) (rs : List (List Waiting)) → length (bypass i root fs rs) ≡ length rs
  unfolding bypass
  length-bypass i [] = refl
  length-bypass i (ws ∷ rs) = ap suc (length-bypass (suc i) rs)

  -- The selected root itself is not bypassed.
  pub get_or-bypass :
      (i k : ℕ) (rs : List (List Waiting))
      → i + k ≡ root
      → get_or (bypass i root fs rs) k [] ≡ get_or rs k []
  unfolding bypass
  get_or-bypass i k [] e = refl
  get_or-bypass i zero (ws ∷ rs) e = ground arith
  get_or-bypass i (suc k) (ws ∷ rs) e = get_or-bypass (suc i) k rs (omega arith)

-- Serving the head of a root leaves one request less.
waiting_in-set :
    (rs : List (List Waiting)) (root : ℕ) (w : Waiting) (ws : List Waiting)
    → get_or rs root [] ≡ w ∷ ws
    → suc (waiting_in (set rs root ws)) ≡ waiting_in rs
waiting_in-set [] root w ws h = absurd (cc)
waiting_in-set (r ∷ rs) zero w ws h = omega (arith, ap length h)
waiting_in-set (r ∷ rs) (suc root) w ws h = omega (arith, waiting_in-set rs root w ws h)

-- The queue after the head `w` of `root` was served under the identity `id`.
abbrev pub served : Queue → ℕ → List Bool → ℕ → Waiting → List Waiting → ℕ → Ledger → Queue
served q now fs root w ws id l = record q {
  ledger = l;
  roots = set (bypass 0 root fs q.roots) root ws;
  recovery = probed q.recovery w.cost id;
  cells = write q.cells w.cell (some (granted id));
  cursor = (root + 1) % length (set (bypass 0 root fs q.roots) root ws);
}

serve_head_lem :
    (q : Queue) (now root : ℕ) (w : Waiting) (ws : List Waiting) (l : Ledger) (id : ℕ)
    → admit q.ledger now w.cost ≡ (l, admitted id)
    → serve_head q now root (w ∷ ws)
      ≡ serve_admitted (record q { roots = set q.roots root ws }) root w l (admitted id)
unfolding serve_head
serve_head_lem q now root w ws l id e =
    ap
      (λ (a : Ledger × Decision).
        serve_admitted (record q { roots = set q.roots root ws }) root w a.0 a.1)
      e

-- A head that fits is served: it leaves its root, its reservation is admitted under the next
-- identity, and its cell receives the identity.
pub serve_lem :
    (q : Queue) (now : ℕ) (fs : List Bool) (root : ℕ) (w : Waiting) (ws : List Waiting)
    → Inv q.ledger
    → get_or q.roots root [] ≡ w ∷ ws
    → (check q.ledger now w.cost).1 ≡ none
    → serve q now fs root
      ≡ serves (
          served q now fs root w ws
            (q.ledger.next + 1)
            (admitted_ledger (advance q.ledger now) w.cost))
unfolding serve
serve_lem q now fs root w ws v h c =
    rw (get_or-bypass root fs 0 root q.roots (omega arith), h)
      (serve_head_lem (record q { roots = bypass 0 root fs q.roots }) now root w ws _ _
        (admit_granted q.ledger now w.cost v c))

drop_all {ℓ} : {A : Type ℓ} (n : ℕ) (xs : List A) → length xs ≤ n → drop n xs ≡ []
drop_all zero [] h = refl
drop_all zero (x ∷ xs) h = absurd (omega arith)
drop_all (suc n) [] h = refl
drop_all (suc n) (x ∷ xs) h = drop_all n xs (omega arith)

pub overflows-false : (rs : List (List Waiting)) → length rs ≤ 16 → overflows rs ≡ false
overflows-false rs h = rw (drop_all 16 rs h)

length-set : (rs : List (List Waiting)) (i : ℕ) (v : List Waiting) → length (set rs i v) ≡ length rs
length-set [] i v = refl
length-set (r ∷ rs) zero v = refl
length-set (r ∷ rs) (suc i) v = ap suc (length-set rs i v)

-- A served queue is as ready as before, and one request shorter.
pub served-Ready :
    (q : Queue) (now : ℕ) (fs : List Bool) (root : ℕ) (w : Waiting) (ws : List Waiting)
    → Ready q
    → get_or q.roots root [] ≡ w ∷ ws
    → (check q.ledger now w.cost).1 ≡ none
    → let q' =
        served q now fs root w ws
          (q.ledger.next + 1)
          (admitted_ledger (advance q.ledger now) w.cost) in
      Ready q' × (suc (len q') ≡ len q)
served-Ready q now fs root w ws v h c = (
  record {
    sound =
        admitted_ledger-Inv (advance q.ledger now) w.cost (advance-Inv q.ledger now v.sound)
          ((check-Admits q.ledger now w.cost).0 c);
    turning = λ h. mod-lt (root + 1) h;
    places = omega (
      arith,
      v.places,
      length-set (bypass 0 root fs q.roots) root ws,
      length-bypass root fs 0 q.roots,
    );
  },
  omega (
    arith,
    waiting_in-set (bypass 0 root fs q.roots) root w ws
        (get_or-bypass root fs 0 root q.roots (omega arith) ∙ h),
    waiting_in-bypass root fs 0 q.roots,
  ),
)
