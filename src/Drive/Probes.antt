-- ===== src/Drive/Probes.antt =====
-- product/src/admission/queue.rs, `drive` under a recovery gate: which reservation is the probe.
use deskquota.Common.{
  Bool, Bool-cases, List, Option, [], any, arith, false, head?, if◌then◌else◌, inl, inr, is_some,
  max, none, not, refl, retain, some, sym, true, ℕ, ◌&&◌, ◌++◌, ◌+◌, ◌<◌, ◌==◌, ◌||◌, ◌∷◌, ◌≡◌, ◌≤◌,
  ◌⊎◌,
}
use deskquota.Quota.{Cost, Entry, Ledger, is_generation}
use deskquota.Ledger.{advance, check, reservation_of, retained_at}
use deskquota.Ledger.Tally.{check-advance}
use deskquota.Ledger.Invariant.{admitted_ledger}
use deskquota.Scheduler.{Recovery, Waiting, eligible}
use deskquota.Drive.{fits, head_fits}

-- The reservation that was made under the identity for a request that may not pass the gate
-- without being its probe.
abbrev pub let_through : Recovery → ℕ → Entry → Bool
let_through r id e =
    (e.id == id) && ((e.active && not e.started) && not (r.generation_only && e.is_meta))

-- The probe is the one of `r`, or there was none and it is a reservation that the ledger holds for
-- a gated request, under an identity after `last`.
abbrev pub Probes : Recovery → ℕ → List Entry → Option ℕ → Type 0
Probes r last es probe =
    (probe ≡ r.probe)
    ⊎ ((r.probe ≡ none)
        × ((id : ℕ) × (probe ≡ some id) × (last < id) × (any (let_through r id) es ≡ true)))

any-append : (p : Entry → Bool) (es ds : List Entry) → any p es ≡ true → any p (es ++ ds) ≡ true
any-append p [] ds h = absurd (cc)
any-append p (e ∷ es) ds h = ground (arith, any-append p es ds)

any-append_one :
    (p : Entry → Bool) (es : List Entry) (d : Entry) → p d ≡ true → any p (es ++ d ∷ []) ≡ true
any-append_one p [] d h = rw h refl
any-append_one p (e ∷ es) d h = rw (any-append_one p es d h) (ground arith)

any-retain :
    (p k : Entry → Bool) (es : List Entry)
    → ((e : Entry) → p e ≡ true → k e ≡ true)
    → any p es ≡ true
    → any p (retain k es) ≡ true
any-retain p k [] f h = absurd (cc)
any-retain p k (e ∷ es) f h = elim (Bool-cases (p e)) [
  | inl a ↦ rw (f e a, a) refl
  | inr a ↦ elim (Bool-cases (k e)) [
    | inl b ↦ rw b (rw a (any-retain p k es f (ground arith)))
    | inr b ↦ rw b (any-retain p k es f (ground arith))
  ]
]

-- An identity and a reservation that is active stay in the ledger when time goes on.
module _ (r : Recovery) (last : ℕ) where
  Probes-advance :
      (l : Ledger) (now : ℕ) (probe : Option ℕ)
      → Probes r last l.entries probe
      → Probes r last (advance l now).entries probe
  unfolding advance
  Probes-advance l now probe (inl e) = inl e
  Probes-advance l now probe (inr (n, (id, e, lt, a))) = inr (
    n,
    (
      id,
      e,
      lt,
      any-retain (let_through r id) (retained_at (max l.now now)) l.entries (λ x h. ground arith) a,
    ),
  )

  pub next-advance : (l : Ledger) (now : ℕ) → (advance l now).next ≡ l.next
  unfolding advance
  next-advance l now = refl

  check-Probes :
      (l : Ledger) (now : ℕ) (cost : Cost) (probe : Option ℕ)
      → (last ≤ l.next) × Probes r last l.entries probe
      → (last ≤ (check l now cost).0.next) × Probes r last (check l now cost).0.entries probe
  check-Probes l now cost probe (le, h) =
      rw (check-advance l now cost) (rw (next-advance l now) le, Probes-advance l now probe h)

  head_fits-Probes :
      (g : Option Recovery) (now : ℕ) (l : Ledger) (w : Option Waiting) (probe : Option ℕ)
      → (last ≤ l.next) × Probes r last l.entries probe
      → (last ≤ (head_fits g now l w).0.next) × Probes r last (head_fits g now l w).0.entries probe
  unfolding head_fits
  head_fits-Probes g now l none probe h = h
  head_fits-Probes g now l (some w) probe h = check-Probes l now w.cost probe h

  pub fits-Probes :
      (g : Option Recovery) (now : ℕ) (l : Ledger) (rs : List (List Waiting)) (probe : Option ℕ)
      → (last ≤ l.next) × Probes r last l.entries probe
      → (last ≤ (fits g now l rs).0.next) × Probes r last (fits g now l rs).0.entries probe
  unfolding fits
  fits-Probes g now l [] probe h = h
  fits-Probes g now l (ws ∷ rs) probe h =
      fits-Probes g now (head_fits g now l (head? ws)).0 rs probe
        (head_fits-Probes g now l (head? ws) probe h)

  Probes-admitted :
      (l : Ledger) (cost : Cost) (probe : Option ℕ)
      → Probes r last l.entries probe
      → Probes r last (admitted_ledger l cost).entries probe
  Probes-admitted l cost probe (inl e) = inl e
  Probes-admitted l cost probe (inr (n, (id, e, lt, a))) =
      inr (n, (id, e, lt, any-append (let_through r id) l.entries _ a))

  -- The reservation of a gated request becomes the probe.
  Probes-probed :
      (l : Ledger) (cost : Cost) (probe : Option ℕ)
      → not r.generation_only || is_generation cost ≡ true
      → is_some probe ≡ false
      → last ≤ l.next
      → Probes r last l.entries probe
      → Probes r last (admitted_ledger l cost).entries (some (l.next + 1))
  Probes-probed l cost probe c free le h = inr (
    none_before probe free h,
    (
      l.next + 1,
      refl,
      omega (arith, le),
      any-append_one (let_through r (l.next + 1)) l.entries (reservation_of l (l.next + 1) cost)
          (own cost c),
    ),
  )
    where
      none_before : (o : Option ℕ) → is_some o ≡ false → Probes r last l.entries o → r.probe ≡ none
      none_before none f (inl e) = sym e
      none_before none f (inr (n, _)) = n
      none_before (some id) f p = absurd (cc)

      own :
          (k : Cost)
          → not r.generation_only || is_generation k ≡ true
          → let_through r (l.next + 1) (reservation_of l (l.next + 1) k) ≡ true
      own k c = ground arith

  -- The gate after a head that may pass it was served.
  pub served-Probes :
      (l : Ledger) (now : ℕ) (r' : Recovery) (cost : Cost)
      → r'.generation_only ≡ r.generation_only
      → eligible (some r') cost ≡ true
      → last ≤ l.next
      → Probes r last l.entries r'.probe
      → Probes r last
          (admitted_ledger (advance l now) cost).entries
          (if not r'.generation_only || is_generation cost
            then record r' { probe = some (l.next + 1) }
            else r').probe
  unfolding advance
  served-Probes l now r' cost g k le h =
      let later = Probes-advance l now r'.probe h in
      elim (Bool-cases (not r'.generation_only || is_generation cost)) [
        | inl c ↦ rw c (
            Probes-probed (advance l now) cost r'.probe (ground (arith, g)) (ground arith) le later)
        | inr c ↦ rw c (Probes-admitted (advance l now) cost r'.probe later)
      ]
