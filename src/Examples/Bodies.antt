-- ===== src/Examples/Bodies.antt =====
-- product/src/transport/body_budget.rs with a semaphore that counts its permits.
use deskquota.Common.{
  Option, [], arith, if◌then◌else◌, leb, none, refl, some, ℕ, ◌+◌, ◌-◌, ◌∷◌, ◌≡◌,
}
use deskquota.BodyBudget.{chunk, other, read_body}
use deskquota.BodyBudget.Held.{Settled, read_body-Settled}

abbrev counted : ℕ → ℕ → Option ℕ
counted s n = if leb n s then some (s - n) else none

counted_takes : (s s' n : ℕ) → counted s n ≡ some s' → s' + n ≡ s
counted_takes s s' n h = ground arith

read_body-Settled_example :
    Settled (λ s. s) 5 (read_body counted ◌+◌ 5 (chunk (1 ∷ 2 ∷ []) ∷ other ∷ chunk (3 ∷ []) ∷ []))
read_body-Settled_example =
    read_body-Settled counted ◌+◌ (λ s. s) counted_takes (λ s n. refl) 5
      (chunk (1 ∷ 2 ∷ []) ∷ other ∷ chunk (3 ∷ []) ∷ [])
