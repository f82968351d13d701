-- ===== src/Barrier/Oldest.antt =====
-- product/src/admission/queue.rs, `protect`: which head the barrier protects.
use mathlib.Core.List.{Memᴰ}
use mathlib.Core.Bool.{false≢true}
use deskquota.Common.{
  All, Bool-cases, List, [], any, ap, arith, false, inl, inr, none, refl, some, true, ℕ, ◌∷◌, ◌≡◌,
}
use deskquota.Scheduler.{Queue, Waiting}
use deskquota.Barrier.{heads, is_overdue, next_barrier, older, older_of, oldest, protect, stands}

older_refl : (a : Waiting) → older a a ≡ true
older_refl a = ground arith

older-total : (a b : Waiting) → older a b ≡ false → older b a ≡ true
older-total a b h = ground arith

older_trans : (a b c : Waiting) → older a b ≡ true → older b c ≡ true → older a c ≡ true
older_trans a b c h k = ground arith

-- A head that is at least as old as all of `hs`, and one of them.
abbrev pub IsOldest : ℕ × Waiting → List (ℕ × Waiting) → Type 0
IsOldest m hs = Memᴰ m hs × All (λ h. older m.1 h.1 ≡ true) hs

older_of-IsOldest :
    (h m : ℕ × Waiting) (hs : List (ℕ × Waiting))
    → IsOldest m hs
    → (o : ℕ × Waiting) × (older_of h (some m) ≡ some o) × IsOldest o (h ∷ hs)
older_of-IsOldest h m hs k = elim (Bool-cases (older h.1 m.1)) [
  | inl e ↦ (h, rw e, (Memᴰ.head refl, (older_refl h.1, All-older h m hs e k.1)))
  | inr e ↦ (m, rw e, (Memᴰ.tail k.0, (older-total h.1 m.1 e, k.1)))
]
  where
    All-older :
        (h m : ℕ × Waiting) (hs : List (ℕ × Waiting))
        → older h.1 m.1 ≡ true
        → All (λ x. older m.1 x.1 ≡ true) hs
        → All (λ x. older h.1 x.1 ≡ true) hs
    All-older h m [] e k = tt
    All-older h m (x ∷ xs) e k = (older_trans h.1 m.1 x.1 e k.0, All-older h m xs e k.1)

-- `oldest` finds one, unless there is no head.
oldest-IsOldest :
    (h : ℕ × Waiting) (hs : List (ℕ × Waiting))
    → (m : ℕ × Waiting) × (oldest (h ∷ hs) ≡ some m) × IsOldest m (h ∷ hs)
unfolding oldest
oldest-IsOldest h [] = (h, refl, (Memᴰ.head refl, (older_refl h.1, tt)))
oldest-IsOldest h (x ∷ xs) =
    let (m, e, k) = oldest-IsOldest x xs in
    let (o, f, g) = older_of-IsOldest h m (x ∷ xs) k in (o, rw (ap (older_of h) e) f, g)

raised :
    (now : ℕ) (hs : List (ℕ × Waiting))
    → any (λ h. is_overdue now h.1) hs ≡ true
    → (m : ℕ × Waiting) × (next_barrier now hs ≡ some (m.0, m.1.sequence)) × IsOldest m hs
unfolding next_barrier
raised now [] e = absurd (false≢true e)
raised now (h ∷ hs) e = let (m, f, k) = oldest-IsOldest h hs in (m, rw (e, f), k)

-- Where no barrier stands and some head was bypassed 8 times or has waited 5 seconds, `protect`
-- raises the barrier for a head than which none is older, by the time of its enqueuing and then
-- by its sequence number.
pub protect-IsOldest :
    (q : Queue) (now : ℕ)
    → stands q.roots q.barrier ≡ false
    → any (λ h. is_overdue now h.1) (heads q) ≡ true
    → (m : ℕ × Waiting) × ((protect q now).barrier ≡ some (m.0, m.1.sequence))
      × IsOldest m (heads q)
unfolding protect
protect-IsOldest q now s e = let (m, f, k) = raised now (heads q) e in (m, rw s f, k)

-- Where no barrier stands and no head is overdue, there is none after `protect`.
pub protect-none :
    (q : Queue) (now : ℕ)
    → stands q.roots q.barrier ≡ false
    → any (λ h. is_overdue now h.1) (heads q) ≡ false
    → (protect q now).barrier ≡ none
unfolding protect next_barrier
protect-none q now s e = rw (s, e)
