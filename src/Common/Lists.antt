-- ===== src/Common/Lists.antt =====
-- Lists measured by native numbers: the library's names where it has them, and the loops of
-- Rust's `Vec` and iterators that the program uses (`retain`, `any`, `swap_remove`, sums).
use Prim.Native.Nat.{ℕ, zero, suc, ◌+◌, ◌*◌, ◌≤◌}
use mathlib.Core.Path.{◌≡◌, refl}
use mathlib.Core.Bool.{Bool, true, false, ◌||◌}
use mathlib.Core.Option.{Option, none, some}
use mathlib.Core.List.{List, [], ◌∷◌, ◌++◌}
use native.Mathlib.Omega.{arith}
use deskquota.Common.Tests.{if◌then◌else◌, bit}

module _ {ℓ} {A : Type ℓ} where
  abbrev pub length : List A → ℕ
  length [] = 0
  length (x ∷ xs) = suc (length xs)

  abbrev pub get_elem? : List A → ℕ → Option A
  get_elem? [] i = none
  get_elem? (x ∷ xs) zero = some x
  get_elem? (x ∷ xs) (suc i) = get_elem? xs i

  -- A write out of bounds changes nothing.
  abbrev pub set : List A → ℕ → A → List A
  set [] i v = []
  set (x ∷ xs) zero v = v ∷ xs
  set (x ∷ xs) (suc i) v = x ∷ set xs i v

  -- A change of the element at an index.
  abbrev pub modify : (A → A) → List A → ℕ → List A
  modify f [] i = []
  modify f (x ∷ xs) zero = f x ∷ xs
  modify f (x ∷ xs) (suc i) = x ∷ modify f xs i

  abbrev pub get_or : List A → ℕ → A → A
  get_or [] i d = d
  get_or (x ∷ xs) zero d = x
  get_or (x ∷ xs) (suc i) d = get_or xs i d

  abbrev pub drop : ℕ → List A → List A
  drop zero xs = xs
  drop (suc n) [] = []
  drop (suc n) (x ∷ xs) = drop n xs

  abbrev pub replicate : ℕ → A → List A
  replicate zero a = []
  replicate (suc n) a = a ∷ replicate n a

  abbrev pub head? : List A → Option A
  head? [] = none
  head? (x ∷ xs) = some x

  -- `Vec::retain`.
  abbrev pub retain : (A → Bool) → List A → List A
  retain p [] = []
  retain p (x ∷ xs) = if p x then x ∷ retain p xs else retain p xs

  -- `iter().any(p)`.
  abbrev pub any : (A → Bool) → List A → Bool
  any p [] = false
  any p (x ∷ xs) = p x || any p xs

  -- A sum over the list.
  abbrev pub sum_by : (A → ℕ) → List A → ℕ
  sum_by f [] = 0
  sum_by f (x ∷ xs) = f x + sum_by f xs

  -- `iter().filter(p).count()`.
  abbrev pub count_if : (A → Bool) → List A → ℕ
  count_if p xs = sum_by (λ x. bit (p x)) xs

  -- The list without its last element, and that element.
  abbrev pub pop_last : A → List A → List A × A
  pop_last x [] = ([], x)
  pop_last x (y ∷ ys) = let (front, last) = pop_last y ys in (x ∷ front, last)

  abbrev swap_first : List A → List A
  swap_first [] = []
  swap_first (y ∷ ys) = let (front, last) = pop_last y ys in last ∷ front

  -- `Vec::swap_remove` of the first element that satisfies `p`: the last one takes its place.
  abbrev pub swap_remove : (A → Bool) → List A → List A
  swap_remove p [] = []
  swap_remove p (x ∷ xs) = if p x then swap_first xs else x ∷ swap_remove p xs

  -- `iter_mut().find(p)`, followed by the update `f` of the element found.
  abbrev pub update_first : (A → Bool) → (A → A) → List A → List A
  update_first p f [] = []
  update_first p f (x ∷ xs) = if p x then f x ∷ xs else x ∷ update_first p f xs

  -- `position(p)`, followed by the removal of the element there.
  abbrev pub remove_first : (A → Bool) → List A → List A
  remove_first p [] = []
  remove_first p (x ∷ xs) = if p x then xs else x ∷ remove_first p xs

  -- `iter().find(p)`.
  abbrev pub find : (A → Bool) → List A → Option A
  find p [] = none
  find p (x ∷ xs) = if p x then some x else find p xs

module _ {ℓ κ} {A : Type ℓ} where
  abbrev pub All : (A → Type κ) → List A → Type κ
  All P [] = Unit
  All P (x ∷ xs) = P x × All P xs

module _ {ℓ} {A : Type ℓ} where
  pub length-append : (xs ys : List A) → length (xs ++ ys) ≡ length xs + length ys
  length-append [] ys = omega arith
  length-append (x ∷ xs) ys = omega (arith, length-append xs ys)

  pub sum_by-append : (f : A → ℕ) (xs ys : List A) → sum_by f (xs ++ ys) ≡ sum_by f xs + sum_by f ys
  sum_by-append f [] ys = omega arith
  sum_by-append f (x ∷ xs) ys = omega (arith, sum_by-append f xs ys)

  pub length-retain-le : (p : A → Bool) (xs : List A) → length (retain p xs) ≤ length xs
  length-retain-le p [] = omega arith
  length-retain-le p (x ∷ xs) = ground (arith, length-retain-le p xs)

  pub sum_by-retain-le :
      (f : A → ℕ) (p : A → Bool) (xs : List A) → sum_by f (retain p xs) ≤ sum_by f xs
  sum_by-retain-le f p [] = omega arith
  sum_by-retain-le f p (x ∷ xs) = ground (arith, sum_by-retain-le f p xs)

  -- What `retain` drops may be left out of a sum in which it counts for nothing.
  pub sum_by-retain :
      (f : A → ℕ) (p : A → Bool)
      → ((a : A) → p a ≡ false → f a ≡ 0)
      → (xs : List A) → sum_by f (retain p xs) ≡ sum_by f xs
  sum_by-retain f p h [] = refl
  sum_by-retain f p h (x ∷ xs) = ground (arith, sum_by-retain f p h xs, h x)

  pub sum_by_congr :
      (f g : A → ℕ) → ((a : A) → f a ≡ g a) → (xs : List A) → sum_by f xs ≡ sum_by g xs
  sum_by_congr f g h [] = refl
  sum_by_congr f g h (x ∷ xs) = ground (arith, h x, sum_by_congr f g h xs)

  pub sum_by_mono :
      (f g : A → ℕ) → ((a : A) → f a ≤ g a) → (xs : List A) → sum_by f xs ≤ sum_by g xs
  sum_by_mono f g h [] = omega arith
  sum_by_mono f g h (x ∷ xs) = omega (arith, h x, sum_by_mono f g h xs)

  pub sum_by_le_mul :
      (f : A → ℕ) (b : ℕ) (xs : List A) → All (λ x. f x ≤ b) xs → sum_by f xs ≤ length xs * b
  sum_by_le_mul f b [] h = omega arith
  sum_by_le_mul f b (x ∷ xs) h = grind (arith, sum_by_le_mul f b xs h.1)

  sum_by-pop_last :
      (f : A → ℕ) (x : A) (xs : List A)
      → f (pop_last x xs).1 + sum_by f (pop_last x xs).0 ≡ f x + sum_by f xs
  sum_by-pop_last f x [] = omega arith
  sum_by-pop_last f x (y ∷ ys) = omega (arith, sum_by-pop_last f y ys)

  sum_by-swap_first : (f : A → ℕ) (xs : List A) → sum_by f (swap_first xs) ≡ sum_by f xs
  sum_by-swap_first f [] = refl
  sum_by-swap_first f (y ∷ ys) = sum_by-pop_last f y ys

  -- Removal takes the element found out of every sum, and no other.
  pub sum_by-swap_remove :
      (f : A → ℕ) (p : A → Bool) (xs : List A) (x : A)
      → find p xs ≡ some x
      → f x + sum_by f (swap_remove p xs) ≡ sum_by f xs
  sum_by-swap_remove f p [] x h = absurd (cc)
  sum_by-swap_remove f p (y ∷ ys) x h =
      ground (arith, sum_by-swap_first f ys, sum_by-swap_remove f p ys x)

  pub sum_by-update_first :
      (f : A → ℕ) (p : A → Bool) (u : A → A) (xs : List A) (x : A)
      → find p xs ≡ some x
      → f x + sum_by f (update_first p u xs) ≡ f (u x) + sum_by f xs
  sum_by-update_first f p u [] x h = absurd (cc)
  sum_by-update_first f p u (y ∷ ys) x h = ground (arith, sum_by-update_first f p u ys x)

  pub find-true : (p : A → Bool) (xs : List A) (x : A) → find p xs ≡ some x → p x ≡ true
  find-true p [] x h = absurd (cc)
  find-true p (y ∷ ys) x h = ground (arith, find-true p ys x)

  pub length-sum_by : (xs : List A) → sum_by (λ _. 1) xs ≡ length xs
  length-sum_by [] = refl
  length-sum_by (x ∷ xs) = omega (arith, length-sum_by xs)

  pub length-update_first :
      (p : A → Bool) (u : A → A) (xs : List A) → length (update_first p u xs) ≡ length xs
  length-update_first p u [] = refl
  length-update_first p u (x ∷ xs) = ground (arith, length-update_first p u xs)

  pub length-swap_remove :
      (p : A → Bool) (xs : List A) (x : A)
      → find p xs ≡ some x
      → suc (length (swap_remove p xs)) ≡ length xs
  length-swap_remove p xs x h = omega (
    arith,
    length-sum_by (swap_remove p xs),
    length-sum_by xs,
    sum_by-swap_remove (λ _. 1) p xs x h,
  )
