-- ===== src/Capture/Sizes.antt =====
-- product/src/cache.rs, `capture`: the bytes of the headers that are replayed.
use deskquota.Common.{
  Bool-cases, List, Option, Option-cases, Text, inl, inr, [], arith, leb, leb→le, length, max_u64,
  none, refl, some, sum_by, sum_by-append, ℕ, ◌+◌, ◌-◌, ◌∷◌, ◌≡◌,
}
use deskquota.Headers.{HeaderMap, get_all, line_size, stored_size}
use deskquota.Cache.{entry_bytes}
use deskquota.Capture.{
  body_limit, checked_sum, header_bytes, named_values, replayed_headers, replayed_names,
  value_sizes,
}

checked_sum-some :
    (t : Option ℕ) (m n : ℕ) → checked_sum t m ≡ some n → (a : ℕ) × (t ≡ some a) × (a + m ≡ n)
checked_sum-some none m n h = absurd (cc)
checked_sum-some (some a) m n h = elim (Bool-cases (leb (a + m) max_u64)) [
  | inl e ↦ let same : some (a + m) ≡ some n = rw e at h in (a, refl, ground arith)
  | inr e ↦ let none_is : none ≡ some n = rw e at h in absurd (cc)
]

-- The fold over the values of a name ends in the sizes of their lines.
value_sizes-some :
    (name : Text) (t : Option ℕ) (vs : List Text) (n : ℕ)
    → value_sizes name t vs ≡ some n
    → (a : ℕ) × (t ≡ some a) × (a + sum_by line_size (named_values name vs) ≡ n)
unfolding value_sizes
value_sizes-some name t [] n h = (n, h, omega arith)
value_sizes-some name t (v ∷ vs) n h =
    let (b, e, q) = value_sizes-some name (checked_sum t (length name + length v + 4)) vs n h in
    let (a, f, p) = checked_sum-some t (length name + length v + 4) b e in
    (a, f, omega (arith, q, p))

header_bytes-some :
    (h : HeaderMap) (t : Option ℕ) (ns : List Text) (n : ℕ)
    → header_bytes h t ns ≡ some n
    → (a : ℕ) × (t ≡ some a) × (a + sum_by line_size (replayed_headers h ns) ≡ n)
unfolding header_bytes replayed_headers
header_bytes-some h t [] n e = (n, e, omega arith)
header_bytes-some h t (m ∷ ns) n e =
    let (b, f, q) = header_bytes-some h (value_sizes m t (get_all h m)) ns n e in
    let (a, g, p) = value_sizes-some m t (get_all h m) b f in
    (
      a,
      g,
      omega (
        arith,
        q,
        p,
        sum_by-append line_size (named_values m (get_all h m)) (replayed_headers h ns),
      ),
    )

-- The limit of a capture leaves room for the headers that are stored with it.
pub body_limit-stored_size :
    (h : HeaderMap) (limit : ℕ)
    → body_limit (header_bytes h (some 2) replayed_names) ≡ some limit
    → limit + stored_size (replayed_headers h replayed_names) ≡ entry_bytes
unfolding stored_size
body_limit-stored_size h limit e = elim (Option-cases (header_bytes h (some 2) replayed_names)) [
  | inl f ↦ let none_is : none ≡ some limit = rw f at e in absurd (cc)
  | inr (n, f) ↦ elim (Bool-cases (leb n entry_bytes)) [
    | inl g ↦
        let same : some (entry_bytes - n) ≡ some limit = rw (f, g) at e in
        let (a, two, q) = header_bytes-some h (some 2) replayed_names n f in
        ground (arith, q, two, leb→le n entry_bytes g)
    | inr g ↦ let none_is : none ≡ some limit = rw (f, g) at e in absurd (cc)
  ]
]
