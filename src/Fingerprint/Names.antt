-- ===== src/Fingerprint/Names.antt =====
-- product/src/cache.rs, `ExactCache::request`: the names of a header map, sorted.
use deskquota.Common.{
  All, Bool, Bool-cases, List, Text, [], ap, arith, contains, false, inl, inr, length,
  length-retain-le, max_u64, not, refl, retain, same_text, same_text_eq, same_text_refl, suc, sym,
  true, ◌||◌, ◌∙◌, ◌∷◌, ◌≡◌, ◌≤◌,
}
use deskquota.Headers.{HeaderMap, get_all}
use deskquota.Fingerprint.{insert_name, keys, names, retry_count, sort_names, text_leb}
use deskquota.Fingerprint.Frames.{Short}

-- A header map that is in memory: 64 bits count its lines and the bytes of each.
abbrev pub Sized : HeaderMap → Type 0
Sized h = (length h ≤ max_u64) × All (λ x. Short x.0 × Short x.1) h

pub length-get_all-le : (h : HeaderMap) (n : Text) → length (get_all h n) ≤ length h
unfolding get_all
length-get_all-le [] n = omega arith
length-get_all-le ((m, v) ∷ h) n = ground (arith, length-get_all-le h n)

pub get_all-Short :
    (h : HeaderMap) (n : Text) → All (λ x. Short x.0 × Short x.1) h → All Short (get_all h n)
unfolding get_all
get_all-Short [] n s = tt
get_all-Short ((m, v) ∷ h) n (here, there) = elim (Bool-cases (same_text m n)) [
  | inl e ↦ rw e (here.1, get_all-Short h n there)
  | inr e ↦ rw e (get_all-Short h n there)
]

length-keys-le : (h : HeaderMap) → length (keys h) ≤ length h
unfolding keys
length-keys-le [] = omega arith
length-keys-le ((n, v) ∷ h) =
    omega (arith, length-retain-le (λ m. not (same_text m n)) (keys h), length-keys-le h)

length-insert_name : (n : Text) (ns : List Text) → length (insert_name n ns) ≡ suc (length ns)
length-insert_name n [] = refl
length-insert_name n (m ∷ ms) = ground (arith, length-insert_name n ms)

length-sort_names : (ns : List Text) → length (sort_names ns) ≡ length ns
unfolding sort_names
length-sort_names [] = refl
length-sort_names (n ∷ ns) = length-insert_name n (sort_names ns) ∙ ap suc (length-sort_names ns)

pub length-names-le : (h : HeaderMap) → length (names h) ≤ length h
unfolding names
length-names-le h =
    let kept = retain (λ n. not (same_text n retry_count)) (keys h) in
    omega (
      arith,
      length-sort_names kept,
      length-retain-le (λ n. not (same_text n retry_count)) (keys h),
      length-keys-le h,
    )

module _ (P : Text → Type 0) where
  retain-All : (p : Text → Bool) (ns : List Text) → All P ns → All P (retain p ns)
  retain-All p [] a = tt
  retain-All p (n ∷ ns) (here, there) = elim (Bool-cases (p n)) [
    | inl e ↦ rw e (here, retain-All p ns there)
    | inr e ↦ rw e (retain-All p ns there)
  ]

  insert_name-All : (n : Text) (ns : List Text) → P n → All P ns → All P (insert_name n ns)
  insert_name-All n [] p a = (p, tt)
  insert_name-All n (m ∷ ms) p (here, there) = elim (Bool-cases (text_leb n m)) [
    | inl e ↦ rw e (p, (here, there))
    | inr e ↦ rw e (here, insert_name-All n ms p there)
  ]

  sort_names-All : (ns : List Text) → All P ns → All P (sort_names ns)
  unfolding sort_names
  sort_names-All [] a = tt
  sort_names-All (n ∷ ns) (here, there) =
      insert_name-All n (sort_names ns) here (sort_names-All ns there)

keys-Short : (h : HeaderMap) → All (λ x. Short x.0 × Short x.1) h → All Short (keys h)
unfolding keys
keys-Short [] s = tt
keys-Short ((n, v) ∷ h) (here, there) =
    (here.0, retain-All Short (λ m. not (same_text m n)) (keys h) (keys-Short h there))

pub names-Short : (h : HeaderMap) → All (λ x. Short x.0 × Short x.1) h → All Short (names h)
unfolding names
names-Short h s =
    sort_names-All Short (retain (λ n. not (same_text n retry_count)) (keys h))
      (retain-All Short (λ n. not (same_text n retry_count)) (keys h) (keys-Short h s))

retain-contains :
    (p : Text → Bool) (ns : List Text) (n : Text)
    → p n ≡ true
    → contains (retain p ns) n ≡ contains ns n
retain-contains p [] n h = refl
retain-contains p (m ∷ ms) n h = elim (Bool-cases (p m)) [
  | inl e ↦ rw (e, retain-contains p ms n h) refl
  | inr e ↦ rw (e, retain-contains p ms n h, unlike p n m h e) refl
]
  where
    unlike : (q : Text → Bool) (a b : Text) → q a ≡ true → q b ≡ false → same_text a b ≡ false
    unlike q a b ha hb = elim (Bool-cases (same_text a b)) [
      | inl e ↦ (let same = same_text_eq a b e in cc)
      | inr e ↦ e
    ]

insert_name-contains :
    (m n : Text) (ns : List Text) → contains (insert_name m ns) n ≡ same_text n m || contains ns n
insert_name-contains m n [] = refl
insert_name-contains m n (k ∷ ks) = ground (arith, insert_name-contains m n ks)

sort_names-contains : (ns : List Text) (n : Text) → contains (sort_names ns) n ≡ contains ns n
unfolding sort_names
sort_names-contains [] n = refl
sort_names-contains (m ∷ ms) n =
    insert_name-contains m n (sort_names ms)
    ∙ ap (λ b. same_text n m || b) (sort_names-contains ms n)

different : (a b : Text) → same_text a b ≡ false → same_text b a ≡ false
different a b h = elim (Bool-cases (same_text b a)) [
  | inl e ↦ (let same = same_text_eq b a e in let again = same_text_refl a in cc)
  | inr e ↦ e
]

get_all-keys : (h : HeaderMap) (n : Text) → contains (keys h) n ≡ false → get_all h n ≡ []
unfolding keys get_all
get_all-keys [] n c = refl
get_all-keys ((m, v) ∷ h) n c =
    let other : same_text n m ≡ false = ground arith in
    let gone : contains (keys h) n ≡ false =
      sym (retain-contains (λ k. not (same_text k m)) (keys h) n (rw other refl)) ∙ ground arith in
    rw (different n m other) (get_all-keys h n gone)

-- A name that is not in the list, and is not the one left out, has no value.
pub get_all-names :
    (h : HeaderMap) (n : Text)
    → same_text n retry_count ≡ false
    → contains (names h) n ≡ false
    → get_all h n ≡ []
unfolding names
get_all-names h n other c = get_all-keys h n (
    sym (retain-contains (λ m. not (same_text m retry_count)) (keys h) n (rw other refl))
    ∙ sym (sort_names-contains (retain (λ m. not (same_text m retry_count)) (keys h)) n)
    ∙ c)
