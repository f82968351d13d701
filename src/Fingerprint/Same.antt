-- ===== src/Fingerprint/Same.antt =====
-- product/src/cache.rs, `ExactCache::request`: requests that are known by the same bytes.
use mathlib.Core.List.{append_assoc}
use deskquota.Common.{
  All, Bool-cases, List, Text, [], ap, arith, contains, false, inl, inr, length, max_u64, refl,
  same_text, same_text_eq, subst, sym, true, ℕ, ◌++◌, ◌∙◌, ◌∷◌, ◌≡◌, ◌≤◌,
}
use deskquota.Headers.{HeaderMap, get_all}
use deskquota.Fingerprint.{frame, group, groups, key_bytes, names, retry_count, to_be_bytes}
use deskquota.Fingerprint.Frames.{Short, count_inj, frame_inj, frames_inj}
use deskquota.Fingerprint.Names.{
  Sized, get_all-Short, get_all-names, length-get_all-le, length-names-le, names-Short,
}

-- One name and its values, at the start of a list.
group_inj :
    (h k : HeaderMap) (n m : Text) (x y : List ℕ)
    → Sized h
    → Sized k
    → Short n
    → Short m
    → group h n ++ x ≡ group k m ++ y
    → (n ≡ m) × (get_all h n ≡ get_all k m) × (x ≡ y)
group_inj h k n m x y (lh, sh) (lk, sk) sn sm e =
    let (name, after_name) =
      frame_inj n m _ _ sn sm (sym (append_assoc (frame n) _ x) ∙ e ∙ append_assoc (frame m) _ y) in
    let (count, after_count) =
      count_inj (length (get_all h n)) (length (get_all k m)) _ _
        (omega (arith, length-get_all-le h n)) (omega (arith, length-get_all-le k m))
        (sym (append_assoc (frame (to_be_bytes (length (get_all h n)))) _ x)
          ∙ after_name
          ∙ append_assoc (frame (to_be_bytes (length (get_all k m)))) _ y) in
    let (values, after) =
      frames_inj (get_all h n) (get_all k m) x y count (get_all-Short h n sh) (get_all-Short k m sk)
        after_count in
    (name, values, after)

groups_inj :
    (h k : HeaderMap) (ns ms : List Text) (x y : List ℕ)
    → Sized h
    → Sized k
    → All Short ns
    → All Short ms
    → length ns ≡ length ms
    → groups h ns ++ x ≡ groups k ms ++ y
    → (ns ≡ ms) × All (λ n. get_all h n ≡ get_all k n) ns × (x ≡ y)
unfolding groups
groups_inj h k [] [] x y sh sk hn hm l e = (refl, tt, e)
groups_inj h k [] (m ∷ ms) x y sh sk hn hm l e = absurd (cc)
groups_inj h k (n ∷ ns) [] x y sh sk hn hm l e = absurd (cc)
groups_inj h k (n ∷ ns) (m ∷ ms) x y sh sk (sn, hn) (sm, hm) l e =
    let (name, values, after) = group_inj h k n m _ _ sh sk sn sm (
      sym (append_assoc (group h n) (groups h ns) x)
      ∙ e
      ∙ append_assoc (group k m) (groups k ms) y) in
    let (names_same, rest, end) = groups_inj h k ns ms x y sh sk hn hm (cc) after in
    (cc, (values ∙ ap (get_all k) (sym name), rest), end)

-- The same values under every name but the counter of retries.
abbrev pub SameHeaders : HeaderMap → HeaderMap → Type 0
SameHeaders h k = (n : Text) → same_text n retry_count ≡ false → get_all h n ≡ get_all k n

listed : (P : Text → Type 0) (ns : List Text) (n : Text) → All P ns → contains ns n ≡ true → P n
listed P [] n a c = absurd (cc)
listed P (m ∷ ms) n (here, there) c = elim (Bool-cases (same_text n m)) [
  | inl e ↦ subst P (sym (same_text_eq n m e)) here
  | inr e ↦ listed P ms n there (ground arith)
]

names-SameHeaders :
    (h k : HeaderMap)
    → names h ≡ names k
    → All (λ n. get_all h n ≡ get_all k n) (names h)
    → SameHeaders h k
names-SameHeaders h k same values n other = elim (Bool-cases (contains (names h) n)) [
  | inl c ↦ listed (λ n. get_all h n ≡ get_all k n) (names h) n values c
  | inr c ↦
      get_all-names h n other c
      ∙ sym (get_all-names k n other (ap (λ ns. contains ns n) (sym same) ∙ c))
]

-- Two requests whose digests are made from the same bytes, with sizes that 64 bits count, are for
-- the same root and the same URL, have the same body, and have the same values in the same order
-- under every header but x-stainless-retry-count: no two requests that differ share a response
-- unless the digest itself collides.
pub key_bytes_inj :
    (root root' : ℕ) (url url' body body' : List ℕ) (h h' : HeaderMap)
    → Sized h
    → Sized h'
    → (root ≤ max_u64) × Short url × Short body
    → (root' ≤ max_u64) × Short url' × Short body'
    → key_bytes root url h body ≡ key_bytes root' url' h' body'
    → (root ≡ root') × (url ≡ url') × (body ≡ body') × SameHeaders h h'
unfolding key_bytes
key_bytes_inj root root' url url' body body' h h' s s' (hr, hu, hb) (hr', hu', hb') e =
    let (same_root, after_root) = count_inj root root' _ _ hr hr' e in
    let (same_url, after_url) = frame_inj url url' _ _ hu hu' after_root in
    let (same_count, after_count) =
      count_inj (length (names h)) (length (names h')) _ _ (omega (arith, length-names-le h, s.0))
        (omega (arith, length-names-le h', s'.0)) after_url in
    let (same_names, values, after_names) =
      groups_inj h h' (names h) (names h') _ _ s s' (names-Short h s.1) (names-Short h' s'.1)
        same_count after_count in
    let (same_body, end) = frame_inj body body' [] [] hb hb' (ap (λ bs. bs ++ []) after_names) in
    (same_root, same_url, same_body, names-SameHeaders h h' same_names values)
