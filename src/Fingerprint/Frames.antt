-- ===== src/Fingerprint/Frames.antt =====
-- product/src/cache.rs, `frame` of `ExactCache::request`: frames are free of prefixes.
use mathlib.Core.List.{append_assoc}
use deskquota.Common.{
  All, List, Text, [], ap, arith, length, length-append, max_u64, refl, suc, sym, zero, ℕ, ◌%◌, ◌*◌,
  ◌++◌, ◌+◌, ◌/◌, ◌<◌, ◌∙◌, ◌∷◌, ◌≡◌, ◌≤◌,
}
use deskquota.Fingerprint.{be_bytes, frame, frames, to_be_bytes}

-- What the bytes stand for: each is added to 256 times what is before it.
abbrev read_be : ℕ → List ℕ → ℕ
read_be n [] = n
read_be n (b ∷ bs) = read_be (n * 256 + b) bs

abbrev reach : ℕ → ℕ
reach zero = 1
reach (suc k) = reach k * 256

read_be-append : (n b : ℕ) (bs : List ℕ) → read_be n (bs ++ b ∷ []) ≡ read_be n bs * 256 + b
read_be-append n b [] = refl
read_be-append n b (c ∷ bs) = read_be-append (n * 256 + c) b bs

read_be-be_bytes : (k n : ℕ) → n < reach k → read_be 0 (be_bytes k n) ≡ n
unfolding be_bytes
read_be-be_bytes zero n h = omega arith
read_be-be_bytes (suc k) n h =
    let shorter : n / 256 < reach k = omega arith in
    let whole = read_be-be_bytes k (n / 256) shorter in
    rw (read_be-append 0 (n % 256) (be_bytes k (n / 256)), whole) (omega arith)

length-be_bytes : (k n : ℕ) → length (be_bytes k n) ≡ k
unfolding be_bytes
length-be_bytes zero n = refl
length-be_bytes (suc k) n =
    omega (arith, length-append (be_bytes k (n / 256)) (n % 256 ∷ []), length-be_bytes k (n / 256))

be_bytes_inj : (n m : ℕ) → n ≤ max_u64 → m ≤ max_u64 → to_be_bytes n ≡ to_be_bytes m → n ≡ m
be_bytes_inj n m hn hm e =
    let first = read_be-be_bytes 8 n (omega arith) in
    let second = read_be-be_bytes 8 m (omega arith) in sym first ∙ ap (read_be 0) e ∙ second

-- Two starts of one length of one list are the same, and so is what comes after.
append_inj {ℓ} :
    {A : Type ℓ} (xs ys zs ws : List A)
    → length xs ≡ length ys
    → xs ++ zs ≡ ys ++ ws
    → (xs ≡ ys) × (zs ≡ ws)
append_inj [] [] zs ws l e = (refl, e)
append_inj [] (y ∷ ys) zs ws l e = absurd (cc)
append_inj (x ∷ xs) [] zs ws l e = absurd (cc)
append_inj (x ∷ xs) (y ∷ ys) zs ws l e =
    let (same, after) = append_inj xs ys zs ws (cc) (cc) in (cc, after)

abbrev pub Short : List ℕ → Type 0
Short bs = length bs ≤ max_u64

-- A frame at the start of a list gives its bytes and what comes after.
pub frame_inj :
    (a b x y : List ℕ) → Short a → Short b → frame a ++ x ≡ frame b ++ y → (a ≡ b) × (x ≡ y)
unfolding frame
frame_inj a b x y ha hb e =
    let apart : to_be_bytes (length a) ++ (a ++ x) ≡ to_be_bytes (length b) ++ (b ++ y) =
      sym (append_assoc (to_be_bytes (length a)) a x)
      ∙ e
      ∙ append_assoc (to_be_bytes (length b)) b y in
    let (sizes, after) =
      append_inj (to_be_bytes (length a)) (to_be_bytes (length b)) (a ++ x) (b ++ y)
        (length-be_bytes 8 (length a) ∙ sym (length-be_bytes 8 (length b))) apart in
    append_inj a b x y (be_bytes_inj (length a) (length b) ha hb sizes) after

to_be_bytes-Short : (n : ℕ) → Short (to_be_bytes n)
to_be_bytes-Short n = rw (length-be_bytes 8 n) (omega arith)

-- A framed number.
pub count_inj :
    (n m : ℕ) (x y : List ℕ)
    → n ≤ max_u64
    → m ≤ max_u64
    → frame (to_be_bytes n) ++ x ≡ frame (to_be_bytes m) ++ y
    → (n ≡ m) × (x ≡ y)
count_inj n m x y hn hm e =
    let (same, after) =
      frame_inj (to_be_bytes n) (to_be_bytes m) x y (to_be_bytes-Short n) (to_be_bytes-Short m) e in
    (be_bytes_inj n m hn hm same, after)

pub frames_inj :
    (vs ws : List Text) (x y : List ℕ)
    → length vs ≡ length ws
    → All Short vs
    → All Short ws
    → frames vs ++ x ≡ frames ws ++ y
    → (vs ≡ ws) × (x ≡ y)
unfolding frames
frames_inj [] [] x y l hv hw e = (refl, e)
frames_inj [] (w ∷ ws) x y l hv hw e = absurd (cc)
frames_inj (v ∷ vs) [] x y l hv hw e = absurd (cc)
frames_inj (v ∷ vs) (w ∷ ws) x y l (sv, hv) (sw, hw) e =
    let (first, after) =
      frame_inj v w (frames vs ++ x) (frames ws ++ y) sv sw
        (sym (append_assoc (frame v) (frames vs) x) ∙ e ∙ append_assoc (frame w) (frames ws) y) in
    let (rest, end) = frames_inj vs ws x y (cc) hv hw after in (cc, end)
