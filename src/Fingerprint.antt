-- ===== src/Fingerprint.antt =====
-- product/src/cache.rs, `ExactCache::request`: the bytes that a request is known by, and its counters.
-- The digest of the bytes, of the package sha2, and the parser of JSON are parameters.
pub mod Frames
pub mod Names
pub mod Same
use deskquota.Common.{
  Bool, List, Option, Text, [], codes, false, if◌then◌else◌, length, ltb, none, not, retain,
  same_text, some, suc, true, zero, ℕ, ◌%◌, ◌&&◌, ◌++◌, ◌/◌, ◌==◌, ◌||◌, ◌∷◌,
}
use deskquota.Json.{Value}
use deskquota.Admission.{Endpoint}
use deskquota.Cache.{Bypass, CacheConfig, Pending, State, consider, new_pending}
use deskquota.Headers.{HeaderMap, get_all}
use deskquota.Shapes.{bypass_reason}

-- `to_be_bytes`, of `k` bytes.
unfoldable pub be_bytes : ℕ → ℕ → List ℕ
be_bytes zero n = []
be_bytes (suc k) n = be_bytes k (n / 256) ++ (n % 256) ∷ []

abbrev pub to_be_bytes : ℕ → List ℕ
to_be_bytes n = be_bytes 8 n

unfoldable pub frame : List ℕ → List ℕ
frame bytes = to_be_bytes (length bytes) ++ bytes

-- `HeaderMap::keys`.
unfoldable pub keys : HeaderMap → List Text
keys [] = []
keys ((n, v) ∷ h) = let rest = keys h in n ∷ retain (λ m. not (same_text m n)) rest

-- `a <= b` on texts.
unfoldable pub text_leb : Text → Text → Bool
text_leb [] t = true
text_leb (c ∷ s) [] = false
text_leb (c ∷ s) (d ∷ t) = ltb c d || ((c == d) && text_leb s t)

abbrev pub insert_name : Text → List Text → List Text
insert_name n [] = n ∷ []
insert_name n (m ∷ ms) =
    let rest = insert_name n ms in if text_leb n m then n ∷ m ∷ ms else m ∷ rest

-- `sort_unstable_by` on distinct names.
unfoldable pub sort_names : List Text → List Text
sort_names [] = []
sort_names (n ∷ ns) = insert_name n (sort_names ns)

abbrev pub retry_count : Text
retry_count = codes "x-stainless-retry-count"

unfoldable pub names : HeaderMap → List Text
unfolding keys sort_names same_text
names h = sort_names (retain (λ n. not (same_text n retry_count)) (keys h))

unfoldable pub frames : List Text → List ℕ
unfolding frame
frames [] = []
frames (v ∷ vs) = frame v ++ frames vs

-- A name with the number of its values and the values.
abbrev pub group : HeaderMap → Text → List ℕ
group h n = frame n ++ (frame (to_be_bytes (length (get_all h n))) ++ frames (get_all h n))

unfoldable pub groups : HeaderMap → List Text → List ℕ
groups h [] = []
groups h (n ∷ ns) = group h n ++ groups h ns

unfoldable pub key_bytes : ℕ → Text → HeaderMap → List ℕ → List ℕ
unfolding groups names
key_bytes root url h body =
    frame (to_be_bytes root)
    ++ (frame url ++ (frame (to_be_bytes (length (names h))) ++ (groups h (names h) ++ frame body)))

module _ (parse : List ℕ → Option Value) (digest : List ℕ → ℕ) {S : Type 0} where
  abbrev counted : State S → Option Bypass → List ℕ → State S × Option Pending
  counted s none bytes = (consider s none, some (new_pending (digest bytes)))
  counted s (some reason) bytes = (consider s (some reason), none)

  unfoldable pub request :
      CacheConfig
      → State S
      → ℕ
      → Text
      → HeaderMap
      → Endpoint
      → List ℕ
      → Bool
      → State S × Option Pending
  unfolding bypass_reason key_bytes
  request config s root url h endpoint body forbids_reuse =
      counted s (bypass_reason parse endpoint body config.max_history forbids_reuse)
        (key_bytes root url h body)
