-- ===== src/Examples/Keys.antt =====
-- Two header maps that give one key: they differ in the counter of retries only.
use deskquota.Common.{List, [], arith, codes, refl, same_text, ℕ, ◌∷◌, ◌≡◌}
use deskquota.Headers.{HeaderMap, get_all}
use deskquota.Fingerprint.{
  be_bytes, frame, frames, groups, key_bytes, keys, names, sort_names, text_leb,
}
use deskquota.Fingerprint.Names.{Sized}
use deskquota.Fingerprint.Same.{SameHeaders, key_bytes_inj}

abbrev zeroth : ℕ
zeroth = 0

abbrev hello : List ℕ
hello = 1 ∷ []

abbrev first_try : HeaderMap
first_try = (codes "accept", codes "a") ∷ (codes "host", codes "h") ∷ []

abbrev second_try : HeaderMap
second_try =
    (codes "x-stainless-retry-count", codes "1")
    ∷ (codes "host", codes "h")
    ∷ (codes "accept", codes "a")
    ∷ []

first_try-Sized : Sized first_try
first_try-Sized = (omega arith, ((omega arith, omega arith), ((omega arith, omega arith), tt)))

second_try-Sized : Sized second_try
second_try-Sized = (
  omega arith,
  ((omega arith, omega arith), ((omega arith, omega arith), ((omega arith, omega arith), tt))),
)

one_key :
    key_bytes zeroth (codes "u") first_try hello ≡ key_bytes zeroth (codes "u") second_try hello
unfolding key_bytes frame be_bytes names keys sort_names text_leb frames groups get_all same_text
one_key = refl

key_bytes_inj_example :
    (zeroth ≡ zeroth) × (codes "u" ≡ codes "u") × (hello ≡ hello) × SameHeaders first_try second_try
key_bytes_inj_example =
    key_bytes_inj zeroth zeroth (codes "u") (codes "u") hello hello first_try second_try
      first_try-Sized second_try-Sized (omega arith, omega arith, omega arith)
      (omega arith, omega arith, omega arith) one_key
