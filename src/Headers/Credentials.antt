-- ===== src/Headers/Credentials.antt =====
-- product/src/transport/headers.rs: the credentials of a prepared request.
use deskquota.Common.{
  All, Bool, Bool-cases, List, Option, Option-cases, Text, [], arith, codes, false, if◌then◌else◌,
  inl, inr, none, refl, same_text, some, true, ◌++◌, ◌∷◌, ◌≡◌,
}
use deskquota.Headers.{
  Auth, HeaderMap, contains_key, control_token, data_token, env, forward, get_all, insert_secret,
  no_auth, prepare_request, remove, scrub, without_credentials,
}
use deskquota.Headers.Scrubbed.{Absent, is_credential, remove_keeps, stripped-Absent}

pub get_all-Absent : (h : HeaderMap) (n : Text) → Absent n h → get_all h n ≡ []
unfolding get_all
get_all-Absent [] n a = refl
get_all-Absent (x ∷ h) n a =
    let first : same_text x.0 n ≡ false = ground arith in
    let rest : contains_key h n ≡ false = ground arith in rw first (get_all-Absent h n rest)

pub get_all-append :
    (h : HeaderMap) (m v n : Text)
    → Absent n h
    → get_all (h ++ (m, v) ∷ []) n ≡ (if same_text m n then v ∷ [] else [])
unfolding get_all
get_all-append [] m v n a = refl
get_all-append (x ∷ h) m v n a =
    let first : same_text x.0 n ≡ false = ground arith in
    let rest : contains_key h n ≡ false = ground arith in rw first (get_all-append h m v n rest)

module _ (to_str header_name header_value : Text → Option Text) where
  -- What a request may carry under the name of a credential: with `forward` what it had, with
  -- `None` nothing, and with `Env` the configured secret.
  abbrev pub Replaced : Auth → Option Text → List Text → Type 0
  Replaced forward secret vs = Unit
  Replaced no_auth secret vs = vs ≡ []
  Replaced (env header name) secret vs =
      All (λ v. (w : Text) × (secret ≡ some w) × (header_value w ≡ some v)) vs

  without-Absent :
      (h : HeaderMap) (n : Text)
      → is_credential n ≡ true
      → Absent n (without_credentials to_str header_name header_value h)
  without-Absent h n c = elim (Bool-cases (same_text n (codes "x-api-key"))) [
    | inl e ↦ stripped-Absent to_str (remove h (codes "authorization")) (codes "x-api-key") n e
    | inr e ↦
        let auth : same_text n (codes "authorization") ≡ true = ground arith in
        remove_keeps (remove h (codes "authorization")) (codes "x-api-key") n
          (stripped-Absent to_str h (codes "authorization") n auth)
  ]

  one :
      (w v : Text) (secret : Option Text) (b : Bool)
      → secret ≡ some w
      → header_value w ≡ some v
      → All
          (λ u. (x : Text) × (secret ≡ some x) × (header_value x ≡ some u))
          (if b then v ∷ [] else [])
  one w v secret true e f = ((w, e, f), tt)
  one w v secret false e f = tt

  insert_secret-Replaced :
      (h : HeaderMap) (header name n : Text) (secret : Option Text)
      → Absent n h
      → Replaced
          (env header name)
          secret
          (get_all (insert_secret to_str header_name header_value h header secret) n)
  insert_secret-Replaced h header name n none a = rw (get_all-Absent h n a) tt
  insert_secret-Replaced h header name n (some w) a = elim (Option-cases (header_name header)) [
    | inl e ↦ rw (e, get_all-Absent h n a) tt
    | inr (m, e) ↦ elim (Option-cases (header_value w)) [
      | inl f ↦ rw (e, f, get_all-Absent h n a) tt
      | inr (v, f) ↦
          rw (e, f, get_all-append (remove h m) m v n (remove_keeps h m n a))
            (one w v (some w) (same_text m n) refl f)
    ]
  ]

  -- Whatever credentials the client sent, a prepared request has under `authorization` and under
  -- `x-api-key` nothing where the configuration says that there is none, and nothing but the
  -- configured secret where it names one.
  pub prepare_request-Replaced :
      (h : HeaderMap) (auth : Auth) (secret : Option Text) (n : Text)
      → is_credential n ≡ true
      → Replaced auth secret
          (get_all (prepare_request to_str header_name header_value h auth secret) n)
  unfolding prepare_request
  prepare_request-Replaced h forward secret n c = tt
  prepare_request-Replaced h no_auth secret n c = get_all-Absent _ n (
      without-Absent
        (remove (remove (remove (scrub to_str h) (codes "host")) data_token) control_token) n c)
  prepare_request-Replaced h (env header name) secret n c =
      insert_secret-Replaced
        (without_credentials to_str header_name header_value
          (remove (remove (remove (scrub to_str h) (codes "host")) data_token) control_token))
        header name n secret
        (without-Absent
          (remove (remove (remove (scrub to_str h) (codes "host")) data_token) control_token) n c)
