-- ===== src/Headers/Connection.antt =====
-- product/src/transport/headers.rs: the headers of one connection, those that the client nominates
-- in its `connection` headers among them.
use deskquota.Common.{
  All, Bool, Bool-cases, Option, Option-cases, Text, [], ap, codes, contains, false, if◌then◌else◌,
  inl, inr, lowercase, none, refl, same_text, same_text_eq, some, true, ◌||◌, ◌∙◌, ◌∷◌, ◌≡◌,
}
use deskquota.Headers.{
  Auth, HeaderMap, authorize, control_token, data_token, env, forward, get_all, insert_secret,
  no_auth, nominated, prepare_request, remove, scrub, without_credentials,
}
use deskquota.Headers.Scrubbed.{
  Absent, Permitted, is_private, prepare_request-Absent, remove_keeps, scrub-Absent,
}
use deskquota.Headers.Credentials.{get_all-Absent, get_all-append}

-- The name is the gateway's own, of one connection by the standard, or nominated by the client.
abbrev pub is_dropped : (Text → Option Text) → HeaderMap → Text → Bool
is_dropped to_str h n = is_private n || contains (nominated to_str h) n

module _ (to_str header_name header_value : Text → Option Text) where
  -- The value of the one header that the configuration sets, which is never a private one.
  abbrev pub Configured : Auth → Option Text → Text → Text → Type 0
  Configured forward secret n v = ⊥
  Configured no_auth secret n v = ⊥
  Configured (env header name) secret n v =
      (is_private n ≡ false)
      × (header_name header ≡ some n)
      × ((w : Text) × (secret ≡ some w) × (header_value w ≡ some v))

  inserted-Configured :
      (h : HeaderMap) (header name n : Text) (secret : Option Text)
      → is_private n ≡ false
      → Absent n h
      → All
          (Configured (env header name) secret n)
          (get_all (insert_secret to_str header_name header_value h header secret) n)
  inserted-Configured h header name n none p a = rw (get_all-Absent h n a) tt
  inserted-Configured h header name n (some w) p a = elim (Option-cases (header_name header)) [
    | inl e ↦ rw (e, get_all-Absent h n a) tt
    | inr (m, e) ↦ elim (Option-cases (header_value w)) [
      | inl f ↦ rw (e, f, get_all-Absent h n a) tt
      | inr (v, f) ↦
          rw (e, f, get_all-append (remove h m) m v n (remove_keeps h m n a))
            (one_configured (same_text m n) v
              (λ same. (p, e ∙ ap some (same_text_eq m n same), (w, refl, f))))
    ]
  ]
    where
      one_configured :
          (b : Bool) (v : Text)
          → (b ≡ true → Configured (env header name) (some w) n v)
          → All (Configured (env header name) (some w) n) (if b then v ∷ [] else [])
      one_configured true v f = (f refl, tt)
      one_configured false v f = tt

  authorized-Configured :
      (h : HeaderMap) (auth : Auth) (secret : Option Text) (n : Text)
      → is_private n ≡ false
      → Absent n h
      → All
          (Configured auth secret n)
          (get_all (authorize to_str header_name header_value h auth secret) n)
  authorized-Configured h forward secret n p a = rw (get_all-Absent h n a) tt
  authorized-Configured h no_auth secret n p a =
      let gone =
        remove_keeps (remove h (codes "authorization")) (codes "x-api-key") n
          (remove_keeps h (codes "authorization") n a) in
      rw (get_all-Absent _ n gone) tt
  authorized-Configured h (env header name) secret n p a =
      inserted-Configured (without_credentials to_str header_name header_value h) header name n
        secret p
        (remove_keeps (remove h (codes "authorization")) (codes "x-api-key") n
          (remove_keeps h (codes "authorization") n a))

module _ (to_str header_name header_value : Text → Option Text)
    (lower_name : (t m : Text) → header_name t ≡ some m → m ≡ lowercase t) where
  -- Where the parser of names gives names in lower case and the configuration's header is not a
  -- reserved one, under the name of a header of one connection, be it of the fixed list or
  -- nominated by the client in any of its `connection` headers, of the host, and of the gateway's
  -- own tokens, a prepared request has nothing of what the client sent: there is no value, except
  -- that under a nominated name that is the configuration's own header there may be the configured
  -- secret.
  pub prepare_request-Configured :
      (h : HeaderMap) (auth : Auth) (secret : Option Text) (n : Text)
      → Permitted auth
      → is_dropped to_str h n ≡ true
      → All
          (Configured to_str header_name header_value auth secret n)
          (get_all (prepare_request to_str header_name header_value h auth secret) n)
  unfolding prepare_request
  prepare_request-Configured h auth secret n k d = elim (Bool-cases (is_private n)) [
    | inl p ↦
        rw
          (get_all-Absent _ n
            (prepare_request-Absent to_str header_name header_value lower_name h auth secret n k p))
          tt
    | inr p ↦
        let named : contains (nominated to_str h) n ≡ true = rw p at d in
        let scrubbed = scrub-Absent to_str h n (rw named refl) in
        authorized-Configured to_str header_name header_value
          (remove (remove (remove (scrub to_str h) (codes "host")) data_token) control_token) auth
          secret n p
          (remove_keeps (remove (remove (scrub to_str h) (codes "host")) data_token) control_token n
            (remove_keeps (remove (scrub to_str h) (codes "host")) data_token n
              (remove_keeps (scrub to_str h) (codes "host") n scrubbed)))
  ]
