-- ===== src/Headers/Scrubbed.antt =====
-- product/src/transport/headers.rs: which headers a prepared request or response can have.
use mathlib.Core.Bool.{false≢true}
use deskquota.Common.{
  Bool, Bool-cases, List, Option, Option-cases, Text, [], arith, codes, contains, false, inl, inr,
  lowercase, none, refl, same_letters, same_text, same_text_eq, some, subst, sym, true, ◌++◌, ◌||◌,
  ◌∙◌, ◌∷◌, ◌≡◌,
}
use deskquota.Headers.{
  Auth, HeaderMap, authorize, contains_key, control_token, data_token, env, forward, hop_by_hop,
  insert, insert_secret, is_reserved_auth_target, no_auth, nominated, prepare_request, remove,
  remove_all, scrub, without_credentials,
}

abbrev pub Absent : Text → HeaderMap → Type 0
Absent n h = contains_key h n ≡ false

remove-Absent : (h : HeaderMap) (n : Text) → Absent n (remove h n)
remove-Absent [] n = refl
remove-Absent (x ∷ h) n = elim (Bool-cases (same_text x.0 n)) [
  | inl e ↦ rw e (remove-Absent h n)
  | inr e ↦ rw (e, e) (remove-Absent h n)
]

pub remove_keeps : (h : HeaderMap) (m n : Text) → Absent n h → Absent n (remove h m)
remove_keeps [] m n a = refl
remove_keeps (x ∷ h) m n a =
    let first : same_text x.0 n ≡ false = ground arith in
    let rest : contains_key h n ≡ false = ground arith in
    elim (Bool-cases (same_text x.0 m)) [
      | inl e ↦ rw e (remove_keeps h m n rest)
      | inr e ↦ rw (e, first) (remove_keeps h m n rest)
    ]

append-Absent :
    (h : HeaderMap) (m v n : Text)
    → Absent n h
    → same_text m n ≡ false
    → Absent n (h ++ (m, v) ∷ [])
append-Absent [] m v n a s = rw s refl
append-Absent (x ∷ h) m v n a s =
    let first : same_text x.0 n ≡ false = ground arith in
    let rest : contains_key h n ≡ false = ground arith in rw first (append-Absent h m v n rest s)

insert-Absent :
    (h : HeaderMap) (m v n : Text) → Absent n h → same_text m n ≡ false → Absent n (insert h m v)
insert-Absent h m v n a s = append-Absent (remove h m) m v n (remove_keeps h m n a) s

module _ (to_str : Text → Option Text) where
  remove_all_keeps :
      (h : HeaderMap) (ns : List Text) (n : Text) → Absent n h → Absent n (remove_all to_str h ns)
  unfolding remove_all
  remove_all_keeps h [] n a = a
  remove_all_keeps h (m ∷ ns) n a = remove_all_keeps (remove h m) ns n (remove_keeps h m n a)

  remove_all-Absent :
      (h : HeaderMap) (ns : List Text) (n : Text)
      → contains ns n ≡ true
      → Absent n (remove_all to_str h ns)
  unfolding remove_all
  remove_all-Absent h [] n c = absurd (false≢true c)
  remove_all-Absent h (m ∷ ns) n c = elim (Bool-cases (same_text n m)) [
    | inl e ↦
        let same : n ≡ m = same_text_eq n m e in
        remove_all_keeps (remove h m) ns n (rw same (remove-Absent h m))
    | inr e ↦
        let rest : contains ns n ≡ true = ground arith in remove_all-Absent (remove h m) ns n rest
  ]

  -- What `scrub` takes away.
  pub scrub-Absent :
      (h : HeaderMap) (n : Text)
      → contains (nominated to_str h) n || contains hop_by_hop n ≡ true
      → Absent n (scrub to_str h)
  unfolding scrub
  scrub-Absent h n c = elim (Bool-cases (contains (nominated to_str h) n)) [
    | inl e ↦
        remove_all_keeps (remove_all to_str h (nominated to_str h)) hop_by_hop n
          (remove_all-Absent h (nominated to_str h) n e)
    | inr e ↦
        let hop : contains hop_by_hop n ≡ true = rw e at c in
        remove_all-Absent (remove_all to_str h (nominated to_str h)) hop_by_hop n hop
  ]

  pub stripped-Absent : (h : HeaderMap) (m n : Text) → same_text n m ≡ true → Absent n (remove h m)
  stripped-Absent h m n e = let same : n ≡ m = same_text_eq n m e in rw same (remove-Absent h m)

-- The names that are of the gateway or of one connection only.
abbrev pub is_private : Text → Bool
is_private n =
    same_text n (codes "host")
    || (same_text n data_token || (same_text n control_token || contains hop_by_hop n))

abbrev pub is_credential : Text → Bool
is_credential n = same_text n (codes "authorization") || same_text n (codes "x-api-key")

-- The configuration's header for the secret is one that it may choose.
abbrev pub Permitted : Auth → Type 0
Permitted (env header name) = is_reserved_auth_target header ≡ false
Permitted _ = Unit

private-reserved :
    (header : Text) → is_private (lowercase header) ≡ true → is_reserved_auth_target header ≡ true
unfolding is_reserved_auth_target same_letters
private-reserved header h = ground arith

module _ (to_str header_name header_value : Text → Option Text)
    (lower_name : (t m : Text) → header_name t ≡ some m → m ≡ lowercase t) where
  inserted-Absent :
      (h : HeaderMap) (header n : Text) (secret : Option Text)
      → is_reserved_auth_target header ≡ false
      → is_private n ≡ true
      → Absent n h
      → Absent n (insert_secret to_str header_name header_value h header secret)
  inserted-Absent h header n none r p a = a
  inserted-Absent h header n (some secret) r p a = elim (Option-cases (header_name header)) [
    | inl e ↦ rw e a
    | inr (m, e) ↦ elim (Option-cases (header_value secret)) [
      | inl f ↦ rw (e, f) a
      | inr (v, f) ↦ rw (e, f) (insert-Absent h m v n a (apart m e))
    ]
  ]
    where
      apart : (m : Text) → header_name header ≡ some m → same_text m n ≡ false
      apart m e = elim (Bool-cases (same_text m n)) [
        | inr s ↦ s
        | inl s ↦
            let low : m ≡ lowercase header = lower_name header m e in
            let same : n ≡ lowercase header = sym (same_text_eq m n s) ∙ low in
            let p' : is_private (lowercase header) ≡ true =
              subst (λ t. is_private t ≡ true) same p in
            absurd (false≢true (sym r ∙ private-reserved header p'))
      ]

  authorize-Absent :
      (h : HeaderMap) (auth : Auth) (secret : Option Text) (n : Text)
      → Permitted auth
      → is_private n ≡ true
      → Absent n h
      → Absent n (authorize to_str header_name header_value h auth secret)
  authorize-Absent h forward secret n k p a = a
  authorize-Absent h no_auth secret n k p a =
      remove_keeps (remove h (codes "authorization")) (codes "x-api-key") n
        (remove_keeps h (codes "authorization") n a)
  authorize-Absent h (env header name) secret n k p a =
      inserted-Absent (without_credentials to_str header_name header_value h) header n secret k p (
        remove_keeps (remove h (codes "authorization")) (codes "x-api-key") n
          (remove_keeps h (codes "authorization") n a))

  private_gone :
      (h : HeaderMap) (n : Text)
      → is_private n ≡ true
      → Absent n (remove (remove (remove (scrub to_str h) (codes "host")) data_token) control_token)
  private_gone h n p = elim (Bool-cases (same_text n control_token)) [
    | inl c ↦
        stripped-Absent to_str (remove (remove (scrub to_str h) (codes "host")) data_token)
          control_token n c
    | inr c ↦
        remove_keeps (remove (remove (scrub to_str h) (codes "host")) data_token) control_token n
          (elim (Bool-cases (same_text n data_token)) [
            | inl d ↦ stripped-Absent to_str (remove (scrub to_str h) (codes "host")) data_token n d
            | inr d ↦
                remove_keeps (remove (scrub to_str h) (codes "host")) data_token n
                  (elim (Bool-cases (same_text n (codes "host"))) [
                    | inl e ↦ stripped-Absent to_str (scrub to_str h) (codes "host") n e
                    | inr e ↦
                        let hop : contains hop_by_hop n ≡ true = ground arith in
                        remove_keeps (scrub to_str h) (codes "host") n
                          (scrub-Absent to_str h n (ground (arith, hop)))
                  ])
          ])
  ]

  -- Where the parser of names gives names in lower case and the configuration's header is not a
  -- reserved one, a prepared request carries no host, no hop-by-hop header of the fixed list, and
  -- neither of the gateway's own tokens, whatever the client sent.
  pub prepare_request-Absent :
      (h : HeaderMap) (auth : Auth) (secret : Option Text) (n : Text)
      → Permitted auth
      → is_private n ≡ true
      → Absent n (prepare_request to_str header_name header_value h auth secret)
  unfolding prepare_request
  prepare_request-Absent h auth secret n k p =
      authorize-Absent
        (remove (remove (remove (scrub to_str h) (codes "host")) data_token) control_token) auth
        secret n k p (private_gone h n p)
