-- ===== src/Headers/Local.antt =====
-- product/src/transport/headers.rs, `validate_local_request`: the guard against requests of browsers
-- and of rebound names. The parser of an authority, of a third-party package, and the test whether
-- a text is a loopback address are parameters.
use mathlib.Core.List
use mathlib.Core.Bool.{false≢true}
use deskquota.Common.{
  ==_iff, All, Bool, Bool-cases, List, Option, Option-cases, Text, [], any, ap, arith, before,
  codes, false, if◌then◌else◌, inl, inr, lowercase, none, not, refl, same_letters, same_text,
  same_text_eq, same_text_refl, some, subst, sym, trim, true, ℕ, ◌&&◌, ◌==◌, ◌||◌, ◌↔◌, ◌∷◌, ◌≡◌,
  ◌≢◌, ◌⊎◌,
}
use deskquota.Headers.{HeaderMap, contains_key, get_all, named}

pub record Authority : Type 0 where
  pub text : Text
  pub host : Text
  pub port_u16 : Option ℕ

pub data Method : Type 0 where
  get post other : Method

pub data LocalError : Type 0 where
  browser_origin_not_allowed invalid_local_host json_content_type_required : LocalError

abbrev pub trim_char : ℕ → Text → Text
trim_char at [] = []
trim_char at (c ∷ cs) = let rest = trim_char at cs in if c == at then rest else c ∷ cs

-- `trim_start_matches('[').trim_end_matches(']')`.
unfoldable pub unbracketed : Text → Text
unbracketed s = List.reverse (trim_char b']' (List.reverse (trim_char b'[' s)))

module _ (to_str : Text → Option Text) (parse : Text → Option Authority)
    (is_loopback : Text → Bool) where
  abbrev pub port_matches : Authority → ℕ → Option ℕ → Bool
  port_matches a port (some value) = value == port
  port_matches a port none = same_text a.text a.host && (port == 80)

  abbrev pub is_local : ℕ → Option Authority → Bool
  is_local port none = false
  is_local port (some a) =
      not (any (λ c. c == b'@') a.text)
      && ((same_letters a.host (codes "localhost") || is_loopback (unbracketed a.host))
          && port_matches a port a.port_u16)

  abbrev pub parsed : Option Text → Option Authority
  parsed none = none
  parsed (some s) = parse s

  -- `hosts.next()` is valid, and there is no other.
  abbrev pub valid_hosts : ℕ → List Text → Bool
  valid_hosts port [] = false
  valid_hosts port (v ∷ []) = is_local port (parsed (to_str v))
  valid_hosts port (v ∷ w ∷ vs) = false

  abbrev pub is_json : Option Text → Bool
  is_json none = false
  is_json (some s) = same_letters (trim (before b';' s)) (codes "application/json")

  abbrev pub valid_types : List Text → Bool
  valid_types [] = false
  valid_types (v ∷ []) = is_json (to_str v)
  valid_types (v ∷ w ∷ vs) = false

  abbrev pub is_post : Method → Bool
  is_post post = true
  is_post _ = false

  unfoldable pub validate_local_request : HeaderMap → Method → ℕ → Option LocalError
  validate_local_request h method port =
      if contains_key h (codes "origin")
      then some browser_origin_not_allowed
      else if not (valid_hosts port (get_all h (codes "host")))
      then some invalid_local_host
      else if is_post method && not (valid_types (get_all h (codes "content-type")))
      then some json_content_type_required
      else none

  -- Exactly one value, of which `P` holds.
  abbrev pub Sole : (Text → Type 0) → List Text → Type 0
  Sole P vs = (v : Text) × (vs ≡ v ∷ []) × P v

  -- An authority without user information, of localhost or of a loopback address, with the port,
  -- or without one where the port is 80.
  abbrev pub LocalAuthority : ℕ → Authority → Type 0
  LocalAuthority port a =
      All (λ c. c ≢ b'@') a.text
      × ((lowercase a.host ≡ codes "localhost") ⊎ (is_loopback (unbracketed a.host) ≡ true))
      × ((a.port_u16 ≡ some port) ⊎ ((a.port_u16 ≡ none) × (a.text ≡ a.host) × (port ≡ 80)))

  -- A host header that names this machine at this port.
  abbrev pub ThisMachine : ℕ → Text → Type 0
  ThisMachine port v =
      (s : Text) × (to_str v ≡ some s)
      × ((a : Authority) × (parse s ≡ some a) × LocalAuthority port a)

  -- A content type that is JSON, whatever its parameters.
  abbrev pub Json : Text → Type 0
  Json v =
      (s : Text) × (to_str v ≡ some s)
      × (lowercase (trim (before b';' s)) ≡ codes "application/json")

  abbrev pub Typed : HeaderMap → Method → Type 0
  Typed h post = Sole Json (get_all h (codes "content-type"))
  Typed h _ = Unit

  no_at : (cs : Text) → (any (λ c. c == b'@') cs ≡ false) ↔ All (λ c. c ≢ b'@') cs
  no_at [] = (λ h. tt, λ h. refl)
  no_at (c ∷ cs) =
      let (to, from) = no_at cs in
      let (same, at_sign) = ==_iff c b'@' in
      (
        λ h. (
          λ e. (let again = at_sign e in let other : (c == b'@') ≡ false = ground arith in cc),
          to (ground arith),
        ),
        λ (h, hs). elim (Bool-cases (c == b'@')) [
          | inl e ↦ absurd (h (same e))
          | inr e ↦ rw e (from hs)
        ],
      )

  same_letters-lowercase : (s t : Text) → (same_letters s t ≡ true) ↔ (lowercase s ≡ lowercase t)
  unfolding same_letters
  same_letters-lowercase s t =
      (same_text_eq (lowercase s) (lowercase t), λ e. rw e (same_text_refl (lowercase t)))

  port_matches_iff :
      (port : ℕ) (a : Authority) (o : Option ℕ)
      → (port_matches a port o ≡ true)
        ↔ ((o ≡ some port) ⊎ ((o ≡ none) × (a.text ≡ a.host) × (port ≡ 80)))
  port_matches_iff port a none = (
    λ h. inr (refl, same_text_eq a.text a.host (ground arith), ground arith),
    λ c. elim c [ inl e ↦ absurd (cc) | inr (e, t, p) ↦ rw (t, p, same_text_refl a.host) refl ],
  )
  port_matches_iff port a (some p) = (
    λ h. inl (ap some ((==_iff p port).0 h)),
    λ c. elim c [ inl e ↦ (==_iff p port).1 cc | inr (e, t, p80) ↦ absurd (cc) ],
  )

  is_local_iff :
      (port : ℕ) (a : Authority) → (is_local port (some a) ≡ true) ↔ LocalAuthority port a
  is_local_iff port a =
      let (plain, plain_back) = no_at a.text in
      let (named, named_back) = same_letters-lowercase a.host (codes "localhost") in
      let (port_of, port_back) = port_matches_iff port a a.port_u16 in
      (
        λ h. (
          plain (ground arith),
          elim (Bool-cases (same_letters a.host (codes "localhost"))) [
            | inl e ↦ inl (named e)
            | inr e ↦ inr (ground arith)
          ],
          port_of (ground arith),
        ),
        λ (p, host, q).
            let no_user = plain_back p in
            let at_port = port_back q in
            elim host [
              | inl e ↦ (let local = named_back e in rw (no_user, at_port, local) refl)
              | inr e ↦ rw (no_user, at_port, e) (ground arith)
            ],
      )

  ThisMachine-is_local :
      (port : ℕ) (v : Text) → (is_local port (parsed (to_str v)) ≡ true) ↔ ThisMachine port v
  ThisMachine-is_local port v = (
    λ h. elim (Option-cases (to_str v)) [
      | inl e ↦ absurd (false≢true (rw e at h))
      | inr (s, e) ↦ elim (Option-cases (parse s)) [
        | inl f ↦ absurd (false≢true (rw (e, f) at h))
        | inr (a, f) ↦ (s, e, (a, f, (is_local_iff port a).0 (rw (e, f) at h)))
      ]
    ],
    λ (s, e, (a, f, l)). rw (e, f) ((is_local_iff port a).1 l),
  )

  is_json_iff : (v : Text) → (is_json (to_str v) ≡ true) ↔ Json v
  is_json_iff v = (
    λ h. elim (Option-cases (to_str v)) [
      | inl e ↦ absurd (false≢true (rw e at h))
      | inr (s, e) ↦ (
        s,
        e,
        (same_letters-lowercase (trim (before b';' s)) (codes "application/json")).0 (rw e at h),
      )
    ],
    λ (s, e, l).
        rw e ((same_letters-lowercase (trim (before b';' s)) (codes "application/json")).1 l),
  )

  valid_hosts_iff :
      (port : ℕ) (vs : List Text) → (valid_hosts port vs ≡ true) ↔ Sole (ThisMachine port) vs
  valid_hosts_iff port [] = (λ h. absurd (cc), λ (v, e, p). absurd (cc))
  valid_hosts_iff port (v ∷ []) = (
    λ h. (v, refl, (ThisMachine-is_local port v).0 h),
    λ (w, e, p).
        (let same : w ≡ v = cc in
          (ThisMachine-is_local port v).1 (subst (ThisMachine port) same p)),
  )
  valid_hosts_iff port (v ∷ w ∷ vs) = (λ h. absurd (cc), λ (x, e, p). absurd (cc))

  valid_types_iff : (vs : List Text) → (valid_types vs ≡ true) ↔ Sole Json vs
  valid_types_iff [] = (λ h. absurd (cc), λ (v, e, p). absurd (cc))
  valid_types_iff (v ∷ []) = (
    λ h. (v, refl, (is_json_iff v).0 h),
    λ (w, e, p). (let same : w ≡ v = cc in (is_json_iff v).1 (subst Json same p)),
  )
  valid_types_iff (v ∷ w ∷ vs) = (λ h. absurd (cc), λ (x, e, p). absurd (cc))

  Typed-valid_types :
      (h : HeaderMap) (method : Method)
      → (is_post method && not (valid_types (get_all h (codes "content-type"))) ≡ false)
        ↔ Typed h method
  Typed-valid_types h get = (λ e. tt, λ t. refl)
  Typed-valid_types h other = (λ e. tt, λ t. refl)
  Typed-valid_types h post =
      let (to, from) = valid_types_iff (get_all h (codes "content-type")) in
      (λ e. to (ground arith), λ t. rw (from t) refl)

abbrev verdict : Bool → Bool → Bool → Option LocalError
verdict origin host untyped =
    if origin
    then some browser_origin_not_allowed
    else if not host
    then some invalid_local_host
    else if untyped
    then some json_content_type_required
    else none

-- What each verdict means, where `H` and `T` are what the tests of the host and of the type decide.
abbrev pub Means : Bool → Type 0 → Type 0 → Option LocalError → Type 0
Means origin H T r =
    ((r ≡ none) ↔ ((origin ≡ false) × H × T))
    × ((r ≡ some browser_origin_not_allowed) ↔ (origin ≡ true))
    × ((r ≡ some invalid_local_host) ↔ ((origin ≡ false) × ¬ H))
    × ((r ≡ some json_content_type_required) ↔ ((origin ≡ false) × H × ¬ T))

verdict-Means :
    (origin host untyped : Bool) (H T : Type 0)
    → (host ≡ true) ↔ H
    → (untyped ≡ false) ↔ T
    → Means origin H T (verdict origin host untyped)
verdict-Means true host untyped H T h t = (
  (λ e. absurd (cc), λ (e, _, _). absurd (cc)),
  (λ e. refl, λ e. refl),
  (λ e. absurd (cc), λ (e, _). absurd (cc)),
  (λ e. absurd (cc), λ (e, _, _). absurd (cc)),
)
verdict-Means false false untyped H T h t =
    let no_host : ¬ H = λ x. false≢true (h.1 x) in
    (
      (λ e. absurd (cc), λ (e, x, _). absurd (no_host x)),
      (λ e. absurd (cc), λ e. absurd (cc)),
      (λ e. (refl, no_host), λ e. refl),
      (λ e. absurd (cc), λ (e, x, _). absurd (no_host x)),
    )
verdict-Means false true true H T h t =
    let no_type : ¬ T = λ x. false≢true (sym (t.1 x)) in
    (
      (λ e. absurd (cc), λ (e, _, x). absurd (no_type x)),
      (λ e. absurd (cc), λ e. absurd (cc)),
      (λ e. absurd (cc), λ (e, x). absurd (x (h.0 refl))),
      (λ e. (refl, h.0 refl, no_type), λ e. refl),
    )
verdict-Means false true false H T h t = (
  (λ e. (refl, h.0 refl, t.0 refl), λ e. refl),
  (λ e. absurd (cc), λ e. absurd (cc)),
  (λ e. absurd (cc), λ (e, x). absurd (x (h.0 refl))),
  (λ e. absurd (cc), λ (e, _, x). absurd (x (t.0 refl))),
)

module _ (to_str : Text → Option Text) (parse : Text → Option Authority)
    (is_loopback : Text → Bool) where
  -- Each verdict on a local request, both ways: it is let through exactly if it has no origin, has
  -- exactly one host header, which is of this machine at this port, without user information, and,
  -- if it posts, has exactly one content type, which is JSON; otherwise the error names the first
  -- of the three that fails.
  pub validate_local_request-Means :
      (h : HeaderMap) (method : Method) (port : ℕ)
      → Means
          (contains_key h (codes "origin"))
          (Sole to_str parse is_loopback
            (ThisMachine to_str parse is_loopback port)
            (get_all h (codes "host")))
          (Typed to_str parse is_loopback h method)
          (validate_local_request to_str parse is_loopback h method port)
  unfolding validate_local_request
  validate_local_request-Means h method port =
      verdict-Means (contains_key h (codes "origin"))
        (valid_hosts to_str parse is_loopback port (get_all h (codes "host")))
        (is_post to_str parse is_loopback method
          && not (valid_types to_str parse is_loopback (get_all h (codes "content-type"))))
        _ _ (valid_hosts_iff to_str parse is_loopback port (get_all h (codes "host")))
        (Typed-valid_types to_str parse is_loopback h method)
