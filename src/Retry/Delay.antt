-- ===== src/Retry/Delay.antt =====
-- product/src/admission/retry.rs: what the delay of a response's headers guarantees.
use mathlib.Core.Bool.{false≢true}
use mathlib.Core.Option
use mathlib.Core.List.{Memᴰ}
use deskquota.Common.{
  All, Bool, Bool-cases, List, Option, Text, [], ap, arith, false, from_millis, from_secs,
  if◌then◌else◌, inl, inr, is_some, leb, leb→le, max, none, refl, some, sym, trim, true, ℕ, ◌&&◌,
  ◌||◌, ◌∙◌, ◌∷◌, ◌≡◌, ◌≤◌, ◌⊎◌,
}
use deskquota.Circuit.{cooldown, first_backoff}
use deskquota.Retry.{
  Headers, all_of, allows_millis, allows_seconds, failure_delay, header_delay, integer, is_decimal,
  is_missing, longer, longest, millis_delay, missing_timing, numeric_cooldown, or_else,
  retry_after_header, retry_after_ms_header, seconds_delay, timing_allows_retry,
}

-- A delay that was asked for is within the wait `o`.
abbrev pub Covers : Option ℕ → Option ℕ → Type 0
Covers o none = Unit
Covers o (some d) = (m : ℕ) × (o ≡ some m) × (d ≤ m)

Covers-refl : (c : Option ℕ) → Covers c c
Covers-refl none = tt
Covers-refl (some d) = (d, refl, omega arith)

Covers-longer : (o p c : Option ℕ) → Covers o c → Covers (longer o p) c
Covers-longer o p none h = tt
Covers-longer o none (some d) (m, e, le) = rw e (m, refl, le)
Covers-longer o (some k) (some d) (m, e, le) = rw e (max m k, refl, omega arith)

Covers-longer_right : (o p c : Option ℕ) → Covers p c → Covers (longer o p) c
Covers-longer_right o p none h = tt
Covers-longer_right none p (some d) h = h
Covers-longer_right (some k) p (some d) (m, e, le) = rw e (max k m, refl, omega arith)

Covers-All :
    (o : Option ℕ) (p : Option ℕ) (delay : Option Text → Option ℕ) (vs : List (Option Text))
    → ((c : Option ℕ) → Covers o c → Covers p c)
    → All (λ v. Covers o (delay v)) vs
    → All (λ v. Covers p (delay v)) vs
Covers-All o p delay [] f h = tt
Covers-All o p delay (v ∷ vs) f h = (f (delay v) h.0, Covers-All o p delay vs f h.1)

longest-All :
    (delay : Option Text → Option ℕ) (vs : List (Option Text))
    → All (λ v. Covers (longest delay vs) (delay v)) vs
unfolding longest
longest-All delay [] = tt
longest-All delay (v ∷ vs) = (
  Covers-longer (delay v) (longest delay vs) (delay v) (Covers-refl (delay v)),
  Covers-All (longest delay vs) (longer (delay v) (longest delay vs)) delay vs
      (λ c. Covers-longer_right (delay v) (longest delay vs) c) (longest-All delay vs),
)

-- The delay of the headers is at least every delay that a value of retry-after or of
-- retry-after-ms asks for, whatever the other values are: a server's wait is never shortened.
pub header_delay-All :
    (http_date : Text → Option ℕ) (h : Headers) (now : ℕ)
    → All
        (λ v. Covers (header_delay http_date h now) (seconds_delay http_date now v))
        (h retry_after_header)
      × All (λ v. Covers (header_delay http_date h now) (millis_delay v)) (h retry_after_ms_header)
unfolding header_delay
header_delay-All http_date h now =
    let s = longest (seconds_delay http_date now) (h retry_after_header) in
    let t = longest millis_delay (h retry_after_ms_header) in
    (
      Covers-All s (longer s t) (seconds_delay http_date now) (h retry_after_header)
          (λ c. Covers-longer s t c)
          (longest-All (seconds_delay http_date now) (h retry_after_header)),
      Covers-All t (longer s t) millis_delay (h retry_after_ms_header)
          (λ c. Covers-longer_right s t c) (longest-All millis_delay (h retry_after_ms_header)),
    )

is_some-longer : (o p : Option ℕ) → is_some (longer o p) ≡ is_some o || is_some p
is_some-longer none p = refl
is_some-longer (some n) none = refl
is_some-longer (some n) (some k) = refl

integer-numeric :
    (s : Text) (scale : ℕ → ℕ)
    → is_some (integer s) ≡ true
    → is_some (numeric_cooldown s scale) ≡ true
integer-numeric s scale h = elim (Bool-cases (is_decimal s)) [
  | inl e ↦ rw e refl
  | inr e ↦ absurd (false≢true (rw e at h))
]

is_some-or_else : (o p : Option ℕ) → is_some p ≡ true → is_some (or_else o p) ≡ true
is_some-or_else none p h = h
is_some-or_else (some n) p h = refl

allows_seconds-delay :
    (http_date : Text → Option ℕ) (now : ℕ) (v : Option Text)
    → allows_seconds http_date now v ≡ true
    → is_some (seconds_delay http_date now v) ≡ true
unfolding allows_seconds seconds_delay
allows_seconds-delay http_date now none h = absurd (false≢true h)
allows_seconds-delay http_date now (some s) h =
    is_some-or_else (numeric_cooldown (trim s) from_secs) _ h

allows_millis-delay : (v : Option Text) → allows_millis v ≡ true → is_some (millis_delay v) ≡ true
unfolding allows_millis millis_delay
allows_millis-delay none h = absurd (false≢true h)
allows_millis-delay (some s) h = integer-numeric (trim s) from_millis h

longest_head :
    (p : Option Text → Bool) (delay : Option Text → Option ℕ) (v : Option Text)
    (vs : List (Option Text))
    → ((w : Option Text) → p w ≡ true → is_some (delay w) ≡ true)
    → all_of p (v ∷ vs) ≡ true
    → is_some (longest delay (v ∷ vs)) ≡ true
unfolding longest
longest_head p delay v vs f h =
    let head : p v ≡ true = ground arith in
    rw (is_some-longer (delay v) (longest delay vs), f v head) refl

module _ (p q : Option Text → Bool) (d e : Option Text → Option ℕ)
    (f : (w : Option Text) → p w ≡ true → is_some (d w) ≡ true)
    (g : (w : Option Text) → q w ≡ true → is_some (e w) ≡ true) where
  longest_some :
      (vs ws : List (Option Text))
      → is_missing vs && is_missing ws ≡ false
      → all_of p vs && all_of q ws ≡ true
      → is_some (longer (longest d vs) (longest e ws)) ≡ true
  longest_some [] [] m h = absurd (cc)
  longest_some (v ∷ vs) ws m h =
      let first = longest_head p d v vs f (ground arith) in
      rw (is_some-longer (longest d (v ∷ vs)) (longest e ws), first) refl
  longest_some [] (w ∷ ws) m h =
      let second = longest_head q e w ws g (ground arith) in
      rw (is_some-longer (longest d []) (longest e (w ∷ ws)), second) (ground arith)

-- Where a response has timing and its timing allows a retry, its headers give a delay.
pub header_delay-timed :
    (http_date : Text → Option ℕ) (h : Headers) (now : ℕ)
    → missing_timing h ≡ false
    → timing_allows_retry http_date h now ≡ true
    → is_some (header_delay http_date h now) ≡ true
unfolding header_delay missing_timing timing_allows_retry
header_delay-timed http_date h now m t =
    longest_some (allows_seconds http_date now) allows_millis (seconds_delay http_date now)
      millis_delay (allows_seconds-delay http_date now) allows_millis-delay (h retry_after_header)
      (h retry_after_ms_header) m t

Covers-raised :
    (o : Option ℕ) (floor : ℕ) (c : Option ℕ)
    → Covers o c
    → Covers (Option.map (λ d. max d floor) o) c
Covers-raised o floor none h = tt
Covers-raised o floor (some d) (m, e, le) = rw e (max m floor, refl, omega arith)

longer_either : (o p : Option ℕ) (d : ℕ) → longer o p ≡ some d → (o ≡ some d) ⊎ (p ≡ some d)
longer_either none p d e = inr e
longer_either (some n) none d e = inl e
longer_either (some n) (some k) d e = elim (Bool-cases (leb k n)) [
  | inl le ↦ inl (sym (ap some (max_left n k (leb→le k n le))) ∙ e)
  | inr gt ↦ inr (sym (ap some (max_right n k gt)) ∙ e)
]
  where
    max_left : (a b : ℕ) → b ≤ a → max a b ≡ a
    max_left a b h = omega arith

    max_right : (a b : ℕ) → leb b a ≡ false → max a b ≡ b
    max_right a b h = ground arith

-- Where a wait comes from: it is the floor, or one of the values asks for it.
abbrev pub Asked : (Text → Option ℕ) → Headers → ℕ → ℕ → Option ℕ → Type 0
Asked http_date h now floor none = Unit
Asked http_date h now floor (some d) =
    (floor ≤ d)
    × ((d ≡ floor)
        ⊎ ((v : Option Text) × Memᴰ v (h retry_after_header)
            × (seconds_delay http_date now v ≡ some d))
        ⊎ ((v : Option Text) × Memᴰ v (h retry_after_ms_header) × (millis_delay v ≡ some d)))

longest-Mem :
    (delay : Option Text → Option ℕ) (vs : List (Option Text)) (d : ℕ)
    → longest delay vs ≡ some d
    → (v : Option Text) × Memᴰ v vs × (delay v ≡ some d)
unfolding longest
longest-Mem delay [] d e = absurd (cc)
longest-Mem delay (v ∷ vs) d e = elim (longer_either (delay v) (longest delay vs) d e) [
  | inl f ↦ (v, Memᴰ.head refl, f)
  | inr f ↦ let (w, m, g) = longest-Mem delay vs d f in (w, Memᴰ.tail m, g)
]

failure_delay-Asked :
    (http_date : Text → Option ℕ) (h : Headers) (now floor : ℕ) (o : Option ℕ)
    → header_delay http_date h now ≡ o
    → Asked http_date h now floor (Option.map (λ d. max d floor) o)
unfolding header_delay
failure_delay-Asked http_date h now floor none e = tt
failure_delay-Asked http_date h now floor (some d) e = (
  omega arith,
  elim (Bool-cases (leb d floor)) [
    | inl le ↦ inl (omega (arith, leb→le d floor le))
    | inr gt ↦
        let same : max d floor ≡ d = ground arith in
        elim (longer_either (longest (seconds_delay http_date now) (h retry_after_header))
          (longest millis_delay (h retry_after_ms_header)) d e) [
            | inl f ↦
                let (v, m, g) =
                  longest-Mem (seconds_delay http_date now) (h retry_after_header) d f in
                inr (inl (v, m, g ∙ ap some (sym same)))
            | inr f ↦
                let (v, m, g) = longest-Mem millis_delay (h retry_after_ms_header) d f in
                inr (inr (v, m, g ∙ ap some (sym same)))
          ]
  ],
)

-- The wait after a failed response is there where a value of its headers asks for one, and is at
-- least every delay that they ask for and at least the floor, a second where the timing allows a
-- retry and five seconds where it does not; it is no longer than that: it is the floor itself, or
-- one of the values asks for it.
pub failure_delay-All :
    (http_date : Text → Option ℕ) (h : Headers) (now : ℕ)
    → let wait = failure_delay http_date h now in
      All (λ v. Covers wait (seconds_delay http_date now v)) (h retry_after_header)
      × All (λ v. Covers wait (millis_delay v)) (h retry_after_ms_header)
      × Asked http_date h now
          (if timing_allows_retry http_date h now then first_backoff else cooldown)
          wait
unfolding failure_delay
failure_delay-All http_date h now =
    let floor = if timing_allows_retry http_date h now then first_backoff else cooldown in
    let o = header_delay http_date h now in
    let raised = Option.map (λ d. max d floor) o in
    let (s, t) = header_delay-All http_date h now in
    (
      Covers-All o raised (seconds_delay http_date now) (h retry_after_header)
          (λ c k. Covers-raised o floor c k) s,
      Covers-All o raised millis_delay (h retry_after_ms_header) (λ c k. Covers-raised o floor c k)
          t,
      failure_delay-Asked http_date h now floor o refl,
    )
