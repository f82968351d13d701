-- ===== src/Feedback/Hints.antt =====
-- product/src/admission/feedback.rs: what the combined hint owes to the rows of its table.
use mathlib.Core.Bool.{false≢true}
use deskquota.Common.{
  Bool, Bool-cases, List, Option, Text, [], ap, arith, false, inl, inr, leb, max, none, not, refl,
  some, subst, sym, true, ℕ, ◌&&◌, ◌||◌, ◌∙◌, ◌∷◌, ◌≡◌, ◌≤◌, ◌⊎◌,
}
use deskquota.Admission.{Exhausted}
use deskquota.Feedback.{
  Feedback, Limited, anthropic_requests, exhausted, for_generation, hint, project_tokens, requests,
  table, tokens, widen, widen_rows,
}

-- The hint has at least the delay `d`, and is for generation if `g`.
abbrev pub Has : ℕ → Bool → Option Exhausted → Type 0
Has d g o = (e : Exhausted) × (o ≡ some e) × (d ≤ e.delay) × (g && not e.generation_only ≡ false)

module _ (duration rfc3339 : Text → Option ℕ) (now : ℕ) where
  Has-widen :
      (d : ℕ) (g : Bool) (o : Option Exhausted) (r : Limited) (p : Option ℕ)
      → Has d g o
      → Has d g (widen duration rfc3339 now o r p)
  Has-widen d g o r none h = h
  Has-widen d g none r (some k) (e, a, le, w) = absurd (cc)
  Has-widen d g (some x) r (some k) (e, a, le, w) =
      let same : x ≡ e = ground arith in
      (
        record { delay = max x.delay k; generation_only = x.generation_only || for_generation r },
        refl,
        rw same (omega arith),
        rw same (ground arith),
      )

  widen-Has :
      (d : ℕ) (o : Option Exhausted) (r : Limited) (p : Option ℕ)
      → p ≡ some d
      → Has d (for_generation r) (widen duration rfc3339 now o r p)
  widen-Has d o r none h = absurd (cc)
  widen-Has d none r (some k) h =
      (record { delay = k; generation_only = for_generation r }, refl, ground arith, ground arith)
  widen-Has d (some x) r (some k) h = (
    record { delay = max x.delay k; generation_only = x.generation_only || for_generation r },
    refl,
    ground arith,
    ground arith,
  )

  rows-Has :
      (f : Feedback) (d : ℕ) (g : Bool) (rs : List Limited) (o : Option Exhausted)
      → Has d g o
      → Has d g (widen_rows duration rfc3339 now f o rs)
  unfolding widen_rows
  rows-Has f d g [] o h = h
  rows-Has f d g (r ∷ rs) o h =
      rows-Has f d g rs _ (Has-widen d g o r (hint duration rfc3339 now f r) h)

  Among : Limited → List Limited → Type 0
  Among r [] = false ≡ true
  Among r (x ∷ xs) = (x ≡ r) ⊎ Among r xs

  Among-Has :
      (f : Feedback) (r : Limited) (d : ℕ)
      → hint duration rfc3339 now f r ≡ some d
      → (rs : List Limited) (o : Option Exhausted) → Among r rs
      → Has d (for_generation r) (widen_rows duration rfc3339 now f o rs)
  unfolding widen_rows Among
  Among-Has f r d h [] o m = absurd (false≢true m)
  Among-Has f r d h (x ∷ xs) o (inl e) =
      let h' = subst (λ y. hint duration rfc3339 now f y ≡ some d) (sym e) h in
      subst (λ y. Has d (for_generation y) (widen_rows duration rfc3339 now f o (x ∷ xs))) e
        (rows-Has f d (for_generation x) xs _ (widen-Has d o x (hint duration rfc3339 now f x) h'))
  Among-Has f r d h (x ∷ xs) o (inr m) = Among-Has f r d h xs _ m

  every_row : (r : Limited) → Among r table
  unfolding Among
  every_row requests = inl refl
  every_row tokens = inr (inl refl)
  every_row project_tokens = inr (inr (inl refl))
  every_row anthropic_requests = inr (inr (inr (inl refl)))

  -- Every exhausted row is respected: where a row of the table gives a delay, the hint is there,
  -- is at least that long, and is for generation if the row is about tokens.
  pub exhausted-Has :
      (f : Feedback) (r : Limited) (d : ℕ)
      → hint duration rfc3339 now f r ≡ some d
      → Has d (for_generation r) (exhausted duration rfc3339 now f)
  unfolding exhausted
  exhausted-Has f r d h = Among-Has f r d h table none (every_row r)

  -- Where the hint comes from: from some row with exactly its delay.
  abbrev pub From : Feedback → Option Exhausted → Type 0
  From f none = Unit
  From f (some e) = (r : Limited) × (hint duration rfc3339 now f r ≡ some e.delay)

  From-widen :
      (f : Feedback) (o : Option Exhausted) (r : Limited) (p : Option ℕ)
      → hint duration rfc3339 now f r ≡ p
      → From f o
      → From f (widen duration rfc3339 now o r p)
  From-widen f o r none h k = k
  From-widen f none r (some d) h k = (r, h)
  From-widen f (some x) r (some d) h (s, k) = elim (Bool-cases (leb x.delay d)) [
    | inl a ↦ (r, h ∙ ap some (ground arith))
    | inr b ↦ (s, k ∙ ap some (ground arith))
  ]

  rows-From :
      (f : Feedback) (rs : List Limited) (o : Option Exhausted)
      → From f o
      → From f (widen_rows duration rfc3339 now f o rs)
  unfolding widen_rows
  rows-From f [] o h = h
  rows-From f (r ∷ rs) o h = rows-From f rs _ (From-widen f o r _ refl h)

  -- No hint is invented: the hint's delay is the delay of one of the rows.
  pub exhausted-From : (f : Feedback) → From f (exhausted duration rfc3339 now f)
  unfolding exhausted
  exhausted-From f = rows-From f table none tt
