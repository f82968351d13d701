-- ===== src/BodyBudget/Held.antt =====
-- product/src/transport/body_budget.rs: the permits that a read holds.
use deskquota.Common.{
  Bool-cases, List, Option, Option-cases, [], arith, inl, inr, length, length-append, ltb, ltb→ge,
  none, refl, some, subst, ℕ, ◌++◌, ◌+◌, ◌∷◌, ◌≡◌, ◌≤◌,
}
use deskquota.BodyBudget.{
  BodyRead, Frame, broken, budgeted, chunk, failed, give_back, max_u32, merged, other,
  per_request_limit, read_body, read_frames,
}

abbrev pub held : Option ℕ → ℕ
held none = 0
held (some n) = n

module _ {S : Type 0} (available : S → ℕ) where
  -- `free` permits are accounted for: by the body, one for each of its bytes, or given back.
  abbrev pub Settled : ℕ → S × BodyRead → Type 0
  Settled free (s, budgeted bytes permit) =
      (held permit ≡ length bytes)
      × (length bytes ≤ per_request_limit)
      × (available s + length bytes ≡ free)
  Settled free (s, failed e) = available s ≡ free

module _ {S : Type 0} (try_acquire : S → ℕ → Option S) (release : S → ℕ → S) (available : S → ℕ)
    (acquired : (s s' : S) (n : ℕ) → try_acquire s n ≡ some s' → available s' + n ≡ available s)
    (released : (s : S) (n : ℕ) → available (release s n) ≡ available s + n) where
  given_back :
      (s : S) (p : Option ℕ) → available (give_back try_acquire release s p) ≡ available s + held p
  given_back s none = omega arith
  given_back s (some n) = released s n

  held-merged : (p : Option ℕ) (n : ℕ) → held (merged try_acquire release p n) ≡ held p + n
  held-merged none n = omega arith
  held-merged (some k) n = omega arith

  frames-Settled :
      (fs : List Frame) (s : S) (bytes : List ℕ) (permit : Option ℕ)
      → held permit ≡ length bytes
      → length bytes ≤ per_request_limit
      → Settled available
          (available s + length bytes)
          (read_frames try_acquire release s bytes permit fs)
  unfolding read_frames
  frames-Settled [] s bytes permit h l = (h, l, refl)
  frames-Settled (broken ∷ fs) s bytes permit h l = omega (arith, given_back s permit)
  frames-Settled (other ∷ fs) s bytes permit h l = frames-Settled fs s bytes permit h l
  frames-Settled (chunk d ∷ fs) s bytes permit h l =
      let back = given_back s permit in
      let long = length-append bytes d in
      elim (Bool-cases (ltb per_request_limit (length bytes + length d))) [
        | inl a ↦ rw a (omega arith)
        | inr a ↦ elim (Bool-cases (ltb max_u32 (length d))) [
          | inl b ↦ rw (a, b) (omega arith)
          | inr b ↦ elim (Bool-cases (ltb 0 (length d))) [
            | inl c ↦ elim (Option-cases (try_acquire s (length d))) [
              | inl e ↦ rw (a, b, c, e) (omega arith)
              | inr (s', e) ↦
                  let got = acquired s s' (length d) e in
                  let more = held-merged permit (length d) in
                  let free : available s' + length (bytes ++ d) ≡ available s + length bytes =
                    omega arith in
                  rw (a, b, c, e)
                    (subst
                      (λ n. Settled available n (
                        read_frames try_acquire release s' (bytes ++ d)
                          (merged try_acquire release permit (length d)) fs))
                      free
                      (frames-Settled fs s' (bytes ++ d)
                        (merged try_acquire release permit (length d)) (omega arith)
                        (omega (arith, ltb→ge _ _ a))))
            ]
            | inr c ↦
                let free : available s + length (bytes ++ d) ≡ available s + length bytes =
                  omega (arith, ltb→ge _ _ c) in
                rw (a, b, c)
                  (subst
                    (λ n.
                      Settled available n
                        (read_frames try_acquire release s (bytes ++ d) permit fs))
                    free
                    (frames-Settled fs s (bytes ++ d) permit (omega (arith, ltb→ge _ _ c))
                      (omega (arith, ltb→ge _ _ a))))
          ]
        ]
      ]

  -- With a semaphore whose `try_acquire` takes the permits that it is asked for and whose `release`
  -- gives them back: reading a body of any frames takes one permit for each byte of the body that
  -- it returns, which has at most 8 MiB, and none when it fails.
  pub read_body-Settled :
      (s : S) (fs : List Frame)
      → Settled available (available s) (read_body try_acquire release s fs)
  unfolding read_body
  read_body-Settled s fs =
      let free : available s + 0 ≡ available s = omega arith in
      subst (λ n. Settled available n (read_body try_acquire release s fs)) free
        (frames-Settled fs s [] none refl (omega arith))
