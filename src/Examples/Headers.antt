-- ===== src/Examples/Headers.antt =====
-- product/src/admission/retry.rs and feedback.rs: headers with two values of retry-after, a number
-- and a date, and a rate limit that is exhausted.
use deskquota.Common.{
  All, Bool, Option, Text, [], false, from_secs, if◌then◌else◌, none, refl, some, trim, true, ℕ,
  ◌-◌, ◌==◌, ◌∷◌, ◌≡◌,
}
use deskquota.Retry.{
  Headers, decimal, failure_delay, header_delay, millis_delay, retry_after_header,
  retry_after_ms_header, seconds_delay, should_retry_header, timing_allows_retry,
}
use deskquota.Retry.Delay.{Asked, Covers, failure_delay-All, header_delay-All}
use deskquota.Circuit.{cooldown, first_backoff}
use deskquota.Feedback.{Feedback, exhausted, hint, remaining, requests, reset, tokens}
use deskquota.Feedback.Hints.{Has, exhausted-Has}

-- "7", and a date 20 seconds after the time 5.
abbrev seven : Text
seven = 55 ∷ []

abbrev dated : Text
dated = 77 ∷ []

abbrev http_date : Text → Option ℕ
http_date s = if same_text s dated then some (from_secs 25) else none
  where
    same_text : Text → Text → Bool
    same_text (a ∷ []) (b ∷ []) = a == b
    same_text _ _ = false

abbrev sent : Headers
sent retry_after_header = some (32 ∷ seven) ∷ some dated ∷ []
sent retry_after_ms_header = []
sent should_retry_header = []

header_delay-All_example :
    All
      (λ v.
        Covers
          (header_delay http_date sent (from_secs 5))
          (seconds_delay http_date (from_secs 5) v))
      (sent retry_after_header)
    × All
        (λ v. Covers (header_delay http_date sent (from_secs 5)) (millis_delay v))
        (sent retry_after_ms_header)
header_delay-All_example = header_delay-All http_date sent (from_secs 5)

failure_delay-All_example :
    let wait = failure_delay http_date sent (from_secs 5) in
    All (λ v. Covers wait (seconds_delay http_date (from_secs 5) v)) (sent retry_after_header)
    × All (λ v. Covers wait (millis_delay v)) (sent retry_after_ms_header)
    × Asked http_date sent
        (from_secs 5)
        (if timing_allows_retry http_date sent (from_secs 5) then first_backoff else cooldown)
        wait
failure_delay-All_example = failure_delay-All http_date sent (from_secs 5)

-- "0" remains of the requests and of the tokens; they come back in 7 and in 9.
abbrev feedback : Feedback
feedback requests remaining = some (48 ∷ []) ∷ []
feedback requests reset = some seven ∷ []
feedback tokens remaining = some (48 ∷ 48 ∷ []) ∷ []
feedback tokens reset = some (57 ∷ []) ∷ []
feedback _ _ = []

abbrev duration : Text → Option ℕ
duration (c ∷ []) = some (c - 48)
duration _ = none

hint_tokens : hint duration (λ s. none) 0 feedback tokens ≡ some 9
unfolding hint trim decimal
hint_tokens = refl

exhausted-Has_example : Has 9 true (exhausted duration (λ s. none) 0 feedback)
exhausted-Has_example = exhausted-Has duration (λ s. none) 0 feedback tokens 9 hint_tokens
