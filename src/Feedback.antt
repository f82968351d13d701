-- ===== src/Feedback.antt =====
-- product/src/admission/feedback.rs: the exhaustion hints of a response's headers. The parsers of
-- durations and timestamps, of a third-party package, are the arguments `duration` and `rfc3339`.
pub mod Hints
use mathlib.Core.Option
use deskquota.Common.{
  Bool, List, Option, Text, [], false, if◌then◌else◌, max, none, same_text, some, trim, true, ℕ,
  ◌&&◌, ◌-◌, ◌==◌, ◌||◌, ◌∷◌,
}
use deskquota.Retry.{all_of, is_decimal, parse_u64}
use deskquota.Admission.{Exhausted}

-- The rows of the table in `exhausted`: requests, tokens and project tokens of x-ratelimit, and
-- requests of anthropic-ratelimit.
pub data Limited : Type 0 where
  requests tokens project_tokens anthropic_requests : Limited

pub data Column : Type 0 where
  remaining reset : Column

-- `get_all` of the header of a row and column with `to_str` of each value.
abbrev pub Feedback : Type 0
Feedback = Limited → Column → List (Option Text)

abbrev pub for_generation : Limited → Bool
for_generation requests = false
for_generation tokens = true
for_generation project_tokens = true
for_generation anthropic_requests = false

abbrev pub is_timestamp : Limited → Bool
is_timestamp anthropic_requests = true
is_timestamp _ = false

abbrev pub repeats : Text → Option Text → Bool
unfolding trim same_text
repeats s none = false
repeats s (some t) = same_text (trim t) s

-- The value of a header, where all its values are the same.
abbrev pub unique : List (Option Text) → Option Text
unfolding trim repeats
unique [] = none
unique (none ∷ vs) = none
unique (some s ∷ vs) = if all_of (repeats (trim s)) vs then some (trim s) else none

abbrev pub is_zero : Option Text → Bool
is_zero none = false
is_zero (some s) = is_decimal s && reads_zero (parse_u64 s)
  where
    reads_zero : Option ℕ → Bool
    reads_zero none = false
    reads_zero (some n) = n == 0

abbrev pub table : List Limited
table = requests ∷ tokens ∷ project_tokens ∷ anthropic_requests ∷ []

module _ (duration rfc3339 : Text → Option ℕ) (now : ℕ) where
  abbrev pub reset_delay : Limited → Option Text → Option ℕ
  reset_delay r none = none
  reset_delay r (some s) =
      if is_timestamp r then Option.map (λ at. at - now) (rfc3339 s) else duration s

  -- The delay that one row of the table asks for.
  unfoldable pub hint : Feedback → Limited → Option ℕ
  unfolding unique
  hint f r = if is_zero (unique (f r remaining)) then reset_delay r (unique (f r reset)) else none

  abbrev pub widen : Option Exhausted → Limited → Option ℕ → Option Exhausted
  widen result r none = result
  widen none r (some delay) = some (record { delay = delay; generation_only = for_generation r })
  widen (some previous) r (some delay) = some (record {
    delay = max previous.delay delay;
    generation_only = previous.generation_only || for_generation r;
  })

  -- The loop over the rows of the table.
  unfoldable pub widen_rows : Feedback → Option Exhausted → List Limited → Option Exhausted
  widen_rows f result [] = result
  widen_rows f result (r ∷ rs) = widen_rows f (widen result r (hint f r)) rs

  unfoldable pub exhausted : Feedback → Option Exhausted
  unfolding widen_rows
  exhausted f = widen_rows f none table
