-- ===== src/Retry.antt =====
-- product/src/admission/retry.rs and `failure_delay` of product/src/circuit.rs: the wait that the
-- headers of a response ask for. A text is the list of its character codes; the parser of HTTP
-- dates, a third-party package, is the argument `http_date`.
pub mod Delay
use mathlib.Core.Option
use mathlib.Core.List
use deskquota.Common.{
  Bool, List, Option, Text, [], any, false, from_millis, from_secs, if◌then◌else◌, is_some, leb,
  max, max_duration, max_u64, none, not, some, trim, true, ℕ, ◌&&◌, ◌*◌, ◌+◌, ◌-◌, ◌==◌, ◌∷◌,
}
use deskquota.Circuit.{cooldown, first_backoff}

-- The headers that are read: retry-after, retry-after-ms and x-should-retry.
pub data Name : Type 0 where
  retry_after_header retry_after_ms_header should_retry_header : Name

-- `HeaderMap::get_all` of a name with `to_str` of each value, which is `none` where a value is not
-- visible ASCII.
abbrev pub Headers : Type 0
Headers = Name → List (Option Text)

abbrev pub is_digit : ℕ → Bool
is_digit c = leb 48 c && leb c 57

abbrev pub is_decimal : Text → Bool
is_decimal [] = false
is_decimal (c ∷ cs) = not (any (λ d. not (is_digit d)) (c ∷ cs))

-- The number that digits spell, after those that `n` stands for.
unfoldable pub decimal : ℕ → Text → ℕ
decimal n [] = n
decimal n (c ∷ cs) = decimal (n * 10 + (c - 48)) cs

-- `str::parse::<u64>` of a text of digits.
abbrev pub parse_u64 : Text → Option ℕ
unfolding decimal
parse_u64 s = if leb (decimal 0 s) max_u64 then some (decimal 0 s) else none

abbrev pub integer : Text → Option ℕ
integer s = if is_decimal s then parse_u64 s else none

abbrev pub scaled : (ℕ → ℕ) → Option ℕ → ℕ
scaled scale none = max_duration
scaled scale (some n) = scale n

abbrev pub numeric_cooldown : Text → (ℕ → ℕ) → Option ℕ
numeric_cooldown s scale = if is_decimal s then some (scaled scale (parse_u64 s)) else none

abbrev pub or_else : Option ℕ → Option ℕ → Option ℕ
or_else none p = p
or_else (some n) p = some n

abbrev pub seconds_or_date : (Text → Option ℕ) → ℕ → Text → Option ℕ
seconds_or_date http_date now s =
    or_else (Option.map from_secs (integer s)) (Option.map (λ at. at - now) (http_date s))

-- The delay that one value of `retry-after` asks for.
abbrev pub seconds_delay : (Text → Option ℕ) → ℕ → Option Text → Option ℕ
unfolding trim
seconds_delay http_date now none = none
seconds_delay http_date now (some s) =
    or_else (numeric_cooldown (trim s) from_secs) (seconds_or_date http_date now (trim s))

-- The delay that one value of `retry-after-ms` asks for.
abbrev pub millis_delay : Option Text → Option ℕ
unfolding trim
millis_delay none = none
millis_delay (some s) = numeric_cooldown (trim s) from_millis

abbrev pub longer : Option ℕ → Option ℕ → Option ℕ
longer none p = p
longer (some n) none = some n
longer (some n) (some k) = some (max n k)

-- `filter_map(delay).max()`.
unfoldable pub longest : (Option Text → Option ℕ) → List (Option Text) → Option ℕ
longest delay [] = none
longest delay (v ∷ vs) = longer (delay v) (longest delay vs)

unfoldable pub header_delay : (Text → Option ℕ) → Headers → ℕ → Option ℕ
unfolding longest
header_delay http_date h now =
    longer (longest (seconds_delay http_date now) (h retry_after_header))
      (longest millis_delay (h retry_after_ms_header))

abbrev pub allows_seconds : (Text → Option ℕ) → ℕ → Option Text → Bool
unfolding trim
allows_seconds http_date now none = false
allows_seconds http_date now (some s) = is_some (seconds_or_date http_date now (trim s))

abbrev pub allows_millis : Option Text → Bool
unfolding trim
allows_millis none = false
allows_millis (some s) = is_some (integer (trim s))

-- `all` of an iterator, as the absence of a value that fails.
abbrev pub all_of : (Option Text → Bool) → List (Option Text) → Bool
all_of p vs = not (any (λ v. not (p v)) vs)

unfoldable pub timing_allows_retry : (Text → Option ℕ) → Headers → ℕ → Bool
timing_allows_retry http_date h now =
    all_of (allows_seconds http_date now) (h retry_after_header)
    && all_of allows_millis (h retry_after_ms_header)

-- `!contains_key`, on the values of a name.
abbrev pub is_missing : List (Option Text) → Bool
is_missing [] = true
is_missing (v ∷ vs) = false

unfoldable pub missing_timing : Headers → Bool
missing_timing h = is_missing (h retry_after_header) && is_missing (h retry_after_ms_header)

-- `false`, between blanks.
abbrev pub forbids : Option Text → Bool
unfolding trim
forbids none = false
forbids (some s) = spells (trim s)
  where
    spells : Text → Bool
    spells (a ∷ b ∷ c ∷ d ∷ e ∷ []) =
        (a == 102) && ((b == 97) && ((c == 108) && ((d == 115) && (e == 101))))
    spells _ = false

unfoldable pub server_forbids_retry : Headers → Bool
server_forbids_retry h = any forbids (h should_retry_header)

-- `circuit::failure_delay`.
unfoldable pub failure_delay : (Text → Option ℕ) → Headers → ℕ → Option ℕ
unfolding header_delay timing_allows_retry
failure_delay http_date h now =
    Option.map
      (λ delay. max delay (if timing_allows_retry http_date h now then first_backoff else cooldown))
      (header_delay http_date h now)
