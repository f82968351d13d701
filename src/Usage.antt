-- ===== src/Usage.antt =====
-- product/src/protocol/mod.rs, `token` and `nested_token`, and product/src/protocol/json.rs: the
-- usage that a whole response reports.
use deskquota.Common.{
  Bool, Option, Text, [], codes, false, if◌then◌else◌, is_some, map, none, not, same_text, some,
  true, ℕ, ◌&&◌, ◌||◌, ◌∷◌,
}
use deskquota.Json.{
  Value, and_then, as_array, as_str, as_u64, every, get, get_str, is_null, none_or, null, object,
  some_and,
}
use deskquota.Admission.{
  Endpoint, ObservedUsage, chat_completions, messages, responses, usage_total,
}
use deskquota.Shapes.{is_empty, one_of}

-- `Result<Option<u64>, ()>`.
pub data Token : Type 0 where
  missing wrong : Token
  given : ℕ → Token

abbrev as_token : Option ℕ → Token
as_token none = wrong
as_token (some n) = given n

abbrev token_at : Option Value → Token
token_at none = missing
token_at (some v) = as_token (as_u64 v)

abbrev pub token : Value → Text → Token
token v key = token_at (get v key)

abbrev nested_at : Option Value → Text → Token
nested_at none key = missing
nested_at (some null) key = missing
nested_at (some (object fs)) key = token (object fs) key
nested_at (some _) key = wrong

abbrev pub nested_token : Value → Text → Text → Token
nested_token v object_key key = nested_at (get v object_key) key

-- `ok()??`, and `ok()?.unwrap_or(0)`.
abbrev pub required : Token → Option ℕ
required (given n) = some n
required _ = none

abbrev pub defaulted : Token → Option ℕ
defaulted missing = some 0
defaulted (given n) = some n
defaulted wrong = none

-- `pointer("/a/b")`.
abbrev pub pointer : Value → Text → Text → Option Value
pointer v a b = and_then (get v a) (λ w. get w b)

abbrev pub usage_of : Option ℕ → Option ℕ → Option ℕ → Option ℕ → Option ObservedUsage
usage_of (some input) (some output) (some creation) (some read) = some (record {
  input_tokens = input;
  output_tokens = output;
  cache_creation_input_tokens = creation;
  cache_read_input_tokens = read;
})
usage_of _ _ _ _ = none

-- `total(endpoint)?`.
unfoldable pub with_total : Endpoint → Option ObservedUsage → Option ObservedUsage
with_total endpoint none = none
with_total endpoint (some u) = if is_some (usage_total u endpoint) then some u else none

unfoldable pub supported_incomplete : Value → Bool
supported_incomplete response =
    some_and (get_str response (codes "status")) (same_text (codes "incomplete"))
    && one_of (map codes ("max_output_tokens" ∷ "content_filter" ∷ []))
        (and_then (pointer response (codes "incomplete_details") (codes "reason")) as_str)

abbrev is_object : Value → Bool
is_object (object fs) = true
is_object _ = false

abbrev is_finished : Value → Bool
is_finished choice =
    some_and (get choice (codes "message")) is_object
    && one_of
        (map codes ("stop" ∷ "length" ∷ "tool_calls" ∷ "function_call" ∷ "content_filter" ∷ []))
        (get_str choice (codes "finish_reason"))

-- The response is one whose usage counts.
abbrev accounts : Endpoint → Value → Bool
accounts chat_completions v =
    some_and (and_then (get v (codes "choices")) as_array)
      (λ cs. not (is_empty cs) && every is_finished cs)
accounts responses v =
    (some_and (get_str v (codes "status")) (same_text (codes "completed"))
      && none_or (get v (codes "incomplete_details")) is_null)
    || supported_incomplete v
accounts messages v =
    some_and (get_str v (codes "type")) (same_text (codes "message"))
    && (some_and (get_str v (codes "role")) (same_text (codes "assistant"))
        && some_and (get_str v (codes "stop_reason")) (λ r. not (is_empty r)))
accounts _ v = false

abbrev read_json : Endpoint → Value → Option ObservedUsage
read_json chat_completions usage =
    usage_of (required (token usage (codes "prompt_tokens")))
      (required (token usage (codes "completion_tokens"))) (some 0)
      (defaulted (nested_token usage (codes "prompt_tokens_details") (codes "cached_tokens")))
read_json responses usage =
    usage_of (required (token usage (codes "input_tokens")))
      (required (token usage (codes "output_tokens"))) (some 0)
      (defaulted (nested_token usage (codes "input_tokens_details") (codes "cached_tokens")))
read_json messages usage =
    usage_of (required (token usage (codes "input_tokens")))
      (required (token usage (codes "output_tokens")))
      (defaulted (token usage (codes "cache_creation_input_tokens")))
      (defaulted (token usage (codes "cache_read_input_tokens")))
read_json _ usage = none

unfoldable pub json_usage : Endpoint → Value → Option ObservedUsage
json_usage endpoint v =
    if not (none_or (get v (codes "error")) is_null)
    then none
    else if not (accounts endpoint v)
    then none
    else with_total endpoint (and_then (get v (codes "usage")) (read_json endpoint))
