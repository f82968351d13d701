-- ===== src/Shapes.antt =====
-- product/src/cache.rs: the shapes of requests and responses that the exact cache takes (`only` to
-- `complete_response`). The parser of JSON, of the package serde_json, is a parameter.
pub mod Taken
pub mod Eligible
use deskquota.Common.{
  Bool, List, Option, Text, [], any, codes, contains, false, if◌then◌else◌, is_some, leb, length,
  ltb, map, none, not, same_text, some, true, ℕ, ◌&&◌, ◌*◌, ◌==◌, ◌||◌, ◌∷◌,
}
use deskquota.Json.{
  Value, and_then, as_array, as_bool, as_object, as_u64, every, get, get_str, is_array, is_boolean,
  is_empty_array, is_null, is_string, is_text, none_or, some_and,
}
use deskquota.Admission.{Endpoint, chat_completions, count_tokens, messages, models, responses}
use deskquota.Cache.{
  Bypass, endpoint_of, history_of, request_cache_control_of, size_over, tools_state_of,
  unsupported_shape_of,
}

abbrev pub is_false : Option Bool → Bool
is_false (some false) = true
is_false _ = false

-- `matches!(value, Some(..))` on one of these texts.
abbrev pub one_of : List Text → Option Text → Bool
one_of ts none = false
one_of ts (some s) = contains ts s

unfoldable pub only : Value → List Text → Bool
only v names = some_and (as_object v) (every (λ (k, x). contains names k))

abbrev pub is_empty {ℓ} : {A : Type ℓ} → List A → Bool
is_empty [] = true
is_empty (x ∷ xs) = false

abbrev pub is_block : List Text → Value → Bool
unfolding only
is_block types block =
    only block (codes "type" ∷ codes "text" ∷ [])
    && (one_of types (get_str block (codes "type"))
        && some_and (get block (codes "text")) is_string)

unfoldable pub is_texts : Value → List Text → Bool
is_texts v types =
    is_string v || some_and (as_array v) (λ bs. not (is_empty bs) && every (is_block types) bs)

abbrev pub roles : List Text
roles = codes "system" ∷ codes "developer" ∷ codes "user" ∷ codes "assistant" ∷ []

abbrev pub is_message : List Text → Value → Bool
is_message types message =
    only message (codes "role" ∷ codes "content" ∷ codes "type" ∷ [])
    && (none_or (get message (codes "type")) (is_text (codes "message"))
        && (one_of roles (get_str message (codes "role"))
            && some_and (get message (codes "content")) (λ v. is_texts v types)))

unfoldable pub is_history : Value → ℕ → List Text → Bool
is_history v max_history types =
    some_and (as_array v)
      (λ ms. not (is_empty ms) && (leb (length ms) max_history && every (is_message types) ms))

abbrev pub chat_fields : List Text
chat_fields = map codes (
    "model" ∷ "messages" ∷ "temperature" ∷ "top_p" ∷ "max_tokens" ∷ "max_completion_tokens"
    ∷ "stream" ∷ "stream_options" ∷ "stop" ∷ "seed" ∷ "frequency_penalty" ∷ "presence_penalty"
    ∷ "response_format" ∷ "n" ∷ [])

abbrev pub message_fields : List Text
message_fields = map codes (
    "model" ∷ "messages" ∷ "system" ∷ "temperature" ∷ "top_p" ∷ "top_k" ∷ "max_tokens" ∷ "stream"
    ∷ "stop_sequences" ∷ [])

abbrev pub response_fields : List Text
response_fields = map codes (
    "model" ∷ "input" ∷ "instructions" ∷ "temperature" ∷ "top_p" ∷ "max_output_tokens" ∷ "stream"
    ∷ "store" ∷ "text" ∷ [])

abbrev pub fields_of : Endpoint → Option (List Text)
fields_of chat_completions = some chat_fields
fields_of messages = some message_fields
fields_of responses = some response_fields
fields_of count_tokens = none
fields_of models = none

abbrev pub bad_options : Value → Bool
bad_options options =
    not (only options (codes "include_usage" ∷ []))
    || some_and (get options (codes "include_usage")) (λ usage. not (is_boolean usage))

abbrev pub is_value : ℕ → Option ℕ → Bool
is_value n none = false
is_value n (some m) = m == n

abbrev pub is_one : Value → Bool
is_one v = is_value 1 (as_u64 v)

-- The last `match` of `eligible`.
abbrev pub has_shape : Endpoint → Value → ℕ → Bool
has_shape chat_completions v max_history =
    none_or (get v (codes "n")) is_one
    && some_and (get v (codes "messages")) (λ ms. is_history ms max_history (codes "text" ∷ []))
has_shape messages v max_history =
    none_or (get v (codes "system")) (λ s. is_texts s (codes "text" ∷ []))
    && some_and (get v (codes "messages")) (λ ms. is_history ms max_history (codes "text" ∷ []))
has_shape responses v max_history =
    is_false (and_then (get v (codes "store")) as_bool)
    && (none_or (get v (codes "instructions")) is_string
        && some_and (get v (codes "input")) (λ i.
          is_string i || is_history i max_history (codes "input_text" ∷ codes "output_text" ∷ [])))
has_shape _ v max_history = false

unfoldable pub eligible : Endpoint → Value → ℕ → Bool
unfolding only
eligible endpoint v max_history = some_and (fields_of endpoint) (λ names.
    not (
      not (only v names)
      || (some_and (get v (codes "stream")) (λ s. not (is_boolean s))
          || some_and (get v (codes "stream_options")) bad_options))
    && has_shape endpoint v max_history)

abbrev pub has_any : Value → List Text → Bool
has_any v names = any (λ name. is_some (get v name)) names

abbrev pub tool_fields : List Text
tool_fields = map codes (
    "tools" ∷ "tool_choice" ∷ "functions" ∷ "function_call" ∷ "parallel_tool_calls"
    ∷ "previous_response_id" ∷ "conversation" ∷ [])

-- An item of the input that is part of a use of tools.
abbrev pub is_tool_item : Value → Bool
is_tool_item item =
    one_of (map codes ("tool" ∷ "function" ∷ [])) (get_str item (codes "role"))
    || (has_any item (map codes ("tool_calls" ∷ "function_call" ∷ "tool_call_id" ∷ []))
        || (one_of
              (map codes
                ("function_call" ∷ "function_call_output" ∷ "tool_use" ∷ "tool_result" ∷ []))
              (get_str item (codes "type"))
            || some_and (and_then (get item (codes "content")) as_array) (
                any (λ block.
                  one_of (map codes ("tool_use" ∷ "tool_result" ∷ []))
                    (get_str block (codes "type"))))))

abbrev pub input_of : Endpoint → Value → Option Value
input_of responses v = get v (codes "input")
input_of _ v = get v (codes "messages")

-- A response that the server is not asked to forget.
abbrev pub is_stored : Endpoint → Value → Bool
is_stored responses v = not (is_false (and_then (get v (codes "store")) as_bool))
is_stored _ v = false

-- `bypass_reason` on a body that parses.
unfoldable pub value_bypass : Endpoint → Value → ℕ → Option Bypass
value_bypass endpoint v max_history =
    let items = and_then (input_of endpoint v) as_array in
    if has_any v tool_fields || (is_stored endpoint v || some_and items (any is_tool_item))
    then some tools_state_of
    else if some_and items (λ ms. ltb max_history (length ms))
    then some history_of
    else if not (eligible endpoint v max_history)
    then some unsupported_shape_of
    else none

abbrev pub request_bytes : ℕ
request_bytes = 32 * 1024

abbrev pub has_history : Endpoint → Bool
has_history models = false
has_history count_tokens = false
has_history _ = true

abbrev pub parsed_bypass : Endpoint → ℕ → Option Value → Option Bypass
parsed_bypass endpoint max_history none = some unsupported_shape_of
parsed_bypass endpoint max_history (some v) = value_bypass endpoint v max_history

unfoldable pub bypass_reason :
    (List ℕ → Option Value) → Endpoint → List ℕ → ℕ → Bool → Option Bypass
bypass_reason parse endpoint body max_history forbids_reuse =
    if forbids_reuse
    then some request_cache_control_of
    else if ltb request_bytes (length body)
    then some size_over
    else if not (has_history endpoint)
    then some endpoint_of
    else parsed_bypass endpoint max_history (parse body)

-- `choices.len() == 1 && p(choices[0])`.
abbrev pub sole {ℓ} : {A : Type ℓ} → (A → Bool) → List A → Bool
sole p (x ∷ []) = p x
sole p _ = false

abbrev pub is_answer : Value → Bool
is_answer message =
    only message (map codes ("role" ∷ "content" ∷ "refusal" ∷ "annotations" ∷ []))
    && (none_or (get message (codes "refusal")) is_null
        && (none_or (get message (codes "annotations")) is_empty_array
            && (some_and (get message (codes "role")) (is_text (codes "assistant"))
                && some_and (get message (codes "content")) is_string)))

abbrev pub is_choice : Value → Bool
is_choice choice =
    some_and (get choice (codes "finish_reason")) (is_text (codes "stop"))
    && some_and (get choice (codes "message")) is_answer

unfoldable pub response_text_block : Value → Bool
response_text_block block =
    only block (map codes ("type" ∷ "text" ∷ "annotations" ∷ "logprobs" ∷ []))
    && (some_and (get block (codes "type")) (is_text (codes "output_text"))
        && (some_and (get block (codes "text")) is_string
            && (none_or (get block (codes "annotations")) is_empty_array
                && none_or (get block (codes "logprobs")) is_array)))

unfoldable pub response_message : Value → Bool → Bool
response_message item complete =
    some_and (get item (codes "type")) (is_text (codes "message"))
    && (some_and (get item (codes "role")) (is_text (codes "assistant"))
        && (some_and (get_str item (codes "status")) (λ status.
              same_text status (codes "completed")
              || (not complete && same_text status (codes "in_progress")))
            && some_and (and_then (get item (codes "content")) as_array) (λ blocks.
              (not complete || not (is_empty blocks)) && every response_text_block blocks)))

unfoldable pub complete_response : Value → Bool
complete_response v =
    some_and (get v (codes "status")) (is_text (codes "completed"))
    && (none_or (get v (codes "error")) is_null
        && (none_or (get v (codes "incomplete_details")) is_null
            && some_and (and_then (get v (codes "output")) as_array) (λ items.
              not (is_empty items) && every (λ item. response_message item true) items)))

-- The `match` of `complete_json`.
abbrev pub is_complete : Endpoint → Value → Bool
is_complete chat_completions v =
    some_and (and_then (get v (codes "choices")) as_array) (sole is_choice)
is_complete messages v =
    some_and (get v (codes "type")) (is_text (codes "message"))
    && (some_and (get v (codes "role")) (is_text (codes "assistant"))
        && (one_of (map codes ("end_turn" ∷ "stop_sequence" ∷ [])) (get_str v (codes "stop_reason"))
            && some_and (get v (codes "content")) (λ c. is_texts c (codes "text" ∷ []))))
is_complete responses v = complete_response v
is_complete _ v = false

unfoldable pub complete_json : Endpoint → Value → Bool
complete_json endpoint v =
    if some_and (get v (codes "error")) (λ e. not (is_null e))
    then false
    else is_complete endpoint v
