-- ===== src/Shapes/Taken.antt =====
-- product/src/cache.rs, `bypass_reason`: which requests the exact cache takes.
use deskquota.Common.{
  Bool, List, Option, Text, [], any, ap, arith, both, codes, false, inl, inr, length, ltb, map,
  none, refl, same_text, same_text_eq, some, true, ℕ, ◌||◌, ◌↔◌, ◌∷◌, ◌≡◌, ◌≤◌, ◌⊎◌,
}
use deskquota.Json.{
  Value, and_then, array, as_array, as_str, bool, every, get, get_str, is_string, is_text, items,
  none_or, null, number, object, some_and, string,
}
use deskquota.Admission.{Endpoint, chat_completions, count_tokens, messages, models, responses}
use deskquota.Shapes.{
  bypass_reason, chat_fields, eligible, has_any, has_history, input_of, is_history, is_message,
  is_stored, is_texts, is_tool_item, message_fields, one_of, only, parsed_bypass, request_bytes,
  response_fields, roles, tool_fields, value_bypass,
}
use deskquota.Shapes.Eligible.{
  Apart, Apart-one_of, is_tool_block, only-has_any, texts_No_tools, tool_uses,
}

message_type :
    (kind : Option Value) (t : Text)
    → none_or kind (is_text t) ≡ true
    → (and_then kind as_str ≡ none) ⊎ (and_then kind as_str ≡ some t)
message_type none t h = inl refl
message_type (some (string s)) t h = inr (ap some (same_text_eq s t h))
message_type (some null) t h = absurd (cc)
message_type (some (bool b)) t h = absurd (cc)
message_type (some (number n)) t h = absurd (cc)
message_type (some (array is)) t h = absurd (cc)
message_type (some (object fs)) t h = absurd (cc)

abbrev tool_types : List Text
tool_types = map codes ("function_call" ∷ "function_call_output" ∷ "tool_use" ∷ "tool_result" ∷ [])

type_No_tool :
    (kind : Option Value)
    → none_or kind (is_text (codes "message")) ≡ true
    → one_of tool_types (and_then kind as_str) ≡ false
unfolding same_text
type_No_tool kind h = elim (message_type kind (codes "message") h) [
  | inl e ↦ rw e refl
  | inr e ↦ rw e refl
]

content_No_tools :
    (types : List Text) (content : Option Value)
    → Apart types tool_uses
    → some_and content (λ v. is_texts v types) ≡ true
    → some_and (and_then content as_array) (any is_tool_block) ≡ false
content_No_tools types none d h = refl
content_No_tools types (some v) d h = texts_No_tools types v d h

message_No_tools :
    (types : List Text) (m : Value)
    → Apart types tool_uses
    → is_message types m ≡ true
    → is_tool_item m ≡ false
unfolding same_text
message_No_tools types m d h =
    let allowed = map codes ("role" ∷ "content" ∷ "type" ∷ []) in
    let keys : only m allowed ≡ true = ground arith in
    let kind : none_or (get m (codes "type")) (is_text (codes "message")) ≡ true = ground arith in
    let role : one_of roles (get_str m (codes "role")) ≡ true = ground arith in
    let content : some_and (get m (codes "content")) (λ v. is_texts v types) ≡ true =
      ground arith in
    rw
      (
        Apart-one_of roles (map codes ("tool" ∷ "function" ∷ [])) (get_str m (codes "role")) refl
            role,
        only-has_any m allowed (map codes ("tool_calls" ∷ "function_call" ∷ "tool_call_id" ∷ []))
            keys refl,
        type_No_tool (get m (codes "type")) kind,
        content_No_tools types (get m (codes "content")) d content,
      )
      refl

messages_No_tools :
    (types : List Text) (ms : List Value)
    → Apart types tool_uses
    → every (is_message types) ms ≡ true
    → any is_tool_item ms ≡ false
messages_No_tools types [] d h = refl
messages_No_tools types (m ∷ ms) d h =
    let (here, there) = both (is_message types m) (every (is_message types) ms) h in
    rw (message_No_tools types m d here) (messages_No_tools types ms d there)

-- A history that the cache takes, if it is a list: no tools, and not too long.
abbrev Plain : ℕ → Option (List Value) → Type 0
Plain max_history items =
    (some_and items (any is_tool_item) ≡ false)
    × (some_and items (λ ms. ltb max_history (length ms)) ≡ false)

history_Plain :
    (v : Value) (max_history : ℕ) (types : List Text)
    → Apart types tool_uses
    → is_history v max_history types ≡ true
    → Plain max_history (as_array v)
unfolding is_history
history_Plain (array is) max_history types d h =
    (messages_No_tools types (items is) d (ground arith), ground arith)
history_Plain null max_history types d h = absurd (cc)
history_Plain (bool b) max_history types d h = absurd (cc)
history_Plain (number n) max_history types d h = absurd (cc)
history_Plain (string s) max_history types d h = absurd (cc)
history_Plain (object fs) max_history types d h = absurd (cc)

input_Plain :
    (input : Option Value) (max_history : ℕ) (types : List Text)
    → Apart types tool_uses
    → some_and input (λ v. is_history v max_history types) ≡ true
    → Plain max_history (and_then input as_array)
input_Plain none max_history types d h = (refl, refl)
input_Plain (some v) max_history types d h = history_Plain v max_history types d h

response_Plain :
    (input : Option Value) (max_history : ℕ) (types : List Text)
    → Apart types tool_uses
    → some_and input (λ v. is_string v || is_history v max_history types) ≡ true
    → Plain max_history (and_then input as_array)
response_Plain none max_history types d h = (refl, refl)
response_Plain (some (array is)) max_history types d h =
    history_Plain (array is) max_history types d h
response_Plain (some (string s)) max_history types d h = (refl, refl)
response_Plain (some null) max_history types d h = (refl, refl)
response_Plain (some (bool b)) max_history types d h = (refl, refl)
response_Plain (some (number n)) max_history types d h = (refl, refl)
response_Plain (some (object fs)) max_history types d h = (refl, refl)

-- What `eligible` gives of a value: no field of tools, no stored response, a plain history.
abbrev Clean : Endpoint → Value → ℕ → Type 0
Clean endpoint v max_history =
    (has_any v tool_fields ≡ false)
    × (is_stored endpoint v ≡ false)
    × Plain max_history (and_then (input_of endpoint v) as_array)

eligible-Clean :
    (endpoint : Endpoint) (v : Value) (max_history : ℕ)
    → eligible endpoint v max_history ≡ true
    → Clean endpoint v max_history
unfolding eligible same_text
eligible-Clean chat_completions v max_history h = (
  only-has_any v chat_fields tool_fields (ground arith) refl,
  refl,
  input_Plain (get v (codes "messages")) max_history (codes "text" ∷ []) refl (ground arith),
)
eligible-Clean messages v max_history h = (
  only-has_any v message_fields tool_fields (ground arith) refl,
  refl,
  input_Plain (get v (codes "messages")) max_history (codes "text" ∷ []) refl (ground arith),
)
eligible-Clean responses v max_history h = (
  only-has_any v response_fields tool_fields (ground arith) refl,
  ground arith,
  response_Plain (get v (codes "input")) max_history (codes "input_text" ∷ codes "output_text" ∷ [])
      refl (ground arith),
)
eligible-Clean count_tokens v max_history h = absurd (cc)
eligible-Clean models v max_history h = absurd (cc)

eligible-value_bypass :
    (endpoint : Endpoint) (v : Value) (max_history : ℕ)
    → eligible endpoint v max_history ≡ true
    → value_bypass endpoint v max_history ≡ none
unfolding value_bypass
eligible-value_bypass endpoint v max_history h =
    let (fields_gone, unstored, (plain, short)) = eligible-Clean endpoint v max_history h in
    rw (fields_gone, unstored, plain, short, h) refl

-- A request that the cache may take.
abbrev pub Takes : (List ℕ → Option Value) → Endpoint → List ℕ → ℕ → Bool → Type 0
Takes parse endpoint body max_history forbids_reuse =
    (forbids_reuse ≡ false)
    × (length body ≤ request_bytes)
    × ((v : Value) × (parse body ≡ some v) × (eligible endpoint v max_history ≡ true))

eligible_history :
    (endpoint : Endpoint) (v : Value) (max_history : ℕ)
    → eligible endpoint v max_history ≡ true
    → has_history endpoint ≡ true
unfolding eligible
eligible_history chat_completions v max_history h = refl
eligible_history messages v max_history h = refl
eligible_history responses v max_history h = refl
eligible_history count_tokens v max_history h = absurd (cc)
eligible_history models v max_history h = absurd (cc)

value_bypass-eligible :
    (endpoint : Endpoint) (v : Value) (max_history : ℕ)
    → value_bypass endpoint v max_history ≡ none
    → eligible endpoint v max_history ≡ true
unfolding value_bypass
value_bypass-eligible endpoint v max_history h = ground arith

parsed_bypass-Eligible :
    (endpoint : Endpoint) (max_history : ℕ) (parsed : Option Value)
    → parsed_bypass endpoint max_history parsed ≡ none
    → (v : Value) × (parsed ≡ some v) × (eligible endpoint v max_history ≡ true)
parsed_bypass-Eligible endpoint max_history none h = absurd (cc)
parsed_bypass-Eligible endpoint max_history (some v) h =
    (v, refl, value_bypass-eligible endpoint v max_history h)

bypass-Takes :
    (parse : List ℕ → Option Value) (endpoint : Endpoint) (body : List ℕ) (max_history : ℕ)
    (forbids_reuse : Bool)
    → bypass_reason parse endpoint body max_history forbids_reuse ≡ none
    → Takes parse endpoint body max_history forbids_reuse
unfolding bypass_reason
bypass-Takes parse endpoint body max_history forbids_reuse h = (
  ground arith,
  ground arith,
  parsed_bypass-Eligible endpoint max_history (parse body) (ground arith),
)

Takes-bypass_reason :
    (parse : List ℕ → Option Value) (endpoint : Endpoint) (body : List ℕ) (max_history : ℕ)
    (forbids_reuse : Bool)
    → Takes parse endpoint body max_history forbids_reuse
    → bypass_reason parse endpoint body max_history forbids_reuse ≡ none
unfolding bypass_reason
Takes-bypass_reason parse endpoint body max_history forbids_reuse
      (allowed, small, (v, read, fits)) =
    let within : ltb request_bytes (length body) ≡ false = ground arith in
    rw (allowed, within, eligible_history endpoint v max_history fits, read)
      (eligible-value_bypass endpoint v max_history fits)

-- With any parser of JSON: the cache takes a request exactly if its headers do not forbid reuse,
-- its body has at most 32 KiB and parses to a value that is eligible at its endpoint; the checks
-- for tools, stored responses and long histories only name the reason, and turn away no request
-- that is eligible.
pub bypass_reason-Takes :
    (parse : List ℕ → Option Value) (endpoint : Endpoint) (body : List ℕ) (max_history : ℕ)
    (forbids_reuse : Bool)
    → (bypass_reason parse endpoint body max_history forbids_reuse ≡ none)
      ↔ Takes parse endpoint body max_history forbids_reuse
bypass_reason-Takes parse endpoint body max_history forbids_reuse = (
  bypass-Takes parse endpoint body max_history forbids_reuse,
  Takes-bypass_reason parse endpoint body max_history forbids_reuse,
)
