-- ===== src/Completion.antt =====
-- product/src/cache.rs, `StreamCompletion`: whether the events of a streamed response are the whole
-- of an answer in text. An event is its name, if it has one, and the value of its data.
pub mod Grammar
pub mod Spoiled
use deskquota.Common.{
  Bool, List, Option, Text, [], add_u64, codes, false, if◌then◌else◌, map, none, not, same_text,
  some, true, ℕ, ◌&&◌, ◌||◌, ◌∷◌,
}
use deskquota.Json.{
  Value, and_then, as_array, as_u64, every, get, get_str, is_array, is_empty_array, is_null,
  is_string, is_text, none_or, null, some_and,
}
use deskquota.Admission.{Endpoint, chat_completions, messages, responses}
use deskquota.Shapes.{
  complete_response, is_empty, is_value, one_of, only, response_message, response_text_block,
}

pub record StreamCompletion : Type 0 where
  pub endpoint : Endpoint
  pub invalid : Bool
  pub stopped : Bool
  pub terminal : Bool
  pub has_text : Bool
  pub message_started : Bool
  pub open_block : Bool
  pub block_index : ℕ

-- The texts that `observe` matches the type of an event of the messages endpoint with.
pub data Kind : Type 0 where
  message_start content_block_start content_block_delta message_delta message_stop : Kind
  content_block_stop ping unknown : Kind

unfoldable pub new_completion : Endpoint → StreamCompletion
new_completion endpoint = record {
  endpoint = endpoint;
  invalid = false;
  stopped = false;
  terminal = false;
  has_text = false;
  message_started = false;
  open_block = false;
  block_index = 0;
}

abbrev pub invalidate : StreamCompletion → StreamCompletion
invalidate s = record s { invalid = true }

-- `self.invalid |= b`.
abbrev pub spoil : Bool → StreamCompletion → StreamCompletion
spoil b s = record s { invalid = s.invalid || b }

-- `self.text |= b`.
abbrev pub add_text : Bool → StreamCompletion → StreamCompletion
add_text b s = record s { has_text = s.has_text || b }

unfoldable pub done_marker : StreamCompletion → StreamCompletion
done_marker s = record s { invalid = s.invalid || s.terminal; terminal = true }

unfoldable pub complete : StreamCompletion → Bool
complete s = not s.invalid && (s.stopped && (s.terminal && s.has_text))

abbrev pub is_error : Value → Bool
is_error v = some_and (get v (codes "error")) (λ e. not (is_null e))

abbrev pub or_else {ℓ} : {A : Type ℓ} → Option A → Option A → Option A
or_else none b = b
or_else (some a) b = some a

abbrev kind_named : Text → Kind
kind_named t =
    if same_text t (codes "message_start")
    then message_start
    else if same_text t (codes "content_block_start")
    then content_block_start
    else if same_text t (codes "content_block_delta")
    then content_block_delta
    else if same_text t (codes "message_delta")
    then message_delta
    else if same_text t (codes "message_stop")
    then message_stop
    else if same_text t (codes "content_block_stop")
    then content_block_stop
    else if same_text t (codes "ping")
    then ping
    else unknown

abbrev kind_in : Option Text → Kind
kind_in none = unknown
kind_in (some t) = kind_named t

-- The kind of an event: the type in its value, else its name.
unfoldable pub kind_of : Option Text → Value → Kind
kind_of event v = kind_in (or_else (get_str v (codes "type")) event)

-- `Some(self.block_index)`.
abbrev pub has_index : ℕ → Value → Bool
has_index n v = is_value n (and_then (get v (codes "index")) as_u64)

abbrev pub starts_empty : Value → Bool
starts_empty v = some_and (get v (codes "message")) (λ message.
    some_and (get message (codes "role")) (is_text (codes "assistant"))
    && some_and (and_then (get message (codes "content")) as_array) is_empty)

-- A block or a delta of text.
abbrev pub is_piece : Text → Value → Bool
is_piece kind piece =
    only piece (codes "type" ∷ codes "text" ∷ [])
    && (some_and (get piece (codes "type")) (is_text kind)
        && some_and (get piece (codes "text")) is_string)

abbrev pub opens_text : Value → Bool
opens_text v = some_and (get v (codes "content_block")) (is_piece (codes "text"))

abbrev pub adds_text : Value → Bool
adds_text v = some_and (get v (codes "delta")) (is_piece (codes "text_delta"))

-- The stop reason at `/delta/stop_reason` is one of a whole answer.
abbrev pub ends_turn : Value → Bool
ends_turn v =
    one_of (map codes ("end_turn" ∷ "stop_sequence" ∷ []))
      (and_then (get v (codes "delta")) (λ d. get_str d (codes "stop_reason")))

abbrev pub is_stop : Kind → Bool
is_stop message_stop = true
is_stop _ = false

abbrev out_of_block : StreamCompletion → Value → Bool
out_of_block s v = not s.message_started || (not s.open_block || not (has_index s.block_index v))

-- The branches of `observe` for the messages endpoint.
unfoldable pub observe_messages : Kind → Value → StreamCompletion → StreamCompletion
observe_messages message_start v s = record s {
  invalid = (s.invalid || s.message_started) || not (starts_empty v);
  message_started = true;
}
observe_messages content_block_start v s = record s {
  invalid =
      (s.invalid || (not s.message_started || (s.open_block || not (has_index s.block_index v))))
      || not (opens_text v);
  open_block = true;
  has_text = s.has_text || opens_text v;
}
observe_messages content_block_delta v s = record s {
  invalid = (s.invalid || out_of_block s v) || not (adds_text v);
  has_text = s.has_text || adds_text v;
}
observe_messages message_delta v s = record s {
  invalid = (s.invalid || (not s.message_started || s.open_block)) || not (ends_turn v);
  stopped = ends_turn v;
}
observe_messages message_stop v s = record s {
  invalid = s.invalid || (not s.message_started || (not s.stopped || s.open_block));
  terminal = true;
}
observe_messages content_block_stop v s = record s {
  invalid = s.invalid || out_of_block s v;
  open_block = false;
  block_index = add_u64 s.block_index 1;
}
observe_messages ping v s = s
observe_messages unknown v s = invalidate s

abbrev is_odd_delta : Value → Bool
is_odd_delta delta =
    not (only delta (map codes ("role" ∷ "content" ∷ "refusal" ∷ "annotations" ∷ [])))
    || (some_and (get delta (codes "annotations")) (λ a. not (is_empty_array a))
        || (some_and (get delta (codes "refusal")) (λ r. not (is_null r))
            || (some_and (get delta (codes "role")) (λ r. not (is_text (codes "assistant") r))
                || some_and (get delta (codes "content"))
                    (λ c. not (is_null c) && not (is_string c)))))

-- The end of a choice: its finish reason, if it has one that is not null.
abbrev pub finish : Option Value → StreamCompletion → StreamCompletion
finish none s = s
finish (some null) s = s
finish (some reason) s = record s {
  stopped = is_text (codes "stop") reason;
  invalid = s.invalid || not (is_text (codes "stop") reason);
}

abbrev pub observe_delta : Option Value → Option Value → StreamCompletion → StreamCompletion
observe_delta none reason s = invalidate s
observe_delta (some delta) reason s =
    finish reason
      (add_text (some_and (get delta (codes "content")) is_string) (spoil (is_odd_delta delta) s))

abbrev pub observe_choice : Value → StreamCompletion → StreamCompletion
observe_choice choice s =
    observe_delta (get choice (codes "delta")) (get choice (codes "finish_reason"))
      (spoil (some_and (get choice (codes "index")) (λ i. not (is_value 0 (as_u64 i)))) s)

-- The branch of `observe` for chat completions. A chunk without a choice is the final usage.
unfoldable pub observe_chat : Option (List Value) → StreamCompletion → StreamCompletion
observe_chat none s = invalidate s
observe_chat (some []) s = s
observe_chat (some (choice ∷ [])) s = if s.stopped then invalidate s else observe_choice choice s
observe_chat (some (choice ∷ other ∷ rest)) s = invalidate s

abbrev is_underway : Value → Bool
is_underway response =
    one_of (map codes ("queued" ∷ "in_progress" ∷ [])) (get_str response (codes "status"))
    && (none_or (get response (codes "error")) is_null
        && (none_or (get response (codes "incomplete_details")) is_null
            && some_and (and_then (get response (codes "output")) as_array)
                (every (λ item. response_message item false))))

abbrev spoils_text : Text → Value → Bool
spoils_text name v =
    not (some_and (get v name) is_string) || not (none_or (get v (codes "logprobs")) is_array)

-- The types of the events of the responses endpoint.
pub data ResponseKind : Type 0 where
  finished text_delta text_done item_added item_done part underway unlisted : ResponseKind

abbrev response_kind : Text → ResponseKind
response_kind t =
    if same_text t (codes "response.completed")
    then finished
    else if same_text t (codes "response.output_text.delta")
    then text_delta
    else if same_text t (codes "response.output_text.done")
    then text_done
    else if same_text t (codes "response.output_item.added")
    then item_added
    else if same_text t (codes "response.output_item.done")
    then item_done
    else if same_text t (codes "response.content_part.added")
    then part
    else if same_text t (codes "response.content_part.done")
    then part
    else if same_text t (codes "response.created")
    then underway
    else if same_text t (codes "response.in_progress")
    then underway
    else unlisted

abbrev response_kind_in : Option Text → ResponseKind
response_kind_in none = unlisted
response_kind_in (some t) = response_kind t

unfoldable pub response_kind_of : Value → ResponseKind
response_kind_of v = response_kind_in (get_str v (codes "type"))

abbrev pub is_whole : Value → Bool
is_whole v = some_and (get v (codes "response")) complete_response

-- The branch of `observe` for the responses endpoint.
unfoldable pub observe_responses : ResponseKind → Value → StreamCompletion → StreamCompletion
observe_responses finished v s = record s {
  stopped = is_whole v;
  has_text = s.has_text || is_whole v;
  terminal = true;
}
observe_responses text_delta v s = spoil (spoils_text (codes "delta") v) s
observe_responses text_done v s = spoil (spoils_text (codes "text") v) s
observe_responses item_added v s =
    spoil (not (some_and (get v (codes "item")) (λ item. response_message item false))) s
observe_responses item_done v s =
    spoil (not (some_and (get v (codes "item")) (λ item. response_message item true))) s
observe_responses part v s = spoil (not (some_and (get v (codes "part")) response_text_block)) s
observe_responses underway v s = spoil (not (some_and (get v (codes "response")) is_underway)) s
observe_responses unlisted v s = invalidate s

abbrev pub observe_at : Endpoint → Option Text → Value → StreamCompletion → StreamCompletion
observe_at chat_completions event v s = observe_chat (and_then (get v (codes "choices")) as_array) s
observe_at messages event v s =
    observe_messages (kind_of event v) v (spoil (s.stopped && not (is_stop (kind_of event v))) s)
observe_at responses event v s = observe_responses (response_kind_of v) v s
observe_at _ event v s = invalidate s

unfoldable pub observe : Option Text → Value → StreamCompletion → StreamCompletion
observe event v s =
    if s.terminal || is_error v then invalidate s else observe_at s.endpoint event v s
