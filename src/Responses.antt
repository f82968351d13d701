-- ===== src/Responses.antt =====
-- product/src/protocol/responses.rs: the observer of the usage in a stream of the responses endpoint.
pub mod Largest
pub mod Spoilt
use mathlib.Core.Option
use deskquota.Common.{
  Bool, Option, Text, [], codes, contains, false, if◌then◌else◌, ltb, map, none, not, same_text,
  some, true, ◌&&◌, ◌||◌, ◌∷◌,
}
use deskquota.Json.{Value, get, get_str, is_null, is_text, null, some_and}
use deskquota.Admission.{ObservedUsage, responses}
use deskquota.Shapes.{is_empty}
use deskquota.Completion.{StreamCompletion, complete, invalidate, new_completion, observe}
use deskquota.Usage.{
  defaulted, nested_token, pointer, required, supported_incomplete, token, usage_of, with_total,
}

pub record Observer : Type 0 where
  pub cache : Option StreamCompletion
  pub usage : Option ObservedUsage
  pub invalid : Bool
  pub output_delta : Bool
  pub terminal : Bool
  pub completed : Bool

abbrev pub new_cache_observer : Bool → Option StreamCompletion
unfolding new_completion
new_cache_observer cache = if cache then some (new_completion responses) else none

unfoldable pub new_observer : Bool → Observer
unfolding new_cache_observer
new_observer cache = record {
  cache = new_cache_observer cache;
  usage = none;
  invalid = false;
  output_delta = false;
  terminal = false;
  completed = false;
}

-- `value["response"]`.
abbrev pub response_in : Value → Value
response_in v = or_null (get v (codes "response"))
  where
    or_null : Option Value → Value
    or_null none = null
    or_null (some w) = w

abbrev pub is_delta : Text → Bool
is_delta kind =
    contains
      (map codes ("response.output_text.delta" ∷ "response.function_call_arguments.delta" ∷ []))
      kind

-- The end of a response that contradicts itself, or that is not supported.
unfoldable pub contradicts : Bool → Value → Bool
contradicts completed v =
    (completed
      && some_and (pointer v (codes "response") (codes "status"))
          (λ s. not (is_text (codes "completed") s)))
    || ((not completed && not (supported_incomplete (response_in v)))
        || some_and (pointer v (codes "response") (codes "error")) (λ e. not (is_null e)))

-- The usage of the value at `/response/usage`, with its total.
unfoldable pub read_usage : Option Value → Option ObservedUsage
read_usage none = none
read_usage (some usage) = with_total responses (
    usage_of (required (token usage (codes "input_tokens")))
      (required (token usage (codes "output_tokens"))) (some 0)
      (defaulted (nested_token usage (codes "input_tokens_details") (codes "cached_tokens"))))

abbrev pub shrinks : Option ObservedUsage → ObservedUsage → Bool
shrinks none u = false
shrinks (some w) u =
    ltb u.input_tokens w.input_tokens
    || (ltb u.output_tokens w.output_tokens
        || ltb u.cache_read_input_tokens w.cache_read_input_tokens)

abbrev pub spoilt : Observer → Observer
spoilt o = record o { invalid = true }

abbrev pub take_usage : Option ObservedUsage → Observer → Observer
take_usage none o = spoilt o
take_usage (some u) o = if shrinks o.usage u then spoilt o else record o { usage = some u }

abbrev pub differs : Bool → Bool → Bool
differs true b = not b
differs false b = b

-- `response.completed` and `response.incomplete`.
unfoldable pub observe_end : Bool → Value → Observer → Observer
observe_end completed v o =
    let ended : Observer = record o {
      invalid = o.invalid || (o.terminal && differs o.completed completed);
      terminal = true;
      completed = completed;
    } in
    if contradicts completed v
    then spoilt ended
    else take_usage (read_usage (pointer v (codes "response") (codes "usage"))) ended

pub data Ending : Type 0 where
  completes incomplete fails goes_on : Ending

unfoldable pub ending : Text → Ending
ending kind =
    if same_text kind (codes "response.completed")
    then completes
    else if same_text kind (codes "response.incomplete")
    then incomplete
    else if same_text kind (codes "response.failed") || same_text kind (codes "error")
    then fails
    else goes_on

abbrev pub observe_ending : Ending → Value → Observer → Observer
observe_ending completes v o = observe_end true v o
observe_ending incomplete v o = observe_end false v o
observe_ending fails v o = record o { terminal = true; invalid = true }
observe_ending goes_on v o = o

abbrev pub note_delta : Text → Value → Observer → Observer
note_delta kind v o = record o {
  output_delta =
      o.output_delta
      || (is_delta kind && some_and (get_str v (codes "delta")) (λ d. not (is_empty d)));
}

abbrev pub observe_kind : Option Text → Value → Observer → Observer
observe_kind none v o = o
observe_kind (some kind) v o = observe_ending (ending kind) v (note_delta kind v o)

abbrev pub feed : Value → Observer → Observer
unfolding observe
feed v o = record o { cache = Option.map (observe none v) o.cache }

unfoldable pub observe_response : Value → Observer → Observer
unfolding feed
observe_response v o = observe_kind (get_str v (codes "type")) v (feed v o)

unfoldable pub mark_invalid : Observer → Observer
mark_invalid o = record o { cache = Option.map invalidate o.cache; invalid = true }

unfoldable pub cache_complete : Observer → Bool
unfolding complete
cache_complete o = some_and o.cache complete

unfoldable pub finish_usage : Observer → Option ObservedUsage
finish_usage o = if not o.invalid && o.terminal then o.usage else none
