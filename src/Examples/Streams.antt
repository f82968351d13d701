-- ===== src/Examples/Streams.antt =====
-- A stream of the responses endpoint.
use mathlib.Core.List.{Memᴰ}
use deskquota.Common.{All, [], codes, false, refl, same_text, some, ◌∷◌, ◌≡◌}
use deskquota.Json.{Value, end, field, number, object, string}
use deskquota.Admission.{ObservedUsage, usage_total}
use deskquota.Usage.{supported_incomplete, with_total}
use deskquota.Responses.{
  contradicts, ending, finish_usage, new_observer, observe_end, observe_response, read_usage,
}
use deskquota.Responses.Largest.{AtMost, finish-Largest, observe_all, reported}

abbrev usage_value : Value
usage_value = object (
    field (codes "input_tokens") (number (some 5))
      (field (codes "output_tokens") (number (some 3)) end))

abbrev last_event : Value
last_event = object (
    field (codes "type") (string (codes "response.completed"))
      (field (codes "response") (object (field (codes "usage") usage_value end)) end))

abbrev usage_read : ObservedUsage
usage_read = record {
  input_tokens = 5;
  output_tokens = 3;
  cache_creation_input_tokens = 0;
  cache_read_input_tokens = 0;
}

stream_settles : finish_usage (observe_all (last_event ∷ []) (new_observer false)) ≡ some usage_read
unfolding finish_usage observe_all observe_response new_observer observe_end ending contradicts
    read_usage with_total usage_total supported_incomplete same_text
stream_settles = refl

finish-Largest_example :
    All (λ v. AtMost (reported v) usage_read) (last_event ∷ [])
    × ((v : Value) × Memᴰ v (last_event ∷ []) × (reported v ≡ some usage_read))
finish-Largest_example = finish-Largest false (last_event ∷ []) usage_read stream_settles
