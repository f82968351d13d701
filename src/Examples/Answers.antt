-- ===== src/Examples/Answers.antt =====
-- A request that the cache takes, and a whole answer as a stream.
use deskquota.Common.{
  List, Option, Text, [], arith, codes, false, none, refl, same_text, some, true, ℕ, ◌↔◌, ◌∷◌, ◌≡◌,
}
use deskquota.Json.{Fields, Value, array, cons, end, field, nil, number, object, string}
use deskquota.Admission.{messages}
use deskquota.Shapes.{bypass_reason, eligible, is_history, is_texts, only}
use deskquota.Shapes.Taken.{Takes, bypass_reason-Takes}
use deskquota.Completion.{complete, kind_of, new_completion}
use deskquota.Completion.Grammar.{
  Event, before_start, complete-observe_all, is_whole_answer, next, observe_all,
}

abbrev question : Value
question = object (
    field (codes "model") (string (codes "m")) (
      field (codes "messages")
        (array (
          cons
            (object (
              field (codes "role") (string (codes "user"))
                (field (codes "content") (string (codes "hi")) end)))
            nil))
        end))

abbrev read_question : List ℕ → Option Value
read_question body = some question

question-Takes : Takes read_question messages (1 ∷ []) 8 false
unfolding eligible only is_history is_texts same_text
question-Takes = (refl, omega arith, (question, refl, refl))

bypass_reason-Takes_example :
    (bypass_reason read_question messages (1 ∷ []) 8 false ≡ none)
    ↔ Takes read_question messages (1 ∷ []) 8 false
bypass_reason-Takes_example = bypass_reason-Takes read_question messages (1 ∷ []) 8 false

abbrev typed_value : Text → Fields → Value
typed_value kind rest = object (field (codes "type") (string kind) rest)

abbrev indexed : Fields → Fields
indexed rest = field (codes "index") (number (some 0)) rest

abbrev piece : Text → Value
piece kind = typed_value kind (field (codes "text") (string (codes "hi")) end)

abbrev answer : List Event
answer =
    (
      none,
      typed_value (codes "message_start") (
          field (codes "message")
            (object (
              field (codes "role") (string (codes "assistant"))
                (field (codes "content") (array nil) end)))
            end),
    )
    ∷ (
      none,
      typed_value (codes "content_block_start")
          (indexed (field (codes "content_block") (piece (codes "text")) end)),
    )
    ∷ (some (codes "ping"), object end)
    ∷ (
      none,
      typed_value (codes "content_block_delta")
          (indexed (field (codes "delta") (piece (codes "text_delta")) end)),
    )
    ∷ (none, typed_value (codes "content_block_stop") (indexed end))
    ∷ (
      none,
      typed_value (codes "message_delta") (
          field (codes "delta")
            (object (field (codes "stop_reason") (string (codes "end_turn")) end)) end),
    )
    ∷ (none, typed_value (codes "message_stop") end)
    ∷ []

answer_whole : is_whole_answer (some before_start) answer ≡ true
unfolding is_whole_answer next kind_of only same_text
answer_whole = refl

complete-observe_all_example :
    complete (observe_all answer (new_completion messages))
    ≡ is_whole_answer (some before_start) answer
complete-observe_all_example = complete-observe_all answer
