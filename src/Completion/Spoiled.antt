-- ===== src/Completion/Spoiled.antt =====
-- product/src/cache.rs, `StreamCompletion`: an observer that has been spoiled stays so.
use deskquota.Common.{
  Bool, List, Option, Text, [], false, if◌then◌else◌, none, refl, some, true, ◌||◌, ◌∷◌, ◌≡◌,
}
use deskquota.Json.{Value, array, bool, null, number, object, string}
use deskquota.Admission.{Endpoint, chat_completions, count_tokens, messages, models, responses}
use deskquota.Completion.{
  Kind, ResponseKind, StreamCompletion, content_block_delta, content_block_start,
  content_block_stop, finish, finished, is_error, item_added, item_done, kind_of, message_delta,
  message_start, message_stop, observe, observe_at, observe_chat, observe_delta, observe_messages,
  observe_responses, part, ping, response_kind_of, spoil, text_delta, text_done, underway, unknown,
  unlisted,
}

branch :
    (b : Bool) (s t : StreamCompletion)
    → s.invalid ≡ true
    → t.invalid ≡ true
    → (if b then s else t).invalid ≡ true
branch true s t hs ht = hs
branch false s t hs ht = ht

spoil_Spoiled : (b : Bool) (s : StreamCompletion) → s.invalid ≡ true → (spoil b s).invalid ≡ true
spoil_Spoiled b s h = rw h refl

messages_Spoiled :
    (k : Kind) (v : Value) (s : StreamCompletion)
    → s.invalid ≡ true
    → (observe_messages k v s).invalid ≡ true
unfolding observe_messages
messages_Spoiled message_start v s h = rw h refl
messages_Spoiled content_block_start v s h = rw h refl
messages_Spoiled content_block_delta v s h = rw h refl
messages_Spoiled message_delta v s h = rw h refl
messages_Spoiled message_stop v s h = rw h refl
messages_Spoiled content_block_stop v s h = rw h refl
messages_Spoiled ping v s h = h
messages_Spoiled unknown v s h = refl

responses_Spoiled :
    (k : ResponseKind) (v : Value) (s : StreamCompletion)
    → s.invalid ≡ true
    → (observe_responses k v s).invalid ≡ true
unfolding observe_responses
responses_Spoiled finished v s h = h
responses_Spoiled text_delta v s h = rw h refl
responses_Spoiled text_done v s h = rw h refl
responses_Spoiled item_added v s h = rw h refl
responses_Spoiled item_done v s h = rw h refl
responses_Spoiled part v s h = rw h refl
responses_Spoiled underway v s h = rw h refl
responses_Spoiled unlisted v s h = refl

finish_Spoiled :
    (reason : Option Value) (s : StreamCompletion)
    → s.invalid ≡ true
    → (finish reason s).invalid ≡ true
finish_Spoiled none s h = h
finish_Spoiled (some null) s h = h
finish_Spoiled (some (bool b)) s h = rw h refl
finish_Spoiled (some (number n)) s h = rw h refl
finish_Spoiled (some (string t)) s h = rw h refl
finish_Spoiled (some (array is)) s h = rw h refl
finish_Spoiled (some (object fs)) s h = rw h refl

delta_Spoiled :
    (delta reason : Option Value) (s : StreamCompletion)
    → s.invalid ≡ true
    → (observe_delta delta reason s).invalid ≡ true
delta_Spoiled none reason s h = refl
delta_Spoiled (some delta) reason s h = finish_Spoiled reason _ (rw h refl)

chat_Spoiled :
    (choices : Option (List Value)) (s : StreamCompletion)
    → s.invalid ≡ true
    → (observe_chat choices s).invalid ≡ true
unfolding observe_chat
chat_Spoiled none s h = refl
chat_Spoiled (some []) s h = h
chat_Spoiled (some (choice ∷ [])) s h =
    branch s.stopped _ _ refl (delta_Spoiled _ _ _ (spoil_Spoiled _ s h))
chat_Spoiled (some (choice ∷ other ∷ rest)) s h = refl

at_Spoiled :
    (endpoint : Endpoint) (event : Option Text) (v : Value) (s : StreamCompletion)
    → s.invalid ≡ true
    → (observe_at endpoint event v s).invalid ≡ true
at_Spoiled chat_completions event v s h = chat_Spoiled _ s h
at_Spoiled messages event v s h = messages_Spoiled (kind_of event v) v _ (rw h refl)
at_Spoiled responses event v s h = responses_Spoiled (response_kind_of v) v s h
at_Spoiled count_tokens event v s h = refl
at_Spoiled models event v s h = refl

-- No event mends a spoiled observer.
pub observe-Spoiled :
    (event : Option Text) (v : Value) (s : StreamCompletion)
    → s.invalid ≡ true
    → (observe event v s).invalid ≡ true
unfolding observe
observe-Spoiled event v s h =
    branch (s.terminal || is_error v) _ _ refl (at_Spoiled s.endpoint event v s h)
