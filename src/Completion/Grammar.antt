-- ===== src/Completion/Grammar.antt =====
-- product/src/cache.rs, `StreamCompletion` of the messages endpoint, and the grammar of a whole answer:
-- a start, blocks of text in the order of their indices, the stop reason, the end.
use deskquota.Common.{
  Bool, List, Option, Text, [], add_u64, arith, both, false, if◌then◌else◌, ltb, none, not, refl,
  some, true, ℕ, ◌&&◌, ◌||◌, ◌∷◌, ◌≡◌,
}
use deskquota.Json.{Value}
use deskquota.Admission.{messages}
use deskquota.Completion.{
  Kind, StreamCompletion, adds_text, complete, content_block_delta, content_block_start,
  content_block_stop, ends_turn, has_index, is_error, is_stop, kind_of, message_delta,
  message_start, message_stop, new_completion, observe, observe_messages, opens_text, ping, spoil,
  starts_empty, unknown,
}
use deskquota.Completion.Spoiled.{observe-Spoiled}

abbrev pub Event : Type 0
Event = Option Text × Value

-- Where an answer stands: the number is the index of the next block, or of the open one.
pub data Phase : Type 0 where
  before_start : Phase
  between inside stopping ended : ℕ → Phase

abbrev when_true : Bool → Phase → Option Phase
when_true b p = if b then some p else none

abbrev idle : Phase → Option Phase
idle (stopping i) = none
idle p = some p

-- The phase after an event of a kind, where the grammar has one.
unfoldable pub next : Phase → Kind → Value → Option Phase
next p unknown v = none
next p ping v = idle p
next before_start message_start v = when_true (starts_empty v) (between 0)
next (between i) content_block_start v = when_true (has_index i v && opens_text v) (inside i)
next (inside i) content_block_delta v = when_true (has_index i v && adds_text v) (inside i)
next (inside i) content_block_stop v = when_true (has_index i v) (between (add_u64 i 1))
next (between i) message_delta v = when_true (ends_turn v) (stopping i)
next (stopping i) message_stop v = some (ended i)
next _ _ v = none

abbrev next_event : Phase → Event → Option Phase
next_event (ended i) (event, v) = none
next_event p (event, v) = if is_error v then none else next p (kind_of event v) v

-- An answer is whole where it has come to its end, with a block.
abbrev is_end : Phase → Bool
is_end (ended i) = ltb 0 i
is_end p = false

-- The events from a phase on are the rest of a whole answer.
unfoldable pub is_whole_answer : Option Phase → List Event → Bool
is_whole_answer none es = false
is_whole_answer (some p) [] = is_end p
is_whole_answer (some p) (e ∷ es) = is_whole_answer (next_event p e) es

unfoldable pub observe_all : List Event → StreamCompletion → StreamCompletion
observe_all [] s = s
observe_all ((event, v) ∷ es) s = observe_all es (observe event v s)

-- The state of the observer in a phase.
abbrev standing : Bool → Bool → Bool → Bool → Bool → ℕ → StreamCompletion
standing stopped terminal has_text started opened i = record {
  endpoint = messages;
  invalid = false;
  stopped = stopped;
  terminal = terminal;
  has_text = has_text;
  message_started = started;
  open_block = opened;
  block_index = i;
}

abbrev at : Phase → StreamCompletion
at before_start = standing false false false false false 0
at (between i) = standing false false (ltb 0 i) true false i
at (inside i) = standing false false true true true i
at (stopping i) = standing true false (ltb 0 i) true false i
at (ended i) = standing true true (ltb 0 i) true false i

abbrev Follows : Option Phase → StreamCompletion → Type 0
Follows none s = s.invalid ≡ true
Follows (some p) s = s ≡ at p

Follows-when_true :
    (b : Bool) (p : Phase) (s : StreamCompletion)
    → (b ≡ true → s ≡ at p)
    → (b ≡ false → s.invalid ≡ true)
    → Follows (when_true b p) s
Follows-when_true true p s good bad = good refl
Follows-when_true false p s good bad = bad refl

abbrev told : Phase → Kind → Value → StreamCompletion
told p k v = observe_messages k v (spoil ((at p).stopped && not (is_stop k)) (at p))

or_true : (a : Bool) → a || true ≡ true
or_true true = refl
or_true false = refl

refuses : (a b : Bool) → a && b ≡ false → (not a) || not b ≡ true
refuses a b h = ground arith

positive : (i : ℕ) → ltb 0 (add_u64 i 1) ≡ true
positive i = ground arith

step :
    (p : Phase) (k : Kind) (v : Value) → (at p).terminal ≡ false → Follows (next p k v) (told p k v)
unfolding next observe_messages
step before_start message_start v h =
    Follows-when_true (starts_empty v) (between 0) _ (λ e. rw e refl) (λ e. rw e refl)
step before_start content_block_start v h = refl
step before_start content_block_delta v h = refl
step before_start message_delta v h = refl
step before_start message_stop v h = refl
step before_start content_block_stop v h = refl
step before_start ping v h = refl
step before_start unknown v h = refl
step (between i) message_start v h = refl
step (between i) content_block_start v h =
    Follows-when_true (has_index i v && opens_text v) (inside i) _
      (λ e.
        let (index, opens) = both (has_index i v) (opens_text v) e in
        rw (index, opens, or_true (ltb 0 i)) refl)
      (λ e. refuses (has_index i v) (opens_text v) e)
step (between i) content_block_delta v h = refl
step (between i) message_delta v h =
    Follows-when_true (ends_turn v) (stopping i) _ (λ e. rw e refl) (λ e. rw e refl)
step (between i) message_stop v h = refl
step (between i) content_block_stop v h = refl
step (between i) ping v h = refl
step (between i) unknown v h = refl
step (inside i) message_start v h = refl
step (inside i) content_block_start v h = refl
step (inside i) content_block_delta v h =
    Follows-when_true (has_index i v && adds_text v) (inside i) _
      (λ e. let (index, adds) = both (has_index i v) (adds_text v) e in rw (index, adds) refl)
      (λ e. refuses (has_index i v) (adds_text v) e)
step (inside i) message_delta v h = refl
step (inside i) message_stop v h = refl
step (inside i) content_block_stop v h =
    Follows-when_true (has_index i v) (between (add_u64 i 1)) _ (λ e. rw (e, positive i) refl)
      (λ e. rw e refl)
step (inside i) ping v h = refl
step (inside i) unknown v h = refl
step (stopping i) message_start v h = refl
step (stopping i) content_block_start v h = refl
step (stopping i) content_block_delta v h = refl
step (stopping i) message_delta v h = refl
step (stopping i) message_stop v h = refl
step (stopping i) content_block_stop v h = refl
step (stopping i) ping v h = refl
step (stopping i) unknown v h = refl
step (ended i) k v h = absurd (cc)

-- An event on its own: a break of the grammar spoils the observer, and no more is needed.
judged :
    (bad : Bool) (q : Option Phase) (s t : StreamCompletion)
    → (bad ≡ false → Follows q s)
    → t.invalid ≡ true
    → Follows (if bad then none else q) (if bad then t else s)
judged true q s t follows spoiled = spoiled
judged false q s t follows spoiled = follows refl

event_step :
    (p : Phase) (event : Option Text) (v : Value)
    → Follows (next_event p (event, v)) (observe event v (at p))
unfolding observe
event_step before_start event v =
    judged (is_error v) _ _ _ (λ e. step before_start (kind_of event v) v refl) refl
event_step (between i) event v =
    judged (is_error v) _ _ _ (λ e. step (between i) (kind_of event v) v refl) refl
event_step (inside i) event v =
    judged (is_error v) _ _ _ (λ e. step (inside i) (kind_of event v) v refl) refl
event_step (stopping i) event v =
    judged (is_error v) _ _ _ (λ e. step (stopping i) (kind_of event v) v refl) refl
event_step (ended i) event v = refl

spoiled_never :
    (es : List Event) (s : StreamCompletion)
    → s.invalid ≡ true
    → complete (observe_all es s) ≡ false
unfolding observe_all complete
spoiled_never [] s h = rw h refl
spoiled_never ((event, v) ∷ es) s h = spoiled_never es _ (observe-Spoiled event v s h)

end_complete : (p : Phase) → complete (at p) ≡ is_end p
unfolding complete
end_complete before_start = refl
end_complete (between i) = refl
end_complete (inside i) = refl
end_complete (stopping i) = refl
end_complete (ended i) = refl

follow_complete :
    (es : List Event) (q : Option Phase) (s : StreamCompletion)
    → Follows q s
    → complete (observe_all es s) ≡ is_whole_answer q es
unfolding is_whole_answer observe_all
follow_complete [] none s h = spoiled_never [] s h
follow_complete (e ∷ es) none s h = spoiled_never (e ∷ es) s h
follow_complete [] (some p) s h = rw h (end_complete p)
follow_complete ((event, v) ∷ es) (some p) s h =
    rw h (follow_complete es (next_event p (event, v)) _ (event_step p event v))

-- The observer of a stream of the messages endpoint finds it complete exactly if its events are a
-- whole answer: a start with no content, then one block after the other, their indices counting
-- from 0, each opened, continued and closed as text, at least one of them, then a stop reason of a
-- whole answer and at once the end, with pings only before the stop reason and nothing after the
-- end, and no event reports an error.
pub complete-observe_all :
    (es : List Event)
    → complete (observe_all es (new_completion messages)) ≡ is_whole_answer (some before_start) es
unfolding new_completion
complete-observe_all es = follow_complete es (some before_start) _ refl
