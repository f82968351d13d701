-- ===== src/Responses/Largest.antt =====
-- product/src/protocol/responses.rs: the usage that is left when a stream has ended.
use mathlib.Core.List.{Memᴰ}
use deskquota.Common.{
  All, Bool, Bool-cases, List, Option, Text, [], arith, codes, false, if◌then◌else◌, inl, inr, none,
  refl, some, subst, sym, true, ◌∙◌, ◌∷◌, ◌≡◌, ◌≤◌, ◌⊎◌,
}
use deskquota.Json.{Value, get_str}
use deskquota.Admission.{ObservedUsage}
use deskquota.Usage.{pointer}
use deskquota.Responses.{
  Ending, Observer, completes, contradicts, ending, fails, feed, finish_usage, goes_on, incomplete,
  new_observer, note_delta, observe_end, observe_ending, observe_kind, observe_response, read_usage,
  shrinks, take_usage,
}
use deskquota.Responses.Spoilt.{kind_Spoilt}

unfoldable pub observe_all : List Value → Observer → Observer
observe_all [] o = o
observe_all (v ∷ vs) o = observe_all vs (observe_response v o)

-- What one event says of the usage.
abbrev end_report : Bool → Value → Option ObservedUsage
end_report completed v =
    if contradicts completed v
    then none
    else read_usage (pointer v (codes "response") (codes "usage"))

abbrev report_at : Ending → Value → Option ObservedUsage
report_at completes v = end_report true v
report_at incomplete v = end_report false v
report_at fails v = none
report_at goes_on v = none

abbrev report_of : Option Text → Value → Option ObservedUsage
report_of none v = none
report_of (some kind) v = report_at (ending kind) v

abbrev pub reported : Value → Option ObservedUsage
reported v = report_of (get_str v (codes "type")) v

-- No count is above that of the usage.
abbrev pub AtMost : Option ObservedUsage → ObservedUsage → Type 0
AtMost none u = Unit
AtMost (some w) u =
    (w.input_tokens ≤ u.input_tokens)
    × (w.output_tokens ≤ u.output_tokens)
    × (w.cache_read_input_tokens ≤ u.cache_read_input_tokens)

AtMost-trans :
    (r : Option ObservedUsage) (w u : ObservedUsage) → AtMost r w → AtMost (some w) u → AtMost r u
AtMost-trans none w u h k = tt
AtMost-trans (some x) w u (a, b, c) (d, e, f) = (omega arith, omega arith, omega arith)

shrinks-AtMost : (r : Option ObservedUsage) (u : ObservedUsage) → shrinks r u ≡ false → AtMost r u
shrinks-AtMost none u h = tt
shrinks-AtMost (some w) u h = (ground arith, ground arith, ground arith)

-- How the usage changes with an event that leaves the observer valid.
abbrev Takes : Option ObservedUsage → Option ObservedUsage → Option ObservedUsage → Type 0
Takes none old new = new ≡ old
Takes (some w) old new = (new ≡ some w) × AtMost old w

taken :
    (r : Option ObservedUsage) (o : Observer)
    → (take_usage r o).invalid ≡ false
    → Takes r o.usage (take_usage r o).usage
taken none o h = absurd (cc)
taken (some u) o h = elim (Bool-cases (shrinks o.usage u)) [
  | inl e ↦ absurd (refused (rw e at h))
  | inr e ↦ rw e (refl, shrinks-AtMost o.usage u e)
]
  where
    refused : true ≡ false → ⊥
    refused h = cc

end_taken :
    (completed : Bool) (v : Value) (o : Observer)
    → (observe_end completed v o).invalid ≡ false
    → Takes (end_report completed v) o.usage (observe_end completed v o).usage
unfolding observe_end
end_taken completed v o h = elim (Bool-cases (contradicts completed v)) [
  | inl e ↦ absurd (refused (rw e at h))
  | inr e ↦ rw e (taken (read_usage (pointer v (codes "response") (codes "usage"))) _ (rw e at h))
]
  where
    refused : true ≡ false → ⊥
    refused h = cc

kind_taken :
    (ends : Ending) (v : Value) (o : Observer)
    → (observe_ending ends v o).invalid ≡ false
    → Takes (report_at ends v) o.usage (observe_ending ends v o).usage
kind_taken completes v o h = end_taken true v o h
kind_taken incomplete v o h = end_taken false v o h
kind_taken fails v o h = refl
kind_taken goes_on v o h = refl

observed_taken :
    (kind : Option Text) (v : Value) (o : Observer)
    → (observe_kind kind v o).invalid ≡ false
    → Takes (report_of kind v) o.usage (observe_kind kind v o).usage
observed_taken none v o h = refl
observed_taken (some kind) v o h = kind_taken (ending kind) v (note_delta kind v o) h

observe_all-Spoilt :
    (vs : List Value) (o : Observer) → o.invalid ≡ true → (observe_all vs o).invalid ≡ true
unfolding observe_all observe_response
observe_all-Spoilt [] o h = h
observe_all-Spoilt (v ∷ vs) o h =
    observe_all-Spoilt vs _ (kind_Spoilt (get_str v (codes "type")) v (feed v o) h)

finish_valid : (o : Observer) (u : ObservedUsage) → finish_usage o ≡ some u → o.invalid ≡ false
unfolding finish_usage
finish_valid o u h = ground arith

finish_kept : (o : Observer) (u : ObservedUsage) → finish_usage o ≡ some u → o.usage ≡ some u
unfolding finish_usage
finish_kept o u h = ground arith

-- An observer that some events leave valid was valid before them.
valid_before :
    (vs : List Value) (o : Observer) → (observe_all vs o).invalid ≡ false → o.invalid ≡ false
valid_before vs o h = elim (Bool-cases o.invalid) [
  | inl e ↦ (let spoilt_after = observe_all-Spoilt vs o e in cc)
  | inr e ↦ e
]

AtMost-refl : (r : Option ObservedUsage) (u : ObservedUsage) → r ≡ some u → AtMost r u
AtMost-refl r u e = rw e (omega arith, omega arith, omega arith)

-- Of the events, and a usage from before them: what the usage at the end is of them.
abbrev Largest : List Value → Option ObservedUsage → ObservedUsage → Type 0
Largest vs r u =
    AtMost r u
    × All (λ v. AtMost (reported v) u) vs
    × ((r ≡ some u) ⊎ ((v : Value) × Memᴰ v vs × (reported v ≡ some u)))

Largest-Takes :
    (v : Value) (vs : List Value) (r old new : Option ObservedUsage) (u : ObservedUsage)
    → reported v ≡ r
    → Takes r old new
    → Largest vs new u
    → Largest (v ∷ vs) old u
Largest-Takes v vs none old new u e t (le, all, from) =
    (subst (λ x. AtMost x u) t le, (rw e tt, all), earlier from)
  where
    earlier :
        (new ≡ some u) ⊎ ((x : Value) × Memᴰ x vs × (reported x ≡ some u))
        → (old ≡ some u) ⊎ ((x : Value) × Memᴰ x (v ∷ vs) × (reported x ≡ some u))
    earlier (inl same) = inl (sym t ∙ same)
    earlier (inr (x, m, k)) = inr (x, Memᴰ.tail m, k)
Largest-Takes v vs (some w) old new u e (now, grown) (le, all, from) =
    let reaches : AtMost (some w) u = subst (λ x. AtMost x u) now le in
    (AtMost-trans old w u grown reaches, (rw e reaches, all), later from)
  where
    later :
        (new ≡ some u) ⊎ ((x : Value) × Memᴰ x vs × (reported x ≡ some u))
        → (old ≡ some u) ⊎ ((x : Value) × Memᴰ x (v ∷ vs) × (reported x ≡ some u))
    later (inl same) = inr (v, Memᴰ.head refl, e ∙ sym now ∙ same)
    later (inr (x, m, k)) = inr (x, Memᴰ.tail m, k)

finish-Largest_from :
    (vs : List Value) (o : Observer) (u : ObservedUsage)
    → finish_usage (observe_all vs o) ≡ some u
    → Largest vs o.usage u
unfolding observe_all observe_response
finish-Largest_from [] o u h =
    (AtMost-refl o.usage u (finish_kept o u h), tt, inl (finish_kept o u h))
finish-Largest_from (v ∷ vs) o u h =
    let o' = observe_response v o in
    let valid = valid_before vs o' (finish_valid (observe_all vs o') u h) in
    Largest-Takes v vs (reported v) o.usage o'.usage u refl
      (observed_taken (get_str v (codes "type")) v (feed v o) valid) (finish-Largest_from vs o' u h)

-- With or without the cache's observer, whatever the events of a stream of the responses endpoint:
-- the usage that is settled at the end is the report of one of the events, and each of its counts is
-- at least that of every report in the stream.
pub finish-Largest :
    (cache : Bool) (vs : List Value) (u : ObservedUsage)
    → finish_usage (observe_all vs (new_observer cache)) ≡ some u
    → All (λ v. AtMost (reported v) u) vs × ((v : Value) × Memᴰ v vs × (reported v ≡ some u))
unfolding new_observer
finish-Largest cache vs u h = settled (finish-Largest_from vs (new_observer cache) u h)
  where
    settled :
        Largest vs none u
        → All (λ v. AtMost (reported v) u) vs × ((v : Value) × Memᴰ v vs × (reported v ≡ some u))
    settled (le, all, inl e) = absurd (cc)
    settled (le, all, inr found) = (all, found)
