-- ===== src/Responses/Spoilt.antt =====
-- product/src/protocol/responses.rs: an observer that has been spoilt stays so.
use deskquota.Common.{
  Bool, Bool-cases, Option, Text, codes, false, inl, inr, none, refl, some, true, ◌≡◌,
}
use deskquota.Json.{Value}
use deskquota.Admission.{ObservedUsage}
use deskquota.Usage.{pointer}
use deskquota.Responses.{
  Ending, Observer, completes, contradicts, ending, fails, goes_on, incomplete, note_delta,
  observe_end, observe_ending, observe_kind, read_usage, shrinks, take_usage,
}

end_Spoilt :
    (completed : Bool) (v : Value) (o : Observer)
    → o.invalid ≡ true
    → (observe_end completed v o).invalid ≡ true
unfolding observe_end
end_Spoilt completed v o h = elim (Bool-cases (contradicts completed v)) [
  | inl e ↦ rw e refl
  | inr e ↦
      rw e (take_Spoilt (read_usage (pointer v (codes "response") (codes "usage"))) _ (rw h refl))
]
  where
    take_Spoilt :
        (r : Option ObservedUsage) (p : Observer)
        → p.invalid ≡ true
        → (take_usage r p).invalid ≡ true
    take_Spoilt none p k = refl
    take_Spoilt (some u) p k = elim (Bool-cases (shrinks p.usage u)) [
      | inl e ↦ rw e refl
      | inr e ↦ rw e k
    ]

ending_Spoilt :
    (ends : Ending) (v : Value) (o : Observer)
    → o.invalid ≡ true
    → (observe_ending ends v o).invalid ≡ true
ending_Spoilt completes v o h = end_Spoilt true v o h
ending_Spoilt incomplete v o h = end_Spoilt false v o h
ending_Spoilt fails v o h = refl
ending_Spoilt goes_on v o h = h

pub kind_Spoilt :
    (kind : Option Text) (v : Value) (o : Observer)
    → o.invalid ≡ true
    → (observe_kind kind v o).invalid ≡ true
kind_Spoilt none v o h = h
kind_Spoilt (some kind) v o h = ending_Spoilt (ending kind) v (note_delta kind v o) h
