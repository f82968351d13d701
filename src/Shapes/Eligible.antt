-- ===== src/Shapes/Eligible.antt =====
-- product/src/cache.rs, `bypass_reason` and `eligible`: what the fields of a value forbid.
use deskquota.Common.{
  Bool, Bool-cases, List, Option, Text, [], any, arith, both, codes, contains, false, inl, inr, map,
  none, not, refl, same_text, same_text_eq, some, true, ◌∷◌, ◌≡◌,
}
use deskquota.Json.{
  Value, array, as_array, bool, every, fields, get, get_field, get_str, items, null, number, object,
  some_and, string,
}
use deskquota.Shapes.{has_any, is_block, is_texts, one_of, only}

-- No text of one list is in the other.
abbrev pub Apart : List Text → List Text → Type 0
Apart ts us = every (λ t. not (contains us t)) ts ≡ true

Apart-contains :
    (ts us : List Text) (s : Text) → Apart ts us → contains ts s ≡ true → contains us s ≡ false
Apart-contains [] us s d h = absurd (cc)
Apart-contains (t ∷ ts) us s d h =
    let (here, there) = both (not (contains us t)) (every (λ x. not (contains us x)) ts) d in
    elim (Bool-cases (same_text s t)) [
      | inl e ↦ rw (same_text_eq s t e) (ground arith)
      | inr e ↦ Apart-contains ts us s there (ground arith)
    ]

pub Apart-one_of :
    (ts us : List Text) (s : Option Text) → Apart ts us → one_of ts s ≡ true → one_of us s ≡ false
Apart-one_of ts us none d h = refl
Apart-one_of ts us (some s) d h = Apart-contains ts us s d h

contradicted :
    (k n : Text) (names : List Text)
    → k ≡ n
    → contains names k ≡ true
    → contains names n ≡ false
    → ⊥
contradicted k n names same here e = cc

absent_field :
    (fs : List (Text × Value)) (names : List Text) (n : Text)
    → every (λ (k, x). contains names k) fs ≡ true
    → contains names n ≡ false
    → get_field fs n ≡ none
absent_field [] names n h e = refl
absent_field ((k, v) ∷ fs) names n h e =
    let (here, there) = both (contains names k) (every (λ (k, x). contains names k) fs) h in
    elim (Bool-cases (same_text k n)) [
      | inl same ↦ absurd (contradicted k n names (same_text_eq k n same) here e)
      | inr other ↦ rw other (absent_field fs names n there e)
    ]

-- A value with only some fields has no other.
absent :
    (v : Value) (names : List Text) (n : Text)
    → only v names ≡ true
    → contains names n ≡ false
    → get v n ≡ none
unfolding only
absent (object fs) names n h e = absent_field (fields fs) names n h e
absent null names n h e = absurd (cc)
absent (bool b) names n h e = absurd (cc)
absent (number m) names n h e = absurd (cc)
absent (string s) names n h e = absurd (cc)
absent (array is) names n h e = absurd (cc)

pub only-has_any :
    (v : Value) (names others : List Text)
    → only v names ≡ true
    → Apart others names
    → has_any v others ≡ false
only-has_any v names [] h d = refl
only-has_any v names (t ∷ ts) h d =
    let (here, there) = both (not (contains names t)) (every (λ x. not (contains names x)) ts) d in
    let gone : get v t ≡ none = absent v names t h (ground arith) in
    rw gone (only-has_any v names ts h there)

abbrev pub tool_uses : List Text
tool_uses = map codes ("tool_use" ∷ "tool_result" ∷ [])

abbrev pub is_tool_block : Value → Bool
is_tool_block block = one_of tool_uses (get_str block (codes "type"))

text_block :
    (types : List Text) (b : Value)
    → Apart types tool_uses
    → is_block types b ≡ true
    → is_tool_block b ≡ false
unfolding only
text_block types b d h = Apart-one_of types tool_uses (get_str b (codes "type")) d (ground arith)

text_blocks :
    (types : List Text) (bs : List Value)
    → Apart types tool_uses
    → every (is_block types) bs ≡ true
    → any is_tool_block bs ≡ false
text_blocks types [] d h = refl
text_blocks types (b ∷ bs) d h =
    let (here, there) = both (is_block types b) (every (is_block types) bs) h in
    rw (text_block types b d here) (text_blocks types bs d there)

pub texts_No_tools :
    (types : List Text) (v : Value)
    → Apart types tool_uses
    → is_texts v types ≡ true
    → some_and (as_array v) (any is_tool_block) ≡ false
unfolding is_texts
texts_No_tools types (array is) d h = text_blocks types (items is) d (ground arith)
texts_No_tools types null d h = refl
texts_No_tools types (bool b) d h = refl
texts_No_tools types (number n) d h = refl
texts_No_tools types (string s) d h = refl
texts_No_tools types (object fs) d h = refl
