-- ===== src/Common/Texts.antt =====
-- Text of headers, as the list of its character codes: visible ASCII, blanks and tabs.
use mathlib.Core.List
use Prim.Native.Char.{code}
use Prim.Native.String.{String}
use Prim.Native.Nat.{ℕ, ◌+◌}
use mathlib.Core.Path.{◌≡◌, refl}
use mathlib.Core.Bool.{Bool, true, false, ◌&&◌, ◌||◌}
use mathlib.Core.List.{List, [], ◌∷◌, map}
use native.Mathlib.Omega.{arith}
use deskquota.Common.Tests.{if◌then◌else◌, ◌==◌, leb}
use deskquota.Common.Lists.{any}

abbrev pub Text : Type 0
Text = List ℕ

-- The codes of a literal.
abbrev pub codes : String → Text
codes String.[] = []
codes (String.◌∷◌ c s) = code c ∷ codes s

abbrev pub is_blank : ℕ → Bool
is_blank c = (c == 32) || (c == 9)

abbrev pub trim_start : Text → Text
trim_start [] = []
trim_start (c ∷ cs) = let rest = trim_start cs in if is_blank c then rest else c ∷ cs

-- `str::trim`.
unfoldable pub trim : Text → Text
trim s = List.reverse (trim_start (List.reverse (trim_start s)))

-- `==` on texts.
unfoldable pub same_text : Text → Text → Bool
same_text [] [] = true
same_text [] (d ∷ ds) = false
same_text (c ∷ cs) [] = false
same_text (c ∷ cs) (d ∷ ds) = (c == d) && same_text cs ds

pub same_text_refl : (s : Text) → same_text s s ≡ true
unfolding same_text
same_text_refl [] = refl
same_text_refl (c ∷ cs) = ground (arith, same_text_refl cs)

pub same_text_eq : (s t : Text) → same_text s t ≡ true → s ≡ t
unfolding same_text
same_text_eq [] [] h = refl
same_text_eq [] (d ∷ ds) h = absurd (cc)
same_text_eq (c ∷ cs) [] h = absurd (cc)
same_text_eq (c ∷ cs) (d ∷ ds) h =
    let head : c ≡ d = ground arith in
    let tail : same_text cs ds ≡ true = ground arith in rw (head, same_text_eq cs ds tail) refl

abbrev pub lower : ℕ → ℕ
lower c = if leb 65 c && leb c 90 then c + 32 else c

-- `to_ascii_lowercase`.
abbrev pub lowercase : Text → Text
lowercase = map lower

-- `eq_ignore_ascii_case`.
unfoldable pub same_letters : Text → Text → Bool
unfolding same_text
same_letters s t = same_text (lowercase s) (lowercase t)

abbrev pub contains : List Text → Text → Bool
contains ts s = any (same_text s) ts

abbrev pub push_first : ℕ → List Text → List Text
push_first c [] = (c ∷ []) ∷ []
push_first c (t ∷ ts) = (c ∷ t) ∷ ts

-- `str::split` at a character.
unfoldable pub split : ℕ → Text → List Text
split at [] = [] ∷ []
split at (c ∷ cs) = let rest = split at cs in if c == at then [] ∷ rest else push_first c rest

-- `split(at).next()`: the text before the first `at`.
unfoldable pub before : ℕ → Text → Text
before at [] = []
before at (c ∷ cs) = let rest = before at cs in if c == at then [] else c ∷ rest
