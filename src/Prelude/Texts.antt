-- ===== src/Prelude/Texts.antt =====
-- JavaScript's uses of texts and of values that may be missing.
use Prim.Native.String.{String, ◌++◌ as text_append}
use mathlib.Core.Bool.{Bool, true, false}
use mathlib.Core.Option.{Option, none, some}
use mathlib.Core.List.{List, [], ◌∷◌}
use mathlib.Core.Path.{◌≡◌, refl, ap}
use orvex.Prelude.Tests.{text_eq, text_eq_iff}
use native.Mathlib.Omega.{arith}

-- A template text, piece by piece.
abbrev pub concat : List String → String
concat [] = ""
concat (s ∷ ss) = text_append s (concat ss)

-- `xs.join(sep)`
abbrev pub join : String → List String → String
join sep [] = ""
join sep (s ∷ []) = s
join sep (s ∷ t ∷ ss) = text_append s (text_append sep (join sep (t ∷ ss)))

-- `!s` of a text that may be `undefined` or `null`: it is missing or empty.
abbrev pub falsy : Option String → Bool
falsy none = true
falsy (some s) = text_eq s ""

-- A Boolean that may be `undefined`, as a condition.
abbrev pub truthy : Option Bool → Bool
truthy none = false
truthy (some b) = b

-- `a ?? b`
abbrev pub coalesce {ℓ} : {A : Type ℓ} → Option A → A → A
coalesce none d = d
coalesce (some a) d = a

-- `a ?? b` of two values that may both be missing.
abbrev pub first_some {ℓ} : {A : Type ℓ} → Option A → Option A → Option A
first_some none o = o
first_some (some a) o = some a

-- `===` of texts that may be missing.
abbrev pub same_text? : Option String → Option String → Bool
same_text? none none = true
same_text? (some s) (some t) = text_eq s t
same_text? _ _ = false

pub same_text?-eq : (s : Option String) (t : String) → same_text? s (some t) ≡ true → s ≡ some t
same_text?-eq none t h = ground arith
same_text?-eq (some s) t h = ap some ((text_eq_iff s t).0 h)

pub same_text?-refl : (t : String) → same_text? (some t) (some t) ≡ true
same_text?-refl t = (text_eq_iff t t).1 refl
