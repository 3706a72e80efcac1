-- ===== src/Outcome/Results.antt =====
-- Calls that throw and read no database.
use orvex.Prelude.{Bool, if◌then◌else◌, Option, none, some, List, [], ◌∷◌, ◌≡◌, refl, arith}
use orvex.Outcome.{Failure, Result, ok, err}

infixl 5 ◌>>=◌ ◌>>◌
abbrev pub ◌>>=◌ : {A B : Type 0} → Result A → (A → Result B) → Result B
ok a >>= f = f a
err e >>= f = err e

abbrev pub ◌>>◌ : {A B : Type 0} → Result A → Result B → Result B
r >> k = r >>= λ _. k

abbrev pub refuse_if : Bool → Failure → Result (Unit {0})
refuse_if c e = if c then err e else ok tt

abbrev pub some_or : {A : Type 0} → Failure → Option A → Result A
some_or e none = err e
some_or e (some a) = ok a

-- `xs.map(f)`, which stops at the first exception.
abbrev pub map_results : {A B : Type 0} → (A → Result B) → List A → Result (List B)
map_results f [] = ok []
map_results f (x ∷ xs) = do y ← f x; ys ← map_results f xs; ok (y ∷ ys)

-- A chain that returned has returned at its first step.
pub bind-ok :
    {A B : Type 0} (r : Result A) (f : A → Result B) {b : B}
    → (r >>= f) ≡ ok b
    → (a : A) × ((r ≡ ok a) × (f a ≡ ok b))
bind-ok (ok a) f h = (a, (refl, h))
bind-ok (err e) f h = absurd (ground (arith, h))
