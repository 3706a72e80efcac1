-- ===== src/Outcome/Laws.antt =====
-- Reasoning on methods step by step: guards that let pass, and steps that only read.
use mathlib.Core.Path.{subst}
use orvex.Prelude.{Bool, true, false, ◌≡◌, refl, sym, arith}
use orvex.Outcome.{Failure, Result, ok, err, Action, lift, throw_if, ◌>>=◌, ◌>>◌}

module _ {S B : Type 0} where
  -- A method that returned has passed its guard.
  pub guard-passed :
      (c : Bool) (e : Failure) (k : Action S B) (s : S) {b : B}
      → ((throw_if c e >> k) s).0 ≡ ok b
      → (c ≡ false) × ((k s).0 ≡ ok b)
  guard-passed true e k s h = absurd (ground (arith, h))
  guard-passed false e k s h = (refl, h)

module _ {S A B : Type 0} (P : S → Type 0) where
  bind_reads :
      (q : Result A × S) (f : A → Action S B) (s : S)
      → q.1 ≡ s
      → P s
      → ((a : A) → q.0 ≡ ok a → P (f a s).1)
      → P ((lift q.0 >>= f) q.1).1
  bind_reads (ok a, s') f s e b k = subst (λ t. P (f a t).1) (sym e) (k a refl)
  bind_reads (err x, s') f s e b k = subst P (sym e) b

  -- A step that only reads, and what follows it where it returned.
  pub reads-keeps :
      (m : Action S A) (f : A → Action S B) (s : S)
      → (m s).1 ≡ s
      → P s
      → ((a : A) → (m s).0 ≡ ok a → P (f a s).1)
      → P ((m >>= f) s).1
  reads-keeps m f s e b k = bind_reads (m s) f s e b k
