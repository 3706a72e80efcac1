-- ===== src/Outcome.antt =====
-- Calls that throw and that read and write a database. `Result` is a call's outcome: a value, a
-- `CoreError` of some code, or an exception of the runtime that is no `CoreError`. `Action` is an
-- asynchronous method over a database; `transaction` is `db.$transaction`, which rolls back what
-- was written when its body throws.
pub mod Results
pub mod Laws
use orvex.Prelude.{Bool, Option, none, some, if◌then◌else◌}
use orvex.Errors.{ErrorCode}

pub data Failure : Type 0 where
  core : ErrorCode → Failure
  -- `new Prisma.Decimal` of a text that is no number.
  decimal_error : Failure
  -- a call of what is undefined
  type_error : Failure
  -- `toISOString` of a date that is none
  range_error : Failure
  -- an update of a row that is not there
  database_error : Failure

pub data Result {ℓ} (A : Type ℓ) : Type ℓ where
  ok : A → Result A
  err : Failure → Result A

abbrev pub Action : Type 0 → Type 0 → Type 0
Action S A = S → Result A × S

module _ {S A : Type 0} where
  abbrev pub pure : A → Action S A
  pure a s = (ok a, s)

  abbrev pub throw : Failure → Action S A
  throw e s = (err e, s)

  abbrev pub gets : (S → A) → Action S A
  gets f s = (ok (f s), s)

  -- A read of the database that may throw.
  abbrev pub check : (S → Result A) → Action S A
  check f s = (f s, s)

  abbrev pub lift : Result A → Action S A
  lift r s = (r, s)

  -- A row that a query returns, or the failure that its absence is answered with.
  abbrev pub or_throw : Failure → Option A → Action S A
  or_throw e none = throw e
  or_throw e (some a) = pure a

  abbrev pub settle : S → Result A × S → Result A × S
  settle s (ok a, s') = (ok a, s')
  settle s (err e, s') = (err e, s)

  abbrev pub transaction : Action S A → Action S A
  transaction m s = settle s (m s)

module _ {S : Type 0} where
  abbrev pub throw_if : Bool → Failure → Action S (Unit {0})
  throw_if c e s = (if c then err e else ok tt, s)

  abbrev pub modify : (S → S) → Action S (Unit {0})
  modify f s = (ok tt, f s)

infixl 5 ◌>>=◌ ◌>>◌
abbrev pub ◌>>=◌ : {S A B : Type 0} → Action S A → (A → Action S B) → Action S B
◌>>=◌ m f s = let (r, s') = m s in elim r [ ok a ↦ f a s' | err e ↦ (err e, s') ]

abbrev pub ◌>>◌ : {S A B : Type 0} → Action S A → Action S B → Action S B
m >> k = m >>= λ _. k
