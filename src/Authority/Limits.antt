-- ===== src/Authority/Limits.antt =====
-- The four limits of a capability, read from texts.
use orvex.Prelude.{String, Bool, true, false, not, Option, none, some, ◌≡◌, arith}
use orvex.Runtime.{Decimals}
use orvex.Outcome.{Failure, Result, ok, err}
use orvex.Outcome.Results.{◌>>=◌, bind-ok}

module _ (api : Decimals) where
  open api use {Decimal, parse, greater_than}

  abbrev pub Limits : Type 0
  Limits = (Option Decimal) × ((Option Decimal) × ((Option Decimal) × (Option Decimal)))

  -- `optDecimal`, with what a text that is no decimal throws.
  abbrev pub opt_decimal : Failure → Option String → Result (Option Decimal)
  opt_decimal e none = ok none
  opt_decimal e (some text) = elim (parse text) [ none ↦ err e | some d ↦ ok (some d) ]

  unfoldable pub parse_limits :
      Failure → Option String → Option String → Option String → Option String → Result Limits
  parse_limits e single_text daily_text weekly_text monthly_text = do
    single ← opt_decimal e single_text
    daily ← opt_decimal e daily_text
    weekly ← opt_decimal e weekly_text
    monthly ← opt_decimal e monthly_text
    ok (single, (daily, (weekly, monthly)))

  -- `limitWithinParent`
  abbrev pub limit_within_parent : Option Decimal → Option Decimal → Bool
  limit_within_parent child none = true
  limit_within_parent none (some p) = false
  limit_within_parent (some c) (some p) = not (greater_than c p)

  opt_decimal-same :
      (e f : Failure) (text : Option String) (d : Option Decimal)
      → opt_decimal e text ≡ ok d
      → opt_decimal f text ≡ ok d
  opt_decimal-same e f none d h = h
  opt_decimal-same e f (some text) d h = ground arith

  -- What the limits are does not depend on what a bad one throws.
  pub parse_limits-same :
      (e f : Failure) (a b c d : Option String) (l : Limits)
      → parse_limits e a b c d ≡ ok l
      → parse_limits f a b c d ≡ ok l
  unfolding parse_limits
  parse_limits-same e f a b c d l h =
      let (x, (p, h₁)) = bind-ok (opt_decimal e a) _ h in
      let (y, (q, h₂)) = bind-ok (opt_decimal e b) _ h₁ in
      let (z, (r, h₃)) = bind-ok (opt_decimal e c) _ h₂ in
      let (w, (t, h₄)) = bind-ok (opt_decimal e d) _ h₃ in
      rw
        (
          opt_decimal-same e f a x p,
          opt_decimal-same e f b y q,
          opt_decimal-same e f c z r,
          opt_decimal-same e f d w t,
        )
        h₄
