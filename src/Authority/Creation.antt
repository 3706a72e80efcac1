-- ===== src/Authority/Creation.antt =====
-- What `createCapability` has checked when it writes a row.
use orvex.Prelude.{ℕ, Bool, true, false, not, ◌&&◌, ◌≡◌, text_eq, arith}
use orvex.Errors.{authorization_error}
use orvex.Runtime.{Decimals}
use orvex.Outcome.{Failure, Result, ok, core, database_error, decimal_error}
use orvex.Outcome.Results.{refuse_if, ◌>>=◌, ◌>>◌}
use orvex.Authority.Store.{Capability}
use orvex.Authority.Limits.{Limits, parse_limits-same}
use orvex.Authority.Checks.{
  CreateInput, limits_within, read_limits, assert_within_parent, is_active, matches_parent,
  scope_within_parent, expires_within,
}
use orvex.Authority.Capabilities.{new_capability}
use orvex.Authority.Containment.{IsWithin}

passed : (b : Bool) → not b ≡ false → b ≡ true
passed b h = ground (arith, h)

all_four :
    (a b c d : Bool)
    → (a && (b && (c && d))) ≡ true
    → (a ≡ true) × ((b ≡ true) × ((c ≡ true) × (d ≡ true)))
all_four a b c d h = ground arith

-- A chain of guards around a step that may fail.
guards_passed :
    {L : Type 0} (a b c d e f g : Bool) (x : Failure) (r : Result L) (w : L → Bool) (l : L)
    → r ≡ ok l
    → (do
      refuse_if (not a) x
      refuse_if (not b) x
      refuse_if (not c) x
      refuse_if (not d) x
      refuse_if (not e) x
      refuse_if (not f) x
      m ← r
      refuse_if (not (w m)) x
      refuse_if (not g) x)
      ≡ ok (tt {0})
    → (a ≡ true)
      × ((b ≡ true)
          × ((c ≡ true) × ((d ≡ true) × ((e ≡ true) × ((f ≡ true) × ((w l ≡ true) × (g ≡ true)))))))
guards_passed a b c d e f g x r w l k h = ground (arith, k, h)

module _ (api : Decimals) (input : CreateInput) where
  open api use {Decimal}

  module _ (parent : Capability Decimal) (l : Limits api) (now id : ℕ)
      (limits : read_limits api database_error input ≡ ok l) where
    -- A child that is let through is within its parent, which is ACTIVE.
    pub assert_within_parent-IsWithin :
        assert_within_parent api input parent ≡ ok tt
        → (is_active parent.status ≡ true) × IsWithin api (new_capability api input l now id) parent
    unfolding assert_within_parent
    assert_within_parent-IsWithin h =
        let same =
          parse_limits-same api database_error decimal_error input.single_transaction_limit
            input.daily_limit input.weekly_limit input.monthly_limit l limits in
        let (a, (b, (c, (d, (e, (f, (w, g))))))) =
          guards_passed (is_active parent.status) (text_eq parent.action input.action)
            (matches_parent input.asset parent.asset) (matches_parent input.network parent.network)
            (scope_within_parent input.category_scope parent.category_scope)
            (scope_within_parent input.recipient_scope parent.recipient_scope)
            (expires_within input.expires_at parent.expires_at) (core authorization_error)
            (read_limits api decimal_error input) (λ m. limits_within api m parent) l same h in
        let (s, (t, (u, v))) = all_four _ _ _ _ w in
        (
          a,
          record {
            same_action = b;
            asset_within = c;
            network_within = d;
            categories_within = e;
            recipients_within = f;
            single_within = s;
            daily_within = t;
            weekly_within = u;
            monthly_within = v;
            expiry_within = g;
          },
        )
