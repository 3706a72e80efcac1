-- ===== src/Authority/Ancestry.antt =====
-- What a capability permits, each of its ancestors permits that has begun.
use orvex.Prelude.{ℕ, ◌≤◌, leb, true, some, List, ◌≡◌, arith, inl, inr, All}
use mathlib.Core.Path.{subst}
use orvex.Runtime.{Decimals}
use orvex.Table.{find_first, All-find}
use orvex.Table.Keys.{with_key}
use orvex.Authority.Store.{Capability}
use orvex.Authority.Capabilities.{Rows}
use orvex.Authority.Containment.{Payment, covers, permits, Within-covers, both}
use orvex.Authority.Marks.{key}
use orvex.Authority.Delegation.{
  Call, perform_all, IsContained, IsDelegated, perform_all-IsDelegated,
}

module _ (api : Decimals) where
  open api use {Decimal}

  -- A chain of parents in the table.
  pub data Ancestor (rows : List (Capability Decimal))
      : Capability Decimal → Capability Decimal → Type 0 where
    self : (c : Capability Decimal) → Ancestor rows c c
    over :
        (c p a : Capability Decimal) (i : ℕ)
        → c.parent_capability_id ≡ some i
        → find_first (with_key (key api) i) rows ≡ some p
        → Ancestor rows p a
        → Ancestor rows c a

  parent_covers :
      (rows : List (Capability Decimal)) (c p : Capability Decimal) (i : ℕ) (payment : Payment api)
      → IsContained api rows c
      → c.parent_capability_id ≡ some i
      → find_first (with_key (key api) i) rows ≡ some p
      → covers api c payment ≡ true
      → covers api p payment ≡ true
  parent_covers rows c p i payment (inl e) n f h = absurd (ground (arith, e, n))
  parent_covers rows c p i payment (inr (j, (e, (q, (g, w))))) n f h =
      let same : i ≡ j = ground (arith, e, n) in
      let it : q ≡ p = cc (f, g, same) in
      subst (λ x. covers api x payment ≡ true) it (Within-covers api c q payment w h)

  Ancestor-covers :
      (rows : List (Capability Decimal)) (c a : Capability Decimal) (k : ℕ) (payment : Payment api)
      → All (IsContained api rows) rows
      → find_first (with_key (key api) k) rows ≡ some c
      → Ancestor rows c a
      → covers api c payment ≡ true
      → covers api a payment ≡ true
  Ancestor-covers rows c a k payment all f (self _) h = h
  Ancestor-covers rows c a k payment all f (over _ p _ i e g up) h =
      Ancestor-covers rows p a i payment all g up (
        parent_covers rows c p i payment
          (All-find (IsContained api rows) (with_key (key api) k) rows {r = c} all f) e g h)

  -- Over any history of calls on a store where every capability is within its parent: what a
  -- capability in the table permits by its action, asset, network, scopes, limits, beginning and
  -- expiry, each of its ancestors that has begun by then permits by its own.
  pub delegation_shrinks :
      (cs : List Call) (s : Rows api) (c a : Capability Decimal) (k : ℕ) (payment : Payment api)
      → IsDelegated api s
      → find_first (with_key (key api) k) (perform_all api cs s).capabilities ≡ some c
      → Ancestor (perform_all api cs s).capabilities c a
      → a.valid_from ≤ payment.time
      → permits api c payment ≡ true
      → permits api a payment ≡ true
  delegation_shrinks cs s c a k payment b found up begun h =
      let terms = (both (leb c.valid_from payment.time) (covers api c payment) h).1 in
      let started : leb a.valid_from payment.time ≡ true = ground (arith, begun) in
      rw started (
        Ancestor-covers (perform_all api cs s).capabilities c a k payment
          (perform_all-IsDelegated api cs s b).contained found up terms)
