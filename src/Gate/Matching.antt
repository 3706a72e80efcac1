-- ===== src/Gate/Matching.antt =====
-- A gate result of MATCH means that the transaction is the one that was proposed.
use orvex.Prelude.{
  String, Bool, true, false, not, ◌&&◌, ◌||◌, Option, none, some, List, [], ◌∷◌, ◌++◌, ◌≡◌, sym, ap,
  ◌∙◌, ◌↔◌, ◌⊎◌, inl, inr, refl, arith, if◌then◌else◌, text_eq, text_eq_iff, same_text?,
  same_text?-eq, same_text?-refl, truthy, Bool-cases,
}
use orvex.Runtime.{Decimals}
use orvex.Gate.Contracts.{
  ActionProposal, AnalysisStatus, valid, suspicious, invalid, TransactionAnalysis,
}
use orvex.Gate.Compare.{
  match, mismatch, FieldMismatch, proposal_recipient, proposal_amount, proposal_currency, is_valid,
  push_if, is_empty, is_payment_function, amounts_equal, equal_parsed, CompareContext,
  simple_payment_mismatches, find_mismatches, compare_proposal_vs_transaction,
}

empty-push :
    (c : Bool) (m : FieldMismatch) (xs : List FieldMismatch) {b : Bool}
    → is_empty xs ≡ b
    → is_empty (push_if (not c) m ++ xs) ≡ (c && b)
empty-push true m xs h = h
empty-push false m xs h = refl

empty-push_one : (c : Bool) (m : FieldMismatch) → is_empty (push_if (not c) m) ≡ c
empty-push_one true m = refl
empty-push_one false m = refl

&&-both : (a b : Bool) → (a && b) ≡ true → (a ≡ true) × (b ≡ true)
&&-both a b h = ground arith

&&-intro : {a b : Bool} → a ≡ true → b ≡ true → (a && b) ≡ true
&&-intro p q = rw (p, q)

module _ (api : Decimals) where
  open api use {Decimal, parse, equals, units, equals_iff}

  -- Both amounts are decimals, of one value.
  pub record SameAmount (a : Option String) (b : String) : Type 0 where
    pub proposed_text : String
    pub is_proposed : a ≡ some proposed_text
    pub proposed : Decimal
    pub actual : Decimal
    pub proposed_parses : parse proposed_text ≡ some proposed
    pub actual_parses : parse b ≡ some actual
    pub same_value : units proposed ≡ units actual

  -- What a transaction must be to carry out a proposal.
  pub record Agrees (p : ActionProposal) (t : TransactionAnalysis) (c : CompareContext api)
      : Type 0 where
    pub recipient_agrees : proposal_recipient p ≡ some t.recipient
    pub amount_agrees : SameAmount (proposal_amount p) t.amount
    pub asset_agrees : proposal_currency p ≡ some t.asset
    pub network_agrees : c.expected_network ≡ c.actual_network
    pub analysis_valid : t.status ≡ valid
    pub simple_payment :
        (truthy c.expect_simple_payment ≡ false)
        ⊎ ((is_payment_function api t.function.name ≡ true) × (t.risk_flags ≡ []))

  abbrev simple_ok : TransactionAnalysis → CompareContext api → Bool
  simple_ok t c =
      not (truthy c.expect_simple_payment)
      || (is_payment_function api t.function.name && is_empty t.risk_flags)

  abbrev checks : ActionProposal → TransactionAnalysis → CompareContext api → Bool
  checks p t c =
      same_text? (proposal_recipient p) (some t.recipient)
      && (amounts_equal api (proposal_amount p) (some t.amount)
          && (same_text? (proposal_currency p) (some t.asset)
              && (text_eq c.expected_network c.actual_network
                  && (is_valid t.status && simple_ok t c))))

  empty-simple :
      (t : TransactionAnalysis) (b : Bool)
      → is_empty (if b then simple_payment_mismatches api t else [])
        ≡ (not b || (is_payment_function api t.function.name && is_empty t.risk_flags))
  unfolding simple_payment_mismatches
  empty-simple t true =
      empty-push (is_payment_function api t.function.name) _ _
        (empty-push_one (is_empty t.risk_flags) _)
  empty-simple t false = refl

  checks_lem :
      (p : ActionProposal) (t : TransactionAnalysis) (c : CompareContext api)
      → is_empty (find_mismatches api p t c) ≡ checks p t c
  unfolding find_mismatches
  checks_lem p t c = empty-push (same_text? (proposal_recipient p) (some t.recipient)) _ _ (
      empty-push (amounts_equal api (proposal_amount p) (some t.amount)) _ _ (
        empty-push (same_text? (proposal_currency p) (some t.asset)) _ _ (
          empty-push (text_eq c.expected_network c.actual_network) _ _ (
            empty-push (is_valid t.status) _ _ (empty-simple t (truthy c.expect_simple_payment))))))

  valid_of : (st : AnalysisStatus) → is_valid st ≡ true → st ≡ valid
  valid_of valid h = refl
  valid_of suspicious h = cc
  valid_of invalid h = cc

  none_of : {A : Type 0} (xs : List A) → is_empty xs ≡ true → xs ≡ []
  none_of [] h = refl
  none_of (x ∷ xs) h = cc

  SameAmount-of :
      (a : Option String) (b : String) → amounts_equal api a (some b) ≡ true → SameAmount a b
  unfolding amounts_equal
  SameAmount-of none b h = absurd (ground (arith, h))
  SameAmount-of (some a) b h = parts (parse a) (parse b) refl refl h
    where
      parts :
          (x y : Option Decimal)
          → parse a ≡ x
          → parse b ≡ y
          → equal_parsed api x y ≡ true
          → SameAmount (some a) b
      parts none y ex ey h = absurd (ground (arith, h))
      parts (some x) none ex ey h = absurd (ground (arith, h))
      parts (some x) (some y) ex ey h = record {
        proposed_text = a;
        is_proposed = refl;
        proposed = x;
        actual = y;
        proposed_parses = ex;
        actual_parses = ey;
        same_value = (equals_iff x y).0 h;
      }

  amount_of_same :
      (a : Option String) (b : String) → SameAmount a b → amounts_equal api a (some b) ≡ true
  unfolding amounts_equal
  amount_of_same a b s =
      rw (s.is_proposed, amounts_equal)
        (rw (s.proposed_parses, s.actual_parses) ((equals_iff s.proposed s.actual).1 s.same_value))

  Agrees-of_checks :
      (p : ActionProposal) (t : TransactionAnalysis) (c : CompareContext api)
      → checks p t c ≡ true
      → Agrees p t c
  Agrees-of_checks p t c h =
      let (r, h₁) = &&-both _ _ h in
      let (a, h₂) = &&-both _ _ h₁ in
      let (s, h₃) = &&-both _ _ h₂ in
      let (n, h₄) = &&-both _ _ h₃ in
      let (v, simple) = &&-both _ _ h₄ in
      record {
        recipient_agrees = same_text?-eq (proposal_recipient p) t.recipient r;
        amount_agrees = SameAmount-of (proposal_amount p) t.amount a;
        asset_agrees = same_text?-eq (proposal_currency p) t.asset s;
        network_agrees = (text_eq_iff c.expected_network c.actual_network).0 n;
        analysis_valid = valid_of t.status v;
        simple_payment = elim (Bool-cases (truthy c.expect_simple_payment)) [
          | inl e ↦ inr ((under e simple).0, none_of t.risk_flags (under e simple).1)
          | inr n ↦ inl n
        ];
      }
    where
      under :
          truthy c.expect_simple_payment ≡ true
          → simple_ok t c ≡ true
          → (is_payment_function api t.function.name ≡ true) × (is_empty t.risk_flags ≡ true)
      under e h = &&-both _ _ (rw e at h)

  or_right : (a : Bool) {b : Bool} → b ≡ true → (not a || b) ≡ true
  or_right a h = ground arith

  checks_of_Agrees :
      (p : ActionProposal) (t : TransactionAnalysis) (c : CompareContext api)
      → Agrees p t c
      → checks p t c ≡ true
  checks_of_Agrees p t c g = &&-intro (rw g.recipient_agrees (same_text?-refl t.recipient)) (
      &&-intro (amount_of_same (proposal_amount p) t.amount g.amount_agrees) (
        &&-intro (rw g.asset_agrees (same_text?-refl t.asset)) (
          &&-intro ((text_eq_iff c.expected_network c.actual_network).1 g.network_agrees)
            (&&-intro (ap is_valid g.analysis_valid) (simple g.simple_payment)))))
    where
      simple :
          (truthy c.expect_simple_payment ≡ false)
            ⊎ ((is_payment_function api t.function.name ≡ true) × (t.risk_flags ≡ []))
          → simple_ok t c ≡ true
      simple (inl n) = rw n
      simple (inr (f, r)) = or_right (truthy c.expect_simple_payment) (&&-intro f (ap is_empty r))

  -- The gate answers MATCH exactly when the recipient, the asset and the network are the proposed
  -- ones, both amounts are decimals of the same value, the analysis is VALID and, for a simple
  -- payment, the function is none or a transfer and there is no risk flag.
  pub match_iff_Agrees :
      (p : ActionProposal) (t : TransactionAnalysis) (c : CompareContext api)
      → ((compare_proposal_vs_transaction api p t c).status ≡ match) ↔ Agrees p t c
  unfolding compare_proposal_vs_transaction
  match_iff_Agrees p t c = (
    λ h.
        Agrees-of_checks p t c
          (sym (checks_lem p t c) ∙ is_match (is_empty (find_mismatches api p t c)) h),
    λ g. rw (checks_lem p t c ∙ checks_of_Agrees p t c g),
  )
    where
      is_match : (b : Bool) → (if b then match else mismatch) ≡ match → b ≡ true
      is_match true h = refl
      is_match false h = cc
