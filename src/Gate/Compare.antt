-- ===== src/Gate/Compare.antt =====
-- `compareProposalVsTransaction` and `normalizeToTransactionIntent`.
use orvex.Prelude.{
  String, Bool, true, false, not, ◌||◌, Option, none, some, List, [], ◌∷◌, ◌++◌, if◌then◌else◌,
  text_eq, includes, join, coalesce, first_some, same_text?, truthy,
}
use orvex.Runtime.{Decimals}
use orvex.Gate.Contracts.{
  RecipientRef, ActionProposal, TransactionIntent, AnalysisStatus, valid, suspicious, invalid,
  TransactionAnalysis,
}

pub data GateStatus : Type 0 where
  match mismatch : GateStatus

pub record FieldMismatch : Type 0 where
  pub field : String
  pub expected : Option String
  pub actual : Option String

pub record GateResult : Type 0 where
  pub status : GateStatus
  pub mismatches : List FieldMismatch

-- `a?.f`
abbrev pub field? : {A B : Type 0} → (A → Option B) → Option A → Option B
field? f none = none
field? f (some a) = f a

abbrev pub proposal_recipient : ActionProposal → Option String
proposal_recipient p =
    first_some (field? RecipientRef.address p.recipient)
      (field? RecipientRef.identifier p.recipient)

abbrev pub proposal_network : ActionProposal → Option String
proposal_network p = first_some p.network (field? RecipientRef.network p.recipient)

abbrev pub proposal_amount : ActionProposal → Option String
proposal_amount p = field? (λ m. some m.value) p.amount

abbrev pub proposal_currency : ActionProposal → Option String
proposal_currency p = field? (λ m. some m.currency) p.amount

unfoldable pub normalize_to_transaction_intent : ActionProposal → String → TransactionIntent
normalize_to_transaction_intent p transaction = record {
  transaction_id = transaction;
  proposal_id = p.proposal_id;
  action_type = p.action_type;
  network = coalesce (proposal_network p) "";
  asset_symbol = coalesce (proposal_currency p) "";
  amount = coalesce (proposal_amount p) "0";
  recipient_address = coalesce (proposal_recipient p) "";
  recipient_kind = field? (λ r. some r.kind) p.recipient;
  payment_method = p.payment_method;
}

abbrev pub status_text : AnalysisStatus → String
status_text valid = "VALID"
status_text suspicious = "SUSPICIOUS"
status_text invalid = "INVALID"

abbrev pub is_valid : AnalysisStatus → Bool
is_valid valid = true
is_valid _ = false

abbrev pub payment_functions : List String
payment_functions = "transfer" ∷ "transferFrom" ∷ "pay" ∷ []

-- One `mismatches.push` under its test.
abbrev pub push_if : Bool → FieldMismatch → List FieldMismatch
push_if c m = if c then m ∷ [] else []

abbrev pub is_empty : {A : Type 0} → List A → Bool
is_empty [] = true
is_empty (_ ∷ _) = false

module _ (api : Decimals) where
  open api use {Decimal, parse, equals}

  abbrev pub equal_parsed : Option Decimal → Option Decimal → Bool
  equal_parsed (some x) (some y) = equals x y
  equal_parsed _ _ = false

  -- A text that is no decimal is caught, and equals nothing.
  unfoldable pub amounts_equal : Option String → Option String → Bool
  amounts_equal (some a) (some b) = equal_parsed (parse a) (parse b)
  amounts_equal none none = true
  amounts_equal _ _ = false

  pub record CompareContext : Type 0 where
    pub expected_network : String
    pub actual_network : String
    pub expect_simple_payment : Option Bool

  abbrev pub is_payment_function : String → Bool
  is_payment_function name = text_eq name "" || includes payment_functions name

  unfoldable pub simple_payment_mismatches : TransactionAnalysis → List FieldMismatch
  simple_payment_mismatches analysis =
      push_if (not (is_payment_function analysis.function.name)) (record {
        field = "function";
        expected = some "transfer|pay";
        actual = some analysis.function.name;
      })
      ++ push_if (not (is_empty analysis.risk_flags)) (record {
        field = "risk_flags";
        expected = some "none";
        actual = some (join "," analysis.risk_flags);
      })

  -- The fields that disagree, in the order of the checks.
  unfoldable pub find_mismatches :
      ActionProposal → TransactionAnalysis → CompareContext → List FieldMismatch
  unfolding amounts_equal simple_payment_mismatches
  find_mismatches p analysis context =
      push_if (not (same_text? (proposal_recipient p) (some analysis.recipient))) (record {
        field = "recipient";
        expected = proposal_recipient p;
        actual = some analysis.recipient;
      })
      ++ (push_if (not (amounts_equal (proposal_amount p) (some analysis.amount))) (record {
        field = "amount";
        expected = proposal_amount p;
        actual = some analysis.amount;
      })
          ++ (push_if (not (same_text? (proposal_currency p) (some analysis.asset))) (record {
            field = "asset";
            expected = proposal_currency p;
            actual = some analysis.asset;
          })
              ++ (push_if (not (text_eq context.expected_network context.actual_network)) (record {
                field = "network";
                expected = some context.expected_network;
                actual = some context.actual_network;
              })
                  ++ (push_if (not (is_valid analysis.status)) (record {
                    field = "analysis.status";
                    expected = some "VALID";
                    actual = some (status_text analysis.status);
                  })
                      ++ (if truthy context.expect_simple_payment
                          then simple_payment_mismatches analysis
                          else [])))))

  unfoldable pub compare_proposal_vs_transaction :
      ActionProposal → TransactionAnalysis → CompareContext → GateResult
  unfolding find_mismatches
  compare_proposal_vs_transaction p analysis context =
      let found = find_mismatches p analysis context in
      record { status = if is_empty found then match else mismatch; mismatches = found }
