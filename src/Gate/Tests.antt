-- ===== src/Gate/Tests.antt =====
-- One transfer, proposed and decoded.
use orvex.Prelude.{true, some, none, [], ◌≡◌, ◌↔◌, refl, text_eq}
use orvex.Runtime.Whole.{whole}
use orvex.Gate.Contracts.{pay, wallet, ActionProposal, TransactionAnalysis, valid}
use orvex.Gate.Compare.{match, CompareContext, compare_proposal_vs_transaction}
use orvex.Gate.Matching.{Agrees, match_iff_Agrees}

abbrev proposal : ActionProposal
proposal = record {
  proposal_id = "p";
  intent_id = "i";
  agent_id = "a";
  action_type = pay;
  purpose = "hosting";
  recipient =
      some (record { kind = wallet; identifier = none; address = some "0x1"; network = none });
  amount = some (record { value = "60"; currency = "USDC" });
  payment_method = none;
  network = some "base";
}

abbrev analysis : TransactionAnalysis
analysis = record {
  transaction_id = "t";
  function = record { name = "transfer"; selector = "0xa9059cbb" };
  recipient = "0x1";
  amount = "60";
  asset = "USDC";
  contract_address = "0xc";
  risk_flags = [];
  status = valid;
}

abbrev context : CompareContext whole
context = record {
  expected_network = "base";
  actual_network = "base";
  expect_simple_payment = some true;
}

matches : (compare_proposal_vs_transaction whole proposal analysis context).status ≡ match
unfolding compare_proposal_vs_transaction text_eq
matches = refl

match_iff_Agrees_example :
    ((compare_proposal_vs_transaction whole proposal analysis context).status ≡ match)
    ↔ Agrees whole proposal analysis context
match_iff_Agrees_example = match_iff_Agrees whole proposal analysis context
