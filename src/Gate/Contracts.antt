-- ===== src/Gate/Contracts.antt =====
-- The contracts that the transaction gate reads.
use orvex.Prelude.{String, Option, List}

pub data ActionType : Type 0 where
  pay transfer purchase call_api swap other : ActionType

pub data RecipientRefType : Type 0 where
  service wallet contract merchant unknown : RecipientRefType

pub record RecipientRef : Type 0 where
  pub kind : RecipientRefType
  pub identifier : Option String
  pub address : Option String
  pub network : Option String

pub record Money : Type 0 where
  pub value : String
  pub currency : String

pub record ActionProposal : Type 0 where
  pub proposal_id : String
  pub intent_id : String
  pub agent_id : String
  pub action_type : ActionType
  pub purpose : String
  pub recipient : Option RecipientRef
  pub amount : Option Money
  pub payment_method : Option String
  pub network : Option String

pub record TransactionIntent : Type 0 where
  pub transaction_id : String
  pub proposal_id : String
  pub action_type : ActionType
  pub network : String
  pub asset_symbol : String
  pub amount : String
  pub recipient_address : String
  pub recipient_kind : Option RecipientRefType
  pub payment_method : Option String

pub data AnalysisStatus : Type 0 where
  valid suspicious invalid : AnalysisStatus

pub record FunctionRef : Type 0 where
  pub name : String
  pub selector : String

pub record TransactionAnalysis : Type 0 where
  pub transaction_id : String
  pub contract_address : String
  pub function : FunctionRef
  pub recipient : String
  pub amount : String
  pub asset : String
  pub risk_flags : List String
  pub status : AnalysisStatus

pub data SimulationStatus : Type 0 where
  pass revert unexpected_state_change insufficient_funds unsupported error : SimulationStatus

pub record SimulationResult : Type 0 where
  pub transaction_id : String
  pub status : SimulationStatus
