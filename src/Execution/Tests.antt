-- ===== src/Execution/Tests.antt =====
-- A payment of 40 that is reported, reconciled and verified.
use orvex.Prelude.{ℕ, true, false, none, some, List, [], ◌∷◌, ◌≡◌, refl, arith, text_eq, ◌⊎◌, map}
use orvex.Prelude.Int.{ℤ, pos}
use orvex.Runtime.Whole.{whole}
use orvex.Table.{find_first}
use orvex.Financial.Store.{Account, AccountScope, Reservation, ReservationStatus, has_id}
use orvex.Financial.Service.{commit, mark_unknown}
use orvex.Financial.Steps.{mark_committed}
use orvex.Execution.Store.{
  World, ExecutionRequest, RequestStatus, ResultStatus, ReceiptValues, get_request,
}
use orvex.Execution.Results.{
  ExecutionStatus, ResultInput, Receipt, reserved_for, ingest_result, settle_reservation,
  hold_reservation, reconcile, reconcile_request, verify_and_finalize, finalize,
}
use orvex.Execution.Calls.{
  Client, Call, ingest_call, reconcile_result_call, verify_call, perform, perform_all,
}
use orvex.Financial.Calls.{Call as FinancialCall, perform_all as financial_perform_all}
use orvex.Execution.Settlements.History.{BelongsAll, history_settles}
use orvex.Execution.Receipts.{Agrees, is_committed, commit_rests_on_receipt}
use orvex.Execution.Payment.{verified_commits}
use orvex.Execution.Histories.{unreserved_never_commits}

abbrev account : Account ℤ
account = record {
  id = 1;
  company_id = 1;
  agent_id = none;
  scope = AccountScope.agent;
  scope_key = "buyer";
  asset = "USDC";
  network = some "base";
  current_reserved = pos 40;
  current_committed = pos 0;
  limit_amount = some (pos 100);
}

abbrev hold : Reservation ℤ
hold = record {
  id = 2;
  company_id = 1;
  agent_id = none;
  execution_request_id = some 3;
  financial_account_id = 1;
  amount = pos 40;
  asset = "USDC";
  status = ReservationStatus.reserved;
  committed_at = none;
  released_at = none;
}

abbrev request : ExecutionRequest
request = record {
  id = 3;
  company_id = 1;
  agent_id = 2;
  decision_id = 4;
  transaction_id = "tx";
  policy_version_id = none;
  authorization_context_hash = "context";
  idempotency_key = "key";
  network = "base";
  status = RequestStatus.authorized;
  authorized_at = some 5;
}

abbrev world : World ℤ
world = record {
  authority = record {
    companies = [];
    agents = [];
    constitutions = [];
    capabilities = [];
    next_id = 0;
  };
  versions = record { companies = []; policies = []; versions = []; rule_rows = []; next_id = 0 };
  approvals = record { decisions = []; requests = []; results = []; next_id = 0 };
  idempotency = record { records = []; next_id = 0 };
  financial = record { accounts = account ∷ []; reservations = hold ∷ []; next_id = 3 };
  requests = request ∷ [];
  results = [];
  verifications = [];
  next_id = 4;
}

abbrev values : ReceiptValues
values = record { recipient = "shop"; asset = "USDC"; amount = "40"; network = "base" }

abbrev receipt : ℕ → Receipt
receipt i = record { actual = values; verified = true; transaction_hash = "0x1" }

abbrev client : Client
client = record { get_result = λ i. ExecutionStatus.confirmed; verify = receipt }

receipt-Agrees : Agrees whole values (receipt 3)
receipt-Agrees = record {
  same_recipient = refl;
  same_asset = refl;
  same_network = refl;
  executor_verified = refl;
  expected = pos 40;
  actual = pos 40;
  expected_amount = refl;
  actual_amount = refl;
  same_amount = refl;
}

verified_commits_example :
    (is_committed (verify_and_finalize whole receipt 9 1 3 values world).0 ≡ true)
    × (find_first
          (has_id 2)
          (verify_and_finalize whole receipt 9 1 3 values world).1.financial.reservations
        ≡ some (mark_committed whole 9 hold))
verified_commits_example =
    verified_commits whole receipt 9 1 3 values world request hold account (omega arith) refl
      receipt-Agrees refl refl

-- A receipt of another recipient.
abbrev wrong : ℕ → Receipt
wrong i = record {
  actual = record values { recipient = "thief" };
  verified = true;
  transaction_hash = "0x2";
}

commit_rests_on_receipt_example :
    let out = verify_and_finalize whole wrong 9 1 3 values world in
    ((is_committed out.0 ≡ false) × (out.1.financial ≡ world.financial))
    ⊎ ((r : ExecutionRequest) × ((get_request 1 3 world ≡ some r)
          × (Agrees whole values (wrong 3)
              × ((h : Reservation ℤ) × ((reserved_for whole 1 r.id world ≡ some h)
                    × (out.1.financial ≡ (commit whole 9 1 h.id world.financial).1))))))
commit_rests_on_receipt_example = commit_rests_on_receipt whole wrong 9 1 3 values world

wrong_refused : is_committed (verify_and_finalize whole wrong 9 1 3 values world).0 ≡ false
unfolding verify_and_finalize finalize text_eq
wrong_refused = refl

abbrev unknown_report : ResultInput
unknown_report = record {
  execution_id = 3;
  status = ResultStatus.unknown;
  chain = "base";
  transaction_hash = none;
  authenticated = true;
}

abbrev calls : List (Client × Call)
calls =
    (client, ingest_call 6 1 unknown_report)
    ∷ (client, reconcile_result_call 7 1 3)
    ∷ (client, verify_call 8 1 3 values)
    ∷ []

history_settles_example :
    (fs : List (FinancialCall whole)) × (BelongsAll whole calls world fs
      × ((perform_all whole calls world).financial
          ≡ financial_perform_all whole fs world.financial))
history_settles_example = history_settles whole calls world

-- The hold is marked UNKNOWN, and stays so though the payment is CONFIRMED and verified.
statuses :
    map Reservation.status (perform_all whole calls world).financial.reservations
    ≡ ReservationStatus.unknown ∷ []
unfolding perform_all perform ingest_result settle_reservation hold_reservation reconcile
    reconcile_request verify_and_finalize finalize mark_unknown text_eq
statuses = refl

abbrev unknown_world : World ℤ
unknown_world = record world {
  financial = record {
    accounts = account ∷ [];
    reservations = record hold { status = ReservationStatus.unknown } ∷ [];
    next_id = 3;
  };
}

unreserved_never_commits_example :
    let later = perform_all whole calls unknown_world in
    let out = verify_and_finalize whole receipt 9 1 3 values later in
    (is_committed out.0 ≡ false) × (out.1.financial ≡ later.financial)
unreserved_never_commits_example =
    unreserved_never_commits whole calls unknown_world 1 3 (refl, tt) receipt 9 values
