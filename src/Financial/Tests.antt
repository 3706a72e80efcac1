-- ===== src/Financial/Tests.antt =====
-- One budget of 100 and its reservations, through the methods of the service.
use orvex.Prelude.{ℕ, ◌≡◌, ◌⊎◌, refl, true, some, none, List, [], ◌∷◌, arith}
use orvex.Prelude.Int.{ℤ, pos, ◌+ℤ◌, ◌-ℤ◌}
use orvex.Runtime.Whole.{whole}
use orvex.Table.{find_first}
use orvex.Financial.Store.{
  agent, Account, AccountKey, Reservation, reserved, Store, account_row, has_id,
}
use orvex.Financial.Service.{ensure_account, reserve, commit, release, mark_unknown}
use orvex.Financial.Calls.{
  Call, ensure_account_call, reserve_call, commit_call, release_call, mark_unknown_call,
  perform_all, empty_store,
}
use orvex.Financial.Sums.{IsBalanced}
use orvex.Financial.Balance.{
  empty-IsBalanced, perform_all-IsBalanced, empty-IsKeyed, perform_all-IsKeyed,
}
use orvex.Financial.Precision.{HasRoom, amounts}
use orvex.Runtime.{IsShort}
use orvex.Financial.Budget.{IsFunded, perform_all-IsFunded}
use orvex.Financial.Induction.{is_open}
use orvex.Financial.Lifecycle.{Continues, reservation_history}
use orvex.Financial.Races.{both_commit, both_commit_doubles}

abbrev bucket : AccountKey
bucket = record {
  company_id = 1;
  agent_id = some 7;
  scope = agent;
  scope_key = "7";
  asset = "USDC";
  network = some "base";
}

abbrev calls : List (Call whole)
calls =
    ensure_account_call bucket (some (pos 100))
    ∷ reserve_call bucket none "60"
    ∷ reserve_call bucket none "50"
    ∷ reserve_call bucket none "40"
    ∷ commit_call 5 1 1
    ∷ mark_unknown_call 1 2
    ∷ release_call 6 1 2
    ∷ []

after_calls : Store ℤ
after_calls = perform_all whole calls (empty_store whole)

balances :
    account_row after_calls 0
    ≡ some (record {
      id = 0;
      company_id = 1;
      agent_id = some 7;
      scope = agent;
      scope_key = "7";
      asset = "USDC";
      network = some "base";
      current_reserved = pos 40;
      current_committed = pos 60;
      limit_amount = some (pos 100);
    })
unfolding after_calls perform_all ensure_account reserve commit release mark_unknown ◌+ℤ◌ ◌-ℤ◌
balances = refl

amounts_held : amounts whole after_calls.reservations ≡ pos 60 ∷ pos 40 ∷ []
unfolding after_calls perform_all ensure_account reserve commit release mark_unknown ◌+ℤ◌ ◌-ℤ◌
amounts_held = refl

room : HasRoom whole 0 (amounts whole (perform_all whole calls (empty_store whole)).reservations)
unfolding after_calls
room = rw amounts_held (((60, (0, refl)), ((40, (0, refl)), tt)), omega arith)

perform_all-IsBalanced_example : IsBalanced whole (perform_all whole calls (empty_store whole))
perform_all-IsBalanced_example =
    perform_all-IsBalanced whole 0 calls (empty_store whole) (empty-IsBalanced whole) room

perform_all-IsFunded_example : IsFunded whole (perform_all whole calls (empty_store whole))
perform_all-IsFunded_example =
    perform_all-IsFunded whole 0 calls (empty_store whole) (omega arith) (empty-IsBalanced whole)
      (tt, tt) room

-- A row of 10 that is committed, and one of 30 that is held.
abbrev hold : ℕ → ℤ → Reservation ℤ
hold id amount = record {
  id = id;
  company_id = 1;
  agent_id = some 7;
  execution_request_id = none;
  financial_account_id = 0;
  amount = amount;
  asset = "USDC";
  status = reserved;
  committed_at = none;
  released_at = none;
}

abbrev one_hold : Store ℤ
one_hold = record {
  accounts =
      record {
        id = 0;
        company_id = 1;
        agent_id = some 7;
        scope = agent;
        scope_key = "7";
        asset = "USDC";
        network = none;
        current_reserved = pos 30;
        current_committed = pos 0;
        limit_amount = none;
      }
      ∷ [];
  reservations = hold 1 (pos 30) ∷ [];
  next_id = 2;
}

once : IsShort 0 (pos 0 +ℤ pos 30)
unfolding ◌+ℤ◌
once = ((30, (0, refl)), (omega arith, omega arith))

twice : IsShort 0 (pos 0 +ℤ pos 30 +ℤ pos 30)
unfolding ◌+ℤ◌
twice = ((60, (0, refl)), (omega arith, omega arith))

both_commit_doubles_example :
    (x : Account ℤ) × (account_row (both_commit whole 5 6 (hold 1 (pos 30)) one_hold) 0 ≡ some x)
    × (x.current_committed ≡ pos 0 +ℤ pos 30 +ℤ pos 30)
both_commit_doubles_example =
    both_commit_doubles whole 5 6 (hold 1 (pos 30)) one_hold _ refl refl 0 once twice

reserved_once : Store ℤ
reserved_once = perform_all whole (reserve_call bucket none "60" ∷ []) (empty_store whole)

reserved_once_row : find_first (has_id 1) reserved_once.reservations ≡ some (hold 1 (pos 60))
unfolding reserved_once perform_all reserve ◌+ℤ◌
reserved_once_row = refl

reservation_history_example :
    (c : Continues whole 1
      (hold 1 (pos 60))
      (perform_all whole (commit_call 5 1 1 ∷ release_call 6 1 1 ∷ []) reserved_once))
    × ((is_open reserved ≡ true) ⊎ (c.row.status ≡ reserved))
reservation_history_example =
    reservation_history whole (commit_call 5 1 1 ∷ release_call 6 1 1 ∷ []) reserved_once 1
      (hold 1 (pos 60))
      (unfold reserved_once in
        perform_all-IsKeyed whole (reserve_call bucket none "60" ∷ []) (empty_store whole)
          (empty-IsKeyed whole))
      reserved_once_row
