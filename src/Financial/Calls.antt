-- ===== src/Financial/Calls.antt =====
-- The service as its clients drive it: a call of any method, at any time, and a history of calls
-- over a database that starts empty.
use orvex.Prelude.{ℕ, String, Option, List, [], ◌∷◌}
use orvex.Runtime.{Decimals}
use orvex.Financial.Store.{Store, AccountKey}
use orvex.Financial.Service.{
  ensure_account, reserve, commit, release, reconcile_release, mark_unknown,
}

module _ (api : Decimals) where
  open api use {Decimal}

  -- `now` stands for `new Date()`, then the company and the reservation.
  pub data Call : Type 0 where
    ensure_account_call : AccountKey → Option Decimal → Call
    reserve_call : AccountKey → Option ℕ → String → Call
    commit_call release_call reconcile_call : ℕ → ℕ → ℕ → Call
    mark_unknown_call : ℕ → ℕ → Call

  unfoldable pub perform : Call → Store Decimal → Store Decimal
  perform (ensure_account_call key limit) s = (ensure_account api key limit s).1
  perform (reserve_call key execution amount) s = (reserve api key execution amount s).1
  perform (commit_call now company id) s = (commit api now company id s).1
  perform (release_call now company id) s = (release api now company id s).1
  perform (reconcile_call now company id) s = (reconcile_release api now company id s).1
  perform (mark_unknown_call company id) s = (mark_unknown api company id s).1

  unfoldable pub perform_all : List Call → Store Decimal → Store Decimal
  unfolding perform
  perform_all [] s = s
  perform_all (c ∷ cs) s = perform_all cs (perform c s)

  abbrev pub empty_store : Store Decimal
  empty_store = record { accounts = []; reservations = []; next_id = 0 }
