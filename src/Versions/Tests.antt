-- ===== src/Versions/Tests.antt =====
-- Two versions of one policy; the second one supersedes the first.
use orvex.Prelude.{String, none, some, List, [], ◌∷◌, ◌≡◌, refl, map, arith, text_eq}
use orvex.Policy.Rules.{validate_compiled_rules}
use orvex.Versions.Store.{active, superseded, VersionRow, Store, DraftInput, may_become}
use orvex.Versions.Service.{create_draft, transition, approve, activate}
use orvex.Versions.Activation.{IsVersioned}
use orvex.Versions.Calls.{
  Call, create_call, validate_call, simulate_call, approve_call, activate_call, perform,
  perform_all, perform_all-IsVersioned,
}

abbrev same_text : String → String
same_text s = s

abbrev start : Store
start = record { companies = 1 ∷ []; policies = []; versions = []; rule_rows = []; next_id = 0 }

start-IsVersioned : IsVersioned start
start-IsVersioned = record { below = tt; distinct = tt; at_most_one = λ k. omega arith }

abbrev input : DraftInput
input = record { company_id = 1; agent_id = none; name = some "limits"; rules = [] }

abbrev calls : List Call
calls =
    create_call input
    ∷ create_call input
    ∷ validate_call 1 1
    ∷ simulate_call 1 1
    ∷ approve_call 1 1 none
    ∷ activate_call 1 1 5
    ∷ validate_call 1 2
    ∷ simulate_call 1 2
    ∷ approve_call 1 2 (some "ann")
    ∷ activate_call 1 2 6
    ∷ []

statuses :
    map VersionRow.status (perform_all same_text calls start).versions ≡ superseded ∷ active ∷ []
unfolding perform_all perform create_draft validate_compiled_rules transition approve activate
    may_become text_eq
statuses = refl

perform_all-IsVersioned_example : IsVersioned (perform_all same_text calls start)
perform_all-IsVersioned_example = perform_all-IsVersioned same_text calls start start-IsVersioned
