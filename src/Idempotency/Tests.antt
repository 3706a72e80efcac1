-- ===== src/Idempotency/Tests.antt =====
-- One key; a request is the text that stands for its hash.
use orvex.Prelude.{String, none, List, [], ◌∷◌, ◌≡◌, refl, text_eq}
use orvex.Errors.{idempotency_conflict}
use orvex.Outcome.{ok, err, core}
use orvex.Idempotency.Service.{
  IdempotencyRecord, Store, OperationKey, replay, register, register_insert,
}
use orvex.Idempotency.History.{
  Call, register_call, insert_call, complete_call, fail_call, perform_all, same_request_replays,
  other_request_conflicts,
}

abbrev hash : String → String
hash request = request

abbrev empty : Store
empty = record { records = []; next_id = 0 }

abbrev key : OperationKey
key = record { company_id = 1; operation_type = "execute"; idempotency_key = "k" }

abbrev calls : List (Call String)
calls =
    insert_call key "pay 5" ∷ fail_call 0 ∷ register_call key "pay 6" ∷ complete_call 0 none ∷ []

same_request_replays_example :
    (row : IdempotencyRecord) × ((row.id ≡ 0)
      × ((register hash key "pay 5" (perform_all hash calls (register hash key "pay 5" empty).1)
            ≡ (ok (replay row), perform_all hash calls (register hash key "pay 5" empty).1))
          × (register_insert hash key "pay 5"
                (perform_all hash calls (register hash key "pay 5" empty).1)
              ≡ (ok (replay row), perform_all hash calls (register hash key "pay 5" empty).1))))
same_request_replays_example = same_request_replays hash calls empty key "pay 5" refl

other_request_conflicts_example :
    (register hash key "pay 6" (perform_all hash calls (register hash key "pay 5" empty).1) ≡ (
      err (core idempotency_conflict),
      perform_all hash calls (register hash key "pay 5" empty).1,
    ))
    × (register_insert hash key "pay 6" (perform_all hash calls (register hash key "pay 5" empty).1)
        ≡ (
          err (core idempotency_conflict),
          perform_all hash calls (register hash key "pay 5" empty).1,
        ))
other_request_conflicts_example =
    other_request_conflicts hash calls empty key "pay 5" refl "pay 6" (unfold text_eq in refl)
