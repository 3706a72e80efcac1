-- ===== src/Idempotency/Service.antt =====
-- The methods of `IdempotencyService`.
use orvex.Prelude.{
  ℕ, suc, String, Bool, ◌&&◌, Option, none, some, List, [], ◌∷◌, ◌++◌, ◌==◌, text_eq, if◌then◌else◌,
}
use orvex.Errors.{idempotency_conflict}
use orvex.Outcome.{core, database_error, Result, ok, err, Action}
use orvex.Table.{find_first, update_first}

pub data RecordStatus : Type 0 where
  in_progress completed failed : RecordStatus

pub record IdempotencyRecord : Type 0 where
  pub id : ℕ
  pub company_id : ℕ
  pub idempotency_key : String
  pub operation_type : String
  pub request_hash : String
  pub status : RecordStatus
  pub response : Option String

pub record Store : Type 0 where
  pub records : List IdempotencyRecord
  pub next_id : ℕ

-- The columns of the unique constraint.
pub record OperationKey : Type 0 where
  pub company_id : ℕ
  pub operation_type : String
  pub idempotency_key : String

pub data RegisterResult : Type 0 where
  registered : IdempotencyRecord → RegisterResult
  replay : IdempotencyRecord → RegisterResult

abbrev pub has_key : OperationKey → IdempotencyRecord → Bool
has_key key r =
    r.company_id == key.company_id
    && (text_eq r.operation_type key.operation_type
        && text_eq r.idempotency_key key.idempotency_key)

abbrev pub has_id : ℕ → IdempotencyRecord → Bool
has_id i r = r.id == i

abbrev pub new_record : OperationKey → String → ℕ → IdempotencyRecord
new_record key hash id = record {
  id = id;
  company_id = key.company_id;
  idempotency_key = key.idempotency_key;
  operation_type = key.operation_type;
  request_hash = hash;
  status = in_progress;
  response = none;
}

abbrev pub add_record : IdempotencyRecord → Store → Store
add_record r s = record s { records = s.records ++ r ∷ []; next_id = suc s.next_id }

-- The answer to a key that has a record.
abbrev pub answer_existing : String → IdempotencyRecord → Result RegisterResult
answer_existing hash r =
    if text_eq r.request_hash hash then ok (replay r) else err (core idempotency_conflict)

module _ {Request : Type 0} (sha256_json : Request → String) where
  -- The `try` of `register`, which a client reaches after a query that found no record: the insert,
  -- which the unique constraint refuses if there is one by now, and then the query again.
  unfoldable pub register_insert : OperationKey → Request → Action Store RegisterResult
  register_insert key request s = elim (find_first (has_key key) s.records) [
    | some winner ↦ (answer_existing (sha256_json request) winner, s)
    | none ↦
        let r = new_record key (sha256_json request) s.next_id in
        (ok (registered r), add_record r s)
  ]

  -- `register`, with nothing between its query and its insert.
  unfoldable pub register : OperationKey → Request → Action Store RegisterResult
  unfolding register_insert
  register key request s = elim (find_first (has_key key) s.records) [
    | some existing ↦ (answer_existing (sha256_json request) existing, s)
    | none ↦ register_insert key request s
  ]

-- Prisma's `update` throws where there is no such row.
abbrev pub update_record :
    ℕ → (IdempotencyRecord → IdempotencyRecord) → Action Store IdempotencyRecord
update_record i f s = elim (find_first (has_id i) s.records) [
  | none ↦ (err database_error, s)
  | some r ↦ (ok (f r), record s { records = update_first (has_id i) f s.records })
]

unfoldable pub complete : ℕ → Option String → Action Store IdempotencyRecord
complete i response = update_record i (λ r. record r { status = completed; response = response })

unfoldable pub fail : ℕ → Action Store IdempotencyRecord
fail i = update_record i (λ r. record r { status = failed })
