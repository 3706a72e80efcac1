-- ===== src/Idempotency/History.antt =====
-- A key is registered once, whatever the calls and however two registrations overlap.
use orvex.Prelude.{
  ℕ, String, Bool, true, false, Option, none, some, List, [], ◌∷◌, ◌++◌, ◌≡◌, refl, text_eq,
  text_eq_iff, arith, Bool-cases, Option-cases, inl, inr, ◌∙◌, ap,
}
use orvex.Errors.{idempotency_conflict}
use orvex.Outcome.{ok, err, core}
use orvex.Table.{find_first, update_first, find_first-append_some, find_first-append_none}
use orvex.Idempotency.Service.{
  completed, failed, IdempotencyRecord, Store, OperationKey, replay, has_key, has_id, new_record,
  add_record, register_insert, register, update_record, complete, fail,
}

-- A write to one record leaves the key and the hash of every record.
find-update :
    (key : OperationKey) (p : IdempotencyRecord → Bool) (f : IdempotencyRecord → IdempotencyRecord)
    → ((x : IdempotencyRecord) → has_key key (f x) ≡ has_key key x)
    → ((x : IdempotencyRecord) → (f x).id ≡ x.id)
    → ((x : IdempotencyRecord) → (f x).request_hash ≡ x.request_hash)
    → (xs : List IdempotencyRecord) (r : IdempotencyRecord) → find_first (has_key key) xs ≡ some r
    → (row : IdempotencyRecord) × ((find_first (has_key key) (update_first p f xs) ≡ some row)
        × ((row.id ≡ r.id) × (row.request_hash ≡ r.request_hash)))
find-update key p f k i h [] r e = absurd (ground (arith, e))
find-update key p f k i h (x ∷ xs) r e = elim (Bool-cases (p x)) [
  | inl hit ↦ elim (Bool-cases (has_key key x)) [
    | inl own ↦
        let it : x ≡ r = cc (e, own) in
        rw hit (
          f x,
          (
            rw (k x ∙ own),
            (i x ∙ ap IdempotencyRecord.id it, h x ∙ ap IdempotencyRecord.request_hash it),
          ),
        )
    | inr other ↦
        let rest : find_first (has_key key) xs ≡ some r = cc (e, other) in
        rw hit (r, (rw (k x ∙ other) rest, (refl, refl)))
  ]
  | inr miss ↦ elim (Bool-cases (has_key key x)) [
    | inl own ↦
        let it : x ≡ r = cc (e, own) in
        rw (miss, own)
          (x, (refl, (ap IdempotencyRecord.id it, ap IdempotencyRecord.request_hash it)))
    | inr other ↦ rw (miss, other) (find-update key p f k i h xs r (cc (e, other)))
  ]
]

pub data Call (Request : Type 0) : Type 0 where
  register_call : OperationKey → Request → Call Request
  -- the insert of a client that found no record before
  insert_call : OperationKey → Request → Call Request
  complete_call : ℕ → Option String → Call Request
  fail_call : ℕ → Call Request

module _ {Request : Type 0} (sha256_json : Request → String) where
  unfoldable pub perform : Call Request → Store → Store
  perform (register_call key request) s = (register sha256_json key request s).1
  perform (insert_call key request) s = (register_insert sha256_json key request s).1
  perform (complete_call i response) s = (complete i response s).1
  perform (fail_call i) s = (fail i s).1

  unfoldable pub perform_all : List (Call Request) → Store → Store
  unfolding perform
  perform_all [] s = s
  perform_all (c ∷ cs) s = perform_all cs (perform c s)

  -- The record of the key, by its id and the hash of its request.
  pub record IsRegistered (key : OperationKey) (id : ℕ) (hash : String) (s : Store) : Type 0 where
    pub row : IdempotencyRecord
    pub there : find_first (has_key key) s.records ≡ some row
    pub same_id : row.id ≡ id
    pub same_hash : row.request_hash ≡ hash

  module _ (key : OperationKey) (id : ℕ) (hash : String) where
    abbrev Has : Store → Type 0
    Has = IsRegistered key id hash

    add-keeps : (r : IdempotencyRecord) (s : Store) → Has s → Has (add_record r s)
    add-keeps r s b = record {
      row = b.row;
      there = find_first-append_some (has_key key) s.records (r ∷ []) {r = b.row} b.there;
      same_id = b.same_id;
      same_hash = b.same_hash;
    }

    insert-keeps :
        (k : OperationKey) (request : Request) (s : Store)
        → Has s
        → Has (register_insert sha256_json k request s).1
    unfolding register_insert
    insert-keeps k request s b = elim (Option-cases (find_first (has_key k) s.records)) [
      | inl new ↦
          rw (new, register_insert) (add-keeps (new_record k (sha256_json request) s.next_id) s b)
      | inr (r, old) ↦ rw (old, register_insert) b
    ]

    register-keeps :
        (k : OperationKey) (request : Request) (s : Store)
        → Has s
        → Has (register sha256_json k request s).1
    unfolding register
    register-keeps k request s b = elim (Option-cases (find_first (has_key k) s.records)) [
      | inl new ↦ rw (new, register) (insert-keeps k request s b)
      | inr (r, old) ↦ rw (old, register) b
    ]

    update-keeps :
        (i : ℕ) (f : IdempotencyRecord → IdempotencyRecord)
        → ((x : IdempotencyRecord) → has_key key (f x) ≡ has_key key x)
        → ((x : IdempotencyRecord) → (f x).id ≡ x.id)
        → ((x : IdempotencyRecord) → (f x).request_hash ≡ x.request_hash)
        → (s : Store) → Has s
        → Has (update_record i f s).1
    update-keeps i f k d h s b = elim (Option-cases (find_first (has_id i) s.records)) [
      | inl gone ↦ rw (gone, update_record) b
      | inr (r, found) ↦
          let (row, (there, (same, hashed))) =
            find-update key (has_id i) f k d h s.records b.row b.there in
          rw (found, update_record)
            (record {
              row = row;
              there = there;
              same_id = same ∙ b.same_id;
              same_hash = hashed ∙ b.same_hash;
            })
    ]

    perform-keeps : (c : Call Request) (s : Store) → Has s → Has (perform c s)
    unfolding perform complete fail
    perform-keeps (register_call k request) s b = register-keeps k request s b
    perform-keeps (insert_call k request) s b = insert-keeps k request s b
    perform-keeps (complete_call i response) s b =
        update-keeps i (λ r. record r { status = completed; response = response }) (λ x. refl)
          (λ x. refl) (λ x. refl) s b
    perform-keeps (fail_call i) s b =
        update-keeps i (λ r. record r { status = failed }) (λ x. refl) (λ x. refl) (λ x. refl) s b

    perform_all-keeps : (cs : List (Call Request)) (s : Store) → Has s → Has (perform_all cs s)
    unfolding perform_all
    perform_all-keeps [] s b = b
    perform_all-keeps (c ∷ cs) s b = perform_all-keeps cs (perform c s) (perform-keeps c s b)

  own_key :
      (key : OperationKey) (hash : String) (i : ℕ) → has_key key (new_record key hash i) ≡ true
  own_key key hash i = ground (
    arith,
    (text_eq_iff key.operation_type key.operation_type).1 refl,
    (text_eq_iff key.idempotency_key key.idempotency_key).1 refl,
  )

  find-append_own :
      (key : OperationKey) (xs : List IdempotencyRecord) (r : IdempotencyRecord)
      → find_first (has_key key) xs ≡ none
      → has_key key r ≡ true
      → find_first (has_key key) (xs ++ r ∷ []) ≡ some r
  find-append_own key xs r e h = find_first-append_none (has_key key) xs (r ∷ []) e ∙ rw h refl

  module _ (cs : List (Call Request)) (s : Store) (key : OperationKey) (request : Request)
      (new : find_first (has_key key) s.records ≡ none) where
    first_registers :
        IsRegistered key s.next_id (sha256_json request) (register sha256_json key request s).1
    unfolding register register_insert
    first_registers =
        let r = new_record key (sha256_json request) s.next_id in
        rw (new, register)
          (rw (new, register_insert)
            (record {
              row = r;
              there =
                  find-append_own key s.records r new (own_key key (sha256_json request) s.next_id);
              same_id = refl;
              same_hash = refl;
            }))

    -- The key is new and a client registers it. After any calls in any order, also inserts of
    -- clients that found no record before, whether the operation was completed or failed: the same
    -- request under the same key is a replay of the record that the first call made, and writes
    -- nothing, both to a client that finds the record and to one that comes to it by its insert.
    pub same_request_replays :
        let s' = perform_all cs (register sha256_json key request s).1 in
        (row : IdempotencyRecord) × ((row.id ≡ s.next_id)
          × ((register sha256_json key request s' ≡ (ok (replay row), s'))
              × (register_insert sha256_json key request s' ≡ (ok (replay row), s'))))
    unfolding register register_insert
    same_request_replays =
        let s' = perform_all cs (register sha256_json key request s).1 in
        let b = perform_all-keeps key s.next_id (sha256_json request) cs _ first_registers in
        let same = (text_eq_iff b.row.request_hash (sha256_json request)).1 b.same_hash in
        (b.row, (b.same_id, (ground (arith, b.there, same), ground (arith, b.there, same))))

    -- In the same situation, a request with another hash under the same key is refused with
    -- IDEMPOTENCY_CONFLICT, and writes nothing.
    pub other_request_conflicts :
        (other : Request)
        → text_eq (sha256_json request) (sha256_json other) ≡ false
        → let s' = perform_all cs (register sha256_json key request s).1 in
          (register sha256_json key other s' ≡ (err (core idempotency_conflict), s'))
          × (register_insert sha256_json key other s' ≡ (err (core idempotency_conflict), s'))
    unfolding register register_insert
    other_request_conflicts other n =
        let b = perform_all-keeps key s.next_id (sha256_json request) cs _ first_registers in
        let differs : text_eq b.row.request_hash (sha256_json other) ≡ false = rw b.same_hash n in
        (ground (arith, b.there, differs), ground (arith, b.there, differs))
