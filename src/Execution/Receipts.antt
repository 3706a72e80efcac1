-- ===== src/Execution/Receipts.antt =====
-- When a verified receipt commits a reservation.
use orvex.Prelude.{
  ℕ, Bool, true, false, some, ◌≡◌, refl, ◌∙◌, ap, ◌⊎◌, inl, inr, arith, Option-cases, text_eq_iff,
}
use orvex.Runtime.{Decimals}
use orvex.Outcome.{Result, ok, err}
use orvex.Financial.Store.{Reservation}
use orvex.Financial.Service.{commit}
use orvex.Execution.Store.{World, ExecutionRequest, ReceiptValues, Verification, get_request}
use orvex.Execution.Results.{
  Receipt, reserved_for, compare_receipt, none_noted, verification_row, add_verification, finalize,
  verify_and_finalize,
}

abbrev pub is_committed : Result (Verification × Bool) → Bool
is_committed (ok (v, b)) = b
is_committed (err e) = false

abbrev pub is_true : Result Bool → Bool
is_true (ok b) = b
is_true (err e) = false

-- The verification with what its finalization returned.
abbrev pub reported :
    {W : Type 0} → Verification → Result Bool × W → Result (Verification × Bool) × W
reported v (ok b, w) = (ok (v, b), w)
reported v (err e, w) = (err e, w)

module _ (api : Decimals) where
  open api use {Decimal, parse, equals}

  -- The receipt is verified by the executor and says what was authorized.
  pub record Agrees (authorized : ReceiptValues) (receipt : Receipt) : Type 0 where
    pub same_recipient : authorized.recipient ≡ receipt.actual.recipient
    pub same_asset : authorized.asset ≡ receipt.actual.asset
    pub same_network : authorized.network ≡ receipt.actual.network
    pub executor_verified : receipt.verified ≡ true
    pub expected : Decimal
    pub actual : Decimal
    pub expected_amount : parse authorized.amount ≡ some expected
    pub actual_amount : parse receipt.actual.amount ≡ some actual
    pub same_amount : equals expected actual ≡ true

  pub none_noted-Agrees :
      (authorized : ReceiptValues) (receipt : Receipt) (a b : Decimal)
      → parse authorized.amount ≡ some a
      → parse receipt.actual.amount ≡ some b
      → none_noted (compare_receipt authorized receipt (equals a b)) ≡ true
      → Agrees authorized receipt
  none_noted-Agrees authorized receipt a b ea eb h = record {
    same_recipient =
        (text_eq_iff authorized.recipient receipt.actual.recipient).0 (ground (arith, h));
    same_asset = (text_eq_iff authorized.asset receipt.actual.asset).0 (ground (arith, h));
    same_network = (text_eq_iff authorized.network receipt.actual.network).0 (ground (arith, h));
    executor_verified = ground (arith, h);
    expected = a;
    actual = b;
    expected_amount = ea;
    actual_amount = eb;
    same_amount = ground (arith, h);
  }

  module _ (verify : ℕ → Receipt) (now company i : ℕ) (authorized : ReceiptValues)
      (w : World Decimal) where
    abbrev pub row : ExecutionRequest → Decimal → Decimal → Verification
    row request a b =
        verification_row authorized (verify i) (compare_receipt authorized (verify i) (equals a b))
          now request.id

    abbrev pub out : Result (Verification × Bool) × World Decimal
    out = verify_and_finalize api verify now company i authorized w

    -- Nothing is paid: the reservations and accounts stay, and no commit is reported.
    abbrev pub IsUnpaid : Type 0
    IsUnpaid = (is_committed out.0 ≡ false) × (out.1.financial ≡ w.financial)

    pub verify_found :
        (request : ExecutionRequest) (a b : Decimal)
        → get_request company i w ≡ some request
        → parse authorized.amount ≡ some a
        → parse (verify i).actual.amount ≡ some b
        → verify_and_finalize api verify now company i authorized w
          ≡ reported (row request a b) (
              finalize api now company request.id
                (row request a b).verified
                (add_verification api (row request a b) w))
    unfolding verify_and_finalize
    verify_found request a b there ea eb = ground (arith, there, ea, eb)

    pub verify-cases :
        IsUnpaid
        ⊎ ((request : ExecutionRequest) × ((a : Decimal) × ((b : Decimal) × ((get_request company i
                      w
                    ≡ some request)
                  × ((parse authorized.amount ≡ some a)
                      × ((parse (verify i).actual.amount ≡ some b)
                          × (verify_and_finalize api verify now company i authorized w
                              ≡ reported (row request a b) (
                                  finalize api now company request.id
                                    (row request a b).verified
                                    (add_verification api (row request a b) w)))))))))
    unfolding verify_and_finalize
    verify-cases = elim (Option-cases (get_request company i w)) [
      | inl gone ↦ inl (ground (arith, gone))
      | inr (request, there) ↦ elim (Option-cases (parse authorized.amount)) [
        | inl bad ↦ inl (ground (arith, there, bad))
        | inr (a, ea) ↦ elim (Option-cases (parse (verify i).actual.amount)) [
          | inl bad ↦ inl (ground (arith, there, ea, bad))
          | inr (b, eb) ↦
              inr (request, (a, (b, (there, (ea, (eb, verify_found request a b there ea eb))))))
        ]
      ]
    ]

  is_committed-reported :
      {W : Type 0} (v : Verification) (x : Result Bool × W)
      → is_committed (reported v x).0 ≡ is_true x.0
  is_committed-reported v (ok b, w) = refl
  is_committed-reported v (err e, w) = refl

  pub world_reported :
      {W : Type 0} (v : Verification) (x : Result Bool × W) → (reported v x).1 ≡ x.1
  world_reported v (ok b, w) = refl
  world_reported v (err e, w) = refl

  finalize-cases :
      (now company i : ℕ) (verified : Bool) (w : World Decimal)
      → let out = finalize api now company i verified w in
        ((is_true out.0 ≡ false) × (out.1.financial ≡ w.financial))
        ⊎ ((verified ≡ true)
            × ((r : Reservation Decimal) × ((reserved_for api company i w ≡ some r)
                  × (out.1.financial ≡ (commit api now company r.id w.financial).1))))
  unfolding finalize
  finalize-cases now company i false w = inl (refl, refl)
  finalize-cases now company i true w = elim (Option-cases (reserved_for api company i w)) [
    | inl gone ↦ inl (ground (arith, gone))
    | inr (r, there) ↦ inr (refl, (r, (there, ground (arith, there))))
  ]

  -- `verifyAndFinalize` leaves the accounts and the reservations as they are and reports no
  -- commit, or these hold: the company has the request, the receipt agrees with what was
  -- authorized and is verified by the executor, a reservation of the request is RESERVED, and what
  -- happens to the money is `commit` of that reservation.
  pub commit_rests_on_receipt :
      (verify : ℕ → Receipt) (now company i : ℕ) (authorized : ReceiptValues) (w : World Decimal)
      → let out = verify_and_finalize api verify now company i authorized w in
        ((is_committed out.0 ≡ false) × (out.1.financial ≡ w.financial))
        ⊎ ((request : ExecutionRequest) × ((get_request company i w ≡ some request)
              × (Agrees authorized (verify i)
                  × ((r : Reservation Decimal) × ((reserved_for api company request.id w ≡ some r)
                        × (out.1.financial ≡ (commit api now company r.id w.financial).1))))))
  commit_rests_on_receipt verify now company i authorized w =
      elim (verify-cases verify now company i authorized w) [
        | inl unpaid ↦ inl unpaid
        | inr (request, (a, (b, (there, (ea, (eb, e)))))) ↦
            let v =
              verification_row authorized (verify i)
                (compare_receipt authorized (verify i) (equals a b)) now request.id in
            let end = finalize api now company request.id v.verified (add_verification api v w) in
            let world =
              ap (λ x. x.1.financial) e
              ∙ ap (λ (x : World Decimal). x.financial) (world_reported v end) in
            elim (finalize-cases now company request.id v.verified (add_verification api v w)) [
              | inl (f, same) ↦
                  inl (ap (λ x. is_committed x.0) e ∙ is_committed-reported v end ∙ f, world ∙ same)
              | inr (h, (r, (found, paid))) ↦ inr (
                request,
                (
                  there,
                  (none_noted-Agrees authorized (verify i) a b ea eb h, (r, (found, world ∙ paid))),
                ),
              )
            ]
      ]
