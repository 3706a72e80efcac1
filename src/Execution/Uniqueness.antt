-- ===== src/Execution/Uniqueness.antt =====
-- One execution request for a logical execution, however often it is revalidated.
use orvex.Prelude.{
  ℕ, suc, ◌+◌, ◌≤◌, String, Bool, false, ◌&&◌, ◌==◌, none, some, List, [], ◌∷◌, ◌++◌, ◌≡◌, refl,
  ◌∙◌, ap, ◌⊎◌, inl, inr, arith, Bool-cases, Option-cases, text_eq, text_eq_iff, if◌then◌else◌,
}
use mathlib.Core.Path.{subst}
use orvex.Runtime.{Decimals, Host}
use orvex.Outcome.{Failure, Result, ok, err}
use orvex.Table.{find_first}
use orvex.Financial.Store.{Reservation}
use orvex.Idempotency.Service.{RegisterResult, register, Store as IdempotencyStore}
use orvex.Execution.Store.{World, ExecutionRequest}
use orvex.Execution.Context.{RevalidateInput, Hashes, PolicyFacts}
use orvex.Execution.Derivation.{the_payload_hash, fresh_hash}
use orvex.Execution.Revalidation.{
  operation_key, operation, reuse, is_same_execution, catch_over_budget, try_reserve, new_request,
  mint, reserve_and_mint, authorize, revalidate,
}
use orvex.Execution.Authorization.{Result-cases, is_allowed, allow_rests_on_now}

abbrev pub has_key : ℕ → String → ExecutionRequest → Bool
has_key company key r = r.company_id == company && text_eq r.idempotency_key key

-- How many requests of a company have a key.
abbrev pub count_key : ℕ → String → List ExecutionRequest → ℕ
count_key company key [] = 0
count_key company key (r ∷ rs) =
    let rest = count_key company key rs in if has_key company key r then suc rest else rest

catch-state : {S A : Type 0} (x : Result A × S) → (catch_over_budget x).1 ≡ x.1
catch-state (ok a, s) = refl
catch-state (err e, s) = ground arith

count_key-append :
    (company : ℕ) (key : String) (rs : List ExecutionRequest) (q : ExecutionRequest)
    → count_key company key (rs ++ q ∷ [])
      ≡ count_key company key rs + (if has_key company key q then 1 else 0)
count_key-append company key [] q = ground arith
count_key-append company key (r ∷ rs) q = ground (arith, count_key-append company key rs q)

count_key-none :
    (company : ℕ) (key : String) (rs : List ExecutionRequest)
    → find_first (has_key company key) rs ≡ none
    → count_key company key rs ≡ 0
count_key-none company key [] h = refl
count_key-none company key (r ∷ rs) h = ground (arith, count_key-none company key rs)

-- No company has two requests of one key.
abbrev pub IsUnique : List ExecutionRequest → Type 0
IsUnique rs = (company : ℕ) (key : String) → count_key company key rs ≤ 1

append-IsUnique :
    (rs : List ExecutionRequest) (q : ExecutionRequest)
    → find_first (has_key q.company_id q.idempotency_key) rs ≡ none
    → IsUnique rs
    → IsUnique (rs ++ q ∷ [])
append-IsUnique rs q new u company key = elim (Bool-cases (has_key company key q)) [
  | inr other ↦ rw (count_key-append company key rs q, other) (omega (arith, u company key))
  | inl own ↦
      let same_company : q.company_id ≡ company = ground (arith, own) in
      let same_key : q.idempotency_key ≡ key =
        (text_eq_iff q.idempotency_key key).0 (ground (arith, own)) in
      let none_yet : count_key company key rs ≡ 0 =
        subst (λ c. count_key c key rs ≡ 0) same_company
          (subst (λ k. count_key q.company_id k rs ≡ 0) same_key
            (count_key-none q.company_id q.idempotency_key rs new)) in
      rw (count_key-append company key rs q, own, none_yet) (omega arith)
]

module _ (api : Decimals) (host : Host) (hashes : Hashes) where
  open api use {Decimal}

  module _ (input : RevalidateInput) (now : ℕ) (facts : PolicyFacts) (fresh : String) where
    -- No request, or the request of this execution is added.
    abbrev Adds : List ExecutionRequest → List ExecutionRequest → Type 0
    Adds rs rs' =
        (rs' ≡ rs)
        ⊎ ((q : ExecutionRequest) × ((q.company_id ≡ input.company_id)
              × ((q.idempotency_key ≡ the_payload_hash api host hashes input now)
                  × (rs' ≡ rs ++ q ∷ []))))

    try_reserve-requests :
        (w : World Decimal) → (try_reserve api host hashes input now w).1.requests ≡ w.requests
    unfolding try_reserve
    try_reserve-requests w = ap World.requests (catch-state _)

    mint-requests :
        (r : Reservation Decimal) (w : World Decimal)
        → (mint api host hashes input now facts fresh r w).1.requests
          ≡ w.requests ++ new_request api host hashes input now facts fresh w.next_id ∷ []
    unfolding mint
    mint-requests r w = refl

    reserve_and_mint_held :
        (w : World Decimal) (r : Reservation Decimal)
        → (try_reserve api host hashes input now w).0 ≡ ok (some r)
        → reserve_and_mint api host hashes input now facts fresh w
          ≡ mint api host hashes input now facts fresh r (try_reserve api host hashes input now w).1
    unfolding reserve_and_mint
    reserve_and_mint_held w r e = ground (arith, e)

    reserve_and_mint-Adds :
        (w : World Decimal)
        → Adds w.requests (reserve_and_mint api host hashes input now facts fresh w).1.requests
    unfolding reserve_and_mint
    reserve_and_mint-Adds w =
        let keeps = try_reserve-requests w in
        elim (Result-cases (try_reserve api host hashes input now w).0) [
          | inl (e, bad) ↦ inl (ground (arith, bad, keeps))
          | inr (held, good) ↦ elim (Option-cases held) [
            | inl full ↦ inl (ground (arith, good, full, keeps))
            | inr (r, there) ↦ inr (
              new_request api host hashes input now facts fresh
                  (try_reserve api host hashes input now w).1.next_id,
              (
                refl,
                (
                  refl,
                  ap (λ x. x.1.requests) (reserve_and_mint_held w r (good ∙ ap ok there))
                      ∙ mint-requests r (try_reserve api host hashes input now w).1
                      ∙ ap
                          (λ rs.
                            rs
                            ++ new_request api host hashes input now facts fresh
                                (try_reserve api host hashes input now w).1.next_id
                              ∷ [])
                          keeps,
                ),
              ),
            )
          ]
        ]

    abbrev answer : World Decimal → Result RegisterResult × IdempotencyStore
    answer w =
        register (Hashes.operation_hash hashes) (operation_key api host hashes input now)
          (operation api host hashes input now) w.idempotency

    abbrev noted : World Decimal → World Decimal
    noted w = record w { idempotency = (answer w).1 }

    authorize_refused :
        (w : World Decimal) (e : Failure)
        → (answer w).0 ≡ err e
        → authorize api host hashes input now facts fresh w ≡ (err e, noted w)
    unfolding authorize
    authorize_refused w e h = ground (arith, h)

    module _ (w : World Decimal) (a : RegisterResult) (h : (answer w).0 ≡ ok a) where
      authorize_again :
          (q : ExecutionRequest)
          → find_first (is_same_execution api host hashes input now) w.requests ≡ some q
          → authorize api host hashes input now facts fresh w
            ≡ (ok (reuse api host hashes input now q), noted w)
      unfolding authorize
      authorize_again q e = ground (arith, h, e)

      authorize_new :
          find_first (is_same_execution api host hashes input now) w.requests ≡ none
          → authorize api host hashes input now facts fresh w
            ≡ reserve_and_mint api host hashes input now facts fresh (noted w)
      unfolding authorize
      authorize_new e = ground (arith, h, e)

    -- A request is added only where the company has none of its key.
    authorize-keeps :
        (w : World Decimal)
        → IsUnique w.requests
        → IsUnique (authorize api host hashes input now facts fresh w).1.requests
    authorize-keeps w u = elim (Result-cases (answer w).0) [
      | inl (e, bad) ↦ rw (authorize_refused w e bad) u
      | inr (a, good) ↦
          elim (Option-cases
            (find_first (is_same_execution api host hashes input now) w.requests)) [
              | inr (q, again) ↦ rw (authorize_again w a good q again) u
              | inl new ↦ elim (reserve_and_mint-Adds (noted w)) [
                | inl same ↦ rw (authorize_new w a good new, same) u
                | inr (q, (c, (k, added))) ↦
                    rw (authorize_new w a good new, added)
                      (append-IsUnique w.requests q (rw (c, k) new) u)
              ]
            ]
    ]

  revalidate-keeps :
      (input : RevalidateInput) (now : ℕ) (w : World Decimal)
      → IsUnique w.requests
      → IsUnique (revalidate api host hashes input now w).1.requests
  revalidate-keeps input now w u = elim (allow_rests_on_now api host hashes input now w) [
    | inl (same, refused) ↦ rw same u
    | inr (facts, (read, (granted, (current, e)))) ↦
        rw e (authorize-keeps input now facts (fresh_hash api host hashes input now facts w) w u)
  ]

  unfoldable pub revalidate_all : List (RevalidateInput × ℕ) → World Decimal → World Decimal
  revalidate_all [] w = w
  revalidate_all ((input, now) ∷ cs) w =
      revalidate_all cs (revalidate api host hashes input now w).1

  -- After any sequence of revalidations, of the same or of other executions, on a database where
  -- no company has two execution requests of one idempotency key (one without requests is such a
  -- database): no company has two.
  pub one_request_per_key :
      (cs : List (RevalidateInput × ℕ)) (w : World Decimal)
      → IsUnique w.requests
      → IsUnique (revalidate_all cs w).requests
  unfolding revalidate_all
  one_request_per_key [] w u = u
  one_request_per_key ((input, now) ∷ cs) w u =
      one_request_per_key cs (revalidate api host hashes input now w).1
        (revalidate-keeps input now w u)

  -- A revalidation of an execution that has a request answers ALLOW with that request or throws,
  -- where the current rows authorize it, and otherwise answers no ALLOW; the accounts, the
  -- reservations and the requests stay as they are.
  pub reuse_reserves_nothing :
      (input : RevalidateInput) (now : ℕ) (w : World Decimal) (q : ExecutionRequest)
      → find_first (is_same_execution api host hashes input now) w.requests ≡ some q
      → let out = revalidate api host hashes input now w in
        (((is_allowed out.0 ≡ false) ⊎ (out.0 ≡ ok (reuse api host hashes input now q)))
          × ((out.1.financial ≡ w.financial) × (out.1.requests ≡ w.requests)))
  reuse_reserves_nothing input now w q again =
      elim (allow_rests_on_now api host hashes input now w) [
        | inl (same, refused) ↦ (inl refused, (ap World.financial same, ap World.requests same))
        | inr (facts, (read, (granted, (current, e)))) ↦
            let fresh = fresh_hash api host hashes input now facts w in
            elim (Result-cases (answer input now facts fresh w).0) [
              | inl (f, bad) ↦
                  rw (e, authorize_refused input now facts fresh w f bad) (inl refl, (refl, refl))
              | inr (a, good) ↦
                  rw (e, authorize_again input now facts fresh w a good q again)
                    (inr refl, (refl, refl))
            ]
      ]
