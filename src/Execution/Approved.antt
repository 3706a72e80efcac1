-- ===== src/Execution/Approved.antt =====
-- A revalidation with an approval compares the context hash with a hash of itself.
use orvex.Prelude.{
  ℕ, String, Bool, false, not, ◌&&◌, ◌||◌, none, some, ◌≡◌, ◌≢◌, sym, ap, inl, inr, arith,
  Bool-cases, text_eq, text_eq_iff, is_some, if◌then◌else◌,
}
use orvex.Runtime.{Decimals, Host}
use orvex.Decision.Safety.{IsAuthorized}
use orvex.Execution.Store.{World}
use orvex.Execution.Context.{RevalidateInput, HashContext, Hashes, PolicyFacts}
use orvex.Execution.Derivation.{decision_input, fresh_hash, is_stale}
use orvex.Execution.Revalidation.{revalidate}
use orvex.Execution.Authorization.{is_allowed, allow_rests_on_now}

module _ (api : Decimals) (host : Host) (hashes : Hashes) (input : RevalidateInput) (now : ℕ)
    (w : World (Decimals.Decimal api)) where
  open hashes use {context_hash}

  fresh_of_Authorized :
      (facts : PolicyFacts)
      → IsAuthorized (decision_input api host hashes input now facts w)
      → is_stale api host hashes input now facts w ≡ false
  unfolding decision_input
  fresh_of_Authorized facts a = a.context_fresh

  fresh_or_empty :
      (old : Bool) (h fresh : String)
      → (old || (not (text_eq h "") && not (text_eq h fresh))) ≡ false
      → h ≢ ""
      → h ≡ fresh
  fresh_or_empty old h fresh e n = elim (Bool-cases (text_eq h "")) [
    | inl empty ↦ absurd (n ((text_eq_iff h "").0 empty))
    | inr given ↦ (text_eq_iff h fresh).0 (ground (arith, e, given))
  ]

  -- With an approval and a captured context hash that is not empty, where no context that carries
  -- this hash as its approval hash has it as its own hash, `revalidate` writes nothing and never
  -- answers ALLOW.
  pub approval_never_allowed :
      (i : ℕ)
      → input.approval_id ≡ some i
      → input.decision_context_hash ≢ ""
      → ((c : HashContext)
          → c.approval_context_hash ≡ some input.decision_context_hash
          → context_hash c ≢ input.decision_context_hash)
      → ((revalidate api host hashes input now w).1 ≡ w)
        × (is_allowed (revalidate api host hashes input now w).0 ≡ false)
  approval_never_allowed i given filled no_fixpoint =
      elim (allow_rests_on_now api host hashes input now w) [
        | inl refused ↦ refused
        | inr (facts, (read, (a, (current, e)))) ↦
            let same =
              fresh_or_empty _ input.decision_context_hash
                (fresh_hash api host hashes input now facts w) (fresh_of_Authorized facts a)
                filled in
            absurd (
              no_fixpoint _
                (ap (λ o. if is_some o then some input.decision_context_hash else none) given)
                (sym same))
      ]
