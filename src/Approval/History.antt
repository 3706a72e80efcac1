-- ===== src/Approval/History.antt =====
-- A request over any history of calls: its terms stay, and its status changes once.
use mathlib.Core.Path.{subst}
use native.Mathlib.Decide.{ℕ_discrete}
use orvex.Prelude.{
  ℕ, true, some, List, [], ◌∷◌, ◌≡◌, refl, inl, inr, ◌⊎◌, arith, sym, ap, ◌∙◌, Bool-cases,
}
use orvex.Table.{
  find_first, find_first-append_some, find_first-update_self, update_all, update_first,
}
use orvex.Table.Keys.{find-update_ne, find-update_all}
use orvex.Approval.Service.{
  RequestStatus, ApprovalRequest, Store, has_id, set_status, new_request, is_pending, is_stale,
  expire,
}
use orvex.Approval.Induction.{Call, perform_all, Kept, perform_all-keeps}
use orvex.Approval.Answers.{IsAnswered}
use orvex.Approval.Evidence.{
  Answered-Kept, approval_answers, denial_answers, found_by_id, pending_of_stale,
}

-- What remains of the request `r`, with the id `i`, in a later store.
pub record Continues (i : ℕ) (r : ApprovalRequest) (s : Store) : Type 0 where
  pub row : ApprovalRequest
  pub there : find_first (has_id i) s.requests ≡ some row
  pub same_terms : row ≡ record r { status = row.status }
  pub settled_once : (is_pending r.status ≡ true) ⊎ (row.status ≡ r.status)

module _ (i : ℕ) (r : ApprovalRequest) where
  abbrev Follows : Store → Type 0
  Follows s = IsAnswered s × Continues i r s

  waits :
      (row : ApprovalRequest)
      → (is_pending r.status ≡ true) ⊎ (row.status ≡ r.status)
      → is_pending row.status ≡ true
      → is_pending r.status ≡ true
  waits row (inl p) q = p
  waits row (inr e) q = ap is_pending (sym e) ∙ q

  -- The status of a request that waits is written.
  set-Continues :
      (st : RequestStatus) (res : ApprovalRequest) (s : Store)
      → find_first (has_id res.id) s.requests ≡ some res
      → is_pending res.status ≡ true
      → Continues i r s
      → Continues i r (set_status res.id st s)
  set-Continues st res s found p c = elim (ℕ_discrete res.id i) [
    | yes same ↦
        let at_i : find_first (has_id i) s.requests ≡ some res =
          subst (λ k. find_first (has_id k) s.requests ≡ some res) same found in
        let it : c.row ≡ res = cc (c.there, at_i) in
        let f = λ (x : ApprovalRequest). record x { status = st } in
        record {
          row = f res;
          there =
              subst
                (λ k.
                  find_first (has_id k) (update_first (has_id res.id) f s.requests) ≡ some (f res))
                same
                (find_first-update_self (has_id res.id) f s.requests {r = res} (ground arith)
                  found);
          same_terms = subst (λ x. f x ≡ record r { status = st }) it (ap f c.same_terms);
          settled_once =
              inl (
                waits c.row c.settled_once
                  (ap (λ x. is_pending (ApprovalRequest.status x)) it ∙ p));
        }
    | no other ↦ record {
      row = c.row;
      there =
          find-update_ne ApprovalRequest.id res.id i (λ x. record x { status = st }) (λ x. refl)
            s.requests other
          ∙ c.there;
      same_terms = c.same_terms;
      settled_once = c.settled_once;
    }
  ]

  expire-Continues :
      (company now : ℕ) (s : Store)
      → Continues i r s
      → Continues i r (record s { requests = update_all (is_stale company now) expire s.requests })
  expire-Continues company now s c =
      let there =
        find-update_all ApprovalRequest.id i expire (λ x. refl) (is_stale company now) s.requests
          {r = c.row} c.there in
      elim (Bool-cases (is_stale company now c.row)) [
        | inl e ↦ record {
          row = expire c.row;
          there = rw e at there;
          same_terms = ap expire c.same_terms;
          settled_once = inl (waits c.row c.settled_once (pending_of_stale company now c.row e));
        }
        | inr n ↦ record {
          row = c.row;
          there = rw n at there;
          same_terms = c.same_terms;
          settled_once = c.settled_once;
        }
      ]

  Follows-Kept : Kept Follows
  Follows-Kept = record {
    on_create = λ input s b. (
      k.on_create input s b.0,
      record {
        row = b.1.row;
        there =
            find_first-append_some (has_id i) s.requests (new_request input s.next_id ∷ [])
              {r = b.1.row} b.1.there;
        same_terms = b.1.same_terms;
        settled_once = b.1.settled_once;
      },
    );
    on_approve = λ company j a now hash s res found h b.
        let c =
          set-Continues RequestStatus.approved res s (found_by_id company j s res b.0 found)
            (approval_answers res a now hash h).1 b.1 in
        (
          k.on_approve company j a now hash s res found h b.0,
          record {
            row = c.row;
            there = c.there;
            same_terms = c.same_terms;
            settled_once = c.settled_once;
          },
        );
    on_deny = λ company j a now s res found h b.
        let c =
          set-Continues RequestStatus.denied res s (found_by_id company j s res b.0 found)
            (denial_answers res a now h).1 b.1 in
        (
          k.on_deny company j a now s res found h b.0,
          record {
            row = c.row;
            there = c.there;
            same_terms = c.same_terms;
            settled_once = c.settled_once;
          },
        );
    on_close = λ company j st s res found p e b. (
      k.on_close company j st s res found p e b.0,
      set-Continues st res s (found_by_id company j s res b.0 found) p b.1,
    );
    on_expire =
        λ company now s b. (k.on_expire company now s b.0, expire-Continues company now s b.1);
  }
    where
      k : Kept IsAnswered
      k = Answered-Kept

  pub whole :
      (row : ApprovalRequest)
      → row ≡ record r { status = row.status }
      → (is_pending r.status ≡ true) ⊎ (row.status ≡ r.status)
      → (is_pending r.status ≡ true) ⊎ (row ≡ r)
  whole row t (inl p) = inl p
  whole row t (inr e) = inr (t ∙ ap (λ st. record r { status = st }) e)

-- From a store whose requests are answered by their results, after any calls in any order: a
-- request is still there under its id, and differs from what it was at most in its status.
-- If it was not PENDING, it is the same row: a terminal status is never left.
pub request_history :
    (cs : List Call) (s : Store) (i : ℕ) (r : ApprovalRequest)
    → IsAnswered s
    → find_first (has_id i) s.requests ≡ some r
    → (row : ApprovalRequest) × ((find_first (has_id i) (perform_all cs s).requests ≡ some row)
        × ((row ≡ record r { status = row.status }) × ((is_pending r.status ≡ true) ⊎ (row ≡ r))))
request_history cs s i r b found =
    let later =
      perform_all-keeps (Follows-Kept i r) cs s
        (b, record { row = r; there = found; same_terms = refl; settled_once = inr refl }) in
    (
      later.1.row,
      (
        later.1.there,
        (later.1.same_terms, whole i r later.1.row later.1.same_terms later.1.settled_once),
      ),
    )
