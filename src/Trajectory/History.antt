-- ===== src/Trajectory/History.antt =====
-- Over any history of calls, the chain of every trace is intact and ends at the trace's head.
use orvex.Prelude.{
  ℕ, suc, true, ◌&&◌, some, List, [], ◌∷◌, ◌==◌, ◌≡◌, refl, inl, inr, filter, map, any, Bool-cases,
  Option-cases,
}
use mathlib.Core.Path.{subst}
use orvex.Trajectory.Service.{
  Trace, content, Tools, AppendInput, Store, is_event_of, head, genesis_hash, get_trace, get_events,
  create_trace, complete_trace, new_event, append_to, append_event, verify_chain, completed,
}
use orvex.Trajectory.Chain.{
  Ends, Ends-verified, sort-Ends, Ends-content, IsCollisionFree, filter-IsCollisionFree,
}
use orvex.Trajectory.Traces.{IsChained, mark-keeps, add-keeps}
use orvex.Trajectory.Appends.{
  event-keeps, write-cases, settle-state, append_missing, append_found, append_to-cases,
}

module _ {P : Type 0} (tools : Tools P) where
  append-keeps :
      (input : AppendInput P) (s : Store P)
      → IsChained tools s
      → IsChained tools (append_event tools input s).1
  append-keeps input s b = elim (Option-cases (get_trace input.company_id input.trace_id s)) [
    | inl gone ↦ rw (append_missing tools input s gone) b
    | inr (trace, there) ↦ rw (append_found tools input s trace there) (
        settle-state tools (IsChained tools) s (append_to tools input trace s) b
          (elim (append_to-cases tools input trace s) [
            | inl same ↦ rw same b
            | inr (time, (q, e)) ↦
                elim (write-cases tools trace (new_event tools input time (head trace)) s) [
                  | inl same ↦ rw (e, same) b
                  | inr written ↦
                      rw (e, written)
                        (event-keeps tools input.company_id input.trace_id s b trace there
                          (new_event tools input time (head trace)) refl
                          (record {
                            same_trace = refl;
                            same_sequence = q;
                            same_previous = refl;
                            same_hash = refl;
                          }))
                ]
          ]))
  ]

  create-keeps :
      (company agent : ℕ) (s : Store P)
      → IsChained tools s
      → IsChained tools (create_trace company agent s).1
  unfolding create_trace
  create-keeps company agent s b =
      elim (Bool-cases (any (λ (a : ℕ × ℕ). a.0 == company && a.1 == agent) s.agents)) [
        | inl known ↦ rw (known, create_trace) (add-keeps tools company agent s b)
        | inr unknown ↦ rw (unknown, create_trace) b
      ]

  complete-keeps :
      (company i now : ℕ) (s : Store P)
      → IsChained tools s
      → IsChained tools (complete_trace company i now s).1
  unfolding complete_trace
  complete-keeps company i now s b = elim (Option-cases (get_trace company i s)) [
    | inl gone ↦ rw (gone, complete_trace) b
    | inr (trace, there) ↦
        rw (there, complete_trace)
          (mark-keeps tools trace.id (λ t. record t { status = completed; completed_at = some now })
            s (λ t. refl) (λ t. refl) (λ t. refl) (λ t. refl) b)
  ]

pub data Call (P : Type 0) : Type 0 where
  create_call : ℕ → ℕ → Call P
  append_call : AppendInput P → Call P
  complete_call : ℕ → ℕ → ℕ → Call P

module _ {P : Type 0} (tools : Tools P) where
  unfoldable pub perform : Call P → Store P → Store P
  perform (create_call company agent) s = (create_trace company agent s).1
  perform (append_call input) s = (append_event tools input s).1
  perform (complete_call company i now) s = (complete_trace company i now s).1

  unfoldable pub perform_all : List (Call P) → Store P → Store P
  unfolding perform
  perform_all [] s = s
  perform_all (c ∷ cs) s = perform_all cs (perform c s)

  perform-keeps : (c : Call P) (s : Store P) → IsChained tools s → IsChained tools (perform c s)
  unfolding perform
  perform-keeps (create_call company agent) s b = create-keeps tools company agent s b
  perform-keeps (append_call input) s b = append-keeps tools input s b
  perform-keeps (complete_call company i now) s b = complete-keeps tools company i now s b

  pub perform_all-IsChained :
      (cs : List (Call P)) (s : Store P) → IsChained tools s → IsChained tools (perform_all cs s)
  unfolding perform_all
  perform_all-IsChained [] s b = b
  perform_all-IsChained (c ∷ cs) s b = perform_all-IsChained cs (perform c s) (perform-keeps c s b)

  -- After any history of calls, successful or not, on a store where every trace has an intact
  -- chain (a store without traces and events is one): `verifyChain` is true of every trace that a
  -- company has.
  pub history_verifies :
      (cs : List (Call P)) (s : Store P) (company i : ℕ) (t : Trace)
      → IsChained tools s
      → get_trace company i (perform_all cs s) ≡ some t
      → verify_chain tools company i (perform_all cs s) ≡ true
  unfolding verify_chain
  history_verifies cs s company i t b h =
      let ends = (perform_all-IsChained cs s b).chained company i t h in
      let es = filter (is_event_of company i) (perform_all cs s).events in
      rw (sort-Ends tools i genesis_hash 1 es (head t) (suc t.sequence_head) ends)
        (Ends-verified tools i genesis_hash 1 es (head t) (suc t.sequence_head) ends)

  -- Two stores, each after any history of calls on a store where every trace has an intact chain,
  -- where no event of the first has the hash of an event of the second with another content: if
  -- the traces of an id have the same head hash and the same number of events, then these events
  -- have the same contents, in the same order.
  pub head_commits :
      (cs ds : List (Call P)) (r s : Store P) (company i : ℕ) (t u : Trace)
      → IsCollisionFree tools i (perform_all cs r).events (perform_all ds s).events
      → IsChained tools r
      → IsChained tools s
      → get_trace company i (perform_all cs r) ≡ some t
      → get_trace company i (perform_all ds s) ≡ some u
      → head t ≡ head u
      → t.sequence_head ≡ u.sequence_head
      → map (content tools.to_iso_string) (get_events company i (perform_all cs r))
        ≡ map (content tools.to_iso_string) (get_events company i (perform_all ds s))
  head_commits cs ds r s company i t u free a b h k same_head same_length =
      let one = (perform_all-IsChained cs r a).chained company i t h in
      let two = (perform_all-IsChained ds s b).chained company i u k in
      let es = filter (is_event_of company i) (perform_all cs r).events in
      let fs = filter (is_event_of company i) (perform_all ds s).events in
      rw
        (
          sort-Ends tools i genesis_hash 1 es (head t) (suc t.sequence_head) one,
          sort-Ends tools i genesis_hash 1 fs (head u) (suc u.sequence_head) two,
        )
        (Ends-content tools i genesis_hash genesis_hash 1 es fs (head u) (suc u.sequence_head)
          (filter-IsCollisionFree tools i (is_event_of company i) (is_event_of company i)
            (perform_all cs r).events (perform_all ds s).events free)
          (subst (λ n. Ends tools i genesis_hash 1 es (head u) (suc n)) same_length
            (subst (λ x. Ends tools i genesis_hash 1 es x (suc t.sequence_head)) same_head one))
          two).1
