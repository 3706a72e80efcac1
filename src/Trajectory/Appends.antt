-- ===== src/Trajectory/Appends.antt =====
-- The writes of `appendEvent` keep the chains intact.
use orvex.Prelude.{
  ℕ, suc, ◌+◌, ◌<◌, true, false, none, some, [], ◌∷◌, ◌++◌, ◌==◌, ◌≡◌, ◌≢◌, refl, sym, ◌∙◌, ap, ◌⊎◌,
  inl, inr, filter, any, text_eq, arith, Bool-cases, Option-cases, All-append,
}
use mathlib.Core.Path.{subst}
use orvex.Outcome.{Result, ok, err, settle}
use orvex.Table.{find_first, find_first-holds}
use orvex.Table.Keys.{with_key, Below-update, Distinct-update, find-with_key, Below-find}
use orvex.Trajectory.Service.{
  Trace, Event, Tools, AppendInput, Store, is_trace, is_event_of, head, genesis_hash, get_trace,
  set_trace, new_event, compute_event_hash, write_once, append_to, append_event, is_same_place,
  is_active, is_other,
}
use orvex.Trajectory.Chain.{Follows, Ends, Ends-append}
use orvex.Trajectory.Traces.{IsChained, filter-append, found_after}

module _ {P : Type 0} (tools : Tools P) where
  module _ (company i : ℕ) (s : Store P) (b : IsChained tools s) (trace : Trace)
      (there : get_trace company i s ≡ some trace) (e : Event P) (own : e.company_id ≡ company)
      (follows : Follows tools i (head trace) (suc trace.sequence_head) e) where
    abbrev pub advance : Trace → Trace
    advance t = record t { sequence_head = e.sequence; head_hash = some e.event_hash }

    abbrev pub with_event : Store P
    with_event = record s { events = s.events ++ e ∷ [] }

    trace_id_of : trace.id ≡ i
    trace_id_of = ground (arith, find_first-holds (is_trace company i) s.traces {r = trace} there)

    same_trace_found :
        (c : ℕ) (t : Trace)
        → find_first (is_trace c i) s.traces ≡ some t
        → (t ≡ trace) × (c ≡ company)
    same_trace_found c t h =
        let one = find-with_key Trace.id i (λ x. x.company_id == c) s.traces {r = t} b.distinct h in
        let two =
          find-with_key Trace.id i (λ x. x.company_id == company) s.traces {r = trace} b.distinct
            there in
        let it : t ≡ trace = cc (one, two) in
        (
          it,
          ground (
            arith,
            find_first-holds (is_trace c i) s.traces {r = t} h,
            find_first-holds (is_trace company i) s.traces {r = trace} there,
            ap Trace.company_id it,
          ),
        )

    other_events :
        (c k : ℕ)
        → trace.id ≢ k
        → filter (is_event_of c k) (s.events ++ e ∷ []) ≡ filter (is_event_of c k) s.events
    other_events c k n =
        let differs : is_event_of c k e ≡ false =
          ground (arith, follows.same_trace, trace_id_of, n) in
        filter-append tools (is_event_of c k) s.events e ∙ rw differs refl

    own_events :
        filter (is_event_of company i) (s.events ++ e ∷ [])
        ≡ filter (is_event_of company i) s.events ++ e ∷ []
    own_events =
        let fits : is_event_of company i e ≡ true = ground (arith, follows.same_trace, own) in
        filter-append tools (is_event_of company i) s.events e ∙ rw fits refl

    pub event-keeps : IsChained tools (set_trace trace.id advance with_event)
    event-keeps = record {
      below =
          Below-update Trace.id advance (λ t. refl) (with_key Trace.id trace.id) s.next_id s.traces
            b.below;
      distinct =
          Distinct-update Trace.id advance (λ t. refl) (with_key Trace.id trace.id) s.traces
            b.distinct;
      events_below =
          All-append (λ x. x.trace_id < s.next_id) s.events (e ∷ []) b.events_below
            (
              omega (
                arith,
                follows.same_trace,
                trace_id_of,
                Below-find Trace.id (is_trace company i) s.next_id s.traces {r = trace} b.below
                    there,
              ),
              tt,
            );
      chained = λ c k t' h.
          elim (found_after tools trace.id advance (λ t. refl) (λ t. refl) c k s.traces t'
            b.distinct h) [
              | inl (n, old) ↦ rw (other_events c k n) (b.chained c k t' old)
              | inr (at, (t, (old, written))) ↦
                  let place : i ≡ k = sym trace_id_of ∙ at in
                  let (it, tenant) =
                    same_trace_found c t
                      (subst (λ j. find_first (is_trace c j) s.traces ≡ some t) (sym place) old) in
                  let grown : Ends tools i genesis_hash 1
                      (filter (is_event_of company i) (s.events ++ e ∷ [])) e.event_hash
                      (suc e.sequence) =
                    rw own_events (
                      subst
                        (λ n.
                          Ends tools i genesis_hash 1
                            (filter (is_event_of company i) s.events ++ e ∷ []) e.event_hash n)
                        (ap suc (sym follows.same_sequence))
                        (Ends-append tools i genesis_hash 1
                          (filter (is_event_of company i) s.events) (head trace)
                          (suc trace.sequence_head) e (b.chained company i trace there) follows)) in
                  subst
                    (λ x.
                      Ends tools k genesis_hash 1 (filter (is_event_of c k) (s.events ++ e ∷ []))
                        (head x) (suc x.sequence_head))
                    (sym written)
                    (subst
                      (λ j.
                        Ends tools j genesis_hash 1 (filter (is_event_of c j) (s.events ++ e ∷ []))
                          e.event_hash (suc e.sequence))
                      place
                      (subst
                        (λ y.
                          Ends tools i genesis_hash 1
                            (filter (is_event_of y i) (s.events ++ e ∷ [])) e.event_hash
                            (suc e.sequence))
                        (sym tenant) grown))
            ];
    }

  pub write-cases :
      (trace : Trace) (e : Event P) (s : Store P)
      → ((write_once tools trace e s).1 ≡ s)
        ⊎ ((write_once tools trace e s).1
            ≡ set_trace trace.id
                (λ t. record t { sequence_head = e.sequence; head_hash = some e.event_hash })
                (record s { events = s.events ++ e ∷ [] }))
  unfolding write_once
  write-cases trace e s =
      elim (Option-cases (find_first (λ x. text_eq x.event_hash e.event_hash) s.events)) [
        | inr (dup, there) ↦ inl (ground (arith, there))
        | inl new ↦ elim (Bool-cases (any (is_same_place tools e) s.events)) [
          | inl taken ↦ inl (ground (arith, new, taken))
          | inr open_place ↦ inr (ground (arith, new, open_place))
        ]
      ]

  pub settle-state :
      {S A : Type 0} (Q : S → Type 0) (s : S) (x : Result A × S) → Q s → Q x.1 → Q (settle s x).1
  settle-state Q s (ok a, s') b c = c
  settle-state Q s (err f, s') b c = b

  pub append_missing :
      (input : AppendInput P) (s : Store P)
      → get_trace input.company_id input.trace_id s ≡ none
      → (append_event tools input s).1 ≡ s
  unfolding append_event
  append_missing input s h = ground (arith, h)

  pub append_found :
      (input : AppendInput P) (s : Store P) (trace : Trace)
      → get_trace input.company_id input.trace_id s ≡ some trace
      → append_event tools input s ≡ settle s (append_to tools input trace s)
  unfolding append_event
  append_found input s trace h = ground (arith, h)

  -- The checks stop the call, or they hold and the event is written once.
  pub append_to-cases :
      (input : AppendInput P) (trace : Trace) (s : Store P)
      → ((append_to tools input trace s).1 ≡ s)
        ⊎ ((time : ℕ) × ((input.sequence ≡ suc trace.sequence_head)
              × (append_to tools input trace s
                  ≡ write_once tools trace (new_event tools input time (head trace)) s)))
  unfolding append_to
  append_to-cases input trace s = elim (Bool-cases (input.agent_id == trace.agent_id)) [
    | inr n ↦ inl (ground (arith, n))
    | inl a ↦ elim (Bool-cases (is_active trace.status)) [
      | inr n ↦ inl (ground (arith, a, n))
      | inl c ↦ elim (Bool-cases (input.sequence == trace.sequence_head + 1)) [
        | inr n ↦ inl (ground (arith, a, c, n))
        | inl q ↦ elim (Bool-cases (is_other input.previous_event_hash (head trace))) [
          | inl y ↦ inl (ground (arith, a, c, q, y))
          | inr p ↦ elim (Option-cases (Tools.get_time tools input.timestamp)) [
            | inl n ↦ inl (ground (arith, a, c, q, p, n))
            | inr (time, t) ↦
                elim (Bool-cases
                  (is_other input.event_hash (compute_event_hash tools input time (head trace)))) [
                    | inl y ↦ inl (ground (arith, a, c, q, p, t, y))
                    | inr o ↦ inr (time, (ground (arith, q), ground (arith, a, c, q, p, t, o)))
                  ]
          ]
        ]
      ]
    ]
  ]
