-- ===== src/Trajectory/Traces.antt =====
-- What it is for the chains of a store to be intact, and the writes of traces.
use orvex.Prelude.{
  ℕ, suc, Bool, true, none, some, List, [], ◌∷◌, ◌++◌, ◌==◌, ◌≡◌, ◌≢◌, refl, sym, ◌∙◌, ap, ◌⊎◌, inl,
  inr, filter, arith, if◌then◌else◌, Option-cases,
}
use mathlib.Core.Path.{subst}
use native.Mathlib.Decide.{ℕ_discrete}
use orvex.Table.{
  find_first, find_first-holds, find_first-append_none, find_first-append_some,
  find_first-update_self, update_first,
}
use orvex.Table.Keys.{
  with_key, Below, Distinct, Below-add, Below-mono, Distinct-add, Below-update, Distinct-update,
  find-with_key, find-update_ne, find-more,
}
use orvex.Trajectory.Service.{
  Trace, Event, Tools, Store, is_trace, is_event_of, head, genesis_hash, get_trace, add_trace,
  set_trace, new_trace,
}
use orvex.Trajectory.Chain.{Ends}

module _ {P : Type 0} (tools : Tools P) where
  -- Ids of traces are keys that were given, also those in the events, and the events of a trace
  -- are a chain from the genesis hash to its head.
  pub record IsChained (s : Store P) : Type 0 where
    pub below : Below Trace.id s.next_id s.traces
    pub distinct : Distinct Trace.id s.traces
    pub events_below : Below Event.trace_id s.next_id s.events
    pub chained :
        (company i : ℕ) (t : Trace)
        → get_trace company i s ≡ some t
        → Ends tools i genesis_hash 1
            (filter (is_event_of company i) s.events)
            (head t)
            (suc t.sequence_head)

  pub filter-append :
      {A : Type 0} (p : A → Bool) (xs : List A) (x : A)
      → filter p (xs ++ x ∷ []) ≡ (if p x then filter p xs ++ x ∷ [] else filter p xs)
  filter-append p [] x = ground arith
  filter-append p (y ∷ xs) x = ground (arith, filter-append p xs x)

  -- A trace without events is new.
  filter-fresh :
      (company n : ℕ) (es : List (Event P))
      → Below Event.trace_id n es
      → filter (is_event_of company n) es ≡ []
  filter-fresh company n [] b = refl
  filter-fresh company n (e ∷ es) b = ground (arith, filter-fresh company n es b.1)

  update-none :
      {A : Type 0} (q : A → Bool) (f : A → A) (xs : List A)
      → find_first q xs ≡ none
      → update_first q f xs ≡ xs
  update-none q f [] h = refl
  update-none q f (x ∷ xs) h = ground (arith, h, update-none q f xs)

  module _ (i : ℕ) (f : Trace → Trace) (same_id : (t : Trace) → (f t).id ≡ t.id)
      (same_company : (t : Trace) → (f t).company_id ≡ t.company_id) where
    -- What a query finds after a write of one trace: what it found, or that trace as written.
    pub found_after :
        (company k : ℕ) (ts : List Trace) (t' : Trace)
        → Distinct Trace.id ts
        → find_first (is_trace company k) (update_first (with_key Trace.id i) f ts) ≡ some t'
        → ((i ≢ k) × (find_first (is_trace company k) ts ≡ some t'))
          ⊎ ((i ≡ k) × ((t : Trace) × ((find_first (is_trace company k) ts ≡ some t) × (t' ≡ f t))))
    found_after company k ts t' d h =
        let us = update_first (with_key Trace.id i) f ts in
        let by_key =
          find-with_key Trace.id k (λ t. t.company_id == company) us {r = t'}
            (Distinct-update Trace.id f same_id (with_key Trace.id i) ts d) h in
        let own : (t'.company_id == company) ≡ true =
          ground (arith, find_first-holds (is_trace company k) us {r = t'} h) in
        elim (ℕ_discrete i k) [
          | no n ↦ inl (
            n,
            find-more Trace.id k (λ t. t.company_id == company) ts {r = t'}
                (sym (find-update_ne Trace.id i k f same_id ts n) ∙ by_key) own,
          )
          | yes e ↦
              let here =
                subst (λ j. find_first (with_key Trace.id j) us ≡ some t') (sym e) by_key in
              inr (
                e,
                elim (Option-cases (find_first (with_key Trace.id i) ts)) [
                  | inl gone ↦ absurd (
                      ground (
                        arith,
                        here,
                        ap (find_first (with_key Trace.id i))
                            (update-none (with_key Trace.id i) f ts gone),
                        gone,
                      ))
                  | inr (t, there) ↦
                      let written : t' ≡ f t = cc (
                        here,
                        find_first-update_self (with_key Trace.id i) f ts {r = t}
                            (ground (
                              arith,
                              same_id t,
                              find_first-holds (with_key Trace.id i) ts {r = t} there,
                            ))
                            there,
                      ) in
                      let company_of : (t.company_id == company) ≡ true =
                        subst (λ c. (c == company) ≡ true)
                          (ap Trace.company_id written ∙ same_company t) own in
                      (
                        t,
                        (
                          subst (λ j. find_first (is_trace company j) ts ≡ some t) e
                              (find-more Trace.id i (λ x. x.company_id == company) ts {r = t} there
                                company_of),
                          written,
                        ),
                      )
                ],
              )
        ]

  -- A write of a trace that leaves its id, its company and its head.
  pub mark-keeps :
      (i : ℕ) (f : Trace → Trace) (s : Store P)
      → ((t : Trace) → (f t).id ≡ t.id)
      → ((t : Trace) → (f t).company_id ≡ t.company_id)
      → ((t : Trace) → head (f t) ≡ head t)
      → ((t : Trace) → (f t).sequence_head ≡ t.sequence_head)
      → IsChained s
      → IsChained (set_trace i f s)
  mark-keeps i f s same_id same_company same_head same_sequence b = record {
    below = Below-update Trace.id f same_id (with_key Trace.id i) s.next_id s.traces b.below;
    distinct = Distinct-update Trace.id f same_id (with_key Trace.id i) s.traces b.distinct;
    events_below = b.events_below;
    chained = λ company k t' h.
        elim (found_after i f same_id same_company company k s.traces t' b.distinct h) [
          | inl (n, old) ↦ b.chained company k t' old
          | inr (e, (t, (old, written))) ↦
              subst
                (λ x.
                  Ends tools k genesis_hash 1 (filter (is_event_of company k) s.events) (head x)
                    (suc x.sequence_head))
                (sym written) (rw (same_head t, same_sequence t) (b.chained company k t old))
        ];
  }

  pub add-keeps :
      (company agent : ℕ) (s : Store P)
      → IsChained s
      → IsChained (add_trace (new_trace company agent s.next_id) s)
  add-keeps company agent s b = record {
    below = Below-add Trace.id s.next_id s.traces (new_trace company agent s.next_id) b.below refl;
    distinct =
        Distinct-add Trace.id s.next_id s.traces (new_trace company agent s.next_id) b.below refl
          b.distinct;
    events_below =
        Below-mono Event.trace_id s.next_id (suc s.next_id) s.events (omega arith) b.events_below;
    chained = λ c k t h. elim (Option-cases (find_first (is_trace c k) s.traces)) [
      | inr (old, there) ↦
          let it : old ≡ t = cc (
            h,
            find_first-append_some (is_trace c k) s.traces (new_trace company agent s.next_id ∷ [])
                {r = old} there,
          ) in
          b.chained c k t (subst (λ x. find_first (is_trace c k) s.traces ≡ some x) it there)
      | inl none_before ↦
          let found : find_first (is_trace c k) (new_trace company agent s.next_id ∷ []) ≡ some t =
            sym (
              find_first-append_none (is_trace c k) s.traces
                (new_trace company agent s.next_id ∷ []) none_before)
            ∙ h in
          let id_of : s.next_id ≡ k = ground (arith, found) in
          let it : new_trace company agent s.next_id ≡ t = ground (arith, found) in
          subst
            (λ x.
              Ends tools k genesis_hash 1 (filter (is_event_of c k) s.events) (head x)
                (suc x.sequence_head))
            it
            (subst
              (λ j. Ends tools j genesis_hash 1 (filter (is_event_of c j) s.events) genesis_hash 1)
              id_of (rw (filter-fresh c s.next_id s.events b.events_below) (refl, refl)))
    ];
  }
