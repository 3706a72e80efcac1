-- ===== src/Authority/Delegation.antt =====
-- Over any history of calls, a capability is within the parent that it names.
use orvex.Prelude.{
  ℕ, Bool, Option, none, some, List, [], ◌∷◌, ◌++◌, ◌≡◌, refl, sym, ◌⊎◌, arith, Option-cases, inl,
  inr, All, All-append,
}
use mathlib.Core.Path.{subst}
use orvex.Runtime.{Decimals}
use orvex.Outcome.{ok}
use orvex.Table.{find_first, update_first, update_all, All-update_all, All-update_any}
use orvex.Table.Keys.{
  with_key, Below, Distinct, Below-add, Distinct-add, Below-update, Distinct-update,
  Below-update_all, Distinct-update_all, find-with_key,
}
use orvex.Authority.Store.{Capability, CapabilityStatus, expired, revoked}
use orvex.Authority.Checks.{CreateInput}
use orvex.Authority.Capabilities.{
  Rows, get_capability, add_capability, create_capability, is_active_child, revoke,
  revoke_capability, is_overdue, expire_capabilities, has_id,
}
use orvex.Authority.Containment.{IsWithin}
use orvex.Authority.Creating.{HasParent, create-cases}
use orvex.Authority.Marks.{
  mark, key, IsWithin-mark, self-IsMarked, Follows, append-Follows, marking, update_all-Follows,
  update_first-Follows,
}

pub data Call : Type 0 where
  create_call : CreateInput → ℕ → Call
  revoke_call : ℕ → ℕ → ℕ → Call
  expire_call : ℕ → ℕ → Call

All-map :
    {A : Type 0} (P Q : A → Type 0) → ((x : A) → P x → Q x) → (xs : List A) → All P xs → All Q xs
All-map P Q f [] a = tt
All-map P Q f (x ∷ xs) a = (f x a.0, All-map P Q f xs a.1)

module _ (api : Decimals) where
  open api use {Decimal}

  unfoldable pub perform : Call → Rows api → Rows api
  perform (create_call input now) s = (create_capability api input now s).1
  perform (revoke_call company i now) s = (revoke_capability api company i now s).1
  perform (expire_call company now) s = expire_capabilities api company now s

  unfoldable pub perform_all : List Call → Rows api → Rows api
  unfolding perform
  perform_all [] s = s
  perform_all (c ∷ cs) s = perform_all cs (perform c s)

  abbrev pub IsContained : List (Capability Decimal) → Capability Decimal → Type 0
  IsContained rows c =
      (c.parent_capability_id ≡ none)
      ⊎ ((i : ℕ) × ((c.parent_capability_id ≡ some i)
            × ((p : Capability Decimal) × ((find_first (with_key (key api) i) rows ≡ some p)
                  × IsWithin api c p))))

  -- The ids are keys, and every capability is within its parent.
  pub record IsDelegated (s : Rows api) : Type 0 where
    pub below : Below (key api) s.next_id s.capabilities
    pub distinct : Distinct (key api) s.capabilities
    pub contained : All (IsContained s.capabilities) s.capabilities

  mark-IsContained :
      (xs ys : List (Capability Decimal)) (c : Capability Decimal) (status : CapabilityStatus)
      (at : Option ℕ)
      → Follows api xs ys
      → IsContained xs c
      → IsContained ys (mark api status at c)
  mark-IsContained xs ys c status at f (inl e) = inl e
  mark-IsContained xs ys c status at f (inr (i, (e, (p, (h, w))))) =
      let (p', (h', (status', (at', m)))) = f i p h in
      inr (
        i,
        (
          e,
          (
            p',
            (
              h',
              subst (λ q. IsWithin api (mark api status at c) q) (sym m)
                  (IsWithin-mark api status status' at at' c p w),
            ),
          ),
        ),
      )

  Follows-IsContained :
      (xs ys : List (Capability Decimal))
      → Follows api xs ys
      → All (IsContained xs) xs
      → All (IsContained ys) xs
  Follows-IsContained xs ys f =
      All-map (IsContained xs) (IsContained ys)
        (λ c. mark-IsContained xs ys c c.status c.revoked_at f) xs

  HasParent-IsContained :
      (row : Capability Decimal) (rows : List (Capability Decimal))
      → Distinct (key api) rows
      → HasParent api row rows
      → IsContained rows row
  HasParent-IsContained row rows d (inl e) = inl e
  HasParent-IsContained row rows d (inr (i, (e, (p, (h, (a, w)))))) =
      inr (i, (e, (p, (find-with_key (key api) i _ rows {r = p} d h, w))))

  add-keeps :
      (row : Capability Decimal) (s : Rows api)
      → row.id ≡ s.next_id
      → HasParent api row s.capabilities
      → IsDelegated s
      → IsDelegated (add_capability api row s)
  add-keeps row s e h b = record {
    below = Below-add (key api) s.next_id s.capabilities row b.below e;
    distinct = Distinct-add (key api) s.next_id s.capabilities row b.below e b.distinct;
    contained =
        let more = append-Follows api s.capabilities (row ∷ []) in
        All-append (IsContained (s.capabilities ++ row ∷ [])) s.capabilities (row ∷ [])
          (Follows-IsContained s.capabilities (s.capabilities ++ row ∷ []) more b.contained)
          (
            mark-IsContained s.capabilities (s.capabilities ++ row ∷ []) row row.status
                row.revoked_at more (HasParent-IsContained row s.capabilities b.distinct h),
            tt,
          );
  }

  -- The ids of the marked rows are the ids of the rows, so what follows a row follows it still.
  remark-IsContained :
      (ys : List (Capability Decimal)) (c : Capability Decimal) (status : CapabilityStatus)
      (at : Option ℕ)
      → IsContained ys c
      → IsContained ys (mark api status at c)
  remark-IsContained ys c status at =
      mark-IsContained ys ys c status at (λ k r h. (r, (h, self-IsMarked api r)))

  module _ (status : CapabilityStatus) (at : Capability Decimal → Option ℕ) (s : Rows api)
      (b : IsDelegated s) where
    mark_all-keeps :
        (p : Capability Decimal → Bool)
        → IsDelegated
            (record s { capabilities = update_all p (marking api status at) s.capabilities })
    mark_all-keeps p = record {
      below =
          Below-update_all (key api) (marking api status at) (λ c. refl) p s.next_id s.capabilities
            b.below;
      distinct =
          Distinct-update_all (key api) (marking api status at) (λ c. refl) p s.capabilities
            b.distinct;
      contained =
          let ys = update_all p (marking api status at) s.capabilities in
          All-update_all (IsContained ys) p (marking api status at)
            (λ c e. remark-IsContained ys c status (at c)) s.capabilities
            (Follows-IsContained s.capabilities ys
              (update_all-Follows api status at p s.capabilities) b.contained);
    }

    mark_first-keeps :
        (i : ℕ)
        → IsDelegated (record s {
          capabilities = update_first (with_key (key api) i) (marking api status at) s.capabilities;
        })
    mark_first-keeps i = record {
      below =
          Below-update (key api) (marking api status at) (λ c. refl) (with_key (key api) i)
            s.next_id s.capabilities b.below;
      distinct =
          Distinct-update (key api) (marking api status at) (λ c. refl) (with_key (key api) i)
            s.capabilities b.distinct;
      contained =
          let ys = update_first (with_key (key api) i) (marking api status at) s.capabilities in
          All-update_any (IsContained ys) (with_key (key api) i) (marking api status at)
            (λ c. remark-IsContained ys c status (at c)) s.capabilities
            (Follows-IsContained s.capabilities ys
              (update_first-Follows api status at i s.capabilities) b.contained);
    }

  module _ (company i now : ℕ) (s : Rows api) where
    revoke_missing :
        get_capability api company i s ≡ none → (revoke_capability api company i now s).1 ≡ s
    unfolding revoke_capability
    revoke_missing e = ground (arith, e)

    -- The two writes of a revocation.
    abbrev pub with_revoked : Capability Decimal → Rows api
    with_revoked c = record s {
      capabilities =
          update_first (has_id api c.id) (revoke api now)
            (update_all (is_active_child api company c.id) (revoke api now) s.capabilities);
    }

    pub revoke_found :
        (c : Capability Decimal)
        → get_capability api company i s ≡ some c
        → revoke_capability api company i now s ≡ (ok (revoke api now c), with_revoked c)
    unfolding revoke_capability
    revoke_found c e = ground (arith, e)

    revoke-keeps : IsDelegated s → IsDelegated (revoke_capability api company i now s).1
    revoke-keeps b = elim (Option-cases (get_capability api company i s)) [
      | inl gone ↦ rw (revoke_missing gone) b
      | inr (c, there) ↦ rw (revoke_found c there) (
          mark_first-keeps revoked (λ x. some now) _
            (mark_all-keeps revoked (λ x. some now) s b (is_active_child api company c.id)) c.id)
    ]

  create-keeps :
      (input : CreateInput) (now : ℕ) (s : Rows api)
      → IsDelegated s
      → IsDelegated (create_capability api input now s).1
  create-keeps input now s b = elim (create-cases api input now s) [
    | inl same ↦ rw same b
    | inr (row, (e, (h, new))) ↦ rw new (add-keeps row s e h b)
  ]

  perform-keeps : (c : Call) (s : Rows api) → IsDelegated s → IsDelegated (perform c s)
  unfolding perform expire_capabilities
  perform-keeps (create_call input now) s b = create-keeps input now s b
  perform-keeps (revoke_call company i now) s b = revoke-keeps company i now s b
  perform-keeps (expire_call company now) s b =
      mark_all-keeps expired (λ c. c.revoked_at) s b (is_overdue api company now)

  -- After any history of calls of the service, successful or not, on a store where this holds (an
  -- empty one is such a store), the ids of the capabilities are keys, and every capability that
  -- names a parent is within the parent's action, asset, network, scopes, limits and expiry.
  pub perform_all-IsDelegated :
      (cs : List Call) (s : Rows api) → IsDelegated s → IsDelegated (perform_all cs s)
  unfolding perform_all
  perform_all-IsDelegated [] s b = b
  perform_all-IsDelegated (c ∷ cs) s b =
      perform_all-IsDelegated cs (perform c s) (perform-keeps c s b)
