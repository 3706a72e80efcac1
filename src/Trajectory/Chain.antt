-- ===== src/Trajectory/Chain.antt =====
-- A chain of events from one hash to another, and what verifies it.
use orvex.Prelude.{
  ℕ, suc, ◌≤◌, String, Bool, true, List, [], ◌∷◌, ◌++◌, ◌≡◌, refl, sym, ◌∙◌, ap, filter, map,
  text_eq_iff, arith, Bool-cases, inl, inr, All, ◌≢◌, ◌⊎◌,
}
use mathlib.Core.Path.{subst}
use orvex.Policy.Engine.{sort, insert}
use orvex.Trajectory.Service.{Event, EventContent, Tools, content, in_order, verify_from}

module _ {P : Type 0} (tools : Tools P) (i : ℕ) where
  open tools use {hash, to_iso_string}

  -- The row follows a hash at a place, and its hash is that of its fields.
  pub record Follows (previous : String) (sequence : ℕ) (e : Event P) : Type 0 where
    pub same_trace : e.trace_id ≡ i
    pub same_sequence : e.sequence ≡ sequence
    pub same_previous : e.previous_event_hash ≡ previous
    pub same_hash : hash (content to_iso_string e) ≡ e.event_hash

  -- The rows lead from one hash and place to another.
  abbrev pub Ends : String → ℕ → List (Event P) → String → ℕ → Type 0
  Ends previous sequence [] last next = (previous ≡ last) × (sequence ≡ next)
  Ends previous sequence (e ∷ es) last next =
      Follows previous sequence e × Ends e.event_hash (suc sequence) es last next

  pub Ends-append :
      (previous : String) (sequence : ℕ) (es : List (Event P)) (last : String) (next : ℕ)
      (e : Event P)
      → Ends previous sequence es last next
      → Follows last next e
      → Ends previous sequence (es ++ e ∷ []) e.event_hash (suc next)
  Ends-append previous sequence [] last next e (p, q) f = (
    subst (λ h. Follows h sequence e) (sym p) (subst (λ n. Follows last n e) (sym q) f),
    (refl, ap suc q),
  )
  Ends-append previous sequence (x ∷ es) last next e (g, h) f =
      (g, Ends-append x.event_hash (suc sequence) es last next e h f)

  Follows-content :
      (previous : String) (sequence : ℕ) (e : Event P)
      → Follows previous sequence e
      → record (content to_iso_string e) { trace_id = i; previous_event_hash = previous }
        ≡ content to_iso_string e
  Follows-content previous sequence e f = ground (arith, f.same_trace, f.same_previous)

  pub Ends-verified :
      (previous : String) (sequence : ℕ) (es : List (Event P)) (last : String) (next : ℕ)
      → Ends previous sequence es last next
      → verify_from tools i previous sequence es ≡ true
  unfolding verify_from
  Ends-verified previous sequence [] last next h = refl
  Ends-verified previous sequence (e ∷ es) last next (f, h) =
      let rest = Ends-verified e.event_hash (suc sequence) es last next h in
      ground (
        arith,
        f.same_sequence,
        (text_eq_iff e.previous_event_hash previous).1 f.same_previous,
        (text_eq_iff _ e.event_hash).1
            (ap hash (Follows-content previous sequence e f) ∙ f.same_hash),
        rest,
      )

  Ends-order :
      (previous : String) (sequence : ℕ) (es : List (Event P)) (last : String) (next : ℕ)
      → Ends previous sequence es last next
      → sequence ≤ next
  Ends-order previous sequence [] last next (p, q) = omega (arith, q)
  Ends-order previous sequence (e ∷ es) last next (f, h) =
      omega (arith, Ends-order e.event_hash (suc sequence) es last next h)

  insert_first :
      (sequence : ℕ) (e : Event P) (es : List (Event P)) (last : String) (next : ℕ)
      → e.sequence ≡ sequence
      → Ends e.event_hash (suc sequence) es last next
      → insert in_order e es ≡ e ∷ es
  insert_first sequence e [] last next q h = refl
  insert_first sequence e (x ∷ es) last next q (f, h) = ground (arith, q, f.same_sequence)

  -- The rows of a chain are in the order in which they are read.
  pub sort-Ends :
      (previous : String) (sequence : ℕ) (es : List (Event P)) (last : String) (next : ℕ)
      → Ends previous sequence es last next
      → sort in_order es ≡ es
  sort-Ends previous sequence [] last next h = refl
  sort-Ends previous sequence (e ∷ es) last next (f, h) =
      ap (insert in_order e) (sort-Ends e.event_hash (suc sequence) es last next h)
      ∙ insert_first sequence e es last next f.same_sequence h

  tell_apart : {A B : Type 0} (x y : A) (a b : B) → (x ≢ y) ⊎ (a ≡ b) → x ≡ y → a ≡ b
  tell_apart x y a b (inl n) e = absurd (n e)
  tell_apart x y a b (inr same) e = same

  -- No row of the first list has the hash of a row of the second one with another content.
  abbrev pub IsCollisionFree : List (Event P) → List (Event P) → Type 0
  IsCollisionFree es fs =
      All
        (λ e.
          All
            (λ f.
              (hash (content to_iso_string e) ≢ hash (content to_iso_string f))
              ⊎ (content to_iso_string e ≡ content to_iso_string f))
            fs)
        es

  tails-IsCollisionFree :
      (f : Event P) (es fs : List (Event P)) → IsCollisionFree es (f ∷ fs) → IsCollisionFree es fs
  tails-IsCollisionFree f [] fs a = tt
  tails-IsCollisionFree f (e ∷ es) fs a = (a.0.1, tails-IsCollisionFree f es fs a.1)

  All-filter :
      {A : Type 0} (Q : A → Type 0) (p : A → Bool) (xs : List A) → All Q xs → All Q (filter p xs)
  All-filter Q p [] a = tt
  All-filter Q p (x ∷ xs) a = elim (Bool-cases (p x)) [
    | inl y ↦ rw y (a.0, All-filter Q p xs a.1)
    | inr n ↦ rw n (All-filter Q p xs a.1)
  ]

  All-each :
      {A : Type 0} (Q R : A → Type 0) → ((x : A) → Q x → R x) → (xs : List A) → All Q xs → All R xs
  All-each Q R k [] a = tt
  All-each Q R k (x ∷ xs) a = (k x a.0, All-each Q R k xs a.1)

  pub filter-IsCollisionFree :
      (p q : Event P → Bool) (es fs : List (Event P))
      → IsCollisionFree es fs
      → IsCollisionFree (filter p es) (filter q fs)
  filter-IsCollisionFree p q es fs a =
      All-filter _ p es (All-each _ _ (λ e. All-filter _ q fs) es a)

  -- Without collisions, two chains of the same length that end at the same hash have the same
  -- contents, and start at the same hash.
  pub Ends-content :
      (p q : String) (sequence : ℕ) (es fs : List (Event P)) (last : String) (next : ℕ)
      → IsCollisionFree es fs
      → Ends p sequence es last next
      → Ends q sequence fs last next
      → (p ≡ q) × (map (content to_iso_string) es ≡ map (content to_iso_string) fs)
  Ends-content p q sequence [] [] last next free g h = (g.0 ∙ sym h.0, refl)
  Ends-content p q sequence [] (f ∷ fs) last next free g h =
      absurd (omega (arith, g.1, Ends-order f.event_hash (suc sequence) fs last next h.1))
  Ends-content p q sequence (e ∷ es) [] last next free g h =
      absurd (omega (arith, h.1, Ends-order e.event_hash (suc sequence) es last next g.1))
  Ends-content p q sequence (e ∷ es) (f ∷ fs) last next free (g, gs) (h, hs) =
      let (same, rest) =
        Ends-content e.event_hash f.event_hash (suc sequence) es fs last next
          (tails-IsCollisionFree f es fs free.1) gs hs in
      let it = tell_apart _ _ _ _ free.0.0 (g.same_hash ∙ same ∙ sym h.same_hash) in
      (
        sym g.same_previous ∙ ap EventContent.previous_event_hash it ∙ h.same_previous,
        cc (it, rest),
      )
