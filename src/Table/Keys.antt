-- ===== src/Table/Keys.antt =====
-- Tables whose rows have a primary key: distinct keys, all below the next one to be given.
use orvex.Prelude.{
  ℕ, suc, ◌<◌, ◌≤◌, ◌≡◌, ◌≢◌, refl, Bool, true, false, ◌&&◌, none, some, List, [], ◌∷◌, ◌++◌, arith,
  ◌==◌, if◌then◌else◌, Bool-cases, inl, inr, sym, ap, map, All, All-append,
}
use mathlib.Core.Path.{subst}
use native.Mathlib.Decide.{ℕ_discrete}
use orvex.Table.{find_first, find_first-holds, update_first, update_all}

module _ {ℓ} {A : Type ℓ} (key : A → ℕ) where
  abbrev pub with_key : ℕ → A → Bool
  with_key k x = key x == k

  abbrev pub Below : ℕ → List A → Type 0
  Below n = All (λ x. key x < n)

  abbrev pub Distinct : List A → Type 0
  Distinct [] = Unit
  Distinct (x ∷ xs) = All (λ y. key y ≢ key x) xs × Distinct xs

  pub Below-mono : (n m : ℕ) (xs : List A) → n ≤ m → Below n xs → Below m xs
  Below-mono n m [] h b = tt
  Below-mono n m (x ∷ xs) h b = (omega arith, Below-mono n m xs h b.1)

  pub Below-add :
      (n : ℕ) (xs : List A) (x : A) → Below n xs → key x ≡ n → Below (suc n) (xs ++ x ∷ [])
  Below-add n xs x b e =
      All-append (λ y. key y < suc n) xs (x ∷ []) (Below-mono n (suc n) xs (omega arith) b)
        (omega arith, tt)

  All-ne : (n : ℕ) (xs : List A) → Below n xs → All (λ y. n ≢ key y) xs
  All-ne n [] b = tt
  All-ne n (x ∷ xs) b = (omega arith, All-ne n xs b.1)

  pub Distinct-add :
      (n : ℕ) (xs : List A) (x : A) → Below n xs → key x ≡ n → Distinct xs → Distinct (xs ++ x ∷ [])
  Distinct-add n [] x b e d = (tt, tt)
  Distinct-add n (y ∷ xs) x b e d = (
    All-append (λ z. key z ≢ key y) xs (x ∷ []) d.0 (omega arith, tt),
    Distinct-add n xs x b.1 e d.1,
  )

  pub Below-find :
      (p : A → Bool) (n : ℕ) (xs : List A) {r : A}
      → Below n xs
      → find_first p xs ≡ some r
      → key r < n
  Below-find p n [] b h = ground arith
  Below-find p n (x ∷ xs) {r} b h = ground (arith, Below-find p n xs {r = r} b.1)

  -- A key that is not given yet finds no row.
  pub find-fresh : (n k : ℕ) (xs : List A) → Below n xs → n ≤ k → find_first (with_key k) xs ≡ none
  find-fresh n k [] b h = refl
  find-fresh n k (x ∷ xs) b h = ground (arith, find-fresh n k xs b.1 h)

  All-ne-rw : {i j : ℕ} → i ≡ j → (xs : List A) → All (λ y. key y ≢ i) xs → All (λ y. key y ≢ j) xs
  All-ne-rw e [] a = tt
  All-ne-rw e (x ∷ xs) a = (omega arith, All-ne-rw e xs a.1)

  -- A query by key and more finds the row that the key names.
  find-ne :
      (k : ℕ) (q : A → Bool) (xs : List A)
      → All (λ y. key y ≢ k) xs
      → find_first (λ y. with_key k y && q y) xs ≡ none
  find-ne k q [] d = refl
  find-ne k q (x ∷ xs) d = ground (arith, find-ne k q xs d.1)

  pub find-with_key :
      (k : ℕ) (q : A → Bool) (xs : List A) {r : A}
      → Distinct xs
      → find_first (λ y. with_key k y && q y) xs ≡ some r
      → find_first (with_key k) xs ≡ some r
  find-with_key k q [] d h = h
  find-with_key k q (x ∷ xs) {r} d h = ground (
    arith,
    find-with_key k q xs {r = r} d.1,
    λ (e : key x ≡ k). find-ne k q xs (All-ne-rw e xs d.0),
  )

  module _ (f : A → A) (keeps : (x : A) → key (f x) ≡ key x) (p : A → Bool) where
    pub Below-update : (n : ℕ) (xs : List A) → Below n xs → Below n (update_first p f xs)
    Below-update n [] b = tt
    Below-update n (x ∷ xs) b = ground (arith, keeps x, Below-update n xs b.1)

    All-ne-update :
        (k : ℕ) (xs : List A) → All (λ y. key y ≢ k) xs → All (λ y. key y ≢ k) (update_first p f xs)
    All-ne-update k [] b = tt
    All-ne-update k (x ∷ xs) b = ground (arith, keeps x, All-ne-update k xs b.1)

    pub Distinct-update : (xs : List A) → Distinct xs → Distinct (update_first p f xs)
    Distinct-update [] d = tt
    Distinct-update (x ∷ xs) d = elim (Bool-cases (p x)) [
      | inl e ↦ rw e (All-ne-rw (sym (keeps x)) xs d.0, d.1)
      | inr n ↦ rw n (All-ne-update (key x) xs d.0, Distinct-update xs d.1)
    ]

  -- An update of one row leaves the others.
  pub find-update_ne :
      (i k : ℕ) (f : A → A) (keeps : (x : A) → key (f x) ≡ key x) (xs : List A)
      → i ≢ k
      → find_first (with_key k) (update_first (with_key i) f xs) ≡ find_first (with_key k) xs
  find-update_ne i k f keeps [] h = refl
  find-update_ne i k f keeps (x ∷ xs) h = ground (arith, keeps x, find-update_ne i k f keeps xs h)

  -- A row found by its key and more is the row of its key.
  pub find-own_key :
      (k : ℕ) (q : A → Bool) (xs : List A) {r : A}
      → Distinct xs
      → find_first (λ y. with_key k y && q y) xs ≡ some r
      → find_first (with_key (key r)) xs ≡ some r
  find-own_key k q xs {r} d h =
      let same : key r ≡ k =
        ground (arith, find_first-holds (λ y. with_key k y && q y) xs {r = r} h) in
      subst (λ i. find_first (with_key i) xs ≡ some r) (sym same) (find-with_key k q xs d h)

  -- Marking many rows leaves the keys.
  module _ (f : A → A) (keeps : (x : A) → key (f x) ≡ key x) (p : A → Bool) where
    pub Below-update_all : (n : ℕ) (xs : List A) → Below n xs → Below n (update_all p f xs)
    Below-update_all n [] b = tt
    Below-update_all n (x ∷ xs) b = ground (arith, keeps x, Below-update_all n xs b.1)

    All-ne-update_all :
        (k : ℕ) (xs : List A) → All (λ y. key y ≢ k) xs → All (λ y. key y ≢ k) (update_all p f xs)
    All-ne-update_all k [] b = tt
    All-ne-update_all k (x ∷ xs) b = ground (arith, keeps x, All-ne-update_all k xs b.1)

    pub Distinct-update_all : (xs : List A) → Distinct xs → Distinct (update_all p f xs)
    Distinct-update_all [] d = tt
    Distinct-update_all (x ∷ xs) d = elim (Bool-cases (p x)) [
      | inl e ↦ rw e (
        All-ne-rw (sym (keeps x)) (update_all p f xs) (All-ne-update_all (key x) xs d.0),
        Distinct-update_all xs d.1,
      )
      | inr n ↦ rw n (All-ne-update_all (key x) xs d.0, Distinct-update_all xs d.1)
    ]

  pub find-update_all :
      (k : ℕ) (f : A → A) (keeps : (x : A) → key (f x) ≡ key x) (p : A → Bool) (xs : List A) {r : A}
      → find_first (with_key k) xs ≡ some r
      → find_first (with_key k) (update_all p f xs) ≡ some (if p r then f r else r)
  find-update_all k f keeps p [] h = ground arith
  find-update_all k f keeps p (x ∷ xs) {r} h = elim (Bool-cases (with_key k x)) [
    | inl e ↦
        let it : x ≡ r = cc (h, e) in
        subst
          (λ y. find_first (with_key k) (update_all p f (x ∷ xs)) ≡ some (if p y then f y else y))
          it (ground (arith, e, keeps x))
    | inr n ↦ ground (arith, n, keeps x, find-update_all k f keeps p xs {r = r} (cc (h, n)))
  ]

  -- A change of one row, and of what the property of the other rows speaks of.
  module _ {κ} (P Q : A → Type κ) (k : ℕ) (f : A → A)
      (others : (x : A) → key x ≢ k → P x → Q x) where
    All-others : (xs : List A) → All (λ y. key y ≢ k) xs → All P xs → All Q xs
    All-others [] d a = tt
    All-others (x ∷ xs) d a = (others x d.0 a.0, All-others xs d.1 a.1)

    pub All-update_key :
        (xs : List A) {r : A}
        → Distinct xs
        → All P xs
        → find_first (with_key k) xs ≡ some r
        → Q (f r)
        → All Q (update_first (with_key k) f xs)
    All-update_key [] d a h q = tt
    All-update_key (x ∷ xs) {r} d a h q = elim (ℕ_discrete (key x) k) [
      | yes e ↦
          let same : with_key k x ≡ true = ground arith in
          rw same
            (subst (λ y. Q (f y)) (sym (cc (h, same))) q, All-others xs (All-ne-rw e xs d.0) a.1)
      | no n ↦
          let other : with_key k x ≡ false = ground arith in
          rw other (others x n a.0, All-update_key xs {r = r} d.1 a.1 (cc (h, other)) q)
    ]

  -- An update of the row that a key names, as a change of every row.
  module _ (k : ℕ) (f : A → A) where
    map-others :
        (xs : List A) → All (λ y. key y ≢ k) xs → map (λ x. if with_key k x then f x else x) xs ≡ xs
    map-others [] d = refl
    map-others (x ∷ xs) d = ground (arith, d.0, map-others xs d.1)

    pub update_first-map :
        (xs : List A)
        → Distinct xs
        → update_first (with_key k) f xs ≡ map (λ x. if with_key k x then f x else x) xs
    update_first-map [] d = refl
    update_first-map (x ∷ xs) d = elim (ℕ_discrete (key x) k) [
      | yes e ↦
          let same : with_key k x ≡ true = ground arith in
          rw same (ap (λ ys. f x ∷ ys) (sym (map-others xs (All-ne-rw e xs d.0))))
      | no n ↦
          let other : with_key k x ≡ false = ground arith in
          rw other (ap (λ ys. x ∷ ys) (update_first-map xs d.1))
    ]

  find-key_of_All :
      (q : A → Bool) (k : ℕ) (xs : List A) {r : A}
      → All (λ y. key y ≢ k) xs
      → find_first q xs ≡ some r
      → key r ≢ k
  find-key_of_All q k [] d h = absurd (ground (arith, h))
  find-key_of_All q k (x ∷ xs) {r} d h = elim (Bool-cases (q x)) [
    | inl e ↦ subst (λ y. key y ≢ k) (cc (h, e)) d.0
    | inr n ↦ find-key_of_All q k xs {r = r} d.1 (cc (h, n))
  ]

  -- A row that any query finds is the row of its key.
  pub find-any_query :
      (q : A → Bool) (xs : List A) {r : A}
      → Distinct xs
      → find_first q xs ≡ some r
      → find_first (with_key (key r)) xs ≡ some r
  find-any_query q [] d h = absurd (ground (arith, h))
  find-any_query q (x ∷ xs) {r} d h = elim (Bool-cases (q x)) [
    | inl e ↦
        let it : x ≡ r = cc (h, e) in
        subst (λ y. find_first (with_key (key y)) (x ∷ xs) ≡ some y) it (ground arith)
    | inr n ↦
        let rest : find_first q xs ≡ some r = cc (h, n) in
        let other : with_key (key r) x ≡ false =
          ground (arith, find-key_of_All q (key x) xs {r = r} d.0 rest) in
        rw other (find-any_query q xs {r = r} d.1 rest)
  ]

  pub find-more :
      (k : ℕ) (q : A → Bool) (xs : List A) {r : A}
      → find_first (with_key k) xs ≡ some r
      → q r ≡ true
      → find_first (λ y. with_key k y && q y) xs ≡ some r
  find-more k q [] h t = absurd (ground (arith, h))
  find-more k q (x ∷ xs) {r} h t = elim (Bool-cases (with_key k x)) [
    | inl e ↦
        let it : x ≡ r = cc (h, e) in
        let fits : q x ≡ true = subst (λ y. q y ≡ true) (sym it) t in rw (e, fits) (ap some it)
    | inr n ↦ rw n (find-more k q xs {r = r} (cc (h, n)) t)
  ]
