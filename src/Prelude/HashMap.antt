-- ===== src/Prelude/HashMap.antt =====
-- `std::collections::HashMap`, in some order of its entries: insertion replaces a key's value, and
-- the order is not part of any statement.
use niu_ma_notifier.Prelude.{
  ℕ, ◌+◌, ◌≡◌, refl, subst, inl, inr, Bool-cases, All, Option, none, some, List, [], ◌∷◌, arith,
  Bool, find?, if◌then◌else◌, PartialEq, ◌==◌,
}
use niu_ma_notifier.Prelude.Sort.{sum}

module _ {ℓ κ} {K : Type ℓ} {V : Type κ} ⦃e : PartialEq K⦄ where
  unfoldable pub get : List (K × V) → K → Option V
  get [] k = none
  get ((j, v) ∷ m) k = if j == k then some v else get m k

  unfoldable pub insert : List (K × V) → K → V → List (K × V)
  insert [] k v = (k, v) ∷ []
  insert ((j, w) ∷ m) k v = if j == k then (k, v) ∷ m else (j, w) ∷ insert m k v

  unfoldable pub remove : List (K × V) → K → List (K × V)
  remove [] k = []
  remove ((j, v) ∷ m) k = let rest = remove m k in if j == k then rest else (j, v) ∷ rest

  pub get-insert :
      (m : List (K × V)) (k : K) (v : V) (j : K)
      → get (insert m k v) j ≡ (if k == j then some v else get m j)
  unfolding get insert
  get-insert [] k v j = refl
  get-insert ((i, w) ∷ m) k v j =
      ground (arith, e.decides i k, e.decides i j, e.decides k j, get-insert m k v j)

  pub get-remove :
      (m : List (K × V)) (k j : K) → get (remove m k) j ≡ (if k == j then none else get m j)
  unfolding get remove
  get-remove [] k j = ground arith
  get-remove ((i, w) ∷ m) k j =
      ground (arith, e.decides i k, e.decides i j, e.decides k j, get-remove m k j)

  -- `into_values()` and `values()`.
  abbrev pub values : List (K × V) → List V
  values [] = []
  values ((k, v) ∷ m) = v ∷ values m

  -- `entry(k)` followed by what becomes of a missing or a present value.
  unfoldable pub update : List (K × V) → K → (Option V → V) → List (K × V)
  update m k f = insert m k (f (get m k))

-- A value that counts for nothing where a key is missing.
abbrev pub weight {ℓ} : {V : Type ℓ} → (V → ℕ) → Option V → ℕ
weight g none = 0
weight g (some v) = g v

module _ {ℓ κ} {K : Type ℓ} {V : Type κ} ⦃e : PartialEq K⦄ where
  pub sum-insert :
      (g : V → ℕ) (m : List (K × V)) (k : K) (v : V)
      → sum g (values (insert m k v)) + weight g (get m k) ≡ sum g (values m) + g v
  unfolding sum insert get
  sum-insert g [] k v = omega arith
  sum-insert g ((j, w) ∷ m) k v = ground (arith, sum-insert g m k v)

  pub All-insert :
      (P : V → Type 0) (m : List (K × V)) (k : K) (v : V)
      → P v
      → All P (values m)
      → All P (values (insert m k v))
  unfolding insert
  All-insert P [] k v p h = (p, tt)
  All-insert P ((j, w) ∷ m) k v p h = elim (Bool-cases (j == k)) [
    | inl q ↦ rw (q, insert) (p, h.1)
    | inr q ↦ rw (q, insert) (h.0, All-insert P m k v p h.1)
  ]

  -- A value that is found is one of the values.
  pub get-All :
      (P : V → Type 0) (m : List (K × V)) (k : K) (v : V)
      → get m k ≡ some v
      → All P (values m)
      → P v
  unfolding get
  get-All P [] k v q h = absurd (ground arith)
  get-All P ((j, w) ∷ m) k v q h = elim (Bool-cases (j == k)) [
    | inl r ↦ let s : w ≡ v = ground arith in subst P s h.0
    | inr r ↦ get-All P m k v (ground arith) h.1
  ]

module _ {ℓ κ} {K : Type ℓ} {V : Type κ} ⦃e : PartialEq K⦄ where
  -- No key has two entries, as in every map of the program.
  abbrev pub UniqueKeys : List (K × V) → Type (ℓ ⊔ κ)
  UniqueKeys [] = Unit
  UniqueKeys ((k, v) ∷ m) = (get m k ≡ none) × UniqueKeys m

  pub insert-UniqueKeys :
      (m : List (K × V)) (k : K) (v : V) → UniqueKeys m → UniqueKeys (insert m k v)
  unfolding get insert
  insert-UniqueKeys [] k v u = (refl, tt)
  insert-UniqueKeys ((j, w) ∷ m) k v u = elim (Bool-cases (j == k)) [
    | inl h ↦
        let i : j ≡ k = (e.decides j k).0 h in
        rw (h, insert) (subst (λ k. get m k ≡ none) i u.0, u.1)
    | inr h ↦
        rw (h, insert)
          (
            ground (arith, get-insert m k v j, e.decides j k, e.decides k j),
            insert-UniqueKeys m k v u.1,
          )
  ]

  pub remove-UniqueKeys : (m : List (K × V)) (k : K) → UniqueKeys m → UniqueKeys (remove m k)
  unfolding remove
  remove-UniqueKeys [] k u = tt
  remove-UniqueKeys ((j, w) ∷ m) k u = elim (Bool-cases (j == k)) [
    | inl h ↦ rw (h, remove) (remove-UniqueKeys m k u.1)
    | inr h ↦ rw (h, remove) (ground (arith, get-remove m k j), remove-UniqueKeys m k u.1)
  ]

  -- An entry that a search finds is the one under its key.
  pub found-get :
      (p : K × V → Bool) (m : List (K × V)) (entry : K × V)
      → UniqueKeys m
      → find? p m ≡ some entry
      → get m entry.0 ≡ some entry.1
  unfolding find? get
  found-get p [] entry u h = absurd (ground arith)
  found-get p ((j, w) ∷ m) entry u h = elim (Bool-cases (p (j, w))) [
    | inl f ↦
        let q : (j, w) ≡ entry = ground arith in
        subst (λ (x : K × V). get ((j, w) ∷ m) x.0 ≡ some x.1) q
          (ground (arith, (e.decides j j).1 refl))
    | inr f ↦
        let rest : get m entry.0 ≡ some entry.1 = found-get p m entry u.1 (ground arith) in
        elim (Bool-cases (j == entry.0)) [
          | inr n ↦ rw (n, get) rest
          | inl y ↦
              let i : j ≡ entry.0 = (e.decides j entry.0).0 y in
              absurd (ground (arith, subst (λ k. get m k ≡ none) i u.0, rest))
        ]
  ]
