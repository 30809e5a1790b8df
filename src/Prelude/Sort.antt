-- ===== src/Prelude/Sort.antt =====
-- `sort_by`, which is stable, and `max_by` and `min_by_key`.
use Prim.Native.Nat.{ℕ, suc, ◌+◌}
use mathlib.Core.Logic.{inl, inr}
use mathlib.Core.Path.{◌≡◌, refl, ap, ◌∙◌, subst}
use mathlib.Core.Bool.{Bool, true, ◌||◌}
use mathlib.Core.List.{List, [], ◌∷◌, map}
use mathlib.Core.Option.{Option, none, some}
use native.Mathlib.Omega.{arith}
use niu_ma_notifier.Prelude.Tests.{if◌then◌else◌, Bool-cases, Option-cases}
use niu_ma_notifier.Prelude.Lists.{All, length, any}
use niu_ma_notifier.Prelude.Order.{
  Comparator, on, not_greater, IsLawful, not_greater_total, not_greater_trans,
}

-- `iter().map(f).sum()`.
unfoldable pub sum {ℓ} : {A : Type ℓ} → (A → ℕ) → List A → ℕ
sum f [] = 0
sum f (x ∷ xs) = f x + sum f xs

module _ {ℓ} {A : Type ℓ} where
  -- An element goes before the equal ones that follow it.
  unfoldable pub insert_by : Comparator A → A → List A → List A
  insert_by cmp x [] = x ∷ []
  insert_by cmp x (y ∷ ys) = if not_greater (cmp x y) then x ∷ y ∷ ys else y ∷ insert_by cmp x ys

  unfoldable pub sort_by : Comparator A → List A → List A
  sort_by cmp [] = []
  sort_by cmp (x ∷ xs) = insert_by cmp x (sort_by cmp xs)

  -- The last of the greatest elements.
  unfoldable pub max_by : Comparator A → List A → Option A
  max_by cmp [] = none
  max_by cmp (x ∷ xs) = elim (max_by cmp xs) [
    | none ↦ some x
    | some y ↦ if not_greater (cmp x y) then some y else some x
  ]

  -- The first of the least elements.
  unfoldable pub min_by : Comparator A → List A → Option A
  min_by cmp [] = none
  min_by cmp (x ∷ xs) = elim (min_by cmp xs) [
    | none ↦ some x
    | some y ↦ if not_greater (cmp x y) then some x else some y
  ]

  -- No element is greater than a later one.
  abbrev pub IsSorted : Comparator A → List A → Type 0
  IsSorted cmp [] = Unit {0}
  IsSorted cmp (x ∷ xs) = All (λ y. not_greater (cmp x y) ≡ true) xs × IsSorted cmp xs

  pub All-imp : {P Q : A → Type 0} (xs : List A) → ((x : A) → P x → Q x) → All P xs → All Q xs
  All-imp [] f h = tt
  All-imp (x ∷ xs) f h = (f x h.0, All-imp xs f h.1)

  module _ (cmp : Comparator A) where
    -- Sorting loses nothing and adds nothing: every sum over the elements is the same.
    sum-insert_by : (f : A → ℕ) (x : A) (xs : List A) → sum f (insert_by cmp x xs) ≡ f x + sum f xs
    unfolding sum insert_by
    sum-insert_by f x [] = refl
    sum-insert_by f x (y ∷ ys) = ground (arith, sum-insert_by f x ys)

    pub sum-sort_by : (f : A → ℕ) (xs : List A) → sum f (sort_by cmp xs) ≡ sum f xs
    unfolding sum sort_by
    sum-sort_by f [] = refl
    sum-sort_by f (x ∷ xs) = omega (arith, sum-insert_by f x (sort_by cmp xs), sum-sort_by f xs)

    any-insert_by :
        (p : A → Bool) (x : A) (xs : List A) → any p (insert_by cmp x xs) ≡ (p x || any p xs)
    unfolding any insert_by
    any-insert_by p x [] = refl
    any-insert_by p x (y ∷ ys) = ground (arith, any-insert_by p x ys)

    pub any-sort_by : (p : A → Bool) (xs : List A) → any p (sort_by cmp xs) ≡ any p xs
    unfolding any sort_by
    any-sort_by p [] = refl
    any-sort_by p (x ∷ xs) =
        any-insert_by p x (sort_by cmp xs) ∙ ap (λ b. p x || b) (any-sort_by p xs)

    length-insert_by : (x : A) (xs : List A) → length (insert_by cmp x xs) ≡ suc (length xs)
    unfolding insert_by
    length-insert_by x [] = refl
    length-insert_by x (y ∷ ys) = ground (arith, length-insert_by x ys)

    pub length-sort_by : (xs : List A) → length (sort_by cmp xs) ≡ length xs
    unfolding sort_by
    length-sort_by [] = refl
    length-sort_by (x ∷ xs) = omega (arith, length-insert_by x (sort_by cmp xs), length-sort_by xs)

    All-insert_by :
        (P : A → Type 0) (x : A) (xs : List A) → P x → All P xs → All P (insert_by cmp x xs)
    unfolding insert_by
    All-insert_by P x [] p h = (p, h)
    All-insert_by P x (y ∷ ys) p h = elim (Bool-cases (not_greater (cmp x y))) [
      | inl e ↦ rw (e, insert_by) (p, h)
      | inr e ↦ rw (e, insert_by) (h.0, All-insert_by P x ys p h.1)
    ]

    pub All-sort_by : (P : A → Type 0) (xs : List A) → All P xs → All P (sort_by cmp xs)
    unfolding sort_by
    All-sort_by P [] h = h
    All-sort_by P (x ∷ xs) h = All-insert_by P x (sort_by cmp xs) h.0 (All-sort_by P xs h.1)

  module _ (cmp : Comparator A) where
    All-of-insert_by :
        (P : A → Type 0) (x : A) (xs : List A) → All P (insert_by cmp x xs) → P x × All P xs
    unfolding insert_by
    All-of-insert_by P x [] h = h
    All-of-insert_by P x (y ∷ ys) h = elim (Bool-cases (not_greater (cmp x y))) [
      | inl e ↦ rw (e, insert_by) at h
      | inr e ↦
          let k = rw (e, insert_by) at h in let r = All-of-insert_by P x ys k.1 in (r.0, (k.0, r.1))
    ]

    -- What holds of all elements after sorting held of all before.
    pub All-of-sort_by : (P : A → Type 0) (xs : List A) → All P (sort_by cmp xs) → All P xs
    unfolding sort_by
    All-of-sort_by P [] h = h
    All-of-sort_by P (x ∷ xs) h =
        let r = All-of-insert_by P x (sort_by cmp xs) h in (r.0, All-of-sort_by P xs r.1)

  module _ {cmp : Comparator A} (v : IsLawful cmp) where
    insert_by-IsSorted : (x : A) (xs : List A) → IsSorted cmp xs → IsSorted cmp (insert_by cmp x xs)
    unfolding insert_by
    insert_by-IsSorted x [] h = (tt, tt)
    insert_by-IsSorted x (y ∷ ys) h = elim (Bool-cases (not_greater (cmp x y))) [
      | inl e ↦ rw (e, insert_by) ((e, All-imp ys (λ z g. not_greater_trans v x y z e g) h.0), h)
      | inr e ↦
          rw (e, insert_by)
            (All-insert_by cmp _ x ys (not_greater_total v x y e) h.0, insert_by-IsSorted x ys h.1)
    ]

    pub sort_by-IsSorted : (xs : List A) → IsSorted cmp (sort_by cmp xs)
    unfolding sort_by
    sort_by-IsSorted [] = tt
    sort_by-IsSorted (x ∷ xs) = insert_by-IsSorted x (sort_by cmp xs) (sort_by-IsSorted xs)

  max_by_none :
      (cmp : Comparator A) (P : A → Type 0) (xs : List A) → max_by cmp xs ≡ none → All P xs
  unfolding max_by
  max_by_none cmp P [] h = tt
  max_by_none cmp P (x ∷ xs) h = elim (Option-cases (max_by cmp xs)) [
    | inl e ↦ ground (arith, e)
    | inr (y, e) ↦ ground (arith, e)
  ]

  module _ {cmp : Comparator A} (v : IsLawful cmp) where
    -- Nothing is greater than the element that `max_by` finds.
    pub max_by_greatest :
        (xs : List A) (m : A) → max_by cmp xs ≡ some m → All (λ x. not_greater (cmp x m) ≡ true) xs
    unfolding max_by
    max_by_greatest [] m h = tt
    max_by_greatest (x ∷ xs) m h = elim (Option-cases (max_by cmp xs)) [
      | inl e ↦ move (x ∷ xs) (ground (arith, e)) (self x, max_by_none cmp _ xs e)
      | inr (y, e) ↦ elim (Bool-cases (not_greater (cmp x y))) [
        | inl g ↦ move (x ∷ xs) (ground (arith, e)) (g, max_by_greatest xs y e)
        | inr g ↦ move (x ∷ xs) (ground (arith, e)) (
          self x,
          All-imp xs (λ z k. not_greater_trans v z y x k (not_greater_total v x y g))
              (max_by_greatest xs y e),
        )
      ]
    ]
      where
        self : (z : A) → not_greater (cmp z z) ≡ true
        self z = ground (arith, v.flip z z)

        move :
            (ys : List A) {n k : A}
            → n ≡ k
            → All (λ z. not_greater (cmp z n) ≡ true) ys
            → All (λ z. not_greater (cmp z k) ≡ true) ys
        move ys e h = subst (λ n. All (λ z. not_greater (cmp z n) ≡ true) ys) e h

  pub max_by-member :
      (cmp : Comparator A) (p : A → Bool) (xs : List A) (m : A)
      → max_by cmp xs ≡ some m
      → All (λ x. p x ≡ true) xs
      → p m ≡ true
  unfolding max_by
  max_by-member cmp p [] m h a = ground (arith, h)
  max_by-member cmp p (x ∷ xs) m h a = elim (Option-cases (max_by cmp xs)) [
    | inl e ↦ ground (arith, e, a.0)
    | inr (y, e) ↦ ground (arith, e, a.0, max_by-member cmp p xs y e a.1)
  ]

module _ {ℓ κ} {A : Type ℓ} {B : Type κ} (f : A → B) where
  map-insert_by :
      (cmp : Comparator B) (x : A) (xs : List A)
      → map f (insert_by (on cmp f) x xs) ≡ insert_by cmp (f x) (map f xs)
  unfolding insert_by
  map-insert_by cmp x [] = refl
  map-insert_by cmp x (y ∷ ys) = elim (Bool-cases (not_greater (cmp (f x) (f y)))) [
    | inl e ↦ rw e refl
    | inr e ↦ rw e (ap (λ zs. f y ∷ zs) (map-insert_by cmp x ys))
  ]

  -- Sorting by what a function keeps of the elements.
  pub map-sort_by :
      (cmp : Comparator B) (xs : List A) → map f (sort_by (on cmp f) xs) ≡ sort_by cmp (map f xs)
  unfolding sort_by
  map-sort_by cmp [] = refl
  map-sort_by cmp (x ∷ xs) =
      map-insert_by cmp x (sort_by (on cmp f) xs) ∙ ap (insert_by cmp (f x)) (map-sort_by cmp xs)

  pub sum-map : (g : B → ℕ) (xs : List A) → sum g (map f xs) ≡ sum (λ x. g (f x)) xs
  unfolding sum
  sum-map g [] = refl
  sum-map g (x ∷ xs) = ap (λ n. g (f x) + n) (sum-map g xs)

  pub map-map {μ} :
      {C : Type μ} (g : B → C) (xs : List A) → map g (map f xs) ≡ map (λ x. g (f x)) xs
  map-map g [] = refl
  map-map g (x ∷ xs) = ap (λ zs. g (f x) ∷ zs) (map-map g xs)
