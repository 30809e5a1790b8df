-- ===== src/Prelude/Lists.antt =====
-- Vectors and iterators: Boolean searches, `retain`, and the first match changed in place.
use Prim.Native.Nat.{ℕ, zero, suc, ◌+◌, ◌≤◌}
use mathlib.Core.Path.{◌≡◌, refl, ap}
use mathlib.Core.Logic.{inl, inr}
use mathlib.Core.Bool.{Bool, true, false, ◌||◌, ◌&&◌}
use mathlib.Core.List.{List, [], ◌∷◌, ◌++◌, map}
use mathlib.Core.Option.{Option, none, some}
use native.Mathlib.Omega.{arith}
use niu_ma_notifier.Prelude.Tests.{if◌then◌else◌, is_some, Bool-cases}

abbrev pub All {ℓ κ} : {A : Type ℓ} → (A → Type κ) → List A → Type κ
All P [] = Unit
All P (x ∷ xs) = P x × All P xs

module _ {ℓ} {A : Type ℓ} where
  abbrev pub length : List A → ℕ
  length [] = 0
  length (x ∷ xs) = suc (length xs)

  abbrev pub take : ℕ → List A → List A
  take zero xs = []
  take (suc n) [] = []
  take (suc n) (x ∷ xs) = x ∷ take n xs

  -- `iter().any(p)`.
  unfoldable pub any : (A → Bool) → List A → Bool
  any p [] = false
  any p (x ∷ xs) = p x || any p xs

  -- `iter().find(p)`.
  unfoldable pub find? : (A → Bool) → List A → Option A
  find? p [] = none
  find? p (x ∷ xs) = if p x then some x else find? p xs

  -- `Vec::retain(p)`, also `iter().filter(p).collect()`.
  unfoldable pub retain : (A → Bool) → List A → List A
  retain p [] = []
  retain p (x ∷ xs) = let rest = retain p xs in if p x then x ∷ rest else rest

  -- `if let Some(x) = iter_mut().find(p) { *x = f(x) }`.
  unfoldable pub update_first : (A → Bool) → (A → A) → List A → List A
  update_first p f [] = []
  update_first p f (x ∷ xs) = if p x then f x ∷ xs else x ∷ update_first p f xs

  pub length-append : (xs ys : List A) → length (xs ++ ys) ≡ length xs + length ys
  length-append [] ys = omega arith
  length-append (x ∷ xs) ys = omega (arith, length-append xs ys)

  pub length-take-le : (n : ℕ) (xs : List A) → length (take n xs) ≤ n
  length-take-le zero xs = omega arith
  length-take-le (suc n) [] = omega arith
  length-take-le (suc n) (x ∷ xs) = omega (arith, length-take-le n xs)

  -- A match is found exactly when there is one.
  pub is_some-find? : (p : A → Bool) (xs : List A) → is_some (find? p xs) ≡ any p xs
  unfolding find? any
  is_some-find? p [] = refl
  is_some-find? p (x ∷ xs) = ground (arith, is_some-find? p xs)

  -- What is found passes the test.
  pub find?-holds : (p : A → Bool) (xs : List A) {x : A} → find? p xs ≡ some x → p x ≡ true
  unfolding find?
  find?-holds p [] h = ground arith
  find?-holds p (y ∷ xs) {x} h = ground (arith, find?-holds p xs {x = x})

  pub find?-append :
      (p : A → Bool) (xs ys : List A) → any p xs ≡ false → find? p (xs ++ ys) ≡ find? p ys
  unfolding find? any
  find?-append p [] ys h = refl
  find?-append p (x ∷ xs) ys h = ground (arith, find?-append p xs ys)

  pub find?-append_ne :
      (p : A → Bool) (xs ys : List A) → any p ys ≡ false → find? p (xs ++ ys) ≡ find? p xs
  unfolding find? any
  find?-append_ne p [] [] h = refl
  find?-append_ne p [] (y ∷ ys) h = ground (arith, find?-append_ne p [] ys)
  find?-append_ne p (x ∷ xs) ys h = ground (arith, find?-append_ne p xs ys)

  pub any-append : (p : A → Bool) (xs ys : List A) → any p (xs ++ ys) ≡ (any p xs || any p ys)
  unfolding any
  any-append p [] ys = refl
  any-append p (x ∷ xs) ys = ground (arith, any-append p xs ys)

  pub retain-append :
      (p : A → Bool) (xs ys : List A) → retain p (xs ++ ys) ≡ retain p xs ++ retain p ys
  unfolding retain
  retain-append p [] ys = refl
  retain-append p (x ∷ xs) ys = ground (arith, retain-append p xs ys)

  pub length-retain-le : (p : A → Bool) (xs : List A) → length (retain p xs) ≤ length xs
  unfolding retain
  length-retain-le p [] = omega arith
  length-retain-le p (x ∷ xs) = ground (arith, length-retain-le p xs)

  -- Everything kept passes the test.
  pub retain-All : (p : A → Bool) (xs : List A) → All (λ x. p x ≡ true) (retain p xs)
  unfolding retain
  retain-All p [] = tt
  retain-All p (x ∷ xs) = elim (Bool-cases (p x)) [
    | inl h ↦ ground (arith, retain-All p xs)
    | inr h ↦ ground (arith, retain-All p xs)
  ]

  -- A test that the kept ones fail is failed by all of them.
  pub any-retain-false :
      (q p : A → Bool) (xs : List A)
      → ((x : A) → p x ≡ true → q x ≡ false)
      → any q (retain p xs) ≡ false
  unfolding any retain
  any-retain-false q p [] h = refl
  any-retain-false q p (x ∷ xs) h = ground (arith, h x, any-retain-false q p xs h)

  -- What no element passes, no kept element passes.
  pub any-retain_mono :
      (q p : A → Bool) (xs : List A) → any q xs ≡ false → any q (retain p xs) ≡ false
  unfolding any retain
  any-retain_mono q p [] h = refl
  any-retain_mono q p (x ∷ xs) h = ground (arith, any-retain_mono q p xs)

  -- What a filter keeps whole is not changed by filtering first with a weaker one.
  pub retain-retain_of_imp :
      (q p : A → Bool) (xs : List A)
      → ((x : A) → q x ≡ true → p x ≡ true)
      → retain q (retain p xs) ≡ retain q xs
  unfolding retain
  retain-retain_of_imp q p [] h = refl
  retain-retain_of_imp q p (x ∷ xs) h = ground (arith, h x, retain-retain_of_imp q p xs h)

  -- Two filters in a row are one.
  pub retain-retain :
      (q p r : A → Bool) (xs : List A)
      → ((x : A) → (q x && p x) ≡ r x)
      → retain q (retain p xs) ≡ retain r xs
  unfolding retain
  retain-retain q p r [] h = refl
  retain-retain q p r (x ∷ xs) h = ground (arith, h x, retain-retain q p r xs h)

  -- The first match is the same after dropping elements that do not match.
  pub find?-retain_of_imp :
      (q p : A → Bool) (xs : List A)
      → ((x : A) → q x ≡ true → p x ≡ true)
      → find? q (retain p xs) ≡ find? q xs
  unfolding retain find?
  find?-retain_of_imp q p [] h = refl
  find?-retain_of_imp q p (x ∷ xs) h = ground (arith, h x, find?-retain_of_imp q p xs h)

  pub length-update_first :
      (p : A → Bool) (f : A → A) (xs : List A) → length (update_first p f xs) ≡ length xs
  unfolding update_first
  length-update_first p f [] = refl
  length-update_first p f (x ∷ xs) = ground (arith, length-update_first p f xs)

  -- The changed element is the one found, if the change keeps it a match.
  pub find?-update_first :
      (p : A → Bool) (f : A → A) (xs : List A) {x : A}
      → find? p xs ≡ some x
      → p (f x) ≡ true
      → find? p (update_first p f xs) ≡ some (f x)
  unfolding find? update_first
  find?-update_first p f [] e h = ground arith
  find?-update_first p f (y ∷ xs) {x} e h = ground (arith, find?-update_first p f xs {x = x})

  -- A search that the change does not affect finds what it found.
  pub find?-update_first_ne :
      (q p : A → Bool) (f : A → A) (xs : List A)
      → ((x : A) → p x ≡ true → q x ≡ false)
      → ((x : A) → p x ≡ true → q (f x) ≡ false)
      → find? q (update_first p f xs) ≡ find? q xs
  unfolding find? update_first
  find?-update_first_ne q p f [] h k = refl
  find?-update_first_ne q p f (x ∷ xs) h k =
      ground (arith, h x, k x, find?-update_first_ne q p f xs h k)

  pub update_first_absent :
      (p : A → Bool) (f : A → A) (xs : List A) → any p xs ≡ false → update_first p f xs ≡ xs
  unfolding update_first any
  update_first_absent p f [] h = refl
  update_first_absent p f (x ∷ xs) h = ground (arith, update_first_absent p f xs)

  pub any-update_first :
      (q p : A → Bool) (f : A → A) (xs : List A)
      → ((x : A) → p x ≡ true → q (f x) ≡ q x)
      → any q (update_first p f xs) ≡ any q xs
  unfolding update_first any
  any-update_first q p f [] h = refl
  any-update_first q p f (x ∷ xs) h = ground (arith, h x, any-update_first q p f xs h)

module _ {ℓ κ} {A : Type ℓ} {B : Type κ} where
  pub length-map : (f : A → B) (xs : List A) → length (map f xs) ≡ length xs
  length-map f [] = refl
  length-map f (x ∷ xs) = ap suc (length-map f xs)

  -- `iter().filter_map(f).collect()`.
  unfoldable pub filter_map : (A → Option B) → List A → List B
  filter_map f [] = []
  filter_map f (x ∷ xs) =
      let rest = filter_map f xs in elim (f x) [ none ↦ rest | some y ↦ y ∷ rest ]

  -- A change that keeps a field keeps the list of that field.
  pub map-update_first :
      (g : A → B) (p : A → Bool) (f : A → A) (xs : List A)
      → ((x : A) → p x ≡ true → g (f x) ≡ g x)
      → map g (update_first p f xs) ≡ map g xs
  unfolding update_first
  map-update_first g p f [] h = refl
  map-update_first g p f (x ∷ xs) h = ground (arith, h x, map-update_first g p f xs h)

module _ {ℓ κ} {A : Type ℓ} {B : Type κ} where
  -- A search through changed elements, where the change does not affect the test.
  pub find?-map :
      (p : A → Bool) (q : B → Bool) (f : A → B) (xs : List A)
      → ((x : A) → q (f x) ≡ p x)
      → find? q (map f xs) ≡ elim (find? p xs) [ none ↦ none | some x ↦ some (f x) ]
  unfolding find?
  find?-map p q f [] h = refl
  find?-map p q f (x ∷ xs) h = ground (arith, h x, find?-map p q f xs h)
