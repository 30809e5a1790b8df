-- ===== src/PendingAction/Chosen.antt =====
-- What holds of the elements that are kept, mapped or taken first.
use niu_ma_notifier.Prelude.{
  ◌≡◌, refl, subst, inl, inr, Bool, true, ◌&&◌, Option, some, List, [], ◌∷◌, arith, any, retain,
  filter_map, All, Option-cases,
}
use niu_ma_notifier.Prelude.Sort.{All-imp}
use niu_ma_notifier.Sessions.{first?}

pub filter_map-All :
    {A B : Type 0} (f : A → Option B) (P : B → Type 0) (xs : List A)
    → ((x : A) (y : B) → f x ≡ some y → P y)
    → All P (filter_map f xs)
unfolding filter_map
filter_map-All f P [] h = tt
filter_map-All f P (x ∷ xs) h = elim (Option-cases (f x)) [
  | inl e ↦ rw (e, filter_map) (filter_map-All f P xs h)
  | inr (y, e) ↦ rw (e, filter_map) (h x y e, filter_map-All f P xs h)
]

pub filter_map_source :
    {A B : Type 0} (f : A → Option B) (q : A → B → Bool) (xs : List A)
    → ((x : A) (y : B) → f x ≡ some y → q x y ≡ true)
    → All (λ y. any (λ x. q x y) xs ≡ true) (filter_map f xs)
unfolding filter_map any
filter_map_source f q [] h = tt
filter_map_source f q (x ∷ xs) h = elim (Option-cases (f x)) [
  | inl e ↦ rw (e, filter_map) (All-imp _ (λ y k. ground arith) (filter_map_source f q xs h))
  | inr (y, e) ↦
      rw (e, filter_map)
        (ground (arith, h x y e), All-imp _ (λ z k. ground arith) (filter_map_source f q xs h))
]

pub any-retain :
    {A : Type 0} (p q : A → Bool) (xs : List A) → any q (retain p xs) ≡ any (λ x. p x && q x) xs
unfolding any retain
any-retain p q [] = refl
any-retain p q (x ∷ xs) = ground (arith, any-retain p q xs)

pub first_of :
    {A : Type 0} (P : A → Type 0) (xs : List A) (x : A) → All P xs → first? xs ≡ some x → P x
first_of P [] x h e = absurd (ground arith)
first_of P (y ∷ ys) x h e = subst P (ground arith) h.0
