-- ===== src/Prelude/BtreeMap.antt =====
-- `std::collections::BTreeMap<String, V>`: entries in the order of their keys.
use Prim.Native.String.{compare}
use text.Mathlib.Text.{is_lt}
use niu_ma_notifier.Prelude.{
  String, ◌≡◌, refl, Bool, true, false, ◌||◌, Option, none, some, List, [], ◌∷◌, arith,
  if◌then◌else◌, ◌==◌, string_eq, eq_iff,
}

module _ {ℓ} {V : Type ℓ} where
  unfoldable pub get : List (String × V) → String → Option V
  get [] k = none
  get ((j, v) ∷ m) k = if j == k then some v else get m k

  unfoldable pub insert : List (String × V) → String → V → List (String × V)
  insert [] k v = (k, v) ∷ []
  insert ((j, w) ∷ m) k v =
      if j == k
      then (k, v) ∷ m
      else (if is_lt (compare k j) then (k, v) ∷ (j, w) ∷ m else (j, w) ∷ insert m k v)

  -- `entry(k).or_insert(v)`.
  unfoldable pub or_insert : List (String × V) → String → V → List (String × V)
  or_insert m k v = elim (get m k) [ none ↦ insert m k v | some w ↦ m ]

  pub get-insert :
      (m : List (String × V)) (k : String) (v : V) (j : String)
      → get (insert m k v) j ≡ (if k == j then some v else get m j)
  unfolding get insert
  get-insert [] k v j = refl
  get-insert ((i, w) ∷ m) k v j =
      ground (arith, eq_iff i k, eq_iff i j, eq_iff k j, get-insert m k v j)

  pub get-or_insert :
      (m : List (String × V)) (k : String) (v : V) (j : String)
      → get (or_insert m k v) j
        ≡ (if k == j then elim (get m j) [ none ↦ some v | some w ↦ some w ] else get m j)
  unfolding or_insert
  get-or_insert m k v j = ground (arith, eq_iff k j, get-insert m k v j)

-- `values().any(|enabled| *enabled)`.
unfoldable pub any_value : List (String × Bool) → Bool
any_value [] = false
any_value ((k, v) ∷ m) = v || any_value m

pub any_value-get :
    (m : List (String × Bool)) (k : String) → get m k ≡ some true → any_value m ≡ true
unfolding get any_value
any_value-get [] k h = ground arith
any_value-get ((j, v) ∷ m) k h = ground (arith, any_value-get m k)
