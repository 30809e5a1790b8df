-- ===== src/Prelude/Order.antt =====
-- Comparators as `sort_by` and `max_by` take them, and the laws that chains of them keep.
use Prim.Native.Nat.{Ordering, compare}
use Prim.Native.String.{String}
use Prim.Native.String as Text
use Prim.Native.String.compare
use mathlib.Core.Path.{◌≡◌, refl}
use mathlib.Core.Bool.{Bool, true, false}
use native.Mathlib.Omega.{arith}

-- `Ordering::reverse`.
abbrev pub reverse : Ordering → Ordering
reverse Ordering.lt = Ordering.gt
reverse Ordering.eq = Ordering.eq
reverse Ordering.gt = Ordering.lt

-- `Ordering::then_with`.
abbrev pub then : Ordering → Ordering → Ordering
then Ordering.lt o = Ordering.lt
then Ordering.eq o = o
then Ordering.gt o = Ordering.gt

-- The comparison does not say `Greater`.
abbrev pub not_greater : Ordering → Bool
not_greater Ordering.gt = false
not_greater _ = true

abbrev pub Comparator {ℓ} : Type ℓ → Type ℓ
Comparator A = A → A → Ordering

-- A total preorder.
pub record IsLawful {ℓ} {A : Type ℓ} (cmp : Comparator A) : Type ℓ where
  pub flip : (a b : A) → cmp b a ≡ reverse (cmp a b)
  pub equals : (a b c : A) → cmp a b ≡ Ordering.eq → cmp a c ≡ cmp b c
  pub trans : (a b c : A) → cmp a b ≡ Ordering.lt → cmp b c ≡ Ordering.lt → cmp a c ≡ Ordering.lt

pub compare-IsLawful : IsLawful compare
compare-IsLawful = record {
  flip = λ a b. ground arith;
  equals = λ a b c h. ground arith;
  trans = λ a b c h k. ground arith;
}

text_flip : (s t : String) → Text.compare t s ≡ reverse (Text.compare s t)
text_flip String.[] String.[] = refl
text_flip String.[] (String.◌∷◌ d t) = rw (compare.cons-nil d t, compare.nil-cons d t) refl
text_flip (String.◌∷◌ c s) String.[] = rw (compare.cons-nil c s, compare.nil-cons c s) refl
text_flip (String.◌∷◌ c s) (String.◌∷◌ d t) =
    rw (compare.cons-cons c d s t, compare.cons-cons d c t s) (ground (arith, text_flip s t))

text_equals :
    (s t u : String) → Text.compare s t ≡ Ordering.eq → Text.compare s u ≡ Text.compare t u
text_equals String.[] String.[] u h = refl
text_equals String.[] (String.◌∷◌ d t) u h = cc (rw (compare.nil-cons d t) at h)
text_equals (String.◌∷◌ c s) String.[] u h = cc (rw (compare.cons-nil c s) at h)
text_equals (String.◌∷◌ c s) (String.◌∷◌ d t) String.[] h =
    rw (compare.cons-nil c s, compare.cons-nil d t) refl
text_equals (String.◌∷◌ c s) (String.◌∷◌ d t) (String.◌∷◌ e u) h =
    let k = rw (compare.cons-cons c d s t) at h in
    rw (compare.cons-cons c e s u, compare.cons-cons d e t u) (ground (arith, text_equals s t u))

text_trans :
    (s t u : String)
    → Text.compare s t ≡ Ordering.lt
    → Text.compare t u ≡ Ordering.lt
    → Text.compare s u ≡ Ordering.lt
text_trans String.[] String.[] u h k = cc
text_trans String.[] (String.◌∷◌ d t) String.[] h k = cc (rw (compare.cons-nil d t) at k)
text_trans String.[] (String.◌∷◌ d t) (String.◌∷◌ e u) h k = compare.nil-cons e u
text_trans (String.◌∷◌ c s) String.[] u h k = cc (rw (compare.cons-nil c s) at h)
text_trans (String.◌∷◌ c s) (String.◌∷◌ d t) String.[] h k = cc (rw (compare.cons-nil d t) at k)
text_trans (String.◌∷◌ c s) (String.◌∷◌ d t) (String.◌∷◌ e u) h k =
    let h' = rw (compare.cons-cons c d s t) at h in
    let k' = rw (compare.cons-cons d e t u) at k in
    rw (compare.cons-cons c e s u) (ground (arith, text_trans s t u))

pub text-IsLawful : IsLawful Text.compare
text-IsLawful = record { flip = text_flip; equals = text_equals; trans = text_trans }

module _ {ℓ κ} {A : Type ℓ} {B : Type κ} where
  -- Comparing by a key, as `left.key.cmp(&right.key)`.
  abbrev pub on : Comparator B → (A → B) → Comparator A
  on cmp key left right = cmp (key left) (key right)

  pub on-IsLawful : {cmp : Comparator B} (key : A → B) → IsLawful cmp → IsLawful (on cmp key)
  on-IsLawful key v = record {
    flip = λ a b. v.flip (key a) (key b);
    equals = λ a b c h. v.equals (key a) (key b) (key c) h;
    trans = λ a b c h k. v.trans (key a) (key b) (key c) h k;
  }

module _ {ℓ} {A : Type ℓ} where
  -- `right.cmp(&left)`.
  abbrev pub descending : Comparator A → Comparator A
  descending cmp left right = cmp right left

  -- `first.then_with(|| second)`.
  abbrev pub then_by : Comparator A → Comparator A → Comparator A
  then_by first second left right = then (first left right) (second left right)

  pub descending-IsLawful : {cmp : Comparator A} → IsLawful cmp → IsLawful (descending cmp)
  descending-IsLawful {cmp} v = record {
    flip = λ a b. v.flip b a;
    equals = λ a b c h. ground (arith, v.equals b a c h, v.flip b c, v.flip a c);
    trans = λ a b c h k. v.trans c b a k h;
  }

  pub then_by-IsLawful :
      {first second : Comparator A}
      → IsLawful first
      → IsLawful second
      → IsLawful (then_by first second)
  then_by-IsLawful {first} {second} v w = record {
    flip = λ a b. ground (arith, v.flip a b, w.flip a b);
    equals = λ a b c h. ground (arith, v.equals a b c, w.equals a b c);
    trans = λ a b c h k. ground (
      arith,
      v.equals a b c,
      v.equals b c a,
      v.flip a b,
      v.flip a c,
      v.trans a b c,
      w.trans a b c,
    );
  }

-- In a total preorder, what is not greater one way is not greater in a chain.
module _ {ℓ} {A : Type ℓ} {cmp : Comparator A} (v : IsLawful cmp) where
  pub not_greater_total : (a b : A) → not_greater (cmp a b) ≡ false → not_greater (cmp b a) ≡ true
  not_greater_total a b h = ground (arith, v.flip a b)

  pub not_greater_trans :
      (a b c : A)
      → not_greater (cmp a b) ≡ true
      → not_greater (cmp b c) ≡ true
      → not_greater (cmp a c) ≡ true
  not_greater_trans a b c h k =
      ground (arith, v.equals a b c, v.equals b c a, v.flip a b, v.flip a c, v.trans a b c)
