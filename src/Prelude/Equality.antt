-- ===== src/Prelude/Equality.antt =====
-- Rust's `PartialEq` as an interface: a Boolean test that decides equality.
use Prim.Native.Nat.{ℕ}
use Prim.Native.String.{String}
use mathlib.Core.Path.{◌≡◌, refl, sym, ap, ◌∙◌}
use mathlib.Core.Logic.{◌↔◌}
use mathlib.Core.Bool.{Bool, true, false, false≢true}
use mathlib.Core.Option.{Option, none, some}
use native.Mathlib.Omega.{arith}
use text.Mathlib.Text.{◌==◌ as str_eq}
use text.Mathlib.TextEquality.{eq_iff}
use niu_ma_notifier.Prelude.Tests.{nat_beq, nat_beq_iff}

pub record PartialEq {ℓ} (A : Type ℓ) : Type ℓ where
  pub is_equal : A → A → Bool
  pub decides : (a b : A) → (is_equal a b ≡ true) ↔ (a ≡ b)

instance abbrev pub nat_eq : PartialEq ℕ
nat_eq = record { is_equal = nat_beq; decides = nat_beq_iff }

-- `str` compares by its characters.
instance abbrev pub string_eq : PartialEq String
string_eq = record { is_equal = str_eq; decides = eq_iff }

infix 50 ◌==◌
abbrev pub ◌==◌ {ℓ} : {T : Type ℓ} ⦃law : PartialEq T⦄ (left right : T) → Bool
◌==◌ ⦃law⦄ left right = law.is_equal left right

module _ {ℓ} {A : Type ℓ} ⦃e : PartialEq A⦄ where
  abbrev pub option_beq : Option A → Option A → Bool
  option_beq none none = true
  option_beq none (some b) = false
  option_beq (some a) none = false
  option_beq (some a) (some b) = e.is_equal a b

  pub option_beq_iff : (a b : Option A) → (option_beq a b ≡ true) ↔ (a ≡ b)
  option_beq_iff none none = (λ h. refl, λ h. refl)
  option_beq_iff none (some b) = (λ h. ground arith, λ h. ground arith)
  option_beq_iff (some a) none = (λ h. ground arith, λ h. ground arith)
  option_beq_iff (some a) (some b) =
      (λ h. ap some ((e.decides a b).0 h), λ h. (e.decides a b).1 (ground arith))

  instance abbrev pub option_eq : PartialEq (Option A)
  option_eq = record { is_equal = option_beq; decides = option_beq_iff }

  pub eq_refl : (a : A) → (a == a) ≡ true
  eq_refl a = (e.decides a a).1 refl

  dec_of_test : (a b : A) (t : Bool) → e.is_equal a b ≡ t → Dec (a ≡ b)
  dec_of_test a b true h = yes ((e.decides a b).0 h)
  dec_of_test a b false h = no (λ p. false≢true (sym h ∙ (e.decides a b).1 p))

  -- A lawful test decides equality.
  unfoldable pub discrete_of_eq : Discrete A
  unfolding dec_of_test
  discrete_of_eq a b = dec_of_test a b (e.is_equal a b) refl
