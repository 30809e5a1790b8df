-- ===== src/Prelude/Text.antt =====
-- What the program uses of Rust's `str`: trimming tests, prefixes, characters and decimal output.
use Prim.Native.Char.{code}
use Prim.Native.Nat.{ℕ, zero, suc, ◌/◌, ◌%◌, ◌<◌}
use Prim.Native.String.{String, slice, len, ◌++◌}
use mathlib.Core.Bool.{Bool, true, ◌&&◌, ◌||◌}
use mathlib.Core.List.{List, [], ◌∷◌}
use mathlib.Core.Option.{Option, some}
use mathlib.Core.Path.{◌≡◌, refl}
use text.Mathlib.Text.{starts_with, when}
use text.Mathlib.TextPositions.{starts_with-append, slice-append_right, len-append}
use native.Mathlib.Omega.{arith}
use niu_ma_notifier.Prelude.Tests.{leb, nat_beq, if◌then◌else◌}

-- `char::is_whitespace`: the code points with the Unicode property White_Space.
unfoldable pub is_whitespace : ℕ → Bool
is_whitespace c =
    (leb 9 c && leb c 13)
    || (nat_beq c 32
        || (nat_beq c 0x85
            || (nat_beq c 0xa0
                || (nat_beq c 0x1680
                    || ((leb 0x2000 c && leb c 0x200a)
                        || (nat_beq c 0x2028
                            || (nat_beq c 0x2029
                                || (nat_beq c 0x202f
                                    || (nat_beq c 0x205f || nat_beq c 0x3000)))))))))

-- `value.trim().is_empty()`: no character but white space.
unfoldable pub is_blank : String → Bool
unfolding is_whitespace
is_blank String.[] = true
is_blank (String.◌∷◌ c s) = is_whitespace (code c) && is_blank s

-- `value.trim_start()`.
unfoldable pub trim_start : String → String
unfolding is_whitespace
trim_start String.[] = String.[]
trim_start (String.◌∷◌ c s) = if is_whitespace (code c) then trim_start s else String.◌∷◌ c s

-- `value.trim_end()`.
unfoldable pub trim_end : String → String
trim_end String.[] = String.[]
trim_end (String.◌∷◌ c s) =
    if is_blank (String.◌∷◌ c s) then String.[] else String.◌∷◌ c (trim_end s)

-- `value.trim()`.
unfoldable pub trim : String → String
trim value = trim_end (trim_start value)

-- `value.chars().take(n).collect()`.
unfoldable pub take_chars : ℕ → String → String
take_chars zero s = String.[]
take_chars (suc n) String.[] = String.[]
take_chars (suc n) (String.◌∷◌ c s) = String.◌∷◌ c (take_chars n s)

-- `value.strip_prefix(prefix)`.
unfoldable pub strip_prefix : String → String → Option String
strip_prefix value prefix = when (starts_with value prefix) (slice value (len prefix) (len value))

-- Stripping a prefix that was put in front gives the rest back.
pub strip_prefix-append : (p s : String) → strip_prefix (p ++ s) p ≡ some s
unfolding strip_prefix
strip_prefix-append p s = rw (starts_with-append p s, len-append p s, slice-append_right p s)

-- `format!`, from its pieces in order.
unfoldable pub format : List String → String
format [] = ""
format (s ∷ pieces) = s ++ format pieces

-- A decimal digit as text.
unfoldable pub digit : ℕ → String
digit zero = "0"
digit (suc zero) = "1"
digit (suc (suc zero)) = "2"
digit (suc (suc (suc zero))) = "3"
digit (suc (suc (suc (suc zero)))) = "4"
digit (suc (suc (suc (suc (suc zero))))) = "5"
digit (suc (suc (suc (suc (suc (suc zero)))))) = "6"
digit (suc (suc (suc (suc (suc (suc (suc zero))))))) = "7"
digit (suc (suc (suc (suc (suc (suc (suc (suc zero)))))))) = "8"
digit n = "9"

-- The digits of a number before `acc`.
unfoldable pub decimal_digits : ℕ → ℕ → String → String
unfolding digit
decimal_digits zero n acc = acc
decimal_digits (suc fuel) n acc =
    let rest = decimal_digits fuel (n / 10) (digit (n % 10) ++ acc) in
    if leb n 9 then digit n ++ acc else rest

-- The decimal output of an integer that is not negative. A number has no more digits than `suc n`.
unfoldable pub decimal : ℕ → String
unfolding decimal_digits
decimal n = decimal_digits (suc n) n ""

-- More fuel than the number changes nothing.
pub decimal_digits_fuel :
    (f g n : ℕ) (acc : String) → n < f → n < g → decimal_digits f n acc ≡ decimal_digits g n acc
unfolding decimal_digits
decimal_digits_fuel zero g n acc h k = absurd (omega arith)
decimal_digits_fuel (suc f) zero n acc h k = absurd (omega arith)
decimal_digits_fuel (suc f) (suc g) n acc h k =
    ground (arith, decimal_digits_fuel f g (n / 10) (digit (n % 10) ++ acc))

decimal_example : decimal 1700000000123 ≡ "1700000000123"
unfolding decimal
decimal_example = refl
