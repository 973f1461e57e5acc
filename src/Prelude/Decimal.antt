-- ===== src/Prelude/Decimal.antt =====
-- Python's `str(n)` of a natural number, and `+` on texts.
use Prim.Native.Nat.{ℕ, zero, suc, ◌/◌, ◌%◌}
use Prim.Native.String.{String}
use Prim.Native.Char.{code}
use mathlib.Core.Path.{◌≡◌, refl, ap, ◌∙◌}
use mathlib.Core.Bool.{Bool, true, false}
use native.Mathlib.Omega.{arith}
use text.Mathlib.TextLemmas.{cons-append, nil-append}
use claude_tts.Prelude.Tests.{ltb, leb, ◌==◌, if◌then◌else◌, by_test}
pub use Prim.Native.String.{◌++◌ as ◌+++◌}

digit : ℕ → String
digit n =
    if n == 0
    then "0"
    else if n == 1
    then "1"
    else if n == 2
    then "2"
    else if n == 3
    then "3"
    else if n == 4
    then "4"
    else if n == 5
    then "5"
    else if n == 6
    then "6"
    else if n == 7
    then "7"
    else if n == 8
    then "8"
    else "9"

-- the digits, last one first out; a number has fewer digits than the fuel
pub digits : ℕ → ℕ → String
unfolding digit
digits zero n = ""
digits (suc fuel) n =
    let front = digits fuel (n / 10) in if ltb n 10 then digit n else front +++ digit (n % 10)

unfoldable pub decimal : ℕ → String
unfolding digits
decimal n = digits (suc n) n

-- the text is not empty, and no letter comes first
abbrev pub starts_low : String → Bool
starts_low String.[] = false
starts_low (String.◌∷◌ c s) = leb (code c) 57

pub starts_low-append : (s t : String) → starts_low s ≡ true → starts_low (s +++ t) ≡ true
starts_low-append String.[] t wrong = absurd (ground (arith, wrong))
starts_low-append (String.◌∷◌ c s) t low = ap starts_low (cons-append c s t) ∙ low

starts_low_if :
    (b : Bool) (u v : String)
    → starts_low u ≡ true
    → starts_low v ≡ true
    → starts_low (if b then u else v) ≡ true
starts_low_if true u v low low' = low
starts_low_if false u v low low' = low'

starts_low-digit : (n : ℕ) → starts_low (digit n) ≡ true
unfolding digit
starts_low-digit n = starts_low_if (n == 0) "0" _ refl (
    starts_low_if (n == 1) "1" _ refl (
      starts_low_if (n == 2) "2" _ refl (
        starts_low_if (n == 3) "3" _ refl (
          starts_low_if (n == 4) "4" _ refl (
            starts_low_if (n == 5) "5" _ refl (
              starts_low_if (n == 6) "6" _ refl
                (starts_low_if (n == 7) "7" _ refl (starts_low_if (n == 8) "8" _ refl (refl)))))))))

starts_low-digits : (fuel n : ℕ) → starts_low (digits (suc fuel) n) ≡ true
unfolding digits
starts_low-digits zero n =
    by_test (λ s. starts_low s ≡ true) (ltb n 10) (digit n) ("" +++ digit (n % 10))
      (λ _. starts_low-digit n)
      (λ _. ap starts_low (nil-append (digit (n % 10))) ∙ starts_low-digit (n % 10))
starts_low-digits (suc fuel) n =
    by_test (λ s. starts_low s ≡ true) (ltb n 10) (digit n)
      (digits (suc fuel) (n / 10) +++ digit (n % 10)) (λ _. starts_low-digit n)
      (λ _.
        starts_low-append (digits (suc fuel) (n / 10)) (digit (n % 10))
          (starts_low-digits fuel (n / 10)))

-- A decimal starts with a digit.
pub starts_low-decimal : (n : ℕ) → starts_low (decimal n) ≡ true
unfolding decimal
starts_low-decimal n = starts_low-digits n n
