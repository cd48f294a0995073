-- ===== src/Prelude/Decimal.antt =====
-- The decimal numeral of a number inside an f-string, and that no two numbers share one.
use Prim.Native.Nat.{ℕ, zero, suc, ◌+◌, ◌-◌, ◌*◌, ◌/◌, ◌%◌, ◌<◌}
use Prim.Native.Char.{Char, code}
use Prim.Native.String.{String}
use mathlib.Core.Path.{◌≡◌, refl, ap, sym, ◌∙◌}
use native.Mathlib.Omega.{arith}
use financial_engineering_sk.Prelude.Tests.{ltb, if◌then◌else◌, Bool-cases}
use mathlib.Core.Logic.{inl, inr}

digit : ℕ → Char
digit zero = "0"
digit (suc zero) = "1"
digit (suc (suc zero)) = "2"
digit (suc (suc (suc zero))) = "3"
digit (suc (suc (suc (suc zero)))) = "4"
digit (suc (suc (suc (suc (suc zero))))) = "5"
digit (suc (suc (suc (suc (suc (suc zero)))))) = "6"
digit (suc (suc (suc (suc (suc (suc (suc zero))))))) = "7"
digit (suc (suc (suc (suc (suc (suc (suc (suc zero)))))))) = "8"
digit (suc (suc (suc (suc (suc (suc (suc (suc (suc n))))))))) = "9"

-- The numeral of `n` before `rest`; the fuel is one for each digit.
digits : ℕ → ℕ → String → String
digits zero n rest = rest
digits (suc fuel) n rest =
    let longer = digits fuel (n / 10) (String.◌∷◌ (digit (n % 10)) rest) in
    if ltb n 10 then String.◌∷◌ (digit n) rest else longer

-- str(n)
unfoldable pub decimal : ℕ → String
unfolding digits digit
decimal n = digits (suc n) n String.[]

-- The number that a numeral stands for, after the digits of `n`.
value : ℕ → String → ℕ
value n String.[] = n
value n (String.◌∷◌ c s) = value (n * 10 + (code c - 48)) s

code-digit : (d : ℕ) → d < 10 → code (digit d) - 48 ≡ d
unfolding digit
code-digit zero h = refl
code-digit (suc zero) h = refl
code-digit (suc (suc zero)) h = refl
code-digit (suc (suc (suc zero))) h = refl
code-digit (suc (suc (suc (suc zero)))) h = refl
code-digit (suc (suc (suc (suc (suc zero))))) h = refl
code-digit (suc (suc (suc (suc (suc (suc zero)))))) h = refl
code-digit (suc (suc (suc (suc (suc (suc (suc zero))))))) h = refl
code-digit (suc (suc (suc (suc (suc (suc (suc (suc zero)))))))) h = refl
code-digit (suc (suc (suc (suc (suc (suc (suc (suc (suc n))))))))) h = omega arith

value-digits : (fuel n : ℕ) (rest : String) → n < fuel → value 0 (digits fuel n rest) ≡ value n rest
unfolding digits value
value-digits zero n rest h = elim h [ ]
value-digits (suc fuel) n rest h = elim (Bool-cases (ltb n 10)) [
  | inl small ↦ rw small (ap (λ (m : ℕ). value m rest) (omega (arith, code-digit n (ground arith))))
  | inr large ↦ rw large (
      value-digits fuel (n / 10) (String.◌∷◌ (digit (n % 10)) rest) (ground arith)
      ∙ ap (λ (m : ℕ). value m rest) (omega (arith, code-digit (n % 10) (omega arith))))
]

value-decimal : (n : ℕ) → value 0 (decimal n) ≡ n
unfolding decimal value
value-decimal n = value-digits (suc n) n String.[] (omega arith)

pub decimal_injective : (m n : ℕ) → decimal m ≡ decimal n → m ≡ n
decimal_injective m n h = sym (value-decimal m) ∙ ap (value 0) h ∙ value-decimal n

abbrev pub zero_digit : Char
zero_digit = "0"

-- f"{n:03d}"
unfoldable pub padded : ℕ → String
padded n =
    if ltb n 10
    then String.◌∷◌ zero_digit (String.◌∷◌ zero_digit (decimal n))
    else if ltb n 100
    then String.◌∷◌ zero_digit (decimal n)
    else decimal n

value-padded : (n : ℕ) → value 0 (padded n) ≡ n
unfolding padded value
value-padded n =
    let plain = value-decimal n in
    elim (Bool-cases (ltb n 10)) [
      | inl e ↦ rw e plain
      | inr e ↦ elim (Bool-cases (ltb n 100)) [ inl d ↦ rw (e, d) plain | inr d ↦ rw (e, d) plain ]
    ]

pub padded_injective : (m n : ℕ) → padded m ≡ padded n → m ≡ n
padded_injective m n h = sym (value-padded m) ∙ ap (value 0) h ∙ value-padded n

decimal_test : decimal 10732 ≡ "10732"
unfolding decimal
decimal_test = refl

padded_test : padded 7 ≡ "007"
unfolding padded decimal
padded_test = refl
