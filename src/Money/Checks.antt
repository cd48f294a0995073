-- ===== src/Money/Checks.antt =====
-- What the checks of money.py accept, exactly.
use financial_engineering_sk.Prelude.{
  ◌≡◌, ◌↔◌, true, false, String, arith, ok, ap, ◌==◌, string_eq, eq_iff, ne_test,
}
use financial_engineering_sk.Prelude.Int.{ℤ, pos, ◌≤ℤ◌}
use financial_engineering_sk.Prelude.Text.{is_blank, is_alpha, is_upper, text_length}
use financial_engineering_sk.Value.{Value, int, str}
use financial_engineering_sk.Money.{
  validated_amount, validated_component, validated_identifier, validated_currency,
}

-- An amount is accepted exactly if it is an `int`, no `bool`, of at least 1, and comes back as is.
pub validated_amount_iff :
    (v : Value) (n : ℤ) → (validated_amount v ≡ ok n) ↔ ((v ≡ int n) × (pos 1 ≤ℤ n))
unfolding validated_amount
validated_amount_iff (int m) n = (λ h. ground arith, λ h. ground arith)
validated_amount_iff v n = (λ h. cc, λ h. cc h.0)

-- A settled component is accepted exactly if it is an `int`, no `bool`, of at least 0, and comes
-- back as is.
pub validated_component_iff :
    (v : Value) (n : ℤ) → (validated_component v ≡ ok n) ↔ ((v ≡ int n) × (pos 0 ≤ℤ n))
unfolding validated_component
validated_component_iff (int m) n = (λ h. ground arith, λ h. ground arith)
validated_component_iff v n = (λ h. cc, λ h. cc h.0)

-- A name is accepted exactly if it is a text with a character that is no whitespace, and comes
-- back as is.
pub validated_identifier_iff :
    (v : Value) (s : String)
    → (validated_identifier v ≡ ok s) ↔ ((v ≡ str s) × (is_blank s ≡ false))
unfolding validated_identifier
validated_identifier_iff (str t) s = (λ h. ground arith, λ h. ground arith)
validated_identifier_iff v s = (λ h. cc, λ h. cc h.0)

-- What a currency code is: three letters, all of them capitals.
abbrev pub IsCurrency : String → Type 0
IsCurrency s = (text_length s ≡ 3) × (is_alpha s ≡ true) × (is_upper s ≡ true)

text_of : {t s : String} → str t ≡ str s → t ≡ s
text_of h = cc

currency_accepted : (t : String) → IsCurrency t → validated_currency (str t) ≡ ok t
unfolding validated_currency
currency_accepted t h =
    let filled : (t == "") ≡ false = ne_test t "" (λ p. omega (arith, ap text_length p, h.0)) in
    rw (filled, h.1, h.2) (ground (arith, h.0))

currency_of : (t s : String) → t ≡ s → IsCurrency s → validated_currency (str t) ≡ ok s
currency_of t s p h = rw p (currency_accepted s h)

-- A currency is accepted exactly if it is a text of three capital letters, and comes back as is.
pub validated_currency_iff :
    (v : Value) (s : String) → (validated_currency v ≡ ok s) ↔ ((v ≡ str s) × IsCurrency s)
unfolding validated_currency
validated_currency_iff (str t) s =
    (λ h. ground (arith, eq_iff t ""), λ h. currency_of t s (text_of h.0) h.1)
validated_currency_iff v s = (λ h. cc, λ h. cc h.0)
