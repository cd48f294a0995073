-- ===== src/Ledger/Validate/Totals.antt =====
-- Totals by currency: what they hold, and when all of them are zero.
use financial_engineering_sk.Prelude.{
  ◌≡◌, refl, List, [], ◌∷◌, String, arith, eq_iff, ◌==◌, string_eq, int_eq, if◌then◌else◌, keep,
  All,
}
use financial_engineering_sk.Prelude.Dict.{lookup_or, lookup-insert, UniqueKeys}
use financial_engineering_sk.Prelude.Int.{ℤ, pos, ◌+ℤ◌, int_beq_iff}
use financial_engineering_sk.Ledger.Record.{Posting}
use financial_engineering_sk.Ledger.Validate.{Totals, add_total, nonzero}

-- The sum of the amounts in one currency.
abbrev pub currency_total : String → List Posting → ℤ
currency_total c [] = pos 0
currency_total c (p ∷ ps) =
    let rest = currency_total c ps in if p.currency == c then p.amount_minor +ℤ rest else rest

abbrev pub IsBalanced : List Posting → Type 0
IsBalanced ps = (c : String) → currency_total c ps ≡ pos 0

abbrev pub total_of : String → Totals → ℤ
total_of = lookup_or (pos 0)

pub total_of-add_total :
    (c d : String) (n : ℤ) (t : Totals)
    → total_of c (add_total d n t) ≡ (if d == c then total_of c t +ℤ n else total_of c t)
total_of-add_total c d n t = ground (arith, lookup-insert d c (total_of d t +ℤ n) t, eq_iff d c)

module _ (c : String) where
  pub total_of_zero : (t : Totals) → All (λ (e : String × ℤ). e.1 ≡ pos 0) t → total_of c t ≡ pos 0
  total_of_zero [] h = refl
  total_of_zero ((d, n) ∷ t) h = ground (arith, total_of_zero t h.1)

pub every_total_is_zero :
    (t : Totals)
    → UniqueKeys t
    → ((c : String) → total_of c t ≡ pos 0)
    → All (λ (e : String × ℤ). e.1 ≡ pos 0) t
every_total_is_zero [] u h = tt
every_total_is_zero ((d, n) ∷ t) u h = (
  ground (arith, h d, eq_iff d d),
  every_total_is_zero t u.1 (λ c. ground (arith, h c, eq_iff d c)),
)

pub nothing_kept : (t : Totals) → keep nonzero t ≡ [] → All (λ (e : String × ℤ). e.1 ≡ pos 0) t
nothing_kept [] h = tt
nothing_kept ((d, n) ∷ t) h = ground (arith, nothing_kept t, int_beq_iff n (pos 0))

pub zeros_are_dropped : (t : Totals) → All (λ (e : String × ℤ). e.1 ≡ pos 0) t → keep nonzero t ≡ []
zeros_are_dropped [] h = refl
zeros_are_dropped ((d, n) ∷ t) h = ground (arith, zeros_are_dropped t h.1, int_beq_iff n (pos 0))
