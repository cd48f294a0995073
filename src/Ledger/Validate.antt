-- ===== src/Ledger/Validate.antt =====
-- ledger.py, `Ledger._validated`: what a posting set has to be before it becomes an entry.
pub mod Totals
pub mod Balanced
use financial_engineering_sk.Prelude.{
  ◌≡◌, Bool, true, false, not, List, [], ◌∷◌, String, ◌==◌, string_eq, int_eq, if◌then◌else◌,
  Result, ok, err, unbalanced, and_then, sorted, by_key, keep,
}
use financial_engineering_sk.Prelude.Dict.{Dict, lookup_or, insert}
use financial_engineering_sk.Prelude.Int.{ℤ, pos, ◌+ℤ◌}
use financial_engineering_sk.Value.{Value, none_value, bool, int, str, list, tuple, dict, other}
use financial_engineering_sk.Money.{validated_currency}
use financial_engineering_sk.Ledger.Record.{Posting, PostingArg}

abbrev pub Totals : Type 0
Totals = Dict String ℤ

-- totals[currency] = totals.get(currency, 0) + amount
abbrev pub add_total : String → ℤ → Totals → Totals
add_total currency amount totals =
    insert currency (lookup_or (pos 0) currency totals +ℤ amount) totals

-- isinstance(amount, int) and not isinstance(amount, bool)
abbrev pub integer_amount : Value → Result ℤ
integer_amount (int n) = ok n
integer_amount _ = err unbalanced

-- One posting's own checks.
unfoldable pub validated_posting : PostingArg → Result Posting
unfolding validated_currency
validated_posting p = and_then (integer_amount p.amount_minor) λ amount.
    and_then (validated_currency p.currency)
      λ currency. ok (record { account = p.account; currency = currency; amount_minor = amount })

-- The loop: the postings at their checked types, and the total of each currency.
unfoldable pub validated_loop : List PostingArg → Totals → Result (List Posting × Totals)
validated_loop [] totals = ok ([], totals)
validated_loop (p ∷ ps) totals = and_then (validated_posting p) λ q.
    and_then (validated_loop ps (add_total q.currency q.amount_minor totals)) λ r. ok (q ∷ r.0, r.1)

-- {c: t for c, t in sorted(totals.items()) if t != 0}
abbrev pub nonzero : String × ℤ → Bool
nonzero (c, t) = not (t == pos 0)

abbrev pub unbalanced_totals : Totals → Totals
unbalanced_totals totals = keep nonzero (sorted by_key totals)

abbrev pub refuse_unbalanced : List Posting → Totals → Result (List Posting)
refuse_unbalanced ps [] = ok ps
refuse_unbalanced ps (_ ∷ _) = err unbalanced

unfoldable pub validated : List PostingArg → Result (List Posting)
validated [] = err unbalanced
validated (p ∷ ps) =
    and_then (validated_loop (p ∷ ps) []) λ r. refuse_unbalanced r.0 (unbalanced_totals r.1)
