-- ===== src/Money.antt =====
-- examples/payment-ledger-reconciliation/money.py: the checks of amounts, currencies and names,
-- and the scope that a counterparty is asked in. `validated_amount` and the others raise; the
-- value that they return is at its checked type here.
pub mod Checks
use financial_engineering_sk.Prelude.{
  ◌≡◌, Bool, true, false, not, ◌&&◌, ◌||◌, List, [], ◌∷◌, String, ◌⧺◌, ◌==◌, nat_eq, string_eq,
  if◌then◌else◌, Result, ok, err, invalid_amount, invalid_currency, invalid_identifier,
}
use financial_engineering_sk.Prelude.Int.{ℤ, pos, leb_ℤ, ltb_ℤ}
use financial_engineering_sk.Prelude.Text.{is_blank, is_alpha, is_upper, text_length}
use financial_engineering_sk.Value.{Value, none_value, bool, int, str, list, tuple, dict, other}

unfoldable pub validated_amount : Value → Result ℤ
validated_amount (bool b) = err invalid_amount
validated_amount (int n) = if leb_ℤ n (pos 0) then err invalid_amount else ok n
validated_amount _ = err invalid_amount

unfoldable pub validated_component : Value → Result ℤ
validated_component (bool b) = err invalid_amount
validated_component (int n) = if ltb_ℤ n (pos 0) then err invalid_amount else ok n
validated_component _ = err invalid_amount

unfoldable pub validated_identifier : Value → Result String
validated_identifier (bool b) = err invalid_identifier
validated_identifier (str s) = if is_blank s then err invalid_identifier else ok s
validated_identifier _ = err invalid_identifier

unfoldable pub validated_currency : Value → Result String
validated_currency (str s) =
    if s == ""
    then err invalid_currency
    else if not (text_length s == 3) || not (is_alpha s && is_upper s)
    then err invalid_currency
    else ok s
validated_currency _ = err invalid_currency

pub record AuthorityScope : Type 0 where
  pub provider : String
  pub account : String
  pub region : String
  pub backend_id : String

abbrev pub fields : AuthorityScope → List String
fields a = a.provider ∷ a.account ∷ a.region ∷ a.backend_id ∷ []

unfoldable pub describe : AuthorityScope → String
describe a =
    a.provider
    ⧺ "/"
    ⧺ a.account
    ⧺ "/"
    ⧺ a.region
    ⧺ "#"
    ⧺ (if a.backend_id == "" then "unbound" else a.backend_id)
