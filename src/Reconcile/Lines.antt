-- ===== src/Reconcile/Lines.antt =====
-- ledger.py, `_report_lines`: each line's shape and arithmetic, before anything is compared.
use financial_engineering_sk.Prelude.{
  Bool, not, List, [], ◌∷◌, ◌++◌, String, ◌==◌, string_eq, int_eq, if◌then◌else◌,
}
use financial_engineering_sk.Prelude.Dict.{Dict}
use financial_engineering_sk.Prelude.Int.{ℤ, pos}
use financial_engineering_sk.Value.{Value, Fields, int, str, get, field_or, truth, is_none}
use financial_engineering_sk.Prose.{Prose, text, shown}
use financial_engineering_sk.Ledger.Record.{AttributionArg}
use financial_engineering_sk.Ledger.Validate.{Totals}
use financial_engineering_sk.Reconcile.Break.{Break}
use financial_engineering_sk.Reconcile.Report.{not_an_identifier, not_an_amount, text_else}
use financial_engineering_sk.Reconcile.Rows.{add}

-- A line that can be compared.
pub record Line : Type 0 where
  pub charge_id : String
  pub batch_id : String
  pub currency : String
  pub gross_minor : ℤ
  pub fee_minor : ℤ
  pub net_minor : ℤ

-- What the loop has gathered.
pub record Gathered : Type 0 where
  pub breaks : List Break
  pub lines : Dict String Line
  pub net_by_currency : Totals
  pub duplicate_by_currency : Totals
  pub unreadable : List String

abbrev pub nothing_gathered : Gathered
nothing_gathered = record {
  breaks = [];
  lines = [];
  net_by_currency = [];
  duplicate_by_currency = [];
  unreadable = [];
}

-- [prose of (k, v) for (k, v) in pairs if test(v)], joined by commas
abbrev pub comma : Prose → Prose → Prose
comma [] later = later
comma piece [] = piece
comma piece later = piece ++ text ", " ∷ later

abbrev pub complaints : (Value → Bool) → (String → Value → Prose) → List (String × Value) → Prose
complaints test say [] = []
complaints test say ((k, v) ∷ pairs) =
    let rest = complaints test say pairs in if test v then comma (say k v) rest else rest

abbrev pub say_name : String → Value → Prose
say_name k v = text k ∷ []

abbrev pub say_value : String → Value → Prose
say_value k v = text k ∷ text " is " ∷ shown v ∷ []

-- The parts of a line as values.
pub record RawLine : Type 0 where
  pub settlement_id : Value
  pub charge_id : Value
  pub batch_id : Value
  pub currency : Value
  pub gross : Value
  pub fee : Value
  pub net : Value
  -- the identity that its breaks carry
  pub identity : String
  pub here : AttributionArg

-- isinstance(raw, str) and raw
abbrev pub identity_or : String → Value → String
identity_or unidentified (str s) = if s == "" then unidentified else s
identity_or unidentified _ = unidentified

unfoldable pub raw_line : String → Value → Value → Fields → RawLine
raw_line unidentified default_batch default_currency line =
    let currency = field_or default_currency "currency" line in
    let identity = identity_or unidentified (get "settlement_id" line) in
    record {
      settlement_id = get "settlement_id" line;
      charge_id = get "charge_id" line;
      batch_id = field_or default_batch "batch_id" line;
      currency = currency;
      gross = get "gross_minor" line;
      fee = get "fee_minor" line;
      net = get "net_minor" line;
      identity = identity;
      here = record {
        settlement_id = str identity;
        charge_id = text_else (str "") (get "charge_id" line);
        batch_id = text_else default_batch (get "batch_id" line);
        currency = text_else (str "") currency;
      };
    }

abbrev pub money_fields : RawLine → List (String × Value)
money_fields r = ("gross_minor", r.gross) ∷ ("fee_minor", r.fee) ∷ ("net_minor", r.net) ∷ []

unfoldable pub missing_fields : RawLine → Prose
missing_fields r =
    comma
      (complaints (λ v. not (truth v)) say_name
        (("settlement_id", r.settlement_id) ∷ ("charge_id", r.charge_id) ∷ []))
      (complaints is_none say_name (money_fields r))

unfoldable pub unnamed_fields : RawLine → Prose
unnamed_fields r = complaints not_an_identifier say_value (
    ("settlement_id", r.settlement_id)
    ∷ ("charge_id", r.charge_id)
    ∷ ("batch_id", r.batch_id)
    ∷ ("currency", r.currency)
    ∷ [])

unfoldable pub bad_amounts : RawLine → Prose
bad_amounts r = complaints not_an_amount say_value (money_fields r)

-- A break about a line that cannot be compared to anything.
unfoldable pub unread : Gathered → RawLine → String → Prose → List (String × ℤ) → Gathered
unread g r kind detail at_stake = record g {
  breaks =
      g.breaks
      ++ (record {
        kind = kind;
        attribution = r.here;
        detail = detail;
        at_stake = at_stake;
        deltas = [];
      })
        ∷ [];
  unreadable = add r.identity g.unreadable;
}

-- The text of a value that has been checked to be one, and its number.
abbrev pub text_of : Value → String
text_of (str s) = s
text_of _ = ""

abbrev pub number_of : Value → ℤ
number_of (int n) = n
number_of _ = pos 0

unfoldable pub line_of : RawLine → Line
line_of r = record {
  charge_id = text_of r.charge_id;
  batch_id = text_of r.batch_id;
  currency = text_of r.currency;
  gross_minor = number_of r.gross;
  fee_minor = number_of r.fee;
  net_minor = number_of r.net;
}
