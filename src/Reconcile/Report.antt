-- ===== src/Reconcile/Report.antt =====
-- ledger.py: the rules that the report is held to, and `_envelope`, its own shape.
use financial_engineering_sk.Prelude.{
  Bool, true, false, ◌&&◌, List, [], ◌∷◌, ◌++◌, String, ◌==◌, string_eq, int_eq, if◌then◌else◌,
}
use financial_engineering_sk.Prelude.Int.{ℤ, pos, abs}
use financial_engineering_sk.Prelude.Text.{is_blank}
use financial_engineering_sk.Value.{Value, Fields, none_value, int, str, list, get, field_or}
use financial_engineering_sk.Prose.{Prose, text, shown, class_of}
use financial_engineering_sk.Ledger.Record.{AttributionArg}
use financial_engineering_sk.Reconcile.Break.{Break}

abbrev pub not_an_identifier : Value → Bool
not_an_identifier (str s) = is_blank s
not_an_identifier _ = true

abbrev pub not_an_amount : Value → Bool
not_an_amount (int n) = false
not_an_amount _ = true

-- value if isinstance(value, str) else default
abbrev pub text_else : Value → Value → Value
text_else default (str s) = str s
text_else default _ = default

unfoldable pub stake : String → ℤ → List (String × ℤ)
unfolding abs
stake currency minor = if minor == pos 0 then [] else (currency, abs minor) ∷ []

-- A break with nothing at stake and no deltas.
abbrev pub structural : String → AttributionArg → Prose → Break
structural kind here detail = record {
  kind = kind;
  attribution = here;
  detail = detail;
  at_stake = [];
  deltas = [];
}

-- Attribution(batch_id = …, currency = …)
abbrev pub of_report : Value → Value → AttributionArg
of_report batch currency = record {
  settlement_id = str "";
  charge_id = str "";
  batch_id = batch;
  currency = currency;
}

abbrev pub report_batch : Fields → Value
report_batch report = field_or (str "report") "batch_id" report

abbrev pub report_currency : Fields → Value
report_currency report = field_or (str "") "currency" report

abbrev pub report_here : Fields → AttributionArg
report_here report =
    of_report (text_else (str "report") (report_batch report))
      (text_else (str "") (report_currency report))

unfoldable pub name_breaks : AttributionArg → String → Value → List Break
name_breaks here name value =
    if not_an_identifier value
    then structural "report_envelope" here (
        text "the report's "
        ∷ text name
        ∷ text " is "
        ∷ shown value
        ∷ text ", not an identifier"
        ∷ [])
      ∷ []
    else []

unfoldable pub total_breaks : AttributionArg → Value → List Break
total_breaks here none_value =
    structural "report_total" here
      (text "the report declares no total, so its lines answer to nothing" ∷ [])
    ∷ []
total_breaks here declared =
    if not_an_amount declared
    then structural "report_total" here
        (text "the declared total " ∷ shown declared ∷ text " is not an integer minor amount" ∷ [])
      ∷ []
    else []

unfoldable pub lines_breaks : AttributionArg → Value → List Break
lines_breaks here (list lines) = []
lines_breaks here lines =
    structural "report_envelope" here
      (text "`lines` is a " ∷ class_of lines ∷ text ", not a list of lines" ∷ [])
    ∷ []

abbrev pub is_list : Value → Bool
is_list (list lines) = true
is_list _ = false

abbrev pub none_of : List Break → Bool
none_of [] = true
none_of (_ ∷ _) = false

pub record Envelope : Type 0 where
  pub breaks : List Break
  pub readable : Bool
  pub comparable : Bool

-- `_envelope`: the breaks of the report's own shape, and whether its lines can be read and compared.
unfoldable pub envelope : Fields → Envelope
unfolding name_breaks total_breaks lines_breaks
envelope report =
    let here = report_here report in
    let found =
      name_breaks here "batch_id" (report_batch report)
      ++ (name_breaks here "currency" (report_currency report)
          ++ total_breaks here (get "total_net_minor" report)) in
    let lines = get "lines" report in
    record {
      breaks = found ++ lines_breaks here lines;
      readable = is_list lines;
      comparable = is_list lines && none_of found;
    }
