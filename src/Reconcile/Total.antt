-- ===== src/Reconcile/Total.antt =====
-- ledger.py, `_total_break`: the declared total against the lines.
use financial_engineering_sk.Prelude.{
  List, [], ◌∷◌, ◌++◌, map, Option, none, some, String, ◌==◌, string_eq, int_eq, if◌then◌else◌,
  sorted, by_key,
}
use financial_engineering_sk.Prelude.Dict.{lookup_or}
use financial_engineering_sk.Prelude.Int.{ℤ, pos, abs, ◌+ℤ◌, ◌-ℤ◌, leb_ℤ}
use financial_engineering_sk.Value.{Value, Fields, int, str, get}
use financial_engineering_sk.Prose.{Prose, text, number}
use financial_engineering_sk.Ledger.Validate.{Totals}
use financial_engineering_sk.Reconcile.Break.{Break}
use financial_engineering_sk.Reconcile.Report.{
  not_an_identifier, text_else, stake, of_report, report_batch, report_currency,
}
use financial_engineering_sk.Reconcile.Lines.{comma}

abbrev total_break_of : Value → String → Prose → List (String × ℤ) → Break
total_break_of batch currency detail at_stake = record {
  kind = "report_total";
  attribution = of_report batch (str currency);
  detail = detail;
  at_stake = at_stake;
  deltas = [];
}

abbrev pub say_nets : Totals → Prose
say_nets [] = []
say_nets ((c, n) ∷ nets) = comma (text c ∷ text " " ∷ number n ∷ []) (say_nets nets)

-- One declared total cannot be in two currencies.
unfoldable pub many_currencies : Value → String → ℤ → Totals → Break
unfolding abs
many_currencies batch currency declared nets =
    total_break_of batch currency
      (text "the lines are in " ∷ say_nets (sorted by_key nets)
        ++ text " and one declared total of "
          ∷ number declared
          ∷ text " cannot be all of them"
          ∷ [])
      (sorted by_key (map (λ (e : String × ℤ). (e.0, abs e.1)) nets))

-- min(readings, key=abs): the first of the two on a tie
unfoldable pub nearer_reading : ℤ → ℤ → String × ℤ
unfolding abs
nearer_reading as_written distinct =
    if leb_ℤ (abs as_written) (abs distinct)
    then ("the lines as written", as_written)
    else ("the distinct lines", distinct)

unfoldable pub reading_break : Value → String → ℤ → String × ℤ → Option Break
reading_break batch currency declared (label, gap) =
    if gap == pos 0
    then none
    else some (
        total_break_of batch currency
          (text label
            ∷ text " net to "
            ∷ number (declared +ℤ gap)
            ∷ text " against a declared total of "
            ∷ number declared
            ∷ [])
          (stake currency gap))

-- The nets of one currency, or of none, against the declared total.
unfoldable pub compare_total : Value → String → ℤ → Totals → Totals → Option Break
unfolding reading_break nearer_reading
compare_total batch currency declared nets duplicated =
    let actual = lookup_or (pos 0) currency nets in
    let as_written = actual +ℤ lookup_or (pos 0) currency duplicated in
    if actual == declared
    then none
    else reading_break batch currency declared
        (nearer_reading (as_written -ℤ declared) (actual -ℤ declared))

unfoldable pub total_in : Value → String → ℤ → Totals → Totals → Option Break
unfolding many_currencies compare_total
total_in batch currency declared (n ∷ m ∷ nets) duplicated =
    some (many_currencies batch currency declared (n ∷ m ∷ nets))
total_in batch currency declared nets duplicated =
    compare_total batch currency declared nets duplicated

abbrev pub total_of_text : Value → Value → Value → Totals → Totals → Option Break
total_of_text batch (str currency) (int declared) nets duplicated =
    if not_an_identifier (str currency)
    then none
    else total_in batch currency declared nets duplicated
total_of_text batch currency declared nets duplicated = none

-- `_total_break`: nothing where the envelope was already refused.
unfoldable pub total_break : Fields → Totals → Totals → Option Break
unfolding total_in
total_break report nets duplicated =
    total_of_text (text_else (str "report") (report_batch report)) (report_currency report)
      (get "total_net_minor" report) nets duplicated
