-- ===== src/Reconcile/Compare.antt =====
-- ledger.py, `reconcile`: the union of the identities of the report and of the ledger.
use financial_engineering_sk.Prelude.{
  Bool, true, false, not, ◌||◌, List, [], ◌∷◌, ◌++◌, Option, none, some, String, ◌⧺◌, ◌==◌,
  string_eq, int_eq, if◌then◌else◌, sorted, text_le, by_key, contains, keep, ltb, length,
}
use financial_engineering_sk.Prelude.Dict.{Dict, lookup}
use financial_engineering_sk.Prelude.Int.{ℤ, pos, abs}
use financial_engineering_sk.Value.{Value, Fields, str, dict}
use financial_engineering_sk.Prose.{Prose, text, class_of, number}
use financial_engineering_sk.Ledger.Record.{AttributionArg, Ledger, cash}
use financial_engineering_sk.Ledger.Validate.{Totals, add_total}
use financial_engineering_sk.Ledger.Queries.{balance}
use financial_engineering_sk.Reconcile.Break.{Break}
use financial_engineering_sk.Reconcile.Rows.{Row, add, ledger_settlements}
use financial_engineering_sk.Reconcile.Report.{stake, structural, of_report, envelope}
use financial_engineering_sk.Reconcile.Lines.{Line, Gathered, nothing_gathered}
use financial_engineering_sk.Reconcile.ReadLines.{report_lines}
use financial_engineering_sk.Reconcile.Total.{total_break}
use financial_engineering_sk.Reconcile.Figures.{
  deltas_of, any_delta, amount_at_stake, wrong_names, say_figures, joined,
}

-- "/".join(sorted(names)), of a set
abbrev pub join_with : String → List String → String
join_with by [] = ""
join_with by (s ∷ []) = s
join_with by (s ∷ t ∷ ss) = s ⧺ by ⧺ join_with by (t ∷ ss)

abbrev pub slashed : List String → String
slashed names = join_with "/" (sorted text_le names)

abbrev pub compared : String → String → String → String → AttributionArg
compared settlement_id charge_id batch_id currency = record {
  settlement_id = str settlement_id;
  charge_id = str charge_id;
  batch_id = str batch_id;
  currency = str currency;
}

abbrev pub of_line : String → Line → AttributionArg
of_line id line = compared id line.charge_id line.batch_id line.currency

-- The attribution of what the ledger holds, in a currency.
abbrev pub of_row : String → Row → String → AttributionArg
of_row id row currency = compared id (slashed row.charge_ids) (slashed row.batch_ids) currency

-- A break without deltas.
abbrev pub plain_break : String → AttributionArg → Prose → List (String × ℤ) → Break
plain_break kind attribution detail at_stake = record {
  kind = kind;
  attribution = attribution;
  detail = detail;
  at_stake = at_stake;
  deltas = [];
}

unfoldable pub report_only : String → Line → Break
report_only id line =
    plain_break "report_only" (of_line id line)
      (text "the report claims a settlement the ledger never recorded" ∷ [])
      (stake line.currency line.net_minor)

unfoldable pub ledger_only : String → Row → Break
ledger_only id row =
    plain_break "ledger_only" (of_row id row (slashed row.currencies))
      (text "the ledger holds a settlement the report does not claim" ∷ [])
      (stake (slashed row.currencies) row.net)

-- The net of an identity in each of its currencies.
unfoldable pub currency_nets : String → List String → Ledger → Totals
unfolding balance
currency_nets id [] l = []
currency_nets id (c ∷ cs) l = (c, balance cash c (some id) l) ∷ currency_nets id cs l

abbrev pub net_stakes : Totals → Totals
net_stakes [] = []
net_stakes ((c, n) ∷ nets) =
    let rest = net_stakes nets in if n == pos 0 then rest else (c, abs n) ∷ rest

abbrev pub line_stake : Option Line → Totals → Totals
line_stake none stakes = stakes
line_stake (some line) stakes =
    if line.net_minor == pos 0 then stakes else add_total line.currency (abs line.net_minor) stakes

abbrev pub claimed_currency : Option Line → String
claimed_currency none = ""
claimed_currency (some line) = line.currency

abbrev pub say_claim : Option Line → Prose
say_claim none = text "the report does not claim this settlement" ∷ []
say_claim (some line) = text "the report says " ∷ text line.currency ∷ []

abbrev pub say_holds : Totals → Prose
say_holds [] = []
say_holds ((c, n) ∷ nets) =
    joined (text "; " ∷ []) (text c ∷ text " net " ∷ number n ∷ []) (say_holds nets)

-- Each currency's net is stated on its own.
unfoldable pub currency_mismatch : String → Option Line → Row → Ledger → Break
unfolding currency_nets abs
currency_mismatch id line row l =
    let nets = currency_nets id (sorted text_le row.currencies) l in
    plain_break "currency_mismatch" (of_row id row (claimed_currency line))
      (say_claim line
        ++ text " and the ledger holds " ∷ say_holds nets
        ++ text "; they are never summed into one figure" ∷ [])
      (sorted by_key (line_stake line (net_stakes nets)))

unfoldable pub attribution_mismatch : String → Line → Prose → Break
attribution_mismatch id line wrong =
    plain_break "attribution_mismatch" (of_line id line)
      (text "the report attributes this settlement to " ∷ wrong
        ++ text "; the amounts are not compared to an identity that does not match" ∷ [])
      (stake line.currency line.net_minor)

unfoldable pub figures_break : String → Line → Row → Bool → Prose → Break
unfolding say_figures amount_at_stake deltas_of
figures_break id line row duplicated wrong = record {
  kind = (if duplicated then "duplicate_entry" else "amount_mismatch");
  attribution = of_row id row (slashed row.currencies);
  detail = say_figures line row duplicated wrong;
  at_stake = stake (slashed row.currencies) (amount_at_stake line row);
  deltas = deltas_of line row;
}

-- An identity on both sides, in one currency.
abbrev pub figures_of : String → Line → Row → Bool → Prose → Option Break
figures_of id line row true wrong = some (figures_break id line row true wrong)
figures_of id line row false [] =
    if any_delta (deltas_of line row) then some (figures_break id line row false []) else none
figures_of id line row false wrong = some (attribution_mismatch id line wrong)

abbrev pub is_duplicated : Row → Bool
is_duplicated row = ltb 1 (length row.settlement_nets)

abbrev pub in_one_currency : String → Option Line → Row → Option Break
in_one_currency id none row = some (ledger_only id row)
in_one_currency id (some line) row =
    figures_of id line row (is_duplicated row) (wrong_names line row)

-- len(currencies) > 1 or (line is not None and held != claimed)
abbrev pub other_currency : Option Line → Row → Bool
other_currency none row = ltb 1 (length row.currencies)
other_currency (some line) row =
    ltb 1 (length row.currencies) || not (slashed row.currencies == line.currency)

abbrev pub held_break : String → Option Line → Row → Ledger → Option Break
held_break id line row l =
    if other_currency line row
    then some (currency_mismatch id line row l)
    else in_one_currency id line row

-- One round of the loop: the break of one identity, if there is one. The identities come from the
-- two dicts, so none is in neither.
unfoldable pub compare_one : Ledger → String → Option Line → Option Row → Option Break
compare_one l id none none = none
compare_one l id (some line) none = some (report_only id line)
compare_one l id line (some row) = held_break id line row l

abbrev pub option_list : Option Break → List Break
option_list none = []
option_list (some b) = b ∷ []

unfoldable pub compare_all : Ledger → Dict String Line → Dict String Row → List String → List Break
compare_all l lines rows [] = []
compare_all l lines rows (id ∷ ids) =
    option_list (compare_one l id (lookup id lines) (lookup id rows))
    ++ compare_all l lines rows ids

abbrev pub add_names {ℓ} : {V : Type ℓ} → Dict String V → List String → List String
add_names [] names = names
add_names ((k, v) ∷ d) names = add k (add_names d names)

-- sorted((set(lines) | set(rows)) - unreadable)
unfoldable pub compared_names : Dict String Line → Dict String Row → List String → List String
compared_names lines rows unreadable =
    sorted text_le
      (keep (λ (id : String). not (contains unreadable id)) (add_names lines (add_names rows [])))

abbrev pub none_unread : List String → Bool
none_unread [] = true
none_unread (_ ∷ _) = false

-- A total is only checked against every line.
unfoldable pub checked_total : Fields → Gathered → List Break
checked_total report g =
    if none_unread g.unreadable
    then option_list (total_break report g.net_by_currency g.duplicate_by_currency)
    else []

unfoldable pub reconcile_lines : Fields → Gathered → Bool → Ledger → List Break
reconcile_lines report g comparable l =
    let rows = ledger_settlements l in
    let names = compared_names g.lines rows g.unreadable in
    if comparable
    then g.breaks ++ (checked_total report g ++ compare_all l g.lines rows names)
    else g.breaks

unfoldable pub reconcile : Value → Ledger → List Break
reconcile (dict report) l =
    let e = envelope report in
    e.breaks
    ++ reconcile_lines report (if e.readable then report_lines report else nothing_gathered)
        e.comparable l
reconcile report l =
    structural "report_envelope" (of_report (str "report") (str ""))
      (text "the report is a " ∷ class_of report ∷ text ", not a record" ∷ [])
    ∷ []
