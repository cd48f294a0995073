-- ===== src/Reconcile/ReadLines.antt =====
-- ledger.py, `_report_lines`: the loop over the lines of a report.
use financial_engineering_sk.Prelude.{
  ℕ, ◌+◌, [], ◌∷◌, ◌++◌, none, some, String, ◌⧺◌, ◌==◌, string_eq, int_eq, if◌then◌else◌,
}
use financial_engineering_sk.Prelude.Decimal.{decimal}
use financial_engineering_sk.Prelude.Dict.{lookup, insert}
use financial_engineering_sk.Prelude.Int.{pos, ◌-ℤ◌}
use financial_engineering_sk.Value.{Value, Items, Fields, str, list, dict, nil, cons, get, field_or}
use financial_engineering_sk.Prose.{Prose, text, class_of, number}
use financial_engineering_sk.Ledger.Validate.{add_total}
use financial_engineering_sk.Reconcile.Report.{stake, structural}
use financial_engineering_sk.Reconcile.Lines.{
  Line, Gathered, nothing_gathered, RawLine, raw_line, missing_fields, unnamed_fields, bad_amounts,
  unread, line_of,
}

-- A repeated identity is a break of its own, and its money is kept apart.
unfoldable pub duplicate_line : Gathered → RawLine → Line → Gathered
duplicate_line g r l = record g {
  breaks =
      g.breaks
      ++ (record {
        kind = "duplicate_report_line";
        attribution = r.here;
        detail = text "the report claims this settlement identity twice" ∷ [];
        at_stake = stake l.currency l.net_minor;
        deltas = [];
      })
        ∷ [];
  duplicate_by_currency = add_total l.currency l.net_minor g.duplicate_by_currency;
}

-- A line whose every field can be read.
unfoldable pub gather_line : Gathered → RawLine → Line → Gathered
unfolding unread
gather_line g r l =
    let gap = l.gross_minor -ℤ l.fee_minor -ℤ l.net_minor in
    if gap == pos 0
    then record g {
      lines = insert r.identity l g.lines;
      net_by_currency = add_total l.currency l.net_minor g.net_by_currency;
    }
    else unread g r "line_arithmetic"
        (text "net "
          ∷ number l.net_minor
          ∷ text " + fee "
          ∷ number l.fee_minor
          ∷ text " is not gross "
          ∷ number l.gross_minor
          ∷ [])
        (stake l.currency gap)

unfoldable pub distinct_line : Gathered → RawLine → Line → Gathered
unfolding duplicate_line gather_line
distinct_line g r l = elim (lookup r.identity g.lines) [
  | none ↦ gather_line g r l
  | some earlier ↦ duplicate_line g r l
]

-- The checks of a line in their order: what each complains of, if anything.
unfoldable pub amounts_read : Gathered → RawLine → Prose → Gathered
unfolding distinct_line line_of unread
amounts_read g r [] = distinct_line g r (line_of r)
amounts_read g r complaint =
    unread g r "not_an_amount"
      (text "the report line says " ∷ complaint
        ++ text ", which is not an integer minor amount" ∷ [])
      []

unfoldable pub names_read : Gathered → RawLine → Prose → Gathered
unfolding amounts_read bad_amounts unread
names_read g r [] = amounts_read g r (bad_amounts r)
names_read g r complaint =
    unread g r "unidentified_line"
      (text "the report line says " ∷ complaint
        ++ text ", which does not name anything the ledger can be compared against" ∷ [])
      []

unfoldable pub fields_read : Gathered → RawLine → Prose → Gathered
unfolding names_read unnamed_fields unread
fields_read g r [] = names_read g r (unnamed_fields r)
fields_read g r complaint =
    unread g r "missing_field" (text "the report line omits " ∷ complaint) []

unfoldable pub read_line : String → Value → Value → Gathered → Value → Gathered
unfolding fields_read missing_fields raw_line
read_line unidentified default_batch default_currency g (dict line) =
    let r = raw_line unidentified default_batch default_currency line in
    fields_read g r (missing_fields r)
read_line unidentified default_batch default_currency g line = record g {
  breaks =
      g.breaks
      ++ structural "malformed_line"
          (record {
            settlement_id = str unidentified;
            charge_id = str "";
            batch_id = str "";
            currency = default_currency;
          })
          (text "the report line is a " ∷ class_of line ∷ text ", not a record" ∷ [])
        ∷ [];
}

unfoldable pub read_lines : ℕ → Value → Value → Gathered → Items → Gathered
unfolding read_line decimal
read_lines index default_batch default_currency g nil = g
read_lines index default_batch default_currency g (cons line lines) =
    read_lines (index + 1) default_batch default_currency
      (read_line ("unidentified_line_" ⧺ decimal (index + 1)) default_batch default_currency g line)
      lines

-- report.get("lines") or ()
abbrev pub line_items : Value → Items
line_items (list lines) = lines
line_items _ = nil

unfoldable pub report_lines : Fields → Gathered
unfolding read_lines
report_lines report =
    read_lines 0 (field_or (str "") "batch_id" report) (field_or (str "") "currency" report)
      nothing_gathered (line_items (get "lines" report))
