-- ===== src/Reconcile/Figures.antt =====
-- ledger.py, in `reconcile`: the figures of one identity that both sides hold, and what is said of
-- them.
use financial_engineering_sk.Prelude.{
  Bool, false, not, ◌&&◌, ◌||◌, List, [], ◌∷◌, ◌++◌, String, ◌==◌, string_eq, int_eq, list_eq,
  if◌then◌else◌, sorted, text_le, length,
}
use financial_engineering_sk.Prelude.Int.{ℤ, pos, negsuc, abs, ◌+ℤ◌, ◌-ℤ◌, ltb_ℤ}
use financial_engineering_sk.Value.{Items, nil, cons, str, list}
use financial_engineering_sk.Prose.{Prose, text, shown, number}
use financial_engineering_sk.Ledger.Record.{Delta}
use financial_engineering_sk.Reconcile.Lines.{Line}
use financial_engineering_sk.Reconcile.Rows.{Row}

abbrev pub delta_of : String → ℤ → ℤ → Delta
delta_of quantity report ledger = record {
  quantity = quantity;
  report_minor = report;
  ledger_minor = ledger;
  delta_minor = ledger -ℤ report;
}

-- The deltas, in the order of `QUANTITIES`.
unfoldable pub deltas_of : Line → Row → List Delta
deltas_of line row =
    delta_of "gross" line.gross_minor row.gross
    ∷ delta_of "fee" line.fee_minor row.fee
    ∷ delta_of "net" line.net_minor row.net
    ∷ []

-- any(d for … in deltas)
unfoldable pub any_delta : List Delta → Bool
any_delta [] = false
any_delta (d ∷ ds) = not (d.delta_minor == pos 0) || any_delta ds

abbrev pub is_independent : String → Bool
is_independent quantity = quantity == "gross" || quantity == "fee"

-- Net is derived only while the row adds up.
abbrev pub is_derived : Row → Bool
is_derived row = row.gross -ℤ row.fee == row.net

-- sum(abs(d) for q, … in deltas if q in INDEPENDENT)
unfoldable pub independent_stake : List Delta → ℤ
unfolding abs
independent_stake [] = pos 0
independent_stake (d ∷ ds) =
    let rest = independent_stake ds in
    if is_independent d.quantity then abs d.delta_minor +ℤ rest else rest

unfoldable pub amount_at_stake : Line → Row → ℤ
unfolding independent_stake deltas_of abs
amount_at_stake line row =
    let at_stake = independent_stake (deltas_of line row) in
    let net_delta = abs (row.net -ℤ line.net_minor) in
    if not (is_derived row) && ltb_ℤ at_stake net_delta then net_delta else at_stake

-- have != {claim}, of the set of what the ledger has
abbrev pub other_than : String → List String → Bool
other_than claim have = not (have == claim ∷ [])

abbrev pub text_items : List String → Items
text_items [] = nil
text_items (s ∷ ss) = cons (str s) (text_items ss)

abbrev pub say_have : List String → Prose
say_have [] = text "no attribution at all" ∷ []
say_have have = shown (list (text_items (sorted text_le have))) ∷ []

abbrev pub wrong_name : String → String → List String → Prose
wrong_name name claim have =
    if other_than claim have
    then text name ∷ text " " ∷ shown (str claim) ∷ text " against the ledger's " ∷ say_have have
    else []

abbrev pub joined : Prose → Prose → Prose → Prose
joined by [] later = later
joined by piece [] = piece
joined by piece later = piece ++ by ++ later

-- What the report attributes to another charge or batch, " and " between the two.
unfoldable pub wrong_names : Line → Row → Prose
wrong_names line row =
    joined (text " and " ∷ []) (wrong_name "charge" line.charge_id row.charge_ids)
      (wrong_name "batch" line.batch_id row.batch_ids)

-- {d:+d}
abbrev pub signed : ℤ → Prose
signed (pos n) = text "+" ∷ number (pos n) ∷ []
signed (negsuc n) = number (negsuc n) ∷ []

abbrev pub say_delta : Bool → Delta → Prose
say_delta derived d =
    text d.quantity
      ∷ text " report "
      ∷ number d.report_minor
      ∷ text " ledger "
      ∷ number d.ledger_minor
      ∷ text " delta "
      ∷ signed d.delta_minor
    ++ (if is_independent d.quantity || not derived
        then []
        else text " (derived from the other two, not counted)" ∷ [])

abbrev pub say_deltas : Bool → List Delta → Prose
say_deltas derived [] = []
say_deltas derived (d ∷ ds) = joined (text "; " ∷ []) (say_delta derived d) (say_deltas derived ds)

abbrev pub say_wrong : Prose → Prose
say_wrong [] = []
say_wrong wrong = text "; the report also attributes it to " ∷ wrong

-- The detail of a break about amounts; of a duplicate, what else is wrong with it.
unfoldable pub say_figures : Line → Row → Bool → Prose → Prose
unfolding deltas_of
say_figures line row duplicated wrong =
    let figures =
      say_deltas (is_derived row) (deltas_of line row)
      ++ (if is_derived row
          then []
          else text "; the ledger row does not add up, so its net is counted on its own" ∷ []) in
    if duplicated
    then number (pos (length row.settlement_nets))
        ∷ text " settlement entries claim this identity; "
        ∷ figures
      ++ say_wrong wrong
    else figures
