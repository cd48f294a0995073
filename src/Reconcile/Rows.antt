-- ===== src/Reconcile/Rows.antt =====
-- ledger.py, `ledger_settlements`: what the ledger claims, per settlement identity.
use financial_engineering_sk.Prelude.{
  Bool, ◌||◌, List, [], ◌∷◌, ◌++◌, String, ◌==◌, string_eq, if◌then◌else◌, contains,
}
use financial_engineering_sk.Prelude.Dict.{Dict, lookup_or, insert}
use financial_engineering_sk.Prelude.Int.{ℤ, pos, ◌+ℤ◌, ◌-ℤ◌}
use financial_engineering_sk.Ledger.Record.{Posting, Entry, Ledger, cash, receivable, fees}

pub record Row : Type 0 where
  pub gross : ℤ
  pub fee : ℤ
  pub net : ℤ
  pub currencies : List String
  pub charge_ids : List String
  pub batch_ids : List String
  pub settlement_nets : List ℤ

abbrev pub empty_row : Row
empty_row = record {
  gross = pos 0;
  fee = pos 0;
  net = pos 0;
  currencies = [];
  charge_ids = [];
  batch_ids = [];
  settlement_nets = [];
}

-- set.add, and `if x: set.add(x)` for a text that may be empty
abbrev pub add : String → List String → List String
add x xs = if contains xs x then xs else x ∷ xs

abbrev pub add_named : String → List String → List String
add_named x xs = if x == "" then xs else add x xs

-- entry.kind in SETTLEMENT_KINDS
abbrev pub is_settlement_kind : String → Bool
is_settlement_kind kind = kind == "settlement" || kind == "correction" || kind == "suspense"

-- The cash of one entry, in whichever currency.
unfoldable pub cash_total : List Posting → ℤ
cash_total [] = pos 0
cash_total (p ∷ ps) =
    let rest = cash_total ps in if p.account == cash then p.amount_minor +ℤ rest else rest

-- The three quantities: the receivable counts against the gross.
unfoldable pub add_posting : Row → Posting → Row
add_posting row p = record row {
  gross = (if p.account == receivable then row.gross -ℤ p.amount_minor else row.gross);
  fee = (if p.account == fees then row.fee +ℤ p.amount_minor else row.fee);
  net = (if p.account == cash then row.net +ℤ p.amount_minor else row.net);
  currencies = add p.currency row.currencies;
}

unfoldable pub add_postings : Row → List Posting → Row
unfolding add_posting
add_postings row [] = row
add_postings row (p ∷ ps) = add_postings (add_posting row p) ps

-- What an entry says of itself.
unfoldable pub add_attribution : Row → Entry → Row
unfolding cash_total
add_attribution row e = record row {
  charge_ids = add_named e.attribution.charge_id row.charge_ids;
  batch_ids = add_named e.attribution.batch_id row.batch_ids;
  settlement_nets =
      (if e.kind == "settlement"
        then row.settlement_nets ++ cash_total e.postings ∷ []
        else row.settlement_nets);
}

unfoldable pub add_entry : Dict String Row → Entry → Dict String Row
unfolding add_postings add_attribution
add_entry rows e =
    if is_settlement_kind e.kind
    then insert e.reference
        (add_postings (add_attribution (lookup_or empty_row e.reference rows) e) e.postings) rows
    else rows

unfoldable pub add_entries : Dict String Row → List Entry → Dict String Row
unfolding add_entry
add_entries rows [] = rows
add_entries rows (e ∷ es) = add_entries (add_entry rows e) es

unfoldable pub ledger_settlements : Ledger → Dict String Row
unfolding add_entries
ledger_settlements l = add_entries [] l.entries
