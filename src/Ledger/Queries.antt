-- ===== src/Ledger/Queries.antt =====
-- ledger.py: what is read off the entries.
use financial_engineering_sk.Prelude.{
  Bool, true, ◌&&◌, List, [], ◌∷◌, map, Option, none, some, String, ◌==◌, string_eq, pair_eq,
  if◌then◌else◌, sorted, by_key, pair_le, find, contains,
}
use financial_engineering_sk.Prelude.Int.{ℤ, pos, ◌+ℤ◌}
use financial_engineering_sk.Ledger.Record.{Posting, Entry, Ledger}
use financial_engineering_sk.Ledger.Validate.{Totals, add_total}

-- `entry_for_effect`: a scan of the entries
unfoldable pub entry_for_effect : String → Ledger → Option Entry
entry_for_effect effect_id l = find (λ e. e.effect_id == effect_id) l.entries

unfoldable pub entry_for_settlement : String → Ledger → Option Entry
entry_for_settlement settlement_id l =
    find (λ e. e.kind == "settlement" && e.reference == settlement_id) l.entries

-- The sum over the postings of one entry.
unfoldable pub posting_total : String → String → List Posting → ℤ
posting_total account currency [] = pos 0
posting_total account currency (p ∷ ps) =
    let rest = posting_total account currency ps in
    if p.account == account && p.currency == currency then p.amount_minor +ℤ rest else rest

-- reference is None or e.reference == reference
abbrev pub selects : Option String → Entry → Bool
selects none e = true
selects (some reference) e = e.reference == reference

unfoldable pub balance_of : String → String → Option String → List Entry → ℤ
balance_of account currency reference [] = pos 0
balance_of account currency reference (e ∷ es) =
    let rest = balance_of account currency reference es in
    if selects reference e then posting_total account currency e.postings +ℤ rest else rest

unfoldable pub balance : String → String → Option String → Ledger → ℤ
unfolding balance_of posting_total
balance account currency reference l = balance_of account currency reference l.entries

-- The (account, currency) pairs in use, each once.
unfoldable pub add_keys : List Posting → List (String × String) → List (String × String)
add_keys [] keys = keys
add_keys (p ∷ ps) keys =
    let key : String × String = (p.account, p.currency) in
    add_keys ps (if contains keys key then keys else key ∷ keys)

unfoldable pub balance_keys : List Entry → List (String × String) → List (String × String)
unfolding add_keys
balance_keys [] keys = keys
balance_keys (e ∷ es) keys = balance_keys es (add_keys e.postings keys)

unfoldable pub balances : Ledger → List ((String × String) × ℤ)
unfolding balance balance_keys
balances l =
    map (λ (k : String × String). (k, balance k.0 k.1 none l))
      (sorted pair_le (balance_keys l.entries []))

unfoldable pub add_postings : List Posting → Totals → Totals
add_postings [] totals = totals
add_postings (p ∷ ps) totals = add_postings ps (add_total p.currency p.amount_minor totals)

unfoldable pub add_entries : List Entry → Totals → Totals
unfolding add_postings
add_entries [] totals = totals
add_entries (e ∷ es) totals = add_entries es (add_postings e.postings totals)

unfoldable pub trial_balance : Ledger → Totals
unfolding add_entries
trial_balance l = sorted by_key (add_entries l.entries [])
