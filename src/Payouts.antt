-- ===== src/Payouts.antt =====
-- evals/behavioral/ledger-payout-restatement/repo/ledger.py: the journal of payouts, and statements
-- that are cut at a sequence number.
pub mod Statements
use financial_engineering_sk.Prelude.{
  ℕ, suc, ◌+◌, Bool, true, false, not, ◌&&◌, List, [], ◌∷◌, ◌++◌, String, ◌⧺◌, ◌==◌, string_eq,
  if◌then◌else◌, Result, ok, err, Exec, value_error, duplicate_transaction, unknown_transaction,
  unbalanced, leb, keep,
}
use financial_engineering_sk.Prelude.Int.{ℤ, pos, neg, ◌+ℤ◌, leb_ℤ}
use financial_engineering_sk.Ledger.Validate.{Totals, add_total, unbalanced_totals}

pub record PayoutArg : Type 0 where
  pub account : String
  pub amount : ℤ
  pub currency : String

-- `Leg`, and `Leg.as_row`
pub record PayoutLeg : Type 0 where
  pub seq : ℕ
  pub txn_id : String
  pub account : String
  pub amount : ℤ
  pub currency : String
  pub memo : String

pub record Journal : Type 0 where
  pub legs : List PayoutLeg
  pub seq : ℕ

abbrev pub new_journal : Journal
new_journal = record { legs = []; seq = 0 }

unfoldable pub group_of : String → List PayoutLeg → List PayoutLeg
group_of txn_id legs = keep (λ (l : PayoutLeg). l.txn_id == txn_id) legs

abbrev pub is_nil : List PayoutLeg → Bool
is_nil [] = true
is_nil (_ ∷ _) = false

unfoldable pub group_net : List PayoutArg → Totals → Totals
group_net [] net = net
group_net (l ∷ ls) net = group_net ls (add_total l.currency l.amount net)

-- The loop that numbers and appends the legs.
unfoldable pub append_legs : String → String → List PayoutArg → Journal → Journal
append_legs txn_id memo [] j = j
append_legs txn_id memo (l ∷ ls) j = append_legs txn_id memo ls (record {
  legs =
      j.legs
      ++ (record {
        seq = j.seq + 1;
        txn_id = txn_id;
        account = l.account;
        amount = l.amount;
        currency = l.currency;
        memo = memo;
      })
        ∷ [];
  seq = j.seq + 1;
})

abbrev pub post_group : String → List PayoutArg → String → Totals → Exec Journal ℕ
post_group txn_id legs memo [] j = let j' = append_legs txn_id memo legs j in (ok j'.seq, j')
post_group txn_id legs memo (_ ∷ _) j = (err unbalanced, j)

unfoldable pub post_payout : String → List PayoutArg → String → Exec Journal ℕ
post_payout txn_id legs memo j =
    if not (is_nil (group_of txn_id j.legs))
    then (err duplicate_transaction, j)
    else post_group txn_id legs memo (unbalanced_totals (group_net legs [])) j

abbrev pub restated : ℤ → String → PayoutLeg → PayoutLeg
restated new_amount memo l = record l {
  amount = (if leb_ℤ l.amount (pos 0) then neg new_amount else new_amount);
  memo = memo;
}

-- The legs of the transaction are changed where they stand.
unfoldable pub restate_legs : String → ℤ → String → List PayoutLeg → List PayoutLeg
restate_legs txn_id new_amount memo [] = []
restate_legs txn_id new_amount memo (l ∷ ls) =
    (if l.txn_id == txn_id then restated new_amount memo l else l)
    ∷ restate_legs txn_id new_amount memo ls

unfoldable pub correct_payout : String → ℤ → String → String → Exec Journal String
correct_payout txn_id new_amount reason request_id j =
    if is_nil (group_of txn_id j.legs)
    then (err unknown_transaction, j)
    else if leb_ℤ new_amount (pos 0)
    then (err value_error, j)
    else (
      ok request_id,
      record j { legs = restate_legs txn_id new_amount (reason ⧺ " (" ⧺ request_id ⧺ ")") j.legs },
    )

unfoldable pub rows : String → Journal → List PayoutLeg
rows txn_id j = group_of txn_id j.legs

unfoldable pub all_rows : Journal → List PayoutLeg
all_rows j = j.legs

unfoldable pub head : Journal → ℕ
head j = j.seq

abbrev pub is_of : String → String → PayoutLeg → Bool
is_of account currency l = l.account == account && l.currency == currency

unfoldable pub journal_balance : String → String → List PayoutLeg → ℤ
journal_balance account currency [] = pos 0
journal_balance account currency (l ∷ ls) =
    let rest = journal_balance account currency ls in
    if is_of account currency l then l.amount +ℤ rest else rest

-- What a statement that was cut at `cut` quotes.
unfoldable pub balance_as_of : String → String → ℕ → List PayoutLeg → ℤ
balance_as_of account currency cut [] = pos 0
balance_as_of account currency cut (l ∷ ls) =
    let rest = balance_as_of account currency cut ls in
    if is_of account currency l && leb l.seq cut then l.amount +ℤ rest else rest

unfoldable pub payout_totals : List PayoutLeg → Totals → Totals
payout_totals [] out = out
payout_totals (l ∷ ls) out = payout_totals ls (add_total l.currency l.amount out)
