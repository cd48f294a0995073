-- ===== src/Wallet.antt =====
-- evals/behavioral/ledger-wallet-overdraft/repo: ledger.py (balances, holds and postings),
-- spending.py (card purchases) and withdrawals.py (withdrawals to a bank).
pub mod Books
pub mod Holds
use financial_engineering_sk.Prelude.{
  ℕ, Bool, true, false, not, ◌&&◌, ◌||◌, List, [], ◌∷◌, ◌++◌, map, Option, none, some, String, ◌⧺◌,
  ◌==◌, string_eq, if◌then◌else◌, Result, ok, err, Exec, pure, raise, raise_if, lift, gets, modify,
  ◌>>=◌, ◌>>◌, value_error, duplicate_transaction, duplicate_hold, unknown_hold, unbalanced,
}
use financial_engineering_sk.Prelude.Dict.{Dict, lookup, insert}
use financial_engineering_sk.Prelude.Int.{ℤ, pos, neg, ◌+ℤ◌, ◌-ℤ◌, leb_ℤ, ltb_ℤ}
use financial_engineering_sk.Ledger.Validate.{Totals, add_total, unbalanced_totals}

-- One leg of a group, as it is handed in and as it is booked.
pub record LegArg : Type 0 where
  pub account : String
  pub amount : ℤ
  pub currency : String

pub record Leg : Type 0 where
  pub txn_id : String
  pub account : String
  pub amount : ℤ
  pub currency : String

pub data HoldState : Type 0 where
  live captured voided : HoldState

pub record Hold : Type 0 where
  pub hold_id : String
  pub account : String
  pub amount : ℤ
  pub currency : String
  pub expires_on : ℤ
  pub state : HoldState

pub record WalletLedger : Type 0 where
  pub legs : List Leg
  pub holds : Dict String Hold
  pub today : ℤ

abbrev pub new_wallet : WalletLedger
new_wallet = record { legs = []; holds = []; today = pos 0 }

-- any(booked == txn_id for …)
unfoldable pub is_booked : String → List Leg → Bool
is_booked txn_id [] = false
is_booked txn_id (l ∷ ls) = l.txn_id == txn_id || is_booked txn_id ls

unfoldable pub net_of : List LegArg → Totals → Totals
net_of [] net = net
net_of (l ∷ ls) net = net_of ls (add_total l.currency l.amount net)

abbrev pub book : String → List LegArg → List Leg
book txn_id [] = []
book txn_id (l ∷ ls) =
    (record { txn_id = txn_id; account = l.account; amount = l.amount; currency = l.currency })
    ∷ book txn_id ls

-- With the totals that are not zero, in the order of their currencies: the first is refused.
abbrev pub post_net : String → List LegArg → Totals → Exec WalletLedger Unit
post_net txn_id legs [] w = (ok tt, record w { legs = w.legs ++ book txn_id legs })
post_net txn_id legs (_ ∷ _) w = (err unbalanced, w)

unfoldable pub post : String → List LegArg → Exec WalletLedger Unit
post txn_id legs w =
    if is_booked txn_id w.legs
    then (err duplicate_transaction, w)
    else post_net txn_id legs (unbalanced_totals (net_of legs [])) w

abbrev leg_total : String → String → List Leg → ℤ
leg_total account currency [] = pos 0
leg_total account currency (l ∷ ls) =
    let rest = leg_total account currency ls in
    if l.account == account && l.currency == currency then l.amount +ℤ rest else rest

unfoldable pub posted_balance : String → String → WalletLedger → ℤ
posted_balance account currency w = leg_total account currency w.legs

abbrev is_live : HoldState → Bool
is_live live = true
is_live captured = false
is_live voided = false

unfoldable pub reserves : String → String → ℤ → Hold → Bool
reserves account currency today h =
    h.account == account && h.currency == currency && is_live h.state && ltb_ℤ today h.expires_on

-- sum(hold.amount for hold in live_holds(account, currency))
unfoldable pub reserved : String → String → ℤ → Dict String Hold → ℤ
unfolding reserves
reserved account currency today [] = pos 0
reserved account currency today ((id, h) ∷ holds) =
    let rest = reserved account currency today holds in
    if reserves account currency today h then h.amount +ℤ rest else rest

unfoldable pub available : String → String → WalletLedger → ℤ
available account currency w =
    posted_balance account currency w -ℤ reserved account currency w.today w.holds

-- hold_id in self._holds
abbrev pub is_held : Option Hold → Bool
is_held none = false
is_held (some _) = true

unfoldable pub place_hold : String → String → ℤ → String → ℤ → Exec WalletLedger Unit
place_hold hold_id account amount currency expires_on w =
    if is_held (lookup hold_id w.holds)
    then (err duplicate_hold, w)
    else if leb_ℤ amount (pos 0)
    then (err value_error, w)
    else (
      ok tt,
      record w {
        holds =
            insert hold_id
              (record {
                hold_id = hold_id;
                account = account;
                amount = amount;
                currency = currency;
                expires_on = expires_on;
                state = live;
              })
              w.holds;
      },
    )

-- hold is None or hold.state != "live"
abbrev pub live_hold : Option Hold → Result Hold
live_hold none = err unknown_hold
live_hold (some h) = if is_live h.state then ok h else err unknown_hold

-- hold.state = …, of the hold that the dict has under this id
abbrev pub set_state : String → Hold → HoldState → WalletLedger → WalletLedger
set_state hold_id h state w = record w {
  holds = insert hold_id (record h { state = state }) w.holds;
}

abbrev leg : String → ℤ → String → LegArg
leg account amount currency = record { account = account; amount = amount; currency = currency }

unfoldable pub capture_hold : String → String → Exec WalletLedger Unit
capture_hold hold_id destination = do
  found ← gets (λ (w : WalletLedger). lookup hold_id w.holds)
  h ← lift (live_hold found)
  post ("capture:" ⧺ hold_id)
      (leg h.account (neg h.amount) h.currency ∷ leg destination h.amount h.currency ∷ [])
  modify (set_state hold_id h captured)

unfoldable pub void_hold : String → Exec WalletLedger Unit
void_hold hold_id = do
  found ← gets (λ (w : WalletLedger). lookup hold_id w.holds)
  h ← lift (live_hold found)
  modify (set_state hold_id h voided)

unfoldable pub totals_by_currency : List Leg → Totals → Totals
totals_by_currency [] out = out
totals_by_currency (l ∷ ls) out = totals_by_currency ls (add_total l.currency l.amount out)

-- spending.py
pub data Decision : Type 0 where
  approved invalid_amount insufficient_funds : Decision

unfoldable pub approve : Exec WalletLedger Unit → Exec WalletLedger Decision
approve m = do m; pure approved

unfoldable pub authorize : String → ℤ → String → String → String → Exec WalletLedger Decision
authorize account amount currency txn_id merchant_account w =
    if leb_ℤ amount (pos 0)
    then (ok invalid_amount, w)
    else if ltb_ℤ (posted_balance account currency w) amount
    then (ok insufficient_funds, w)
    else approve
        (post txn_id
          (leg account (neg amount) currency ∷ leg merchant_account amount currency ∷ []))
        w

-- withdrawals.py
pub data Requested : Type 0 where
  declined : Requested
  pending : String → Requested

unfoldable pub hold_for : String → Exec WalletLedger Unit → Exec WalletLedger Requested
hold_for hold_id m = do m; pure (pending hold_id)

unfoldable pub request_withdrawal : String → ℤ → String → String → Exec WalletLedger Requested
request_withdrawal account amount currency hold_id w =
    if leb_ℤ amount (pos 0)
    then (err value_error, w)
    else if ltb_ℤ (available account currency w) amount
    then (ok declined, w)
    else hold_for hold_id (place_hold hold_id account amount currency (w.today +ℤ pos 7)) w

abbrev pub settle_withdrawal : String → String → Exec WalletLedger Unit
settle_withdrawal hold_id bank_account = capture_hold hold_id bank_account

abbrev pub cancel_withdrawal : String → Exec WalletLedger Unit
cancel_withdrawal hold_id = void_hold hold_id
