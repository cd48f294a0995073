-- ===== src/Tests/ShopTests.antt =====
-- The theorems on wallets and refunds at concrete inputs.
use financial_engineering_sk.Prelude.{
  arith, false, ◌≡◌, refl, List, [], ◌∷◌, string_eq, pair_eq, ok, err, absent, raises,
  injected_failure, unknown_hold, run_hook,
}
use financial_engineering_sk.Prelude.Decimal.{decimal}
use financial_engineering_sk.Prelude.Int.{pos, negsuc, neg, ◌+ℤ◌, ◌-ℤ◌}
use financial_engineering_sk.Wallet.{
  LegArg, live, WalletLedger, new_wallet, is_booked, net_of, post, capture_hold, void_hold,
  authorize,
}
use financial_engineering_sk.Wallet.Books.{
  Operation, posting, purchase, withdrawal, settling, booked_total, perform_all,
  wallet_creates_no_money,
}
use financial_engineering_sk.Wallet.Holds.{captured_hold_is_spent, purchases_ignore_holds}
use financial_engineering_sk.Refunds.{
  Modification, Client, Shop, captured_amount, find_modification, new_modification, refund_payment,
  refund, committed, find_attempt, record_attempt, round_trip, refundable_amount, send_refund,
  refund_within_ceiling, issue_known, issue_refund,
}
use financial_engineering_sk.Payouts.{PayoutArg, Journal, post_payout, balance_as_of}
use financial_engineering_sk.Payouts.Statements.{posting_keeps_statements}
use financial_engineering_sk.Refunds.References.{reference_is_refunded_once}
use financial_engineering_sk.Refunds.Clicks.{retried_click_sends_nothing}

abbrev deposit : List LegArg
deposit =
    (record { account = "external:bank"; amount = negsuc 99; currency = "EUR" })
    ∷ (record { account = "ana"; amount = pos 100; currency = "EUR" })
    ∷ []

abbrev a_day : List Operation
a_day =
    posting "t1" deposit
    ∷ withdrawal "ana" (pos 60) "EUR" "h1"
    ∷ purchase "ana" (pos 70) "EUR" "t2" "shop"
    ∷ settling "h1" "external:bank"
    ∷ []

wallet_creates_no_money_example :
    booked_total "EUR" (perform_all a_day new_wallet).legs ≡ booked_total "EUR" new_wallet.legs
wallet_creates_no_money_example = wallet_creates_no_money a_day new_wallet "EUR"

abbrev holding : WalletLedger
holding = record new_wallet {
  holds =
      (
        "h1",
        record {
          hold_id = "h1";
          account = "ana";
          amount = pos 60;
          currency = "EUR";
          expires_on = pos 7;
          state = live;
        },
      )
      ∷ [];
}

hold_is_captured : (capture_hold "h1" "external:bank" holding).0 ≡ ok tt
unfolding capture_hold post is_booked net_of neg ◌+ℤ◌
hold_is_captured = refl

captured_hold_is_spent_example :
    let w' = (capture_hold "h1" "external:bank" holding).1 in
    (capture_hold "h1" "external:other" w' ≡ (err unknown_hold, w'))
    × (void_hold "h1" w' ≡ (err unknown_hold, w'))
captured_hold_is_spent_example =
    captured_hold_is_spent "h1" "external:bank" "external:other" holding hold_is_captured

purchases_ignore_holds_example :
    (authorize "ana" (pos 70) "EUR" "t2" "shop" (record new_wallet { holds = holding.holds })).0
    ≡ (authorize "ana" (pos 70) "EUR" "t2" "shop" new_wallet).0
purchases_ignore_holds_example =
    purchases_ignore_holds "ana" (pos 70) "EUR" "t2" "shop" holding.holds new_wallet

abbrev shop : Shop
shop = record {
  processor = record {
    payments =
        (
          "P1",
          record { psp_reference = "P1"; captured = pos 100; currency = "EUR"; modifications = [] },
        )
        ∷ [];
    merchant_paid_out = pos 0;
    seq = 0;
  };
  book = [];
}

abbrev up : Client
up = record { before_send = absent; after_send = absent }

abbrev down : Client
down = record { before_send = raises injected_failure; after_send = absent }

abbrev first_refund : Modification
first_refund = record {
  psp_reference = "MOD001";
  reference = "refund-c1";
  amount = pos 40;
  is_settled = false;
}

refund_is_issued : (issue_refund up "P1" (pos 40) "c1" shop).0 ≡ ok first_refund
unfolding issue_refund issue_known refund_within_ceiling refundable_amount send_refund round_trip
    run_hook captured_amount committed find_attempt refund refund_payment find_modification
    new_modification record_attempt decimal ◌-ℤ◌
refund_is_issued = refl

retried_click_sends_nothing_example :
    let s' = (issue_refund up "P1" (pos 40) "c1" shop).1 in
    issue_refund down "P1" (pos 40) "c1" s' ≡ (ok first_refund, s')
retried_click_sends_nothing_example =
    retried_click_sends_nothing "P1" "c1" (pos 40) up down shop first_refund refund_is_issued

refund_is_accepted : (refund "P1" (pos 40) "refund-c1" shop.processor).0 ≡ ok first_refund
unfolding refund refund_payment find_modification new_modification decimal
refund_is_accepted = refl

reference_is_refunded_once_example :
    let p' = (refund "P1" (pos 40) "refund-c1" shop.processor).1 in
    refund "P1" (pos 90) "refund-c1" p' ≡ (ok first_refund, p')
reference_is_refunded_once_example =
    reference_is_refunded_once "P1" "refund-c1" (pos 40) (pos 90) shop.processor first_refund
      refund_is_accepted

-- A journal with one payout, whose statement was cut at 2.
abbrev paid_out : Journal
paid_out = record {
  legs =
      (record {
        seq = 1;
        txn_id = "p1";
        account = "ana";
        amount = negsuc 49;
        currency = "EUR";
        memo = "";
      })
      ∷ (record {
        seq = 2;
        txn_id = "p1";
        account = "external:bank";
        amount = pos 50;
        currency = "EUR";
        memo = "";
      })
      ∷ [];
  seq = 2;
}

abbrev second_payout : List PayoutArg
second_payout =
    (record { account = "ana"; amount = negsuc 9; currency = "EUR" })
    ∷ (record { account = "external:bank"; amount = pos 10; currency = "EUR" })
    ∷ []

posting_keeps_statements_example :
    balance_as_of "ana" "EUR" 2 (post_payout "p2" second_payout "" paid_out).1.legs
    ≡ balance_as_of "ana" "EUR" 2 paid_out.legs
posting_keeps_statements_example =
    posting_keeps_statements "ana" "EUR" 2 "p2" "" second_payout paid_out (omega arith)
