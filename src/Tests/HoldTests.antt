-- ===== src/Tests/HoldTests.antt =====
-- examples/prediction-market-bot: a run that loses an answer, asks, takes events and commits an intent.
use financial_engineering_sk.Prelude.{refl, string_eq, Result}
use financial_engineering_sk.Prelude.Int.{pos, neg, ◌+ℤ◌, ◌-ℤ◌}
use financial_engineering_sk.Prelude.Division.{◌*ℤ◌, ◌//ℤ◌}
use financial_engineering_sk.Prelude.Decimal.{decimal, padded}
use financial_engineering_sk.Venue.Messages.{buy, rate_ppm_for, expected_profit_fee_micro}
use financial_engineering_sk.Venue.State.{emit, next_event}
use financial_engineering_sk.Venue.Placing.{place_order, validate, refuse_if, answer_valid, accept}
use financial_engineering_sk.Venue.Trading.{get_order_by_client_key}
use financial_engineering_sk.Bot.State.{SafeBot, new_bot}
use financial_engineering_sk.Bot.Balances.{entry, add_to, reserve, release}
use financial_engineering_sk.Bot.Holds.{
  hold, check_holds, take_holds, collateral_obligation, worst_case_fee_micro, unwind,
}
use financial_engineering_sk.Bot.Sending.{
  Sent, unknown_outcome, found, Desk, submit, send, take_answer, bind_order, reconcile_unknown,
}
use financial_engineering_sk.Bot.Fills.{
  on_accepted, on_fill, on_bound_event, on_order_event, book_purchase, book_fee, release_fee_hold,
}
use financial_engineering_sk.Bot.Intake.{
  LoggedIntent, apply_event, apply_in_order, on_event, drain, drain_loop, commit, applied,
}
use financial_engineering_sk.Bot.Account.Backing.{IsBacked}
use financial_engineering_sk.Bot.Reached.{
  started, submitted, asked, committed, delivered, desk, left_by, Reached-IsBacked,
}
use financial_engineering_sk.Tests.BotData.{
  sign, market, losing_venue, accepted_1, filled_2, authority,
}

abbrev submission : Result Sent × Desk
submission =
    submit sign "ck-buy-yes-1" "YES" buy (pos 100) (pos 400000) (desk (new_bot market) losing_venue)

abbrev bot_1 : SafeBot
bot_1 = left_by (new_bot market) submission

abbrev bot_2 : SafeBot
bot_2 = left_by bot_1 (reconcile_unknown sign "ck-buy-yes-1" (desk bot_1 submission.1.venue))

abbrev bot_3 : SafeBot
bot_3 = (apply_event authority accepted_1 bot_2).1

abbrev bot_4 : SafeBot
bot_4 = (apply_event authority filled_2 bot_3).1

abbrev no_bid : LoggedIntent
no_bid = record {
  before_seq = 4;
  client_key = "ck-buy-no-1";
  outcome = "NO";
  side = buy;
  qty = pos 50;
  price_micro = pos 550000;
}

Reached-IsBacked_example : IsBacked "FUSD" (commit no_bid bot_4).1.book
unfolding submit send take_answer place_order validate refuse_if answer_valid accept emit next_event
    padded decimal reconcile_unknown bind_order hold check_holds take_holds collateral_obligation
    worst_case_fee_micro expected_profit_fee_micro reserve release entry add_to apply_event
    apply_in_order on_event on_order_event on_bound_event on_accepted on_fill book_purchase book_fee
    release_fee_hold unwind rate_ppm_for drain drain_loop commit ◌+ℤ◌ ◌-ℤ◌ ◌*ℤ◌ ◌//ℤ◌ neg
    get_order_by_client_key
Reached-IsBacked_example = Reached-IsBacked sign "FUSD" (
    committed bot_4 no_bid
      (delivered bot_3 authority filled_2 applied
        (delivered bot_2 authority accepted_1 applied
          (asked bot_1 submission.1.venue "ck-buy-yes-1" found
            (submitted (new_bot market) losing_venue "ck-buy-yes-1" "YES" buy (pos 100) (pos 400000)
              unknown_outcome (started market) refl)
            refl)
          refl)
        refl)
      refl refl)
