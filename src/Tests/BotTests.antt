-- ===== src/Tests/BotTests.antt =====
-- The theorems on the venue and the bot at concrete inputs, and runs of the fixtures.
use financial_engineering_sk.Prelude.{
  ◌≡◌, string_eq, int_eq, nat_eq, pair_eq, ◌≢◌, inl, inr, refl, List, [], ◌∷◌, some, Result, ok,
  err, arith, rejected, length, ne_sound,
}
use financial_engineering_sk.Prelude.Dict.{lookup}
use financial_engineering_sk.Prelude.Int.{ℤ, pos, neg, ◌≤ℤ◌, ◌-ℤ◌, ◌+ℤ◌}
use financial_engineering_sk.Prelude.Division.{◌*ℤ◌, ◌//ℤ◌, ◌%ℤ◌}
use financial_engineering_sk.Prelude.Decimal.{decimal, padded}
use financial_engineering_sk.Venue.Messages.{
  Market, buy, maker, OrderRequest, Event, rate_ppm_for, expected_profit_fee_micro,
}
use financial_engineering_sk.Venue.State.{FakeVenue, VenueOrder, new_venue, view, emit, next_event}
use financial_engineering_sk.Venue.Placing.{
  place_order, validate, refuse_if, accept, answer_valid, resting,
}
use financial_engineering_sk.Venue.Trading.{fill, cancel}
use financial_engineering_sk.Venue.Payouts.{resolve, check_vector, positions, events_since}
use financial_engineering_sk.Venue.History.{
  placed, filled, cancelled, VenueCall, call, replay, run_step, run_script, At,
}
use financial_engineering_sk.Venue.Once.{IsOnce, one_order_each_key}
use financial_engineering_sk.Venue.Resend.{resend_returns_the_order}
use financial_engineering_sk.Venue.Fees.{complement_costs_the_same}
use financial_engineering_sk.Bot.State.{Book, Focus, SafeBot, Authority, new_book}
use financial_engineering_sk.Bot.Balances.{entry, add_to, reserve, release, lock_shares}
use financial_engineering_sk.Bot.Holds.{
  hold, unwind, check_holds, take_holds, collateral_obligation, worst_case_fee_micro,
}
use financial_engineering_sk.Bot.Sending.{Desk, send, take_answer, bind_order, reconcile_unknown}
use financial_engineering_sk.Bot.Fills.{
  on_accepted, on_fill, on_cancelled, on_bound_event, on_order_event, book_purchase, book_sale,
  book_fee, release_fee_hold,
}
use financial_engineering_sk.Bot.Settlement.{
  on_resolved, distribution, payout_for, payout_loop, add_fraction, still_open, alert_breaks,
  pay_out, reconcile, position_breaks,
}
use financial_engineering_sk.Bot.Intake.{
  on_event, apply_in_order, apply_event, apply_all, drain, drain_loop, commit, commit_due,
  commit_rest, replay_logs, rebuild,
}
use financial_engineering_sk.Bot.Stream.{in_order}
use financial_engineering_sk.Bot.Log.{deliveries_meet_the_log}
use financial_engineering_sk.Bot.Gaps.{IsDrained, drain_closes_the_gap}
use financial_engineering_sk.Bot.Fees.{fill_fee_is_held}
use financial_engineering_sk.Bot.Payouts.{Settled, payout_is_credited_once}
use financial_engineering_sk.Bot.Lost.{Recovered, lost_order-Recovered}
use financial_engineering_sk.Bot.AllOrNothing.{AllOrNothing, hold-AllOrNothing}
use financial_engineering_sk.Bot.Unsafe.{UnsafeDesk, new_unsafe, unsafe_submit}
use financial_engineering_sk.Bot.Twice.{RestsTwice, lost_bid-RestsTwice}
use financial_engineering_sk.Tests.BotData.{
  sign, market, taker, script, intents, bid, bid_record, fresh_venue, losing_venue, accepted_1,
  filled_2, filled_3, resolved_4, authority, bidding_bot,
}

abbrev calls : List VenueCall
calls =
    placed bid "ck-buy-yes-1"
    ∷ filled "ck-buy-yes-1" (pos 60) (pos 400000) maker
    ∷ placed bid "ck-buy-yes-1"
    ∷ cancelled "ck-buy-yes-1"
    ∷ []

one_order_each_key_example : At IsOnce (replay sign calls (new_venue market []))
one_order_each_key_example = one_order_each_key sign market [] calls

abbrev later_calls : List VenueCall
later_calls = filled "ck-buy-yes-1" (pos 60) (pos 400000) maker ∷ []

abbrev after_bid : FakeVenue
after_bid = replay sign later_calls (call sign (placed bid "ck-buy-yes-1") losing_venue)

resend_returns_the_order_example :
    ((o : VenueOrder) × (lookup "ord-001" after_bid.orders ≡ some o)
      × (place_order sign bid (sign bid) after_bid ≡ (ok (view o), after_bid)))
    × ((other : OrderRequest)
        → other.client_key ≡ bid.client_key
        → other ≢ bid
        → place_order sign other (sign other) after_bid
          ≡ (err (rejected "CLIENT_KEY_REUSED_WITH_DIFFERENT_PAYLOAD"), after_bid))
unfolding call place_order validate refuse_if answer_valid accept emit next_event padded decimal
resend_returns_the_order_example =
    resend_returns_the_order sign bid "ck-buy-yes-1" "ord-001" losing_venue refl refl later_calls

complement_costs_the_same_example :
    expected_profit_fee_micro market (pos 30) (pos 1000000 -ℤ pos 700000) (pos 70000)
    ≡ expected_profit_fee_micro market (pos 30) (pos 700000) (pos 70000)
complement_costs_the_same_example =
    complement_costs_the_same market (pos 30) (pos 700000) (pos 70000)

abbrev bot_log : List Event
bot_log = accepted_1 ∷ filled_2 ∷ filled_3 ∷ resolved_4 ∷ []

abbrev deliveries : List Event
deliveries = filled_3 ∷ accepted_1 ∷ accepted_1 ∷ resolved_4 ∷ filled_3 ∷ filled_2 ∷ []

deliveries_meet_the_log_example :
    apply_all authority deliveries bidding_bot ≡ (ok tt, in_order authority bot_log bidding_bot)
unfolding apply_in_order on_event on_order_event on_bound_event on_accepted on_fill on_resolved
    bind_order book_purchase book_fee release_fee_hold unwind release reserve entry add_to
    worst_case_fee_micro expected_profit_fee_micro rate_ppm_for distribution payout_for payout_loop
    add_fraction still_open alert_breaks pay_out ◌+ℤ◌ ◌-ℤ◌ neg ◌*ℤ◌ ◌//ℤ◌
deliveries_meet_the_log_example =
    deliveries_meet_the_log authority bot_log deliveries bidding_bot refl
      (refl, (refl, (refl, (refl, tt)))) (refl, (refl, (refl, (refl, tt))))
      (refl, (refl, (refl, (refl, tt))))
      (
        inr (inr (inl refl)),
        (
          inl refl,
          (inl refl, (inr (inr (inr (inl refl))), (inr (inr (inl refl)), (inr (inl refl), tt)))),
        ),
      )
      (
        inr (inl refl),
        (inr (inr (inr (inr (inr (inl refl))))), (inl refl, (inr (inr (inr (inl refl))), tt))),
      )

fill_fee_is_held_example :
    expected_profit_fee_micro market (pos 40) (pos 390000) (pos (rate_ppm_for market taker))
    ≤ℤ worst_case_fee_micro market buy (pos 40) (pos 400000)
fill_fee_is_held_example =
    fill_fee_is_held market buy taker 40 390000 400000 (omega arith) (omega arith)
      (inl (refl, omega arith))

abbrev bid_focus : Focus
bid_focus = record { book = new_book market; order = bid_record }

hold-AllOrNothing_example :
    AllOrNothing
      (collateral_obligation buy (pos 100) (pos 400000))
      (worst_case_fee_micro market buy (pos 100) (pos 400000))
      bid_focus
      (hold bid_focus)
hold-AllOrNothing_example = hold-AllOrNothing bid_focus (record {
  collateral_kept = pos 0;
  fee_kept = pos 0;
  keeps_collateral = refl;
  keeps_fee = refl;
  two_assets = ne_sound "FPOINT" "FUSD" refl;
})

abbrev losing_desk : Desk
losing_desk = record { book = new_book market; venue = losing_venue }

lost_order-Recovered_example :
    Recovered sign bid_record losing_desk
      (reconcile_unknown sign "ck-buy-yes-1" (send sign "ck-buy-yes-1" bid_record losing_desk).1)
unfolding send take_answer place_order validate refuse_if answer_valid accept emit next_event padded
    decimal
lost_order-Recovered_example = lost_order-Recovered sign bid_record losing_desk refl

abbrev settled_book : Book
settled_book =
    (on_resolved authority "FAKE-BINARY-1" (pos 1 ∷ pos 1 ∷ []) (pos 2) (new_book market)).1

payout_is_credited_once_example :
    Settled "FAKE-BINARY-1"
      (pos 1 ∷ pos 1 ∷ [])
      (pos 2)
      (authority "FAKE-BINARY-1")
      (new_book market)
      settled_book
    × ((later : Authority) (ns : List ℤ) (d : ℤ)
        → on_resolved later "FAKE-BINARY-1" ns d settled_book ≡ (ok tt, settled_book))
unfolding on_resolved distribution payout_for payout_loop add_fraction still_open alert_breaks
    pay_out ◌+ℤ◌ ◌-ℤ◌ ◌*ℤ◌ ◌//ℤ◌ neg
payout_is_credited_once_example =
    payout_is_credited_once authority "FAKE-BINARY-1" (pos 1 ∷ pos 1 ∷ []) (pos 2) (new_book market)
      settled_book refl refl

abbrev gapped_bot : SafeBot
gapped_bot = record bidding_bot { pending_events = (1, accepted_1) ∷ [] }

drain_closes_the_gap_example : IsDrained authority (drain authority gapped_bot).1
unfolding drain drain_loop apply_in_order on_event on_order_event on_bound_event on_accepted
    bind_order ◌+ℤ◌ ◌-ℤ◌ neg
drain_closes_the_gap_example = drain_closes_the_gap authority gapped_bot 1 refl

abbrev unsafe_desk : UnsafeDesk
unsafe_desk = record { bot = new_unsafe market; venue = losing_venue }

lost_bid-RestsTwice_example :
    RestsTwice sign unsafe_desk "ck-buy-yes-1" "YES"
      (pos 100)
      (pos 400000)
      (unsafe_submit sign "ck-buy-yes-1" "YES" buy (pos 100) (pos 400000) unsafe_desk).1.venue
unfolding validate refuse_if
lost_bid-RestsTwice_example =
    lost_bid-RestsTwice sign unsafe_desk "ck-buy-yes-1" "YES" (pos 100) (pos 400000)
      (record { new = refl; fresh = refl; valid = refl; lost = refl; answered = refl })

-- The run of the fixtures: the script drives the venue, and the bot that is rebuilt from the two logs
-- agrees with the venue about every position.
abbrev run : Result (List Event) × FakeVenue
run = run_script sign script fresh_venue

abbrev logged : Result (List Event) → List Event
logged (ok events) = events
logged (err e) = []

abbrev venue_authority : Authority
venue_authority market_id = positions market_id run.1

abbrev rebuilt : Result (Unit {0}) × SafeBot
rebuilt = rebuild market venue_authority (logged run.0) intents

run_agrees :
    (rebuilt.0 ≡ ok tt)
    × (reconcile venue_authority "FAKE-BINARY-1" rebuilt.1.book ≡ ok [])
    × (lookup "FAKE-BINARY-1" rebuilt.1.book.settlement_credit ≡ some (pos 70000000))
    × (lookup "FUSD" rebuilt.1.book.reserved ≡ some (pos 0))
    × (lookup "FPOINT" rebuilt.1.book.reserved ≡ some (pos 0))
    × (length rebuilt.1.book.alerts ≡ 0)
unfolding run_script run_step place_order validate refuse_if answer_valid accept emit next_event
    padded decimal fill cancel resolve check_vector positions events_since rate_ppm_for
    expected_profit_fee_micro resting rebuild replay_logs commit_due commit_rest commit hold
    check_holds take_holds reserve release lock_shares entry add_to collateral_obligation
    worst_case_fee_micro apply_event apply_in_order drain drain_loop on_event on_order_event
    on_bound_event on_accepted on_fill on_cancelled bind_order book_purchase book_sale book_fee
    release_fee_hold unwind on_resolved distribution payout_for payout_loop add_fraction still_open
    alert_breaks pay_out reconcile position_breaks ◌+ℤ◌ ◌-ℤ◌ neg ◌*ℤ◌ ◌//ℤ◌ ◌%ℤ◌
run_agrees = (refl, refl, refl, refl, refl, refl)

-- An order that fills in parts: each part's fee is rounded up, so the second part of two finds less
-- held for it than it is charged.
abbrev cheap_market : Market
cheap_market = record market { maker_rate_ppm = 1; taker_rate_ppm = 1 }

parts_owe_more :
    (worst_case_fee_micro cheap_market buy (pos 2) (pos 500000) ≡ pos 1)
    × (expected_profit_fee_micro cheap_market (pos 1) (pos 500000) (pos 1) ≡ pos 1)
unfolding worst_case_fee_micro expected_profit_fee_micro ◌-ℤ◌ neg ◌*ℤ◌ ◌//ℤ◌
parts_owe_more = (refl, refl)
