-- ===== src/Tests/BotData.antt =====
-- The market, the script and the intents of examples/prediction-market-bot/fixtures.
use financial_engineering_sk.Prelude.{ℕ, List, [], ◌∷◌, some, String, ok}
use financial_engineering_sk.Prelude.Int.{pos}
use financial_engineering_sk.Venue.Messages.{
  Market, OrderRequest, Event, order_accepted, fill_made, market_resolved, buy, sell, maker,
}
use financial_engineering_sk.Venue.State.{FakeVenue, new_venue}
use financial_engineering_sk.Venue.History.{
  ScriptStep, place_step, fill_step, cancel_step, resolve_step,
}
use financial_engineering_sk.Bot.State.{
  OrderRecord, new_record, new_book, SafeBot, new_bot, Authority,
}
use financial_engineering_sk.Bot.Intake.{LoggedIntent}

-- A signature that the venue can check: the key of the request.
abbrev pub sign : OrderRequest → String
sign r = r.client_key

abbrev pub market : Market
market = record {
  market_id = "FAKE-BINARY-1";
  outcomes = "YES" ∷ "NO" ∷ [];
  collateral_asset = "FUSD";
  payout_per_share_micro = 1000000;
  tick_micro = 10000;
  min_size_shares = 5;
  fee_asset = "FPOINT";
  maker_rate_ppm = 0;
  taker_rate_ppm = 70000;
}

abbrev pub taker : String
taker = "TAKER"

abbrev pub script : List ScriptStep
script =
    place_step "ck-buy-yes-1" "YES" buy (pos 100) (pos 400000)
    ∷ fill_step "ck-buy-yes-1" (pos 60) (pos 400000) maker
    ∷ fill_step "ck-buy-yes-1" (pos 40) (pos 400000) taker
    ∷ place_step "ck-buy-no-1" "NO" buy (pos 50) (pos 550000)
    ∷ place_step "ck-sell-yes-1" "YES" sell (pos 30) (pos 700000)
    ∷ fill_step "ck-sell-yes-1" (pos 30) (pos 700000) taker
    ∷ cancel_step "ck-buy-no-1"
    ∷ resolve_step (pos 1 ∷ pos 0 ∷ []) (pos 1)
    ∷ []

abbrev pub intents : List LoggedIntent
intents =
    (record {
      before_seq = 1;
      client_key = "ck-buy-yes-1";
      outcome = "YES";
      side = buy;
      qty = pos 100;
      price_micro = pos 400000;
    })
    ∷ (record {
      before_seq = 4;
      client_key = "ck-buy-no-1";
      outcome = "NO";
      side = buy;
      qty = pos 50;
      price_micro = pos 550000;
    })
    ∷ (record {
      before_seq = 5;
      client_key = "ck-sell-yes-1";
      outcome = "YES";
      side = sell;
      qty = pos 30;
      price_micro = pos 700000;
    })
    ∷ []

abbrev pub bid : OrderRequest
bid = record {
  client_key = "ck-buy-yes-1";
  market_id = "FAKE-BINARY-1";
  outcome = "YES";
  side = buy;
  qty = pos 100;
  price_micro = pos 400000;
}

abbrev pub bid_record : OrderRecord
bid_record = new_record "ck-buy-yes-1" "YES" buy (pos 100) (pos 400000)

abbrev pub fresh_venue : FakeVenue
fresh_venue = new_venue market []

-- A venue that loses the answer to the bid after it has accepted it.
abbrev pub losing_venue : FakeVenue
losing_venue = new_venue market (("ck-buy-yes-1", "ambiguous_after_accept") ∷ [])

abbrev pub event : ℕ → String → Event → Event
event n id e = record e { seq = n; event_id = id }

abbrev pub accepted_1 : Event
accepted_1 = record {
  seq = 1;
  event_id = "ev-001";
  market_id = "FAKE-BINARY-1";
  body = order_accepted "ord-001" "ck-buy-yes-1" "YES" buy (pos 100) (pos 400000);
}

abbrev pub filled_2 : Event
filled_2 = record {
  seq = 2;
  event_id = "ev-002";
  market_id = "FAKE-BINARY-1";
  body =
      fill_made "ord-001" "ck-buy-yes-1" "YES" buy (pos 60) (pos 400000) maker
        (record { amount_micro = pos 0; rate_ppm = pos 0; asset = "FPOINT" });
}

abbrev pub filled_3 : Event
filled_3 = record {
  seq = 3;
  event_id = "ev-003";
  market_id = "FAKE-BINARY-1";
  body =
      fill_made "ord-001" "ck-buy-yes-1" "YES" buy (pos 40) (pos 400000) taker
        (record { amount_micro = pos 672000; rate_ppm = pos 70000; asset = "FPOINT" });
}

abbrev pub resolved_4 : Event
resolved_4 = record {
  seq = 4;
  event_id = "ev-004";
  market_id = "FAKE-BINARY-1";
  body = market_resolved (pos 1 ∷ pos 0 ∷ []) (pos 1) (some 0);
}

abbrev pub authority : Authority
authority _ = ok (("YES", pos 100) ∷ ("NO", pos 0) ∷ [])

-- A bot with the bid in its book.
abbrev pub bidding_bot : SafeBot
bidding_bot = record (new_bot market) {
  book = record (new_book market) { orders = ("ck-buy-yes-1", bid_record) ∷ [] };
}
