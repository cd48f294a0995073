-- ===== src/Bot/State.antt =====
-- examples/prediction-market-bot/safe_bot.py: orders, alerts, breaks and the state of the bot.
use financial_engineering_sk.Prelude.{
  ℕ, ◌*◌, List, [], ◌∷◌, ◌++◌, Option, none, String, string_eq, Result,
}
use financial_engineering_sk.Prelude.Dict.{Dict, set_default}
use financial_engineering_sk.Prelude.Int.{ℤ, pos}
use financial_engineering_sk.Venue.Messages.{Market, Event}

-- `state` of an order; FILLED is `filled`, REJECTED `was_rejected`.
pub data BotState : Type 0 where
  pending working filled cancelled unknown was_rejected refused : BotState

pub record OrderRecord : Type 0 where
  pub client_key : String
  pub outcome : String
  pub side : String
  pub qty : ℤ
  pub price_micro : ℤ
  pub state : BotState
  pub order_id : Option String
  pub done : ℤ
  pub reserved_micro : ℤ
  pub fee_reserved_micro : ℤ
  pub locked_shares : ℤ

abbrev pub new_record : String → String → String → ℤ → ℤ → OrderRecord
new_record client_key outcome side qty price = record {
  client_key = client_key;
  outcome = outcome;
  side = side;
  qty = qty;
  price_micro = price;
  state = pending;
  order_id = none;
  done = pos 0;
  reserved_micro = pos 0;
  fee_reserved_micro = pos 0;
  locked_shares = pos 0;
}

pub record Break : Type 0 where
  pub what : String
  pub ours : ℤ
  pub theirs : ℤ

-- An alert, by its message and the values that the message quotes.
pub data Alert : Type 0 where
  ambiguous_submission : (client_key : String) → Alert
  rejected_submission : (client_key reason : String) → Alert
  terms_differ : (client_key : String) (theirs ours : String × (String × (ℤ × ℤ))) → Alert
  bought_above_the_bid sold_below_the_offer collateral_went_negative : (client_key : String) → Alert
  position_went_negative : (client_key outcome : String) → Alert
  fee_in_another_asset : (asset fee_asset : String) → Alert
  fee_exceeds_hold : (amount : ℤ) (asset : String) (held : ℤ) → Alert
  fee_rate_differs : (rate : ℤ) (liquidity : String) (expected : ℕ) → Alert
  fee_amount_differs : (amount expected rate : ℤ) → Alert
  asset_went_negative : (asset : String) → Alert
  late_determination : (market_id : String) → Alert
  open_at_resolution : (client_keys : List String) → Alert
  position_break_at_settlement : (outcome : String) (theirs ours : ℤ) → Alert
  payout_differs : (credited provisional : ℤ) (market_id : String) → Alert

-- A fraction, not brought to lowest terms.
pub record Fraction : Type 0 where
  pub numerator : ℤ
  pub denominator : ℤ

-- What the handlers of events read and write.
pub record Book : Type 0 where
  pub market : Market
  pub available : Dict String ℤ
  pub reserved : Dict String ℤ
  pub fees_paid : Dict String ℤ
  pub positions : Dict String ℤ
  pub locked : Dict String ℤ
  pub orders : Dict String OrderRecord
  pub by_order_id : Dict String String
  pub settled : List String
  pub settlement_credit : Dict String ℤ
  pub provisional_credit : Dict String ℤ
  pub settlement_dust : Fraction
  pub alerts : List Alert

-- The bot: the book, and the state of the stream that feeds it.
pub record SafeBot : Type 0 where
  pub book : Book
  pub seen_events : List String
  pub watermark : Dict (String × String) ℕ
  pub stream_watermark : ℕ
  pub pending_events : Dict ℕ Event

-- self.authority.positions, as it answers while an event is applied
abbrev pub Authority : Type 0
Authority = String → Result (Dict String ℤ)

-- __post_init__: self.positions.setdefault(outcome, 0) for each outcome, and so for `locked`
abbrev pub no_shares : List String → Dict String ℤ → Dict String ℤ
no_shares [] d = d
no_shares (o ∷ outcomes) d = no_shares outcomes (set_default o (pos 0) d)

abbrev pub micro : ℕ
micro = 1000000

abbrev pub default_balances : Dict String ℤ
default_balances = ("FUSD", pos (1000 * micro)) ∷ ("FPOINT", pos (100 * micro)) ∷ []

abbrev pub no_balances : Dict String ℤ
no_balances = ("FUSD", pos 0) ∷ ("FPOINT", pos 0) ∷ []

abbrev pub new_book : Market → Book
new_book m = record {
  market = m;
  available = default_balances;
  reserved = no_balances;
  fees_paid = no_balances;
  positions = no_shares m.outcomes [];
  locked = no_shares m.outcomes [];
  orders = [];
  by_order_id = [];
  settled = [];
  settlement_credit = [];
  provisional_credit = [];
  settlement_dust = record { numerator = pos 0; denominator = pos 1 };
  alerts = [];
}

abbrev pub new_bot : Market → SafeBot
new_bot m = record {
  book = new_book m;
  seen_events = [];
  watermark = [];
  stream_watermark = 0;
  pending_events = [];
}

-- A method that works on one order: the book, and the order's record beside it.
pub record Focus : Type 0 where
  pub book : Book
  pub order : OrderRecord

abbrev pub alert : Alert → Book → Book
alert a b = record b { alerts = b.alerts ++ a ∷ [] }
