-- ===== src/Venue/State.antt =====
-- examples/prediction-market-bot/fake_venue.py: the state of the venue, and its log.
use financial_engineering_sk.Prelude.{
  ℕ, ◌+◌, Bool, true, false, List, [], ◌∷◌, ◌++◌, Option, none, some, String, ◌⧺◌, string_eq,
  int_eq, nat_eq, length,
}
use financial_engineering_sk.Prelude.Dict.{Dict}
use financial_engineering_sk.Prelude.Decimal.{padded}
use financial_engineering_sk.Prelude.Int.{ℤ, pos}
use financial_engineering_sk.Venue.Messages.{Market, OrderRequest, request_eq, Body, Event}

pub data OrderState : Type 0 where
  working filled cancelled : OrderState

abbrev pub is_working : OrderState → Bool
is_working working = true
is_working filled = false
is_working cancelled = false

pub record VenueOrder : Type 0 where
  pub order_id : String
  pub client_key : String
  pub outcome : String
  pub side : String
  pub qty : ℤ
  pub price_micro : ℤ
  pub done : ℤ
  pub state : OrderState
  pub request : OrderRequest

-- What `view` shows of an order: all but the request.
pub record OrderView : Type 0 where
  pub order_id : String
  pub client_key : String
  pub outcome : String
  pub side : String
  pub qty : ℤ
  pub price_micro : ℤ
  pub done : ℤ
  pub state : OrderState

pub record Resolution : Type 0 where
  pub payout_numerators : List ℤ
  pub payout_denominator : ℤ
  pub winning_outcome_index : Option ℕ

pub record FakeVenue : Type 0 where
  pub market : Market
  pub faults : Dict String String
  pub orders : Dict String VenueOrder
  pub by_client_key : Dict String String
  pub events : List Event
  pub positions_held : Dict String ℤ
  pub determination : Option (List ℤ × ℤ)
  pub resolution : Option Resolution
  pub next_order : ℕ

abbrev pub no_positions : List String → Dict String ℤ
no_positions [] = []
no_positions (o ∷ outcomes) = (o, pos 0) ∷ no_positions outcomes

abbrev pub new_venue : Market → Dict String String → FakeVenue
new_venue m faults = record {
  market = m;
  faults = faults;
  orders = [];
  by_client_key = [];
  events = [];
  positions_held = no_positions m.outcomes;
  determination = none;
  resolution = none;
  next_order = 1;
}

unfoldable pub next_event : Body → FakeVenue → Event
next_event body v =
    let seq : ℕ = length v.events + 1 in
    record { seq = seq; event_id = "ev-" ⧺ padded seq; market_id = v.market.market_id; body = body }

unfoldable pub emit : Body → FakeVenue → FakeVenue
emit body v = record v { events = v.events ++ next_event body v ∷ [] }

abbrev pub is_set {ℓ} : {A : Type ℓ} → Option A → Bool
is_set none = false
is_set (some _) = true

abbrev pub view : VenueOrder → OrderView
view o = record {
  order_id = o.order_id;
  client_key = o.client_key;
  outcome = o.outcome;
  side = o.side;
  qty = o.qty;
  price_micro = o.price_micro;
  done = o.done;
  state = o.state;
}
