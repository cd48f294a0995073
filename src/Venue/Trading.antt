-- ===== src/Venue/Trading.antt =====
-- examples/prediction-market-bot/fake_venue.py: lookups, cancellations and fills.
use financial_engineering_sk.Prelude.{
  ◌&&◌, Option, none, some, String, ◌==◌, string_eq, int_eq, nat_eq, if◌then◌else◌, Result, ok, err,
  Exec, rejected, key_error,
}
use financial_engineering_sk.Prelude.Dict.{lookup, insert}
use financial_engineering_sk.Prelude.Int.{ℤ, pos, neg, ◌+ℤ◌, ◌-ℤ◌, ltb_ℤ}
use financial_engineering_sk.Venue.Messages.{
  buy, request_eq, Body, fill_made, order_cancelled, Event, rate_ppm_for, expected_profit_fee_micro,
}
use financial_engineering_sk.Venue.State.{
  OrderState, filled, cancelled, is_working, VenueOrder, OrderView, FakeVenue, next_event, emit,
  view,
}

abbrev pub found_view : Option String → FakeVenue → Result (Option OrderView)
found_view none v = ok none
found_view (some id) v = elim (lookup id v.orders) [
  | none ↦ err key_error
  | some o ↦ ok (some (view o))
]

unfoldable pub get_order_by_client_key : String → FakeVenue → Result (Option OrderView)
get_order_by_client_key client_key v = found_view (lookup client_key v.by_client_key) v

abbrev pub cancel_order : String → String → Option VenueOrder → Exec FakeVenue OrderView
cancel_order client_key id none v = (err key_error, v)
cancel_order client_key id (some o) v =
    if is_working o.state
    then (
      ok (view (record o { state = cancelled })),
      emit (order_cancelled id client_key (o.qty -ℤ o.done))
          (record v { orders = insert id (record o { state = cancelled }) v.orders }),
    )
    else (err (rejected "NOT_WORKING"), v)

abbrev pub cancel_by_key : String → Option String → Exec FakeVenue OrderView
cancel_by_key client_key none v = (err (rejected "UNKNOWN_CLIENT_KEY"), v)
cancel_by_key client_key (some id) v = cancel_order client_key id (lookup id v.orders) v

unfoldable pub cancel : String → Exec FakeVenue OrderView
cancel client_key v = cancel_by_key client_key (lookup client_key v.by_client_key) v

abbrev full_state : VenueOrder → OrderState
full_state o = if o.done == o.qty && is_working o.state then filled else o.state

-- o["filled"] += qty, and the state that follows
abbrev pub filled_order : ℤ → VenueOrder → VenueOrder
filled_order qty o =
    let o' = record o { done = o.done +ℤ qty } in record o' { state = full_state o' }

abbrev signed : VenueOrder → ℤ → ℤ
signed o qty = if o.side == buy then qty else neg qty

abbrev fill_event : VenueOrder → String → ℤ → ℤ → String → FakeVenue → Body
fill_event o client_key qty price liquidity v =
    let rate = pos (rate_ppm_for v.market liquidity) in
    fill_made o.order_id client_key o.outcome o.side qty price liquidity (record {
      amount_micro = expected_profit_fee_micro v.market qty price rate;
      rate_ppm = rate;
      asset = v.market.fee_asset;
    })

-- The order is written before the position is looked up.
abbrev pub book_fill : VenueOrder → String → ℤ → ℤ → String → Option ℤ → Exec FakeVenue Event
book_fill o client_key qty price liquidity none v = (err key_error, v)
book_fill o client_key qty price liquidity (some held) v =
    let v' = record v {
      positions_held = insert o.outcome (held +ℤ signed o qty) v.positions_held;
    } in
    let body = fill_event o client_key qty price liquidity v' in
    (ok (next_event body v'), emit body v')

abbrev pub fill_order : String → String → ℤ → ℤ → String → Option VenueOrder → Exec FakeVenue Event
fill_order id client_key qty price liquidity none v = (err key_error, v)
fill_order id client_key qty price liquidity (some o) v =
    if ltb_ℤ (o.qty -ℤ o.done) qty
    then (err (rejected "FILL_EXCEEDS_REMAINING"), v)
    else book_fill o client_key qty price liquidity (lookup o.outcome v.positions_held)
        (record v { orders = insert id (filled_order qty o) v.orders })

abbrev pub fill_by_key : String → ℤ → ℤ → String → Option String → Exec FakeVenue Event
fill_by_key client_key qty price liquidity none v = (err key_error, v)
fill_by_key client_key qty price liquidity (some id) v =
    fill_order id client_key qty price liquidity (lookup id v.orders) v

unfoldable pub fill : String → ℤ → ℤ → String → Exec FakeVenue Event
fill client_key qty price liquidity v =
    fill_by_key client_key qty price liquidity (lookup client_key v.by_client_key) v
