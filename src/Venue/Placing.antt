-- ===== src/Venue/Placing.antt =====
-- examples/prediction-market-bot/fake_venue.py: validation, and placing an order.
use financial_engineering_sk.Prelude.{
  ◌+◌, Bool, true, false, not, ◌&&◌, ◌||◌, [], ◌∷◌, Option, none, some, String, ◌⧺◌, ◌==◌,
  string_eq, int_eq, nat_eq, if◌then◌else◌, contains, Result, ok, err, Exec, rejected,
  ambiguous_response, key_error,
}
use financial_engineering_sk.Prelude.Dict.{Dict, lookup, insert, remove}
use financial_engineering_sk.Prelude.Decimal.{padded}
use financial_engineering_sk.Prelude.Int.{ℤ, pos, ◌+ℤ◌, ◌-ℤ◌, ltb_ℤ}
use financial_engineering_sk.Prelude.Division.{◌%ℤ◌}
use financial_engineering_sk.Venue.Messages.{buy, sell, OrderRequest, request_eq, order_accepted}
use financial_engineering_sk.Venue.State.{
  working, is_working, VenueOrder, OrderView, FakeVenue, next_event, emit, view, is_set,
}

-- What is still to be sold by the sells of this outcome that rest.
unfoldable pub resting : String → Dict String VenueOrder → ℤ
resting outcome [] = pos 0
resting outcome ((id, o) ∷ orders) =
    let rest = resting outcome orders in
    if o.side == sell && o.outcome == outcome && is_working o.state
    then (o.qty -ℤ o.done) +ℤ rest
    else rest

-- A sell must be covered by what is held.
abbrev pub covered : OrderRequest → Dict String VenueOrder → Option ℤ → Result (Unit {0})
covered req orders none = err key_error
covered req orders (some held) =
    if ltb_ℤ held (req.qty +ℤ resting req.outcome orders)
    then err (rejected "INSUFFICIENT_POSITION")
    else ok tt

-- if test: raise Rejected(reason)
unfoldable pub refuse_if : Bool → String → Result (Unit {0}) → Result (Unit {0})
refuse_if true reason rest = err (rejected reason)
refuse_if false reason rest = rest

abbrev pub check_cover : OrderRequest → FakeVenue → Result (Unit {0})
check_cover req v =
    if req.side == sell then covered req v.orders (lookup req.outcome v.positions_held) else ok tt

unfoldable pub validate : OrderRequest → FakeVenue → Result (Unit {0})
unfolding resting ◌+ℤ◌ ◌-ℤ◌ ◌%ℤ◌
validate req v =
    let m = v.market in
    refuse_if (not (req.market_id == m.market_id)) "UNKNOWN_MARKET" (
      refuse_if (is_set v.resolution) "MARKET_RESOLVED" (
        refuse_if (is_set v.determination) "MARKET_DETERMINED" (
          refuse_if (not (contains m.outcomes req.outcome)) "UNKNOWN_OUTCOME" (
            refuse_if (not (req.side == buy || req.side == sell)) "UNKNOWN_SIDE" (
              refuse_if (ltb_ℤ req.qty (pos m.min_size_shares)) "BELOW_MIN_SIZE" (
                refuse_if (not (req.price_micro %ℤ pos m.tick_micro == pos 0)) "OFF_TICK" (
                  refuse_if
                    (not (
                      ltb_ℤ (pos 0) req.price_micro
                      && ltb_ℤ req.price_micro (pos m.payout_per_share_micro)))
                    "PRICE_OUT_OF_RANGE" (check_cover req v))))))))

abbrev pub new_order : String → OrderRequest → VenueOrder
new_order order_id req = record {
  order_id = order_id;
  client_key = req.client_key;
  outcome = req.outcome;
  side = req.side;
  qty = req.qty;
  price_micro = req.price_micro;
  done = pos 0;
  state = working;
  request = req;
}

abbrev pub next_order_id : FakeVenue → String
next_order_id v = "ord-" ⧺ padded v.next_order

unfoldable pub accept : OrderRequest → FakeVenue → FakeVenue
unfolding emit next_event
accept req v =
    let id = next_order_id v in
    emit (order_accepted id req.client_key req.outcome req.side req.qty req.price_micro) (record v {
      next_order = v.next_order + 1;
      orders = insert id (new_order id req) v.orders;
      by_client_key = insert req.client_key id v.by_client_key;
    })

-- self.view(order_id), of the entry that `orders` has under it
abbrev pub view_of : Option VenueOrder → Result OrderView
view_of none = err key_error
view_of (some o) = ok (view o)

-- The first answer to a request that is valid, by the fault that its key has.
unfoldable pub answer_valid : OrderRequest → Option String → Exec FakeVenue OrderView
answer_valid req none v =
    let v' = accept req v in (view_of (lookup (next_order_id v) v'.orders), v')
answer_valid req (some fault) v =
    if fault == "ambiguous_before_accept"
    then (err ambiguous_response, v)
    else let v' = accept req v in
      if fault == "ambiguous_after_accept"
      then (err ambiguous_response, v')
      else (view_of (lookup (next_order_id v) v'.orders), v')

abbrev pub place_new : OrderRequest → Result (Unit {0}) → Exec FakeVenue OrderView
place_new req (err e) v = (err e, v)
place_new req (ok _) v =
    answer_valid req (lookup req.client_key v.faults)
      (record v { faults = remove req.client_key v.faults })

abbrev pub place_known : OrderRequest → Option VenueOrder → Exec FakeVenue OrderView
place_known req none v = (err key_error, v)
place_known req (some o) v =
    if o.request == req
    then (ok (view o), v)
    else (err (rejected "CLIENT_KEY_REUSED_WITH_DIFFERENT_PAYLOAD"), v)

abbrev pub place_by_key : OrderRequest → Option String → Exec FakeVenue OrderView
place_by_key req none v = place_new req (validate req v) v
place_by_key req (some id) v = place_known req (lookup id v.orders) v

-- `sign_request` is the HMAC of the payload.
unfoldable pub place_order :
    (OrderRequest → String) → OrderRequest → String → Exec FakeVenue OrderView
unfolding answer_valid
place_order sign_request req signature v =
    if signature == sign_request req
    then place_by_key req (lookup req.client_key v.by_client_key) v
    else (err (rejected "BAD_SIGNATURE"), v)
