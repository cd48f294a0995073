-- ===== src/Bot/Unsafe.antt =====
-- examples/prediction-market-bot/unsafe_bot.py: the counter-example beside the bot.
use financial_engineering_sk.Prelude.{
  ℕ, zero, suc, ◌==◌, string_eq, if◌then◌else◌, List, [], ◌∷◌, ◌++◌, Option, none, some, String,
  ◌⧺◌, Result, ok, err, Exec, pure, modify, ◌>>◌, key_error, index_error, ambiguous_response,
}
use financial_engineering_sk.Prelude.Dict.{Dict, lookup, insert, set_default}
use financial_engineering_sk.Prelude.Int.{ℤ, pos, neg, ◌+ℤ◌}
use financial_engineering_sk.Prelude.Division.{◌*ℤ◌}
use financial_engineering_sk.Venue.Messages.{
  Market, OrderRequest, Body, order_accepted, fill_made, order_cancelled, market_resolved,
  market_determined, other, Event, buy, expected_profit_fee_micro,
}
use financial_engineering_sk.Venue.State.{FakeVenue, OrderView}
use financial_engineering_sk.Venue.Placing.{place_order}
use financial_engineering_sk.Bot.State.{no_shares, default_balances}

-- TAKER_RATE_PPM
abbrev pub taker_rate : ℕ
taker_rate = 70000

pub data UnsafeState : Type 0 where
  sent working cancelled : UnsafeState

-- A row; a message may leave the outcome and the side out.
pub record UnsafeOrder : Type 0 where
  pub state : UnsafeState
  pub outcome : Option String
  pub side : Option String
  pub qty : ℤ
  pub price_micro : ℤ
  pub done : ℤ

pub record UnsafeBot : Type 0 where
  pub market : Market
  pub available : Dict String ℤ
  pub positions : Dict String ℤ
  pub orders : Dict String UnsafeOrder
  pub fee_paid : ℤ
  pub settlement_credited : ℤ
  pub retries : List String

abbrev pub new_unsafe : Market → UnsafeBot
new_unsafe m = record {
  market = m;
  available = default_balances;
  positions = no_shares m.outcomes [];
  orders = [];
  fee_paid = pos 0;
  settlement_credited = pos 0;
  retries = [];
}

pub record UnsafeDesk : Type 0 where
  pub bot : UnsafeBot
  pub venue : FakeVenue

abbrev pub retry_key : String → String
retry_key client_key = client_key ⧺ "-retry1"

abbrev pub unsafe_request : Market → String → String → String → ℤ → ℤ → OrderRequest
unsafe_request m client_key outcome side qty price = record {
  client_key = client_key;
  market_id = m.market_id;
  outcome = outcome;
  side = side;
  qty = qty;
  price_micro = price;
}

unfoldable pub unsafe_obligation : ℤ → ℤ → ℤ
unsafe_obligation qty price = qty *ℤ price

-- The row of an order that was answered.
abbrev pub record_sent : String → String → ℤ → ℤ → Result OrderView → Exec UnsafeDesk Unit
record_sent outcome side qty price (err e) d = (err e, d)
record_sent outcome side qty price (ok view) d = (
  ok tt,
  record d {
    bot = record d.bot {
      orders =
          insert view.client_key
            (record {
              state = sent;
              outcome = some outcome;
              side = some side;
              qty = qty;
              price_micro = price;
              done = pos 0;
            })
            d.bot.orders;
    };
  },
)

module _ (sign_request : OrderRequest → String) where
  unfoldable pub ask : OrderRequest → UnsafeDesk → Result OrderView × UnsafeDesk
  ask req d =
      let (answer, v) = place_order sign_request req (sign_request req) d.venue in
      (answer, record d { venue = v })

  -- A lost answer is retried under a fresh key.
  unfoldable pub retry : String → String → String → ℤ → ℤ → Exec UnsafeDesk Unit
  unfolding ask
  retry client_key outcome side qty price d =
      let noted = record d {
        bot = record d.bot { retries = d.bot.retries ++ retry_key client_key ∷ [] };
      } in
      let (answer, d') =
        ask (unsafe_request d.bot.market (retry_key client_key) outcome side qty price) noted in
      record_sent outcome side qty price answer d'

  abbrev pub take_first : String → String → String → ℤ → ℤ → Result OrderView → Exec UnsafeDesk Unit
  take_first client_key outcome side qty price (err ambiguous_response) d =
      retry client_key outcome side qty price d
  take_first client_key outcome side qty price answer d =
      record_sent outcome side qty price answer d

  unfoldable pub unsafe_submit : String → String → String → ℤ → ℤ → Exec UnsafeDesk Unit
  unfolding ask retry
  unsafe_submit client_key outcome side qty price d =
      let (answer, d') = ask (unsafe_request d.bot.market client_key outcome side qty price) d in
      take_first client_key outcome side qty price answer d'

-- self.<dict>[key] += amount
abbrev pub bumped : ℤ → String → Dict String ℤ → Option ℤ → Result (Dict String ℤ)
bumped amount key d none = err key_error
bumped amount key d (some v) = ok (insert key (v +ℤ amount) d)

abbrev pub with_available : Result (Dict String ℤ) → Exec UnsafeBot Unit
with_available (err e) b = (err e, b)
with_available (ok d) b = (ok tt, record b { available = d })

abbrev pub with_positions : Result (Dict String ℤ) → Exec UnsafeBot Unit
with_positions (err e) b = (err e, b)
with_positions (ok d) b = (ok tt, record b { positions = d })

unfoldable pub pay : ℤ → Exec UnsafeBot Unit
pay amount b =
    with_available
      (bumped amount b.market.collateral_asset b.available
        (lookup b.market.collateral_asset b.available))
      b

unfoldable pub hold_shares : String → ℤ → Exec UnsafeBot Unit
hold_shares outcome qty b =
    with_positions (bumped qty outcome b.positions (lookup outcome b.positions)) b

-- The row that a message without one makes.
abbrev pub fresh_row : Option String → Option String → ℤ → ℤ → UnsafeOrder
fresh_row outcome side qty price = record {
  state = sent;
  outcome = outcome;
  side = side;
  qty = qty;
  price_micro = price;
  done = pos 0;
}

abbrev pub change_row :
    (UnsafeOrder → UnsafeOrder) → String → Option UnsafeOrder → Exec UnsafeBot Unit
change_row change key none b = (err key_error, b)
change_row change key (some row) b = (ok tt, record b { orders = insert key (change row) b.orders })

-- self._record(ev), and a change of the row
unfoldable pub edit_row : String → UnsafeOrder → (UnsafeOrder → UnsafeOrder) → Exec UnsafeBot Unit
edit_row key fresh change b =
    let orders = set_default key fresh b.orders in
    change_row change key (lookup key orders) (record b { orders = orders })

abbrev pub trade : String → String → ℤ → ℤ → Exec UnsafeBot Unit
trade outcome side qty price =
    if side == buy
    then pay (neg (qty *ℤ price)) >> hold_shares outcome qty
    else pay (qty *ℤ price) >> hold_shares outcome (neg qty)

unfoldable pub unsafe_fill : String → String → String → ℤ → ℤ → Exec UnsafeBot Unit
unfolding pay hold_shares edit_row ◌*ℤ◌ expected_profit_fee_micro
unsafe_fill client_key outcome side qty price b =
    let row = fresh_row (some outcome) (some side) qty price in
    let fee = expected_profit_fee_micro b.market qty price (pos taker_rate) in
    (do
      edit_row client_key row (λ (r : UnsafeOrder). r)
      trade outcome side qty price
      edit_row client_key row (λ (r : UnsafeOrder). record r { done = r.done +ℤ qty })
      pay (neg fee)
      modify (λ (u : UnsafeBot). record u { fee_paid = u.fee_paid +ℤ fee }))
      b

abbrev pub nth {ℓ} : {A : Type ℓ} → List A → ℕ → Option A
nth [] i = none
nth (x ∷ xs) zero = some x
nth (x ∷ xs) (suc i) = nth xs i

abbrev pub credit_held : Option ℤ → Exec UnsafeBot Unit
credit_held none b = (err key_error, b)
credit_held (some held) b =
    let credit = held *ℤ pos b.market.payout_per_share_micro in
    (do
      pay credit
      modify
          (λ (u : UnsafeBot). record u { settlement_credited = u.settlement_credited +ℤ credit }))
      b

abbrev pub credit_winner : Option String → Exec UnsafeBot Unit
credit_winner none b = (err index_error, b)
credit_winner (some outcome) b = credit_held (lookup outcome b.positions) b

unfoldable pub unsafe_resolved : Option ℕ → Exec UnsafeBot Unit
unfolding pay ◌*ℤ◌
unsafe_resolved none b = (ok tt, b)
unsafe_resolved (some index) b = credit_winner (nth b.market.outcomes index) b

pub data Handled : Type 0 where
  handled ignored : Handled

abbrev pub handled_by : Exec UnsafeBot Unit → Exec UnsafeBot Handled
handled_by m = do m; pure handled

abbrev pub unsafe_on : Body → Exec UnsafeBot Handled
unsafe_on (order_accepted _ k outcome side qty price) = handled_by (
    edit_row k (fresh_row (some outcome) (some side) qty price)
      (λ (r : UnsafeOrder). record r { state = working }))
unsafe_on (fill_made _ k outcome side qty price _ _) =
    handled_by (unsafe_fill k outcome side qty price)
unsafe_on (order_cancelled _ k _) = handled_by (
    edit_row k (fresh_row none none (pos 0) (pos 0))
      (λ (r : UnsafeOrder). record r { state = cancelled }))
unsafe_on (market_resolved _ _ index) = handled_by (unsafe_resolved index)
unsafe_on (market_determined _ _) = pure ignored
unsafe_on (other _) = pure ignored

unfoldable pub unsafe_apply_event : Event → Exec UnsafeBot Handled
unfolding edit_row unsafe_fill unsafe_resolved
unsafe_apply_event ev = unsafe_on ev.body

unfoldable pub unsafe_apply_all : List Event → Exec UnsafeBot Unit
unfolding unsafe_apply_event
unsafe_apply_all [] = pure tt
unsafe_apply_all (ev ∷ evs) = do unsafe_apply_event ev; unsafe_apply_all evs
